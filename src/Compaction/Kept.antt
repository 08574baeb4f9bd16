-- ===== src/Compaction/Kept.antt =====
-- src/compaction.rs: the newest version of a key survives the compaction, and it alone.
use sift_core.Sstable.Records.{Fits}
use sift_core.Bytes.{Bytes, IsU64, bytes_eq}
use sift_core.Bytes.Order.{cmp_bytes_refl, eq_of_bytes_eq}
use sift_core.Compaction.{is_newest_for_key}
use sift_core.Compaction.Shadowed.{KeysPast, later-KeysPast}
use sift_core.Compaction.Surviving.{is_written, surviving, Ascending}
use sift_core.Key.{Seq, max_seq, Value, Entry}
use sift_core.Key.Snapshot.{is_visible, find_visible}
use sift_core.Prelude.{
  ◌≤◌, ◌≡◌, refl, subst, inl, inr, Bool, true, Option, none, some, List, [], ◌∷◌, arith,
  if◌then◌else◌, Bool-cases, All,
}
use sift_core.Sstable.Versions.{versions}

-- What is left of a newest version: at the last level a tombstone goes.
unfoldable pub kept : Bool → Option Value → Option Value
unfolding is_written
kept is_last_level none = none
kept is_last_level (some v) = if is_written is_last_level v then some v else none

KeysPast-find_visible :
    (key : Bytes) (as_of : Seq) (es : List Entry)
    → KeysPast key es
    → find_visible key as_of es ≡ none
unfolding find_visible is_visible
KeysPast-find_visible key as_of [] past = refl
KeysPast-find_visible key as_of (e ∷ es) past = ground (
  arith,
  past.0,
  KeysPast-find_visible key as_of es past.1,
  eq_of_bytes_eq e.0.user_key key,
  cmp_bytes_refl key,
)

KeysPast-versions : (key : Bytes) (es : List Entry) → KeysPast key es → versions key es ≡ 0
unfolding versions
KeysPast-versions key [] past = refl
KeysPast-versions key (e ∷ es) past = ground (
  arith,
  past.0,
  KeysPast-versions key es past.1,
  eq_of_bytes_eq e.0.user_key key,
  cmp_bytes_refl key,
)

pub visible_now :
    (key : Bytes) (e : Entry) → IsU64 e.0.seq → is_visible key max_seq e ≡ bytes_eq e.0.user_key key
unfolding is_visible
visible_now key e word = ground (arith, word)

-- What survives holds one version of a key at most.
pub surviving-versions :
    (is_last_level : Bool) (prev : Option Bytes) (key : Bytes) (es : List Entry)
    → Ascending es
    → versions key (surviving is_last_level prev es) ≤ 1
unfolding surviving versions
surviving-versions is_last_level prev key [] up = omega arith
surviving-versions is_last_level prev key (e ∷ es) up =
    let shadowed = surviving-versions is_last_level prev key es up.1 in
    let later = surviving-versions is_last_level (some e.0.user_key) key es up.1 in
    elim (Bool-cases (bytes_eq e.0.user_key key)) [
      | inr apart ↦ ground (arith, shadowed, later, apart)
      | inl here ↦
          let past =
            subst (λ k. KeysPast k (surviving is_last_level (some e.0.user_key) es))
              (eq_of_bytes_eq e.0.user_key key here) (later-KeysPast is_last_level e es up) in
          unfold surviving versions in
          ground (
            arith,
            shadowed,
            here,
            KeysPast-versions key (surviving is_last_level (some e.0.user_key) es) past,
          )
    ]

-- The newest version of a key survives, and nothing else of the key does.
pub surviving-find_visible :
    (is_last_level : Bool) (prev : Option Bytes) (key : Bytes) (es : List Entry)
    → Ascending es
    → All Fits es
    → is_newest_for_key prev key ≡ true
    → find_visible key max_seq (surviving is_last_level prev es)
      ≡ kept is_last_level (find_visible key max_seq es)
unfolding find_visible kept surviving
surviving-find_visible is_last_level prev key [] up fits fresh_ = refl
surviving-find_visible is_last_level prev key (e ∷ es) up fits fresh_ =
    elim (Bool-cases (bytes_eq e.0.user_key key)) [
      | inl here ↦
          let same = eq_of_bytes_eq e.0.user_key key here in
          ground (
            arith,
            visible_now key e fits.0.seq,
            here,
            fresh_,
            same,
            KeysPast-find_visible key max_seq (surviving is_last_level (some key) es) (
                subst (λ k. KeysPast k (surviving is_last_level (some k) es)) same
                  (later-KeysPast is_last_level e es up)),
          )
      | inr apart ↦ ground (
        arith,
        visible_now key e fits.0.seq,
        apart,
        surviving-find_visible is_last_level prev key es up.1 fits.1 fresh_,
        surviving-find_visible is_last_level (some e.0.user_key) key es up.1 fits.1
            (unfold is_newest_for_key in ground (arith, apart)),
      )
    ]
