-- ===== src/Store/Sharded/Listing.antt =====
-- internal/store/sharded.go: what Keys and Entries list.
use go_mcache.Base.{
  ℕ, zero, suc, ◌<◌, ◌^◌, ◌≡◌, sym, ◌∙◌, if_pos, if_neg, true, false, ◌||◌, List, [], ◌∷◌, some,
  arith, Member, Member-append_left, Member-append_right, get_or, ◌==◌, Bool-cases, inl, inr,
}
use go_mcache.Base.Word.{sle}
use go_mcache.Base.Assoc.{find}
use go_mcache.Store.Sharded.{Entry, ShardedStore, is_expired}
use go_mcache.Store.Sharded.Inv.{entry_of}
use go_mcache.Store.Sharded.Batch.{keys_of, keys, live_of, entries}

module _ {K V : Type 0} (dec : Discrete K) where
  keys_of-Member :
      (m : List (K × Entry K V)) (k : K) (e : Entry K V)
      → find dec k m ≡ some e
      → Member k (keys_of m)
  unfolding keys_of find
  keys_of-Member [] k e h = absurd (ground arith)
  keys_of-Member ((j, e') ∷ m) k e h = elim (dec j k) [
    | yes p ↦ inl p
    | no p ↦ inr (keys_of-Member m k e (sym (if_neg (dec j k) p _ _) ∙ h))
  ]

  keys-Member_at :
      (ms : List (List (K × Entry K V))) (i : ℕ) (k : K) (e : Entry K V)
      → find dec k (get_or ms i []) ≡ some e
      → Member k (keys ms)
  unfolding keys find
  keys-Member_at [] i k e h = absurd (ground arith)
  keys-Member_at (m ∷ ms) zero k e h =
      Member-append_left k (keys_of m) (keys ms) (keys_of-Member m k e h)
  keys-Member_at (m ∷ ms) (suc i) k e h =
      Member-append_right k (keys_of m) (keys ms) (keys-Member_at ms i k e h)

  module _ (now : ℕ) (e : Entry K V) (fits : e.expire_at < 2 ^ 63)
      (live : is_expired now e ≡ false) where
    not_dropped : ((e.expire_at == 0) || sle now e.expire_at) ≡ true
    unfolding is_expired
    not_dropped = ground arith

    live_of-Member :
        (m : List (K × Entry K V)) (k : K) → find dec k m ≡ some e → Member e (live_of now m)
    unfolding live_of find
    live_of-Member [] k h = absurd (ground arith)
    live_of-Member ((j, e') ∷ m) k h = elim (dec j k) [
      | yes p ↦
          let same : e' ≡ e = ground (arith, if_pos (dec j k) p (some e') (find dec k m)) in
          let kept : ((e'.expire_at == 0) || sle now e'.expire_at) ≡ true = rw same not_dropped in
          rw kept (inl same)
      | no p ↦
          let rest = live_of-Member m k (sym (if_neg (dec j k) p _ _) ∙ h) in
          elim (Bool-cases ((e'.expire_at == 0) || sle now e'.expire_at)) [
            | inl x ↦ rw x (inr rest)
            | inr x ↦ rw x rest
          ]
    ]

    entries-Member_at :
        (ms : List (List (K × Entry K V))) (i : ℕ) (k : K)
        → find dec k (get_or ms i []) ≡ some e
        → Member e (entries now ms)
    unfolding entries find
    entries-Member_at [] i k h = absurd (ground arith)
    entries-Member_at (m ∷ ms) zero k h =
        Member-append_left e (live_of now m) (entries now ms) (live_of-Member m k h)
    entries-Member_at (m ∷ ms) (suc i) k h =
        Member-append_right e (live_of now m) (entries now ms) (entries-Member_at ms i k h)

  -- Keys lists every key that has an entry, and Entries every entry that has not expired and whose
  -- expiration is not negative.
  pub listed_lem :
      (hasher : K → ℕ) (s : ShardedStore K V) (now : ℕ) (k : K) (e : Entry K V)
      → entry_of dec hasher s k ≡ some e
      → Member k (keys s.shards)
        × (e.expire_at < 2 ^ 63 → is_expired now e ≡ false → Member e (entries now s.shards))
  listed_lem hasher s now k e h = (
    keys-Member_at s.shards _ k e h,
    λ fits live. entries-Member_at now e fits live s.shards _ k h,
  )
