-- ===== src/Store/Sharded/Change.antt =====
-- internal/store/sharded.go: the three ways in which an operation changes the shard of a key.
use go_mcache.Base.{
  ℕ, ◌≡◌, refl, ap, ◌∙◌, List, [], ◌∷◌, none, some, arith, length, length-append, sym, if_pos,
  if_neg,
}
use go_mcache.Base.Word.{add64, sub64}
use go_mcache.Base.Assoc.{
  put, remove, Distinct, find-put, find-remove, Distinct-put, Distinct-remove, put_new,
  length-put_old, length-remove,
}
use go_mcache.Store.Sharded.{Entry, ShardedStore, get_shard, set_shard, shard_index}
use go_mcache.Store.Sharded.Inv.{IsValid, Changed, entry_of, changed-Changed}

module _ {K V : Type 0} (dec : Discrete K) (hasher : K → ℕ) (s : ShardedStore K V)
    (v : IsValid dec hasher s) (key : K) where
  abbrev shard : List (K × Entry K V)
  shard = get_shard s (hasher key)

  abbrev with_shard : List (K × Entry K V) → ℕ → ShardedStore K V
  with_shard m size = record (set_shard s (hasher key) m) { size = size }

  unique : Distinct dec shard
  unique = v.distinct (shard_index s (hasher key))

  module _ (e : Entry K V) (own : e.key ≡ key) (hashed : e.key_hash ≡ hasher key) where
    fits : (e' : Entry K V) → some e ≡ some e' → (e'.key ≡ key) × (e'.key_hash ≡ hasher key)
    fits e' h = ground (arith, own, hashed)

    pub put_new-Changed :
        entry_of dec hasher s key ≡ none
        → Changed dec hasher key (some e) s (with_shard (put dec key e shard) (add64 s.size 1))
    put_new-Changed absent =
        changed-Changed dec hasher s v key (put dec key e shard) (some e) (add64 s.size 1)
          (Distinct-put dec key e shard unique) (λ j. find-put dec key j e shard) fits
          (omega (
            arith,
            ap length (put_new dec key e shard absent),
            length-append shard ((key, e) ∷ []),
          ))

    pub put_old-Changed :
        (e' : Entry K V)
        → entry_of dec hasher s key ≡ some e'
        → Changed dec hasher key (some e) s (with_shard (put dec key e shard) s.size)
    put_old-Changed e' present =
        changed-Changed dec hasher s v key (put dec key e shard) (some e) s.size
          (Distinct-put dec key e shard unique) (λ j. find-put dec key j e shard) fits
          (omega (arith, length-put_old dec key e e' shard present, v.counted))

  pub remove-Changed :
      (e' : Entry K V)
      → entry_of dec hasher s key ≡ some e'
      → Changed dec hasher key none s (with_shard (remove dec key shard) (sub64 s.size 1))
  remove-Changed e' present =
      changed-Changed dec hasher s v key (remove dec key shard) none (sub64 s.size 1)
        (Distinct-remove dec key shard unique) (λ j. find-remove dec key j shard unique)
        (λ e h. absurd (ground arith))
        (omega (arith, length-remove dec key e' shard present, v.counted))

  -- nothing under the key, and nothing done
  pub unchanged : entry_of dec hasher s key ≡ none → Changed dec hasher key none s s
  unchanged absent = record {
    valid = v;
    entries = λ j. elim (dec key j) [
      | yes p ↦ rw (← p) (absent ∙ sym (if_pos (dec key key) refl _ _))
      | no p ↦ sym (if_neg (dec key j) p _ _)
    ];
    same_shards = refl;
  }
