-- ===== src/Iterator/Whole.antt =====
-- iterator.go, internal/store/sharded.go: a Scan that asks for more entries than the store has lists all of them.
use go_mcache.Base.{
  ℕ, ◌+◌, ◌*◌, ◌%◌, ◌^◌, bit_or, ◌<◌, ◌≡◌, ◌∙◌, refl, ap, true, false, List, [], ◌∷◌, ◌++◌, Option,
  none, some, arith, length, length-append, ltb, leb, ◌==◌,
}
use mathlib.Core.List.{append_assoc, append-nil}
use go_mcache.Store.Sharded.{Entry, ShardedStore}
use go_mcache.Store.Sharded.Scan.{scan_shard, scan_loop, scan}
use go_mcache.Iterator.{entries_of, all_entries}

module _ {K V : Type 0} (count : ℕ) where
  scan_shard_whole :
      (m : List (K × Entry K V)) (idx : ℕ) (entries : List (Entry K V))
      → length entries + length (entries_of m) < count
      → scan_shard count 0 m idx entries ≡ (none, entries ++ entries_of m)
  unfolding scan_shard entries_of
  scan_shard_whole [] idx entries h = rw append-nil refl
  scan_shard_whole ((k, e) ∷ m) idx entries h =
      let one = length-append entries (e ∷ []) in
      let first : leb 0 idx ≡ true = ground arith in
      let room : leb count (length (entries ++ e ∷ [])) ≡ false = ground arith in
      rw (first, room)
        (scan_shard_whole m (idx + 1) (entries ++ e ∷ []) (omega (arith, one))
          ∙ rw (append_assoc entries (e ∷ []) (entries_of m)) refl)

  scan_loop_whole :
      (ms : List (List (K × Entry K V))) (shard_idx : ℕ) (entries : List (Entry K V))
      → length entries + length (all_entries ms) < count
      → scan_loop count ms shard_idx 0 entries ≡ (entries ++ all_entries ms, 0)
  unfolding scan_loop all_entries
  scan_loop_whole [] shard_idx entries h = rw append-nil refl
  scan_loop_whole (m ∷ ms) shard_idx entries h =
      let both = length-append (entries_of m) (all_entries ms) in
      let grown = length-append entries (entries_of m) in
      let room : ltb (length entries) count ≡ true = ground arith in
      rw room (
        ap
          (λ (r : Option ℕ × List (Entry K V)). elim r.0 as (λ x. List (Entry K V) × ℕ) [
            | none ↦ scan_loop count ms (shard_idx + 1) 0 r.1
            | some next ↦ (r.1, bit_or (shard_idx * 2 ^ 32 % 2 ^ 64) next)
          ])
          (scan_shard_whole m 0 entries (omega (arith, both)))
        ∙ scan_loop_whole ms (shard_idx + 1) (entries ++ entries_of m) (omega (arith, both, grown))
        ∙ rw (append_assoc entries (entries_of m) (all_entries ms)) refl)

  pub scan_whole :
      (s : ShardedStore K V)
      → length (all_entries s.shards) < count
      → scan s 0 count ≡ (all_entries s.shards, 0)
  unfolding scan
  scan_whole s h =
      let positive : (count == 0) ≡ false = ground arith in
      rw positive (scan_loop_whole s.shards 0 [] (omega arith))
