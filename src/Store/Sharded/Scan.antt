-- ===== src/Store/Sharded/Scan.antt =====
-- internal/store/sharded.go: Scan, which goes through the shards by a cursor of a shard's number and a place in
-- it, and GetBatchByShardOrder, whose `sort` is slices.SortFunc by shard.
use go_mcache.Base.{
  ℕ, ◌+◌, ◌*◌, ◌/◌, ◌%◌, ◌^◌, ◌≤◌, ◌<◌, ◌≡◌, bit_or, Bool, false, List, [], ◌∷◌, ◌++◌, Option, none,
  some, arith, length, length-append, drop, set, get_or, replicate, leb, ltb, ◌==◌, if◌then◌else◌,
  Bool-cases, inl, inr,
}
use go_mcache.Base.Assoc.{find}
use go_mcache.Store.Sharded.{Entry, ShardedStore, is_expired, shard_index}
use go_mcache.Store.Sharded.Batch.{is_found}

module _ {K V : Type 0} where
  -- the loop over one shard: the place after which it stops, if it does, and the entries so far
  unfoldable pub scan_shard :
      ℕ → ℕ → List (K × Entry K V) → ℕ → List (Entry K V) → Option ℕ × List (Entry K V)
  scan_shard count item_idx [] idx entries = (none, entries)
  scan_shard count item_idx ((k, e) ∷ m) idx entries =
      let grown = entries ++ e ∷ [] in
      let taken =
        if leb count (length grown)
        then (some (idx + 1), grown)
        else scan_shard count item_idx m (idx + 1) grown in
      let skipped = scan_shard count item_idx m (idx + 1) entries in
      if leb item_idx idx then taken else skipped

  unfoldable pub scan_loop :
      ℕ → List (List (K × Entry K V)) → ℕ → ℕ → List (Entry K V) → List (Entry K V) × ℕ
  scan_loop count [] shard_idx item_idx entries = (entries, 0)
  scan_loop count (m ∷ ms) shard_idx item_idx entries =
      let (stop, grown) = scan_shard count item_idx m 0 entries in
      let rest = scan_loop count ms (shard_idx + 1) 0 grown in
      if ltb (length entries) count
      then elim stop [
        | none ↦ rest
        | some next ↦ (grown, bit_or (shard_idx * 2 ^ 32 % 2 ^ 64) next)
      ]
      else (entries, 0)

  -- a count of 0 stands for every count that is not positive
  unfoldable pub scan : ShardedStore K V → ℕ → ℕ → List (Entry K V) × ℕ
  scan s cursor count =
      scan_loop (if count == 0 then 10 else count) (drop (cursor / 2 ^ 32) s.shards)
        (cursor / 2 ^ 32) (cursor % 2 ^ 32) []

  module _ (count item_idx : ℕ) where
    scan_shard_limit :
        (m : List (K × Entry K V)) (idx : ℕ) (entries : List (Entry K V))
        → length entries < count
        → (length (scan_shard count item_idx m idx entries).1 ≤ count)
          × ((scan_shard count item_idx m idx entries).0 ≡ none
              → length (scan_shard count item_idx m idx entries).1 < count)
    unfolding scan_shard
    scan_shard_limit [] idx entries h = (omega arith, λ e. h)
    scan_shard_limit ((k, e) ∷ m) idx entries h =
        let one : length (entries ++ e ∷ []) ≡ length entries + 1 =
          length-append entries (e ∷ []) in
        elim (Bool-cases (leb item_idx idx)) [
          | inr skip ↦ rw skip (scan_shard_limit m (idx + 1) entries h)
          | inl take ↦ elim (Bool-cases (leb count (length (entries ++ e ∷ [])))) [
            | inl full ↦ rw (take, full) (omega (arith, one), λ x. absurd (ground arith))
            | inr room ↦
                rw (take, room) (scan_shard_limit m (idx + 1) (entries ++ e ∷ []) (ground arith))
          ]
        ]

  scan_loop_limit :
      (count : ℕ) (ms : List (List (K × Entry K V))) (shard_idx item_idx : ℕ)
      (entries : List (Entry K V))
      → length entries ≤ count
      → length (scan_loop count ms shard_idx item_idx entries).0 ≤ count
  unfolding scan_loop
  scan_loop_limit count [] shard_idx item_idx entries h = h
  scan_loop_limit count (m ∷ ms) shard_idx item_idx entries h =
      elim (Bool-cases (ltb (length entries) count)) [
        | inr full ↦ rw full h
        | inl room ↦
            let (most, _) = scan_shard_limit count item_idx m 0 entries (ground arith) in
            rw room (
              by_stop (scan_loop_limit count ms (shard_idx + 1) 0)
                (scan_shard count item_idx m 0 entries) most)
      ]
    where
      by_stop :
          ((grown : List (Entry K V))
            → length grown ≤ count
            → length (scan_loop count ms (shard_idx + 1) 0 grown).0 ≤ count)
          → (r : Option ℕ × List (Entry K V)) → length r.1 ≤ count
          → length
              (elim r.0 as (λ x. List (Entry K V) × ℕ) [
                | none ↦ scan_loop count ms (shard_idx + 1) 0 r.1
                | some next ↦ (r.1, bit_or (shard_idx * 2 ^ 32 % 2 ^ 64) next)
              ]).0
            ≤ count
      by_stop ih (none, grown) most = ih grown most
      by_stop ih (some next, grown) most = most

  -- Scan answers at most as many entries as it is asked for, and at most ten when the count is not positive.
  pub scan_limit :
      (s : ShardedStore K V) (cursor count : ℕ)
      → length (scan s cursor count).0 ≤ (if count == 0 then 10 else count)
  unfolding scan
  scan_limit s cursor count =
      scan_loop_limit (if count == 0 then 10 else count) (drop (cursor / 2 ^ 32) s.shards)
        (cursor / 2 ^ 32) (cursor % 2 ^ 32) [] (omega arith)

pub record KeyInfo (K : Type 0) : Type 0 where
  pub key : K
  pub hash : ℕ
  pub shard_idx : ℕ
  pub orig_index : ℕ

module _ {K V : Type 0} (dec : Discrete K) (hasher : K → ℕ) where
  unfoldable pub key_infos : ShardedStore K V → List K → ℕ → List (KeyInfo K)
  key_infos s [] i = []
  key_infos s (k ∷ ks) i =
      record { key = k; hash = hasher k; shard_idx = shard_index s (hasher k); orig_index = i }
      ∷ key_infos s ks (i + 1)

  unfoldable pub place_results :
      ShardedStore K V
      → ℕ
      → List (KeyInfo K)
      → List (Option (Entry K V))
      → List Bool
      → List (Option (Entry K V)) × List Bool
  place_results s now [] results found = (results, found)
  place_results s now (info ∷ infos) results found =
      let entry : Option (Entry K V) =
        elim (find dec info.key (get_or s.shards info.shard_idx [])) [
          | none ↦ none
          | some e ↦ if is_expired now e then none else some e
        ] in
      place_results s now infos (set results info.orig_index entry)
        (set found info.orig_index (is_found entry))

  unfoldable pub get_batch_by_shard_order :
      (List (KeyInfo K) → List (KeyInfo K))
      → ShardedStore K V
      → ℕ
      → List K
      → List (Option (Entry K V)) × List Bool
  get_batch_by_shard_order sort s now keys =
      let n = length keys in
      if n == 0
      then ([], [])
      else place_results s now (sort (key_infos s keys 0)) (replicate n none) (replicate n false)
