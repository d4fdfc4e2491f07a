-- ===== src/Store/Sharded/Ordered.antt =====
-- internal/store/sharded.go: GetBatchByShardOrder reads the shards in an order of its own, and answers in the
-- order of the keys.
use std.Path.{subst}
use go_mcache.Base.{
  ℕ, zero, suc, ◌+◌, ◌<◌, ◌≤◌, ◌≡◌, refl, ap, sym, ◌∙◌, Bool, false, List, [], ◌∷◌, Option, none,
  some, arith, length, length-set, length-map, length-replicate, map, set, get_or, get_or-set,
  replicate, ◌==◌, if◌then◌else◌, Bool-cases, inl, inr, Member,
}
use go_mcache.Base.Assoc.{find}
use go_mcache.Store.Sharded.{Entry, ShardedStore, is_expired, shard_index, get, get_by_hash}
use go_mcache.Store.Sharded.Batch.{is_found, has}
use go_mcache.Store.Sharded.Scan.{KeyInfo, key_infos, place_results, get_batch_by_shard_order}

same_elements :
    {A : Type 0} (d : A) (xs ys : List A)
    → length xs ≡ length ys
    → ((i : ℕ) → i < length ys → get_or xs i d ≡ get_or ys i d)
    → xs ≡ ys
same_elements d [] [] h e = refl
same_elements d [] (y ∷ ys) h e = absurd (omega (arith, h))
same_elements d (x ∷ xs) [] h e = absurd (omega (arith, h))
same_elements d (x ∷ xs) (y ∷ ys) h e =
    rw
      (
        e 0 (omega arith),
        same_elements d xs ys (omega (arith, h)) (λ i l. e (suc i) (omega (arith, l))),
      )
      refl

module _ {K V : Type 0} (dec : Discrete K) (hasher : K → ℕ) (s : ShardedStore K V) (now : ℕ) where
  -- what the loop reads for one key
  abbrev read_info : KeyInfo K → Option (Entry K V)
  read_info info = elim (find dec info.key (get_or s.shards info.shard_idx [])) [
    | none ↦ none
    | some e ↦ if is_expired now e then none else some e
  ]

  module _ (f : ℕ → Option (Entry K V)) (n : ℕ) where
    abbrev Agrees : KeyInfo K → Type 0
    Agrees info = (read_info info ≡ f info.orig_index) × (info.orig_index < n)

    abbrev Sized : List (Option (Entry K V)) → List Bool → Type 0
    Sized results found = (length results ≡ n) × (length found ≡ n)

    abbrev Right : List (Option (Entry K V)) → List Bool → ℕ → Type 0
    Right results found i = (get_or results i none ≡ f i) × (get_or found i false ≡ is_found (f i))

    set-Sized :
        (results : List (Option (Entry K V))) (found : List Bool) (i : ℕ) (v : Option (Entry K V))
        (b : Bool)
        → Sized results found
        → Sized (set results i v) (set found i b)
    set-Sized results found i v b (p, q) = (length-set results i v ∙ p, length-set found i b ∙ q)

    set-Right :
        (results : List (Option (Entry K V))) (found : List Bool) (info : KeyInfo K) (j : ℕ)
        → Sized results found
        → Agrees info
        → ((info.orig_index == j) ≡ false → Right results found j)
        → Right
            (set results info.orig_index (read_info info))
            (set found info.orig_index (is_found (read_info info)))
            j
    set-Right results found info j (p, q) (same, small) before =
        let in_results = get_or-set results info.orig_index j (read_info info) none (rw p small) in
        let in_found =
          get_or-set found info.orig_index j (is_found (read_info info)) false (rw q small) in
        elim (Bool-cases (info.orig_index == j)) [
          | inl here ↦
              let at : info.orig_index ≡ j = ground arith in
              rw (in_results, in_found, here) (same ∙ ap f at, ap is_found (same ∙ ap f at))
          | inr there ↦ rw (in_results, in_found, there) (before there)
        ]

    placed_Right :
        (infos : List (KeyInfo K)) (results : List (Option (Entry K V))) (found : List Bool) (j : ℕ)
        → ((info : KeyInfo K) → Member info infos → Agrees info)
        → Sized results found
        → let out = place_results dec hasher s now infos results found in
          Sized out.0 out.1
          × (Right results found j → Right out.0 out.1 j)
          × ((info : KeyInfo K) → Member info infos → info.orig_index ≡ j → Right out.0 out.1 j)
    unfolding place_results
    placed_Right [] results found j all sized = (sized, λ r. r, λ info m e. absurd m)
    placed_Right (info ∷ infos) results found j all sized =
        let written = set-Right results found info j sized (all info (inl refl)) in
        let (sized', kept, placed) =
          placed_Right infos (set results info.orig_index (read_info info))
            (set found info.orig_index (is_found (read_info info))) j (λ x m. all x (inr m))
            (set-Sized results found info.orig_index (read_info info) (is_found (read_info info))
              sized) in
        (
          sized',
          λ r. kept (written (λ x. r)),
          λ x m e. elim m [
            | inl same ↦
                kept
                  (written (λ differs. absurd (by_index (ap (λ y. y.orig_index) same ∙ e) differs)))
            | inr later ↦ placed x later e
          ],
        )
      where
        by_index : info.orig_index ≡ j → (info.orig_index == j) ≡ false → ⊥
        by_index e differs = ground arith

    infos_Agree :
        (ks : List K) (b : ℕ)
        → b + length ks ≤ n
        → ((i : ℕ) → i < length ks → f (b + i) ≡ get_or (map (get dec hasher s now) ks) i none)
        → (info : KeyInfo K) → Member info (key_infos dec hasher s ks b)
        → Agrees info
    unfolding key_infos get get_by_hash
    infos_Agree [] b small same info m = absurd m
    infos_Agree (k ∷ ks) b small same info (inl e) = subst Agrees e (first, omega (arith, small))
      where
        first :
            read_info (record {
              key = k;
              hash = hasher k;
              shard_idx = shard_index s (hasher k);
              orig_index = b;
            })
            ≡ f b
        first = let at : b + 0 ≡ b = omega arith in sym (same 0 (omega arith)) ∙ ap f at
    infos_Agree (k ∷ ks) b small same info (inr m) =
        infos_Agree ks (b + 1) (omega (arith, small))
          (λ i l. ap f (omega arith) ∙ same (suc i) (omega (arith, l))) info m

    infos_cover :
        (ks : List K) (b j : ℕ)
        → b ≤ j
        → j < b + length ks
        → (info : KeyInfo K) × Member info (key_infos dec hasher s ks b) × (info.orig_index ≡ j)
    unfolding key_infos
    infos_cover [] b j low high = absurd (omega arith)
    infos_cover (k ∷ ks) b j low high = elim (Bool-cases (b == j)) [
      | inl here ↦ (
        record { key = k; hash = hasher k; shard_idx = shard_index s (hasher k); orig_index = b },
        inl refl,
        ground arith,
      )
      | inr there ↦
          let (info, m, e) = infos_cover ks (b + 1) j (ground arith) (omega arith) in
          (info, inr m, e)
    ]

  found_same :
      (keys : List K) (i : ℕ)
      → i < length keys
      → get_or (map (has dec hasher s now) keys) i false
        ≡ is_found (get_or (map (get dec hasher s now) keys) i none)
  unfolding has
  found_same [] i l = absurd (omega (arith, l))
  found_same (k ∷ keys) zero l = refl
  found_same (k ∷ keys) (suc i) l = found_same keys i (omega (arith, l))

  placed_in_order :
      (infos : List (KeyInfo K)) (keys : List K)
      → ((info : KeyInfo K) → Member info (key_infos dec hasher s keys 0) → Member info infos)
      → ((info : KeyInfo K) → Member info infos → Member info (key_infos dec hasher s keys 0))
      → place_results dec hasher s now infos
          (replicate (length keys) none)
          (replicate (length keys) false)
        ≡ (map (get dec hasher s now) keys, map (has dec hasher s now) keys)
  placed_in_order infos keys keeps adds_none =
      let results_same =
        same_elements none out.0 (map (get dec hasher s now) keys)
          (sizes.0 ∙ sym (length-map _ keys))
          (λ i l. (right i (rw⁻¹ (length-map (get dec hasher s now) keys) l)).0) in
      let found_all =
        same_elements false out.1 (map (has dec hasher s now) keys)
          (sizes.1 ∙ sym (length-map _ keys))
          (λ i l.
            let l' : i < length keys = rw⁻¹ (length-map (has dec hasher s now) keys) l in
            (right i l').1 ∙ sym (found_same keys i l')) in
      pair_path results_same found_all
    where
      out : List (Option (Entry K V)) × List Bool
      out =
          place_results dec hasher s now infos (replicate (length keys) none)
            (replicate (length keys) false)

      f : ℕ → Option (Entry K V)
      f i = get_or (map (get dec hasher s now) keys) i none

      agree : (info : KeyInfo K) → Member info infos → Agrees f (length keys) info
      agree info m =
          infos_Agree f (length keys) keys 0 (omega arith)
            (λ i l. let at : 0 + i ≡ i = omega arith in ap f at) info (adds_none info m)

      placed :
          (j : ℕ)
          → Sized f (length keys) out.0 out.1
            × (Right f
                  (length keys)
                  (replicate (length keys) none)
                  (replicate (length keys) false)
                  j
                → Right f (length keys) out.0 out.1 j)
            × ((info : KeyInfo K)
                → Member info infos
                → info.orig_index ≡ j
                → Right f (length keys) out.0 out.1 j)
      placed j =
          placed_Right f (length keys) infos (replicate (length keys) none)
            (replicate (length keys) false) j agree
            (length-replicate _ none, length-replicate _ false)

      sizes : Sized f (length keys) out.0 out.1
      sizes = (placed 0).0

      right : (i : ℕ) → i < length keys → Right f (length keys) out.0 out.1 i
      right i l =
          let (info, m, e) =
            infos_cover f (length keys) keys 0 i (omega arith) (omega (arith, l)) in
          (placed i).2 info (keeps info m) e

      pair_path : {A B : Type 0} {x y : A} {u v : B} → x ≡ y → u ≡ v → ◌≡◌ {A = A × B} (x, u) (y, v)
      pair_path p q = rw (p, q) refl

  -- GetBatchByShardOrder answers for each key what Get and Has answer, in the order of the keys, in whatever
  -- order the sort puts them, as long as it keeps the elements.
  pub get_batch_by_shard_order_lem :
      (sort : List (KeyInfo K) → List (KeyInfo K)) (keys : List K)
      → ((info : KeyInfo K) (infos : List (KeyInfo K))
          → Member info infos
          → Member info (sort infos))
      → ((info : KeyInfo K) (infos : List (KeyInfo K))
          → Member info (sort infos)
          → Member info infos)
      → get_batch_by_shard_order dec hasher sort s now keys
        ≡ (map (get dec hasher s now) keys, map (has dec hasher s now) keys)
  unfolding get_batch_by_shard_order
  get_batch_by_shard_order_lem sort [] keeps adds_none = refl
  get_batch_by_shard_order_lem sort (k ∷ ks) keeps adds_none =
      let some_keys : (length (k ∷ ks) == 0) ≡ false = ground arith in
      let infos = key_infos dec hasher s (k ∷ ks) 0 in
      rw some_keys (
        placed_in_order (sort infos) (k ∷ ks) (λ info. keeps info infos)
          (λ info. adds_none info infos))
