-- ===== src/Store/Sharded/Sweep.antt =====
-- internal/store/sharded.go: the loops of CollectExpired, over one map and over the shards.
use go_mcache.Base.{
  ℕ, zero, suc, ◌+◌, ◌≡◌, refl, ap, sym, ◌≢◌, if_pos, if_neg, ◌∙◌, inl, inr, true, List, [], ◌∷◌,
  ◌++◌, Option, none, some, arith, length, length-append, All, All-append, Member,
  Member-append_left, Member-concat, get_or, Option-cases, Bool-cases, if◌then◌else◌,
}
use go_mcache.Base.Assoc.{
  find, remove, Distinct, find-remove_ne, find-remove_self, Distinct-remove, length-remove,
}
use go_mcache.Store.Sharded.{Entry, is_expired, sweep, sweep_shards}
use go_mcache.Store.Sharded.Inv.{total}

-- a property of the first place and of all that follow
at_each : (P : ℕ → Type 0) → P 0 → ((i : ℕ) → P (suc i)) → (i : ℕ) → P i
at_each P first rest zero = first
at_each P first rest (suc i) = rest i

module _ {K V : Type 0} (now : ℕ) where
  -- an entry that has not expired
  abbrev pub alive : Option (Entry K V) → Option (Entry K V)
  alive none = none
  alive (some e) = if is_expired now e then none else some e

module _ {K V : Type 0} (dec : Discrete K) (now : ℕ) where
  -- what the loop over `todo` makes of the map `m`
  record Swept (todo m m' : List (K × Entry K V)) : Type 0 where
    pub visited :
        (j : K) (e : Entry K V) → find dec j todo ≡ some e → find dec j m' ≡ alive now (some e)
    pub others : (j : K) → find dec j todo ≡ none → find dec j m' ≡ find dec j m
    pub distinct : Distinct dec m'

  find_nil : (j : K) → find {V = Entry K V} dec j [] ≡ none
  unfolding find
  find_nil j = refl

  module _ (k : K) (e : Entry K V) (rest : List (K × Entry K V)) where
    find_first : (j : K) → k ≡ j → find dec j ((k, e) ∷ rest) ≡ some e
    unfolding find
    find_first j p = if_pos (dec k j) p _ _

    find_rest : (j : K) → k ≢ j → find dec j ((k, e) ∷ rest) ≡ find dec j rest
    unfolding find
    find_rest j p = if_neg (dec k j) p _ _

    apart : find dec k rest ≡ none → (j : K) (e' : Entry K V) → find dec j rest ≡ some e' → k ≢ j
    apart none' j e' h = λ p. absurd (ground (arith, ap (λ k. find dec k rest) p))

    absent : (j : K) → find dec j ((k, e) ∷ rest) ≡ none → (k ≢ j) × (find dec j rest ≡ none)
    absent j h =
        let other : k ≢ j = λ p. absurd (ground (arith, find_first j p)) in
        (other, sym (find_rest j other) ∙ h)

    -- the map without the key that has just been visited still has the others
    sub_removed :
        (m : List (K × Entry K V))
        → find dec k rest ≡ none
        → ((j : K) (e' : Entry K V) → find dec j ((k, e) ∷ rest) ≡ some e' → find dec j m ≡ some e')
        → (j : K) (e' : Entry K V) → find dec j rest ≡ some e'
        → (find dec j m ≡ some e') × (find dec j (remove dec k m) ≡ some e')
    sub_removed m new sub j e' h =
        let other = apart new j e' h in
        let old = sub j e' (find_rest j other ∙ h) in (old, find-remove_ne dec k j m other ∙ old)

  sweep-Swept :
      (todo m : List (K × Entry K V)) (out : List (Entry K V))
      → Distinct dec todo
      → Distinct dec m
      → ((j : K) (e : Entry K V) → find dec j todo ≡ some e → find dec j m ≡ some e)
      → Swept todo m (sweep dec now todo m out).0
        × (length (sweep dec now todo m out).0 + length (sweep dec now todo m out).1
            ≡ length m + length out)
  unfolding sweep
  sweep-Swept [] m out dt dm sub = (
    record {
      visited = λ j e h. absurd (ground (arith, find_nil j));
      others = λ j h. refl;
      distinct = dm;
    },
    refl,
  )
  sweep-Swept ((k, e) ∷ rest) m out dt dm sub = elim (Bool-cases (is_expired now e)) [
    | inl h ↦
        let (ih, count) =
          sweep-Swept rest (remove dec k m) (out ++ e ∷ []) dt.1 (Distinct-remove dec k m dm)
            (λ j e' f. (sub_removed k e rest m dt.0 sub j e' f).1) in
        rw h (
          record {
            visited = λ j e' f. elim (dec k j) [
              | yes p ↦
                  let gone : alive now (some e) ≡ none = rw h refl in
                  rw (← p) (
                    ih.others k dt.0
                    ∙ find-remove_self dec k m dm
                    ∙ sym gone
                    ∙ ap (alive now) (sym (find_first k e rest j p) ∙ f))
              | no p ↦ ih.visited j e' (sym (find_rest k e rest j p) ∙ f)
            ];
            others = λ j f.
                let (other, f') = absent k e rest j f in
                ih.others j f' ∙ find-remove_ne dec k j m other;
            distinct = ih.distinct;
          },
          omega (
            arith,
            count,
            length-append out (e ∷ []),
            length-remove dec k e m (sub k e (find_first k e rest k refl)),
          ),
        )
    | inr h ↦
        let (ih, count) =
          sweep-Swept rest m out dt.1 dm (λ j e' f. (sub_removed k e rest m dt.0 sub j e' f).0) in
        rw h (
          record {
            visited = λ j e' f. elim (dec k j) [
              | yes p ↦
                  let stays : alive now (some e) ≡ some e = rw h refl in
                  rw (← p) (
                    ih.others k dt.0
                    ∙ sub k e (find_first k e rest k refl)
                    ∙ sym stays
                    ∙ ap (alive now) (sym (find_first k e rest j p) ∙ f))
              | no p ↦ ih.visited j e' (sym (find_rest k e rest j p) ∙ f)
            ];
            others = λ j f. ih.others j (absent k e rest j f).1;
            distinct = ih.distinct;
          },
          count,
        )
  ]

  -- a whole map is swept
  pub sweep_all :
      (m : List (K × Entry K V)) (out : List (Entry K V)) (j : K)
      → Distinct dec m
      → find dec j (sweep dec now m m out).0 ≡ alive now (find dec j m)
  sweep_all m out j d =
      let swept = (sweep-Swept m m out d d (λ j e h. h)).0 in
      elim (Option-cases (find dec j m)) [
        | inl h ↦ rw h (swept.others j h ∙ h)
        | inr (e, h) ↦ rw h (swept.visited j e h)
      ]

  sweep-All :
      (Q : Entry K V → Type 0) (todo m : List (K × Entry K V)) (out : List (Entry K V))
      → Distinct dec todo
      → ((j : K) (e : Entry K V) → find dec j todo ≡ some e → is_expired now e ≡ true → Q e)
      → All Q out
      → All Q (sweep dec now todo m out).1
  unfolding sweep
  sweep-All Q [] m out d new old = old
  sweep-All Q ((k, e) ∷ rest) m out d new old =
      let later : (j : K) (e' : Entry K V)
          → find dec j rest ≡ some e'
          → is_expired now e' ≡ true
          → Q e' =
        λ j e' h. new j e' (find_rest k e rest j (apart k e rest d.0 j e' h) ∙ h) in
      elim (Bool-cases (is_expired now e)) [
        | inl h ↦ rw h (
            sweep-All Q rest (remove dec k m) (out ++ e ∷ []) d.1 later
              (All-append Q out (e ∷ []) old (new k e (find_first k e rest k refl) h, tt)))
        | inr h ↦ rw h (sweep-All Q rest m out d.1 later old)
      ]

  sweep-Member_kept :
      (todo m : List (K × Entry K V)) (out : List (Entry K V)) (e : Entry K V)
      → Member e out
      → Member e (sweep dec now todo m out).1
  unfolding sweep
  sweep-Member_kept [] m out e h = h
  sweep-Member_kept ((k, e') ∷ rest) m out e h = elim (Bool-cases (is_expired now e')) [
    | inl x ↦ rw x (
        sweep-Member_kept rest (remove dec k m) (out ++ e' ∷ []) e
          (Member-append_left e out (e' ∷ []) h))
    | inr x ↦ rw x (sweep-Member_kept rest m out e h)
  ]

  sweep-Member :
      (todo m : List (K × Entry K V)) (out : List (Entry K V)) (j : K) (e : Entry K V)
      → find dec j todo ≡ some e
      → is_expired now e ≡ true
      → Member e (sweep dec now todo m out).1
  unfolding sweep
  sweep-Member [] m out j e h x = absurd (ground (arith, find_nil j))
  sweep-Member ((k, e') ∷ rest) m out j e h x = elim (dec k j) [
    | yes p ↦
        let same : e' ≡ e = ground (arith, find_first k e' rest j p) in
        let expired : is_expired now e' ≡ true = rw same x in
        rw expired (
          rw (← same)
            (sweep-Member_kept rest (remove dec k m) (out ++ e' ∷ []) e' (Member-concat e' out)))
    | no p ↦
        let h' = sym (find_rest k e' rest j p) ∙ h in
        elim (Bool-cases (is_expired now e')) [
          | inl y ↦ rw y (sweep-Member rest (remove dec k m) (out ++ e' ∷ []) j e h' x)
          | inr y ↦ rw y (sweep-Member rest m out j e h' x)
        ]
  ]

  -- what CollectExpired does to the shards
  pub record Collected (ms : List (List (K × Entry K V))) (out : List (Entry K V))
      (result : List (List (K × Entry K V)) × List (Entry K V)) : Type 0 where
    pub same_length : length result.0 ≡ length ms
    pub left :
        (i : ℕ) (j : K)
        → find dec j (get_or result.0 i []) ≡ alive now (find dec j (get_or ms i []))
    pub distinct : (i : ℕ) → Distinct dec (get_or result.0 i [])
    pub count : total result.0 + length result.1 ≡ total ms + length out
    pub kept : (e : Entry K V) → Member e out → Member e result.1
    pub returned :
        (i : ℕ) (j : K) (e : Entry K V)
        → find dec j (get_or ms i []) ≡ some e
        → is_expired now e ≡ true
        → Member e result.1

  pub sweep_shards-Collected :
      (ms : List (List (K × Entry K V))) (out : List (Entry K V))
      → ((i : ℕ) → Distinct dec (get_or ms i []))
      → Collected ms out (sweep_shards dec now ms out)
  unfolding sweep_shards
  sweep_shards-Collected [] out d = record {
    same_length = refl;
    left = λ i j. rw (find_nil j) refl;
    distinct = d;
    count = refl;
    kept = λ e h. h;
    returned = λ i j e h x. absurd (ground (arith, find_nil j));
  }
  sweep_shards-Collected (m ∷ ms) out d =
      let out' = (sweep dec now m m out).1 in
      let (swept, count) = sweep-Swept m m out (d 0) (d 0) (λ j e h. h) in
      let ih = sweep_shards-Collected ms out' (λ i. d (suc i)) in
      record {
        same_length = omega (arith, ih.same_length);
        left = at_each _ (λ j. sweep_all m out j (d 0)) ih.left;
        distinct = at_each _ swept.distinct ih.distinct;
        count = omega (arith, count, ih.count);
        kept = λ e h. ih.kept e (sweep-Member_kept m m out e h);
        returned = at_each _ (λ j e h x. ih.kept e (sweep-Member m m out j e h x)) ih.returned;
      }

  pub sweep_shards-All :
      (Q : Entry K V → Type 0) (ms : List (List (K × Entry K V))) (out : List (Entry K V))
      → ((i : ℕ) → Distinct dec (get_or ms i []))
      → ((i : ℕ) (j : K) (e : Entry K V)
          → find dec j (get_or ms i []) ≡ some e
          → is_expired now e ≡ true
          → Q e)
      → All Q out
      → All Q (sweep_shards dec now ms out).1
  unfolding sweep_shards
  sweep_shards-All Q [] out d new old = old
  sweep_shards-All Q (m ∷ ms) out d new old =
      sweep_shards-All Q ms (sweep dec now m m out).1 (λ i. d (suc i)) (λ i. new (suc i))
        (sweep-All Q m m out (d 0) (new 0) old)
