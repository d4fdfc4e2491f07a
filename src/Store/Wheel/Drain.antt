-- ===== src/Store/Wheel/Drain.antt =====
-- internal/store/expiry_wheel.go: Advance answers what is due, and loses nothing.
use go_mcache.Base.{
  ℕ, zero, suc, ◌<◌, ◌≡◌, refl, ◌∙◌, ◌⊎◌, inl, inr, bit_and, true, false, List, [], ◌∷◌, ◌++◌,
  arith, All, All-append, Member, Member-append_left, Member-append_right, Member-concat, length,
  length-set, get_or, get_or-set, set, Bool-cases, ◌==◌,
}
use go_mcache.Base.Bits.{bit_and-le}
use go_mcache.Base.Word.{add64, sub64, sle}
use go_mcache.Store.Wheel.{
  ExpiryWheelEntry, ExpiryWheel, bucket_of, enqueue, sort_items, advance_loop, advance, schedule,
  quotient,
}

module _ {K : Type 0} where
  -- an item stands in one of the buckets
  abbrev pub Held : ExpiryWheelEntry K → List (List (ExpiryWheelEntry K)) → Type 0
  Held item buckets = (i : ℕ) × Member item (get_or buckets i [])

  enqueue-Held_new :
      (buckets : List (List (ExpiryWheelEntry K))) (idx : ℕ) (item : ExpiryWheelEntry K)
      → idx < length buckets
      → Held item (enqueue buckets idx item)
  enqueue-Held_new buckets idx item h =
      let here : (idx == idx) ≡ true = ground arith in
      (
        idx,
        rw (get_or-set buckets idx idx (get_or buckets idx [] ++ item ∷ []) [] h, here)
            (Member-concat item (get_or buckets idx [])),
      )

  enqueue-Held_old :
      (buckets : List (List (ExpiryWheelEntry K))) (idx : ℕ) (item x : ExpiryWheelEntry K)
      → idx < length buckets
      → Held x buckets
      → Held x (enqueue buckets idx item)
  enqueue-Held_old buckets idx item x h (i, m) = (
    i,
    rw (get_or-set buckets idx i (get_or buckets idx [] ++ item ∷ []) [] h)
        (elim (Bool-cases (idx == i)) [
          | inl e ↦
              let same : idx ≡ i = ground arith in
              rw (e, same) (Member-append_left x (get_or buckets i []) (item ∷ []) m)
          | inr e ↦ rw e m
        ]),
  )

  abbrev Somewhere :
      ExpiryWheelEntry K
      → List (ExpiryWheelEntry K)
      → List (List (ExpiryWheelEntry K)) × List (ExpiryWheelEntry K)
      → Type 0
  Somewhere x items state = Member x items ⊎ (Held x state.0 ⊎ Member x state.1)

  module _ (w : ExpiryWheel K) (now : ℕ) where
    length-sort_items :
        (items : List (ExpiryWheelEntry K)) (buckets : List (List (ExpiryWheelEntry K)))
        (out : List (ExpiryWheelEntry K))
        → length (sort_items w now items buckets out).0 ≡ length buckets
    unfolding sort_items
    length-sort_items [] buckets out = refl
    length-sort_items (item ∷ items) buckets out = elim (Bool-cases (sle item.expire_at now)) [
      | inl due ↦ rw due (length-sort_items items buckets (out ++ item ∷ []))
      | inr later ↦ rw later (
          length-sort_items items (enqueue buckets (bucket_of w item.expire_at) item) out
          ∙ length-set buckets (bucket_of w item.expire_at) _)
    ]

    sort_items-All :
        (items : List (ExpiryWheelEntry K)) (buckets : List (List (ExpiryWheelEntry K)))
        (out : List (ExpiryWheelEntry K))
        → All (λ x. sle x.expire_at now ≡ true) out
        → All (λ x. sle x.expire_at now ≡ true) (sort_items w now items buckets out).1
    unfolding sort_items
    sort_items-All [] buckets out h = h
    sort_items-All (item ∷ items) buckets out h = elim (Bool-cases (sle item.expire_at now)) [
      | inl due ↦ rw due (
          sort_items-All items buckets (out ++ item ∷ [])
            (All-append (λ x. sle x.expire_at now ≡ true) out (item ∷ []) h (due, tt)))
      | inr later ↦
          rw later (sort_items-All items (enqueue buckets (bucket_of w item.expire_at) item) out h)
    ]

    sort_items-Somewhere :
        (x : ExpiryWheelEntry K) (items : List (ExpiryWheelEntry K))
        (buckets : List (List (ExpiryWheelEntry K))) (out : List (ExpiryWheelEntry K))
        → w.mask < length buckets
        → Somewhere x items (buckets, out)
        → Somewhere x [] (sort_items w now items buckets out)
    unfolding sort_items
    sort_items-Somewhere x [] buckets out wide h = h
    sort_items-Somewhere x (item ∷ items) buckets out wide h =
        let idx = bucket_of w item.expire_at in
        let fits : idx < length buckets = omega (arith, wide, bit_and-le _ w.mask) in
        elim (Bool-cases (sle item.expire_at now)) [
          | inl due ↦ rw due (
              sort_items-Somewhere x items buckets (out ++ item ∷ []) wide (elim h [
                | inl (inl e) ↦ inr (inr (Member-append_right x out (item ∷ []) (inl e)))
                | inl (inr m) ↦ inl m
                | inr (inl m) ↦ inr (inl m)
                | inr (inr m) ↦ inr (inr (Member-append_left x out (item ∷ []) m))
              ]))
          | inr later ↦ rw later (
              sort_items-Somewhere x items (enqueue buckets idx item) out
                (omega (arith, wide, length-set buckets idx (get_or buckets idx [] ++ item ∷ [])))
                (elim h [
                  | inl (inl e) ↦ inr (inl (rw (← e) (enqueue-Held_new buckets idx item fits)))
                  | inl (inr m) ↦ inl m
                  | inr (inl m) ↦ inr (inl (enqueue-Held_old buckets idx item x fits m))
                  | inr (inr m) ↦ inr (inr m)
                ]))
        ]

    emptied-Somewhere :
        (x : ExpiryWheelEntry K) (idx : ℕ) (buckets : List (List (ExpiryWheelEntry K)))
        (out : List (ExpiryWheelEntry K))
        → idx < length buckets
        → Held x buckets ⊎ Member x out
        → Somewhere x (get_or buckets idx []) (set buckets idx [], out)
    emptied-Somewhere x idx buckets out fits (inr m) = inr (inr m)
    emptied-Somewhere x idx buckets out fits (inl (i, m)) = elim (Bool-cases (idx == i)) [
      | inl e ↦ let same : idx ≡ i = ground arith in inl (rw same m)
      | inr e ↦ inr (inl (i, rw (get_or-set buckets idx i [] [] fits, e) m))
    ]

    advance_loop_keeps :
        (left tick : ℕ) (buckets : List (List (ExpiryWheelEntry K)))
        (out : List (ExpiryWheelEntry K))
        → w.mask < length buckets
        → All (λ x. sle x.expire_at now ≡ true) out
        → All (λ x. sle x.expire_at now ≡ true) (advance_loop w now left tick buckets out).1
          × ((x : ExpiryWheelEntry K)
              → Held x buckets ⊎ Member x out
              → Held x (advance_loop w now left tick buckets out).0
                ⊎ Member x (advance_loop w now left tick buckets out).1)
          × (length (advance_loop w now left tick buckets out).0 ≡ length buckets)
    unfolding advance_loop
    advance_loop_keeps zero tick buckets out wide due = (due, λ x h. h, refl)
    advance_loop_keeps (suc left) tick buckets out wide due =
        let idx = bit_and (add64 tick 1) w.mask in
        let fits : idx < length buckets = omega (arith, wide, bit_and-le _ w.mask) in
        let items = get_or buckets idx [] in
        let rest = set buckets idx [] in
        let same : length rest ≡ length buckets = length-set buckets idx [] in
        let sorted = sort_items w now items rest out in
        let size : length sorted.0 ≡ length buckets = length-sort_items items rest out ∙ same in
        let (later-Due, later, later_size) =
          advance_loop_keeps left (add64 tick 1) sorted.0 sorted.1 (omega (arith, wide, size))
            (sort_items-All items rest out due) in
        (
          later-Due,
          λ x h. later x (
              settled x sorted (
                sort_items-Somewhere x items rest out (omega (arith, wide, same))
                  (emptied-Somewhere x idx buckets out fits h))),
          later_size ∙ size,
        )
      where
        settled :
            (x : ExpiryWheelEntry K)
            (state : List (List (ExpiryWheelEntry K)) × List (ExpiryWheelEntry K))
            → Somewhere x [] state
            → Held x state.0 ⊎ Member x state.1
        settled x state (inl m) = absurd m
        settled x state (inr h) = h

    -- On a wheel with a bucket for every index, Advance answers only items that are due, every item that was
    -- scheduled is answered or still scheduled, and the number of buckets stays.
    pub advance_lem :
        w.mask < length w.buckets
        → All (λ x. sle x.expire_at now ≡ true) (advance w now).0
          × ((x : ExpiryWheelEntry K)
              → Held x w.buckets
              → Held x (advance w now).1.buckets ⊎ Member x (advance w now).0)
          × (length (advance w now).1.buckets ≡ length w.buckets)
    unfolding advance
    advance_lem wide =
        let ticks = sub64 (quotient now w.resolution) w.current_tick in
        let (due, kept, size) = advance_loop_keeps ticks w.current_tick w.buckets [] wide tt in
        elim (Bool-cases (sle (quotient now w.resolution) w.current_tick)) [
          | inl h ↦ rw h (tt, λ x m. inl m, refl)
          | inr h ↦ rw h (due, λ x m. kept x (inl m), size)
        ]

  -- Schedule of a positive expiration adds the item to a wheel with a bucket for every index, and keeps all
  -- others; an expiration that is not positive changes nothing.
  pub schedule_lem :
      (w : ExpiryWheel K) (key : K) (key_hash expire_at : ℕ)
      → w.mask < length w.buckets
      → let item : ExpiryWheelEntry K = record {
        key = key;
        key_hash = key_hash;
        expire_at = expire_at;
      } in
        let w' = schedule w key key_hash expire_at in
        (sle expire_at 0 ≡ true → w' ≡ w)
        × (sle expire_at 0 ≡ false → Held item w'.buckets)
        × ((x : ExpiryWheelEntry K) → Held x w.buckets → Held x w'.buckets)
  unfolding schedule
  schedule_lem w key key_hash expire_at wide =
      let item : ExpiryWheelEntry K = record {
        key = key;
        key_hash = key_hash;
        expire_at = expire_at;
      } in
      let idx = bucket_of w expire_at in
      let fits : idx < length w.buckets = omega (arith, wide, bit_and-le _ w.mask) in
      (
        λ h. rw h refl,
        λ h. rw h (enqueue-Held_new w.buckets idx item fits),
        λ x m. elim (Bool-cases (sle expire_at 0)) [
          | inl h ↦ rw h m
          | inr h ↦ rw h (enqueue-Held_old w.buckets idx item x fits m)
        ],
      )
