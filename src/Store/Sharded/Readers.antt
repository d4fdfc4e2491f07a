-- ===== src/Store/Sharded/Readers.antt =====
-- internal/store/sharded.go: Get before and after CollectExpired and DeleteIfExpired.
use go_mcache.Base.{
  ℕ, ◌≡◌, refl, sym, ap, ◌∙◌, ◌&&◌, true, Option, none, some, arith, ◌==◌, if_pos, if_neg,
  Bool-cases, Option-cases, inl, inr,
}
use mathlib.Core.Path.{subst}
use go_mcache.Base.Word.{sle}
use go_mcache.Store.Sharded.{
  Entry, ShardedStore, is_expired, get, peek_by_hash, collect_expired, delete_if_expired,
}
use go_mcache.Store.Sharded.Inv.{IsValid, entry_of}
use go_mcache.Store.Sharded.Sweep.{alive}
use go_mcache.Store.Sharded.Expiry.{collect_expired-Purged, delete_if_expired-Changed}

module _ {K V : Type 0} where
  -- what has expired stays expired
  is_expired-later :
      (now later : ℕ) (e : Entry K V)
      → sle now later ≡ true
      → is_expired now e ≡ true
      → is_expired later e ≡ true
  unfolding is_expired
  is_expired-later now later e h late = ground arith

  alive-alive :
      (now later : ℕ) (o : Option (Entry K V))
      → sle now later ≡ true
      → alive later (alive now o) ≡ alive later o
  alive-alive now later none h = refl
  alive-alive now later (some e) h = elim (Bool-cases (is_expired now e)) [
    | inl late ↦ rw (late, is_expired-later now later e h late) refl
    | inr fresh ↦ rw fresh refl
  ]

module _ {K V : Type 0} (dec : Discrete K) (hasher : K → ℕ) where
  get-alive :
      (s : ShardedStore K V) (now : ℕ) (key : K)
      → get dec hasher s now key ≡ alive now (entry_of dec hasher s key)
  unfolding get
  get-alive s now key = elim (Option-cases (entry_of dec hasher s key)) [
    | inl at ↦ rw (at, get) refl
    | inr (e, at) ↦ rw (at, get) refl
  ]

  module _ (s : ShardedStore K V) (v : IsValid dec hasher s) (now : ℕ) where
    -- an entry that is taken out by DeleteIfExpired had expired
    unseen :
        (later : ℕ)
        → sle now later ≡ true
        → (target key : K) (expire_at : ℕ)
        → let s' = (delete_if_expired dec s target (hasher target) expire_at now).1 in
          (alive later (entry_of dec hasher s' key) ≡ alive later (entry_of dec hasher s key))
    unseen later h target key expire_at =
        let (taken, left, absent) = delete_if_expired-Changed dec hasher s v now target expire_at in
        elim (Option-cases (entry_of dec hasher s target)) [
          | inl at ↦ rw (absent at) refl
          | inr (e, at) ↦ elim (Bool-cases ((e.expire_at == expire_at) && is_expired now e)) [
            | inr kept ↦ rw (left e at kept) refl
            | inl due ↦
                let change = (taken e at due).1.entries key in
                let late : is_expired later e ≡ true =
                  is_expired-later now later e h (ground arith) in
                elim (dec target key) [
                  | yes same ↦
                      ap (alive later) (change ∙ if_pos (dec target key) same _ _)
                      ∙ sym (
                          ap (alive later) (subst (λ k. entry_of dec hasher s k ≡ some e) same at)
                          ∙ (rw late refl))
                  | no other ↦ ap (alive later) (change ∙ if_neg (dec target key) other _ _)
                ]
          ]
        ]

    -- On a valid store, no Get can tell whether expired entries have been taken out: after CollectExpired, and after
    -- DeleteIfExpired of any key, with its hash, and any expiration, at a time `now`, a Get at that time or later answers
    -- what it answered before. PeekByHash after CollectExpired answers what a Get at `now` answered before.
    pub collect_expired-get :
        (later : ℕ)
        → sle now later ≡ true
        → (key target : K) (expire_at : ℕ)
        → (get dec hasher (collect_expired dec s now).1 later key ≡ get dec hasher s later key)
          × (get dec hasher
                (delete_if_expired dec s target (hasher target) expire_at now).1
                later
                key
              ≡ get dec hasher s later key)
          × (peek_by_hash dec (collect_expired dec s now).1 key (hasher key)
              ≡ get dec hasher s now key)
    unfolding peek_by_hash
    collect_expired-get later h key target expire_at =
        let swept = (collect_expired-Purged dec hasher s v now).entries key in
        let before = get-alive s later key in
        (
          get-alive (collect_expired dec s now).1 later key
              ∙ ap (alive later) swept
              ∙ alive-alive now later (entry_of dec hasher s key) h
              ∙ sym before,
          get-alive (delete_if_expired dec s target (hasher target) expire_at now).1 later key
              ∙ unseen later h target key expire_at
              ∙ sym before,
          swept ∙ sym (get-alive s now key),
        )
