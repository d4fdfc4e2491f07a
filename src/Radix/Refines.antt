-- ===== src/Radix/Refines.antt =====
-- internal/radix/tree.go: a run of calls against a map from keys to hashes.
use go_mcache.Base.{
  ℕ, ◌≡◌, refl, sym, ap, ◌∙◌, inl, inr, true, false, not, List, [], ◌∷◌, Option, none, some,
  if◌then◌else◌,
}
use go_mcache.Base.Word.{add64, sub64}
use go_mcache.Radix.{Tree, node, end, new, insert, insert_node, delete, delete_node, has, clear}
use mathlib.Core.List.{List-discrete}
use go_mcache.Base.{
  length, arith, ℕ_discrete, ite, if_pos, if_neg, ◌%◌, ◌^◌, ap, Option-cases, length-append,
}
use go_mcache.Base.Assoc.{
  find, put, remove, Distinct, find-put, find-remove, Distinct-put, Distinct-remove, put_new,
  length-put_old, length-remove, remove_absent,
}
use go_mcache.Radix.Map.{value_at, IsValid, Updates}
use go_mcache.Radix.Inserting.{insert_node-Updates}
use go_mcache.Radix.Valid.{insert_node-IsValid}
use go_mcache.Radix.Has.{is_some, has_node_lem}
use go_mcache.Radix.Deleting.{delete_node-IsValid}
use go_mcache.Radix.Deleted.{delete_node-Updates, insert_node_reports, delete_node_reports}

abbrev pub same_key : Discrete (List ℕ)
same_key = List-discrete ℕ_discrete

-- a tree and the map that it holds, which the size counts
pub record Holds (t : Tree) (m : List (List ℕ × ℕ)) : Type 0 where
  pub valid : IsValid t.root
  pub distinct : Distinct same_key m
  pub agrees : (key : List ℕ) → value_at t.root key ≡ find same_key key m
  pub counted : t.size ≡ length m % 2 ^ 64

updated :
    (key : List ℕ) (change : Option ℕ) (f g h : List ℕ → Option ℕ) (k : List ℕ)
    → Updates key change f g
    → f k ≡ h k
    → g k ≡ ite (same_key key k) change (h k)
updated key change f g h k up e = elim (same_key key k) [
  | yes p ↦ rw (if_pos _ p) (ap g (sym p) ∙ up.here)
  | no p ↦ rw (if_neg _ p) (up.others k p ∙ e)
]

pub new-Holds : Holds new []
new-Holds = record { valid = tt; distinct = tt; agrees = empty; counted = refl }
  where
    empty : (key : List ℕ) → value_at (node [] false 0 end) key ≡ find same_key key []
    empty [] = unfold value_at find in refl
    empty (c ∷ key) = unfold value_at find in refl

module _ (t : Tree) (m : List (List ℕ × ℕ)) (at : Holds t m) (key : List ℕ) where
  grown :
      (hash : ℕ)
      → (if not (is_some (find same_key key m)) then add64 t.size 1 else t.size)
        ≡ length (put same_key key hash m) % 2 ^ 64
  grown hash = elim (Option-cases (find same_key key m)) [
    | inl e ↦
        rw (e, put_new same_key key hash m e, length-append m ((key, hash) ∷ []), at.counted)
          (omega arith)
    | inr (w, e) ↦ rw (e, length-put_old same_key key hash w m e) at.counted
  ]

  insert-Holds : (hash : ℕ) → Holds (insert t key hash) (put same_key key hash m)
  unfolding insert
  insert-Holds hash = record {
    valid = insert_node-IsValid t.root key hash at.valid;
    distinct = Distinct-put same_key key hash m at.distinct;
    agrees = λ k.
        updated key (some hash) (value_at t.root) (value_at (insert_node t.root key hash).0)
          (λ k. find same_key k m) k (insert_node-Updates t.root key hash) (at.agrees k)
        ∙ sym (find-put same_key key k hash m);
    counted = rw (insert_node_reports t.root key hash, at.agrees key) (grown hash);
  }

  shrunk :
      (if is_some (find same_key key m) then sub64 t.size 1 else t.size)
      ≡ length (remove same_key key m) % 2 ^ 64
  shrunk = elim (Option-cases (find same_key key m)) [
    | inl e ↦ rw (e, remove_absent same_key key m e) at.counted
    | inr (w, e) ↦ rw (e, at.counted, ← length-remove same_key key w m e) (omega arith)
  ]

  delete-Holds :
      ((delete t key).0 ≡ is_some (find same_key key m))
      × Holds (delete t key).1 (remove same_key key m)
  unfolding delete
  delete-Holds = (
    delete_node_reports t.root key ∙ ap is_some (at.agrees key),
    record {
      valid = delete_node-IsValid t.root key at.valid;
      distinct = Distinct-remove same_key key m at.distinct;
      agrees = λ k.
          updated key none (value_at t.root) (value_at (delete_node t.root key).0)
            (λ k. find same_key k m) k (delete_node-Updates t.root key at.valid) (at.agrees k)
          ∙ sym (find-remove same_key key k m at.distinct);
      counted = rw (delete_node_reports t.root key, at.agrees key) shrunk;
    },
  )

  has_found : has t key ≡ is_some (find same_key key m)
  unfolding has
  has_found = has_node_lem t.root key ∙ ap is_some (at.agrees key)

-- the calls that change a tree
pub data Call : Type 0 where
  call_insert : List ℕ → ℕ → Call
  call_delete : List ℕ → Call
  call_clear : Call

-- the tree and the map after a call, and after a run of calls
unfoldable pub call : Call → Tree → Tree
call (call_insert key hash) t = insert t key hash
call (call_delete key) t = (delete t key).1
call call_clear t = clear t

unfoldable pub change : Call → List (List ℕ × ℕ) → List (List ℕ × ℕ)
change (call_insert key hash) m = put same_key key hash m
change (call_delete key) m = remove same_key key m
change call_clear m = []

unfoldable pub run : List Call → Tree → Tree
run [] t = t
run (c ∷ calls) t = run calls (call c t)

unfoldable pub changes : List Call → List (List ℕ × ℕ) → List (List ℕ × ℕ)
changes [] m = m
changes (c ∷ calls) m = changes calls (change c m)

call-Holds :
    (c : Call) (t : Tree) (m : List (List ℕ × ℕ)) → Holds t m → Holds (call c t) (change c m)
unfolding call change clear
call-Holds (call_insert key hash) t m at = insert-Holds t m at key hash
call-Holds (call_delete key) t m at = (delete-Holds t m at key).1
call-Holds call_clear t m at = new-Holds

pub run-Holds :
    (calls : List Call) (t : Tree) (m : List (List ℕ × ℕ))
    → Holds t m
    → Holds (run calls t) (changes calls m)
unfolding run changes
run-Holds [] t m at = at
run-Holds (c ∷ calls) t m at = run-Holds calls (call c t) (change c m) (call-Holds c t m at)

-- After any calls of Insert, Delete and Clear on a new tree, Has and what a next Delete reports are whether
-- the map after the same changes has the key, Insert makes Has of its key true, and the size is the number of
-- the map's entries modulo 2^64.
pub run-Refines :
    (calls : List Call) (key : List ℕ) (hash : ℕ)
    → (has (run calls new) key ≡ is_some (find same_key key (changes calls [])))
      × ((delete (run calls new) key).0 ≡ is_some (find same_key key (changes calls [])))
      × (has (insert (run calls new) key hash) key ≡ true)
      × ((run calls new).size ≡ length (changes calls []) % 2 ^ 64)
run-Refines calls key hash =
    let t = run calls new in
    let m = changes calls [] in
    let at = run-Holds calls new [] new-Holds in
    (has_found t m at key, (delete-Holds t m at key).0, there t m at, at.counted)
  where
    there : (t : Tree) (m : List (List ℕ × ℕ)) → Holds t m → has (insert t key hash) key ≡ true
    there t m at =
        has_found (insert t key hash) (put same_key key hash m) (insert-Holds t m at key hash) key
        ∙ ap is_some (find-put same_key key key hash m ∙ if_pos (same_key key key) refl _ _)
