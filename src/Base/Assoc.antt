-- ===== src/Base/Assoc.antt =====
-- A Go map as an association list: `m[k]`, `m[k] = v`, `delete(m, k)`. The order of the list is the
-- order of a `range`, which Go leaves open: a write of a present key keeps its place, a new key goes
-- to the end. `Distinct` says that no key stands twice.
use Prim.Native.Nat.{suc}
use mathlib.Core.Path.{◌≡◌, refl}
use mathlib.Core.Logic.{◌≢◌, ite, if_pos, if_neg}
use mathlib.Core.List.{List, [], ◌∷◌, ◌++◌}
use mathlib.Core.Option.{Option, none, some}
use native.Mathlib.Omega.{arith}
use go_mcache.Base.Lists.{length}

module _ {ℓ} {K V : Type ℓ} (dec : Discrete K) where
  unfoldable pub find : K → List (K × V) → Option V
  find k [] = none
  find k ((j, v) ∷ m) = ite (dec j k) (some v) (find k m)

  unfoldable pub put : K → V → List (K × V) → List (K × V)
  put k v [] = (k, v) ∷ []
  put k v ((j, w) ∷ m) = ite (dec j k) ((k, v) ∷ m) ((j, w) ∷ put k v m)

  unfoldable pub remove : K → List (K × V) → List (K × V)
  remove k [] = []
  remove k ((j, w) ∷ m) = ite (dec j k) m ((j, w) ∷ remove k m)

  abbrev pub Distinct : List (K × V) → Type ℓ
  Distinct [] = Unit
  Distinct ((k, v) ∷ m) = (find k m ≡ none) × Distinct m

  pub find-put :
      (k j : K) (v : V) (m : List (K × V)) → find j (put k v m) ≡ ite (dec k j) (some v) (find j m)
  unfolding find put
  find-put k j v [] = refl
  find-put k j v ((i, w) ∷ m) = ground (arith, find-put k j v m)

  pub find-remove_ne : (k j : K) (m : List (K × V)) → k ≢ j → find j (remove k m) ≡ find j m
  unfolding find remove
  find-remove_ne k j [] h = refl
  find-remove_ne k j ((i, w) ∷ m) h = ground (arith, find-remove_ne k j m)

  pub find-remove_self : (k : K) (m : List (K × V)) → Distinct m → find k (remove k m) ≡ none
  unfolding find remove
  find-remove_self k [] d = refl
  find-remove_self k ((i, w) ∷ m) d = ground (arith, find-remove_self k m)

  pub find-remove :
      (k j : K) (m : List (K × V))
      → Distinct m
      → find j (remove k m) ≡ ite (dec k j) none (find j m)
  find-remove k j m d = elim (dec k j) [
    | yes p ↦ rw (if_pos _ p) (rw (← p) (find-remove_self k m d))
    | no p ↦ rw (if_neg _ p) (find-remove_ne k j m p)
  ]

  pub remove_absent : (k : K) (m : List (K × V)) → find k m ≡ none → remove k m ≡ m
  unfolding find remove
  remove_absent k [] h = refl
  remove_absent k ((i, w) ∷ m) h = ground (arith, remove_absent k m)

  pub Distinct-put : (k : K) (v : V) (m : List (K × V)) → Distinct m → Distinct (put k v m)
  unfolding find put
  Distinct-put k v [] d = (refl, tt)
  Distinct-put k v ((i, w) ∷ m) d = elim (dec i k) [
    | yes p ↦ rw (if_pos _ p) (ground arith, d.1)
    | no p ↦ rw (if_neg _ p) (ground (arith, find-put k i v m), Distinct-put k v m d.1)
  ]

  pub Distinct-remove : (k : K) (m : List (K × V)) → Distinct m → Distinct (remove k m)
  unfolding find remove
  Distinct-remove k [] d = tt
  Distinct-remove k ((i, w) ∷ m) d = elim (dec i k) [
    | yes p ↦ rw (if_pos _ p) d.1
    | no p ↦ rw (if_neg _ p) (ground (arith, find-remove_ne k i m), Distinct-remove k m d.1)
  ]

  pub put_new : (k : K) (v : V) (m : List (K × V)) → find k m ≡ none → put k v m ≡ m ++ (k, v) ∷ []
  unfolding find put
  put_new k v [] h = refl
  put_new k v ((i, w) ∷ m) h = ground (arith, put_new k v m)

  pub length-put_old :
      (k : K) (v w : V) (m : List (K × V)) → find k m ≡ some w → length (put k v m) ≡ length m
  unfolding find put
  length-put_old k v w [] h = ground arith
  length-put_old k v w ((i, u) ∷ m) h = ground (arith, length-put_old k v w m)

  pub length-remove :
      (k : K) (v : V) (m : List (K × V)) → find k m ≡ some v → suc (length (remove k m)) ≡ length m
  unfolding find remove
  length-remove k v [] h = ground arith
  length-remove k v ((i, u) ∷ m) h = ground (arith, length-remove k v m)
