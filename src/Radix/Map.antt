-- ===== src/Radix/Map.antt =====
-- internal/radix/tree.go: the map from keys to hashes that a tree stands for, and what a well-formed tree is.
use go_mcache.Base.{ℕ, ◌≡◌, ◌≢◌, List, [], ◌∷◌, Option, none, some, ◌==◌, if◌then◌else◌}
use go_mcache.Radix.{Node, node, Children, end, child, prefix_of}
use go_mcache.Radix.Strip.{strip, and_then}

unfoldable mutual
  pub value_at : Node → List ℕ → Option ℕ
  value_at (node p leaf h cs) [] = if leaf then some h else none
  value_at (node p leaf h cs) (c ∷ key) = value_in cs c (c ∷ key)

  pub value_in : Children → ℕ → List ℕ → Option ℕ
  value_in end c key = none
  value_in (child b n cs) c key =
      if b == c then and_then (strip (prefix_of n) key) (value_at n) else value_in cs c key

abbrev pub StartsWith : ℕ → List ℕ → Type 0
StartsWith b [] = ⊥
StartsWith b (x ∷ p) = x ≡ b

-- no child of a byte
abbrev pub Lacks : ℕ → Children → Type 0
Lacks c end = Unit
Lacks c (child b n cs) = (b ≢ c) × Lacks c cs

-- each child's prefix starts with its byte, and no byte has two children
abbrev mutual
  pub IsValid : Node → Type 0
  IsValid (node p leaf h cs) = AreValid cs

  pub AreValid : Children → Type 0
  AreValid end = Unit
  AreValid (child b n cs) = StartsWith b (prefix_of n) × (IsValid n × (Lacks b cs × AreValid cs))

-- `new` answers what `old` does, but `change` at one key
pub record Updates (key : List ℕ) (change : Option ℕ) (old new : List ℕ → Option ℕ) : Type 0 where
  pub here : new key ≡ change
  pub others : (k : List ℕ) → key ≢ k → new k ≡ old k
