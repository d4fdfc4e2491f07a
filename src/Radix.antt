-- ===== src/Radix.antt =====
-- internal/radix/tree.go: the radix tree over string keys, one call at a time. A string is the list of its
-- bytes. The children of a node, a Go map from a byte, are a list in the order of its `range`.
pub mod Strip
pub mod Map
pub mod Updates
pub mod Inserting
pub mod Valid
pub mod Has
pub mod Deleting
pub mod Deleted
pub mod Refines
pub mod Walk
pub mod Places
pub mod Hashes
pub mod Reports
mod Tests
use go_mcache.Base.{
  ℕ, zero, suc, ◌+◌, ◌-◌, Bool, true, false, not, ◌&&◌, List, [], ◌∷◌, ◌++◌, Option, none, some,
  length, take, drop, ltb, leb, ◌==◌, if◌then◌else◌,
}
use go_mcache.Base.Word.{add64, sub64}

mutual
  -- prefix, isLeaf, keyHash, children
  pub data Node : Type 0 where
    node : List ℕ → Bool → ℕ → Children → Node

  pub data Children : Type 0 where
    end : Children
    child : ℕ → Node → Children → Children

pub record Tree : Type 0 where
  pub root : Node
  pub size : ℕ

abbrev pub new : Tree
new = record { root = node [] false 0 end; size = 0 }

abbrev pub prefix_of : Node → List ℕ
prefix_of (node p leaf h cs) = p

abbrev pub is_leaf : Node → Bool
is_leaf (node p leaf h cs) = leaf

unfoldable pub common_prefix_len : List ℕ → List ℕ → ℕ
common_prefix_len [] b = 0
common_prefix_len (x ∷ a) [] = 0
common_prefix_len (x ∷ a) (y ∷ b) = if x == y then suc (common_prefix_len a b) else 0

abbrev pub new_leaf : List ℕ → ℕ → Node
new_leaf key hash = node key true hash end

-- `n.children[c] = m`
unfoldable pub put_child : ℕ → Node → Children → Children
put_child c m end = child c m end
put_child c m (child b n cs) = if b == c then child b m cs else child b n (put_child c m cs)

-- what is left of the key goes under a node for the common prefix, which holds the old child already
unfoldable pub add_remaining : List ℕ → List ℕ → ℕ → Children → Node
add_remaining common [] hash cs = node common true hash cs
add_remaining common (c ∷ key) hash cs =
    node common false 0 (put_child c (new_leaf (c ∷ key) hash) cs)

-- `newChild.children[child.prefix[0]] = child`
unfoldable pub under : List ℕ → Node → Children
under [] old = end
under (b ∷ p) old = child b old end

-- the old child, whose prefix goes on after the common one, and the new key are parted
unfoldable pub split_child : ℕ → Node → List ℕ → ℕ → Node
split_child common (node p leaf h cs) key hash =
    let old = node (drop common p) leaf h cs in
    add_remaining (take common p) (drop common key) hash (under (drop common p) old)

-- the node, and whether the key is new; then the same for the child of a byte
unfoldable mutual
  pub insert_node : Node → List ℕ → ℕ → Node × Bool
  insert_node (node p leaf h cs) [] hash = (node p true hash cs, not leaf)
  insert_node (node p leaf h cs) (c ∷ key) hash =
      let (cs', is_new) = insert_child cs c (c ∷ key) hash in (node p leaf h cs', is_new)

  pub insert_child : Children → ℕ → List ℕ → ℕ → Children × Bool
  insert_child end c key hash = (child c (new_leaf key hash) end, true)
  insert_child (child b n cs) c key hash =
      let common = common_prefix_len (prefix_of n) key in
      let deeper = insert_node n (drop common key) hash in
      let later = insert_child cs c key hash in
      if b == c
      then if common == length (prefix_of n)
        then (child b deeper.0 cs, deeper.1)
        else (child b (split_child common n key hash) cs, true)
      else (child b n later.0, later.1)

unfoldable pub insert : Tree → List ℕ → ℕ → Tree
insert t key hash =
    let (root, is_new) = insert_node t.root key hash in
    record { root = root; size = if is_new then add64 t.size 1 else t.size }

-- a child after a deletion below it: gone when it holds nothing, merged with its only child
unfoldable pub cleaned : ℕ → Node → Children → Children
cleaned b (node p false h end) cs = cs
cleaned b (node p false h (child b' (node q leaf h' ds) end)) cs =
    child b (node (p ++ q) leaf h' ds) cs
cleaned b n cs = child b n cs

-- the node, and whether the key was there
unfoldable mutual
  pub delete_node : Node → List ℕ → Node × Bool
  delete_node (node p true h cs) [] = (node p false 0 cs, true)
  delete_node (node p false h cs) [] = (node p false h cs, false)
  delete_node (node p leaf h cs) (c ∷ key) =
      let (cs', deleted) = delete_child cs c (c ∷ key) in (node p leaf h cs', deleted)

  pub delete_child : Children → ℕ → List ℕ → Children × Bool
  delete_child end c key = (end, false)
  delete_child (child b n cs) c key =
      let common = common_prefix_len (prefix_of n) key in
      let deeper = delete_node n (drop common key) in
      let later = delete_child cs c key in
      if b == c
      then if ltb common (length (prefix_of n))
        then (child b n cs, false)
        else (cleaned b deeper.0 cs, deeper.1)
      else (child b n later.0, later.1)

unfoldable pub delete : Tree → List ℕ → Bool × Tree
delete t key =
    let (root, deleted) = delete_node t.root key in
    (deleted, record { root = root; size = if deleted then sub64 t.size 1 else t.size })

-- the loop of Has from a node
unfoldable mutual
  pub has_node : Node → List ℕ → Bool
  has_node (node p leaf h cs) [] = leaf
  has_node (node p leaf h cs) (c ∷ key) = has_child cs c (c ∷ key)

  pub has_child : Children → ℕ → List ℕ → Bool
  has_child end c key = false
  has_child (child b n cs) c key =
      let common = common_prefix_len (prefix_of n) key in
      let deeper = has_node n (drop common key) in
      let later = has_child cs c key in
      if b == c
      then if ltb common (length (prefix_of n))
        then false
        else if common == length key
        then is_leaf n
        else deeper
      else later

unfoldable pub has : Tree → List ℕ → Bool
has t key = has_node t.root key

unfoldable pub clear : Tree → Tree
clear t = new
