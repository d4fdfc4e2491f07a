-- ===== src/Radix/Strip.antt =====
-- internal/radix/tree.go: commonPrefixLen cuts two strings where they part.
use go_mcache.Base.{
  ℕ, suc, ◌<◌, ◌≡◌, refl, sym, ap, ap₂, ◌∙◌, ◌≢◌, ◌⊎◌, inl, inr, List, [], ◌∷◌, ◌++◌, Option, none,
  some, arith, length, take, drop, ◌==◌, if◌then◌else◌, Bool-cases, length-append,
}
use mathlib.Core.List.{append-nil}
use go_mcache.Radix.{common_prefix_len}

-- the rest of a key that starts with a prefix
unfoldable pub strip : List ℕ → List ℕ → Option (List ℕ)
strip [] key = some key
strip (x ∷ p) [] = none
strip (x ∷ p) (y ∷ key) = if x == y then strip p key else none

-- one of them ends, or they differ at once
abbrev pub Apart : List ℕ → List ℕ → Type 0
Apart [] w = Unit
Apart (x ∷ v) [] = Unit
Apart (x ∷ v) (y ∷ w) = x ≢ y

pub record Parted (p key : List ℕ) : Type 0 where
  pub common : List ℕ
  pub rest_of_prefix : List ℕ
  pub rest_of_key : List ℕ
  pub prefix_cut : p ≡ common ++ rest_of_prefix
  pub key_cut : key ≡ common ++ rest_of_key
  pub apart : Apart rest_of_prefix rest_of_key
  pub len : common_prefix_len p key ≡ length common

pub parted : (p key : List ℕ) → Parted p key
unfolding common_prefix_len
parted [] key = record {
  common = [];
  rest_of_prefix = [];
  rest_of_key = key;
  prefix_cut = refl;
  key_cut = refl;
  apart = tt;
  len = refl;
}
parted (x ∷ p) [] = record {
  common = [];
  rest_of_prefix = x ∷ p;
  rest_of_key = [];
  prefix_cut = refl;
  key_cut = refl;
  apart = tt;
  len = refl;
}
parted (x ∷ p) (y ∷ key) = elim (Bool-cases (x == y)) [
  | inr h ↦ record {
    common = [];
    rest_of_prefix = x ∷ p;
    rest_of_key = y ∷ key;
    prefix_cut = refl;
    key_cut = refl;
    apart = λ e. ground arith;
    len = rw h refl;
  }
  | inl h ↦
      let same : x ≡ y = ground arith in
      let r = parted p key in
      record {
        common = x ∷ r.common;
        rest_of_prefix = r.rest_of_prefix;
        rest_of_key = r.rest_of_key;
        prefix_cut = ap (λ t. x ∷ t) r.prefix_cut;
        key_cut = ap₂ (λ a t. a ∷ t) (sym same) r.key_cut;
        apart = r.apart;
        len = rw h (ap suc r.len);
      }
]

pub take-append : (u v : List ℕ) → take (length u) (u ++ v) ≡ u
take-append [] v = refl
take-append (x ∷ u) v = ap (λ t. x ∷ t) (take-append u v)

pub drop-append : (u v : List ℕ) → drop (length u) (u ++ v) ≡ v
drop-append [] v = refl
drop-append (x ∷ u) v = drop-append u v

abbrev pub and_then : {A B : Type 0} → Option A → (A → Option B) → Option B
and_then none f = none
and_then (some a) f = f a

pub strip-append : (u v key : List ℕ) → strip (u ++ v) key ≡ and_then (strip u key) (strip v)
unfolding strip
strip-append [] v key = refl
strip-append (x ∷ u) v [] = refl
strip-append (x ∷ u) v (y ∷ key) = ground (arith, strip-append u v key)

pub strip_whole : (u w : List ℕ) → strip u (u ++ w) ≡ some w
unfolding strip
strip_whole [] w = refl
strip_whole (x ∷ u) w = ground (arith, strip_whole u w)

pub strip_sound : (u key rest : List ℕ) → strip u key ≡ some rest → key ≡ u ++ rest
unfolding strip
strip_sound [] key rest h = ground arith
strip_sound (x ∷ u) [] rest h = ground arith
strip_sound (x ∷ u) (y ∷ key) rest h = ground (arith, strip_sound u key rest)

pub strip-Apart : (v w : List ℕ) (x y : ℕ) → Apart (x ∷ v) (y ∷ w) → strip (x ∷ v) (y ∷ w) ≡ none
unfolding strip
strip-Apart v w x y h = ground arith

-- the key goes on after the prefix, or parts from it earlier
pub record Follows (p key : List ℕ) : Type 0 where
  pub rest : List ℕ
  pub cut : key ≡ p ++ rest
  pub stripped : strip p key ≡ some rest
  pub whole : common_prefix_len p key ≡ length p
  pub dropped : drop (length p) key ≡ rest

pub record Leaves (p key : List ℕ) : Type 0 where
  pub stripped : strip p key ≡ none
  pub early : common_prefix_len p key < length p

pub strip_early : (u v w : List ℕ) (x : ℕ) → Apart (x ∷ v) w → strip (u ++ x ∷ v) (u ++ w) ≡ none
unfolding strip
strip_early [] v [] x apart = refl
strip_early [] v (y ∷ w) x apart = strip-Apart v w x y apart
strip_early (a ∷ u) v w x apart = ground (arith, strip_early u v w x apart)

meeting :
    (p key u v w : List ℕ)
    → p ≡ u ++ v
    → key ≡ u ++ w
    → Apart v w
    → common_prefix_len p key ≡ length u
    → Follows p key ⊎ Leaves p key
meeting p key u [] w ep ek apart len =
    let plain : u ≡ p = sym (ep ∙ append-nil u) in
    let cut : key ≡ p ++ w = ek ∙ ap (λ u. u ++ w) plain in
    inl (record {
      rest = w;
      cut = cut;
      stripped = ap (strip p) cut ∙ strip_whole p w;
      whole = len ∙ ap length plain;
      dropped = ap (drop (length p)) cut ∙ drop-append p w;
    })
meeting p key u (x ∷ v) w ep ek apart len = inr (record {
  stripped = ap₂ strip ep ek ∙ strip_early u v w x apart;
  early = omega (arith, len, ap length ep, length-append u (x ∷ v));
})

pub meets : (p key : List ℕ) → Follows p key ⊎ Leaves p key
meets p key =
    let r = parted p key in
    meeting p key r.common r.rest_of_prefix r.rest_of_key r.prefix_cut r.key_cut r.apart r.len
