-- ===== src/Base/Lists.antt =====
-- List functions over the native numbers.
use Prim.Native.Nat.{ℕ, suc, ◌+◌, ◌<◌}
use mathlib.Core.Path.{◌≡◌, refl}
use mathlib.Core.Bool.{Bool, true, false, ◌&&◌, ◌||◌}
use mathlib.Core.List.{List, [], ◌∷◌, ◌++◌, map}
use native.Mathlib.Omega.{arith}
use arbiter_core.Base.Tests.{if◌then◌else◌}

module _ {ℓ} {A : Type ℓ} where
  abbrev pub length : List A → ℕ
  length [] = 0
  length (x ∷ xs) = suc (length xs)

  -- `filter` by a Boolean test, as Go's loops and `slices.DeleteFunc` do.
  abbrev pub keep_if : (A → Bool) → List A → List A
  keep_if p [] = []
  keep_if p (x ∷ xs) = let rest = keep_if p xs in if p x then x ∷ rest else rest

  abbrev pub any : (A → Bool) → List A → Bool
  any p [] = false
  any p (x ∷ xs) = p x || any p xs

  abbrev pub all : (A → Bool) → List A → Bool
  all p [] = true
  all p (x ∷ xs) = p x && all p xs

  -- Each element satisfies the predicate.
  abbrev pub All {κ} : (A → Type κ) → List A → Type κ
  All P [] = Unit
  All P (x ∷ xs) = P x × All P xs

  pub length-append : (xs ys : List A) → length (xs ++ ys) ≡ length xs + length ys
  length-append [] ys = omega arith
  length-append (x ∷ xs) ys = omega (arith, length-append xs ys)

  pub All-map {κ υ} :
      {P : A → Type κ} {Q : A → Type υ} (f : (a : A) → P a → Q a) (xs : List A)
      → All P xs
      → All Q xs
  All-map f [] h = tt
  All-map f (x ∷ xs) h = (f x h.0, All-map f xs h.1)

  pub All-keep_if {κ} :
      (P : A → Type κ) (p : A → Bool) (xs : List A) → All P xs → All P (keep_if p xs)
  All-keep_if P p [] h = tt
  All-keep_if P p (x ∷ xs) h = ground (arith, All-keep_if P p xs h.1)

pub All-map_fixed {ℓ} :
    {A : Type ℓ} (f : A → A) (xs : List A) → All (λ x. f x ≡ x) xs → map f xs ≡ xs
All-map_fixed f [] h = refl
All-map_fixed f (x ∷ xs) h = let here = h.0 in let there = All-map_fixed f xs h.1 in cc

pub map_fixed-All {ℓ} :
    {A : Type ℓ} (f : A → A) (xs : List A)
    → map f (map f xs) ≡ map f xs
    → All (λ x. f x ≡ x) (map f xs)
map_fixed-All f [] h = tt
map_fixed-All f (x ∷ xs) h = (cc, map_fixed-All f xs cc)

-- Numbers that strictly ascend from above a bound.
abbrev pub Above : ℕ → List ℕ → Type 0
Above lo [] = Unit
Above lo (n ∷ ns) = (lo < n) × Above n ns
