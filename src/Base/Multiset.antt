-- ===== src/Base/Multiset.antt =====
-- Multisets: how often a value stands in a list, and Go's `map[string]int` counters as functions,
-- where a missing key reads 0.
use Prim.Native.Nat.{ℕ, suc, ◌+◌, ◌-◌, ◌≤◌}
use mathlib.Core.Path.{◌≡◌, refl, sym, ap, ◌∙◌}
use mathlib.Core.Logic.{inl, inr}
use mathlib.Core.Bool.{Bool, false, ◌||◌}
use mathlib.Core.List.{List, [], ◌∷◌, ◌++◌}
use native.Mathlib.Omega.{arith}
use arbiter_core.Base.Tests.{if◌then◌else◌, Bool-cases, ltb}
use arbiter_core.Base.Lists.{length}
use arbiter_core.Base.Order.{Eq, ◌≟◌, ≟_iff}

module _ {ℓ} {A : Type ℓ} ⦃e : Eq A⦄ where
  unfoldable pub count : A → List A → ℕ
  count a [] = 0
  count a (x ∷ xs) = if x ≟ a then suc (count a xs) else count a xs

  -- `slices.Contains`.
  unfoldable pub contains : A → List A → Bool
  contains a [] = false
  contains a (x ∷ xs) = (x ≟ a) || contains a xs

  -- The same values, as often.
  abbrev pub SameItems : List A → List A → Type ℓ
  SameItems xs ys = (a : A) → count a xs ≡ count a ys

  pub count-append : (a : A) (xs ys : List A) → count a (xs ++ ys) ≡ count a xs + count a ys
  unfolding count
  count-append a [] ys = omega arith
  count-append a (x ∷ xs) ys = ground (arith, count-append a xs ys)

  pub contains-append :
      (a : A) (xs ys : List A) → contains a (xs ++ ys) ≡ (contains a xs || contains a ys)
  unfolding contains
  contains-append a [] ys = refl
  contains-append a (x ∷ xs) ys = ground (arith, contains-append a xs ys)

  pub contains-count : (a : A) (xs : List A) → contains a xs ≡ ltb 0 (count a xs)
  unfolding contains count
  contains-count a [] = refl
  contains-count a (x ∷ xs) = ground (arith, contains-count a xs)

  -- A counter with one more, and with one fewer, at a value.
  unfoldable pub bump : A → (A → ℕ) → A → ℕ
  bump a left b = if a ≟ b then suc (left b) else left b

  unfoldable pub take_one : A → (A → ℕ) → A → ℕ
  take_one a left b = if a ≟ b then left b - 1 else left b

  remove_one : A → List A → List A
  remove_one a [] = []
  remove_one a (x ∷ xs) = if x ≟ a then xs else x ∷ remove_one a xs

  count-remove_one :
      (a x : A) (xs : List A)
      → suc 0 ≤ count x xs
      → count a xs ≡ (if x ≟ a then suc (count a (remove_one x xs)) else count a (remove_one x xs))
  unfolding count remove_one
  count-remove_one a x [] h = absurd (omega arith)
  count-remove_one a x (y ∷ ys) h =
      ground (arith, ≟_iff y x, ≟_iff x a, ≟_iff y a, count-remove_one a x ys)

  length-remove_one :
      (x : A) (xs : List A) → suc 0 ≤ count x xs → suc (length (remove_one x xs)) ≡ length xs
  unfolding count remove_one
  length-remove_one x [] h = absurd (omega arith)
  length-remove_one x (y ∷ ys) h = ground (arith, length-remove_one x ys)

  -- A multiset within another of the same size is the other.
  pub count-le_eq :
      (xs ys : List A)
      → ((a : A) → count a xs ≤ count a ys)
      → length xs ≡ length ys
      → SameItems xs ys
  unfolding count
  count-le_eq [] [] h p a = refl
  count-le_eq [] (y ∷ ys) h p a = absurd (omega arith)
  count-le_eq (x ∷ xs) ys h p a =
      let here : suc 0 ≤ count x ys = ground (arith, h x, ≟_iff x x) in
      let rest =
        count-le_eq xs (remove_one x ys) (λ b. ground (arith, h b, count-remove_one b x ys))
          (omega (arith, length-remove_one x ys here)) in
      ground (arith, rest a, count-remove_one a x ys)

  -- A function of lists that two swaps leave alone is a function of multisets.
  module _ {κ} {B : Type κ} (f : List A → B)
      (swap : (x y : A) (zs : List A) → f (x ∷ y ∷ zs) ≡ f (y ∷ x ∷ zs))
      (under : (x : A) (ys zs : List A) → f ys ≡ f zs → f (x ∷ ys) ≡ f (x ∷ zs)) where
    pull_front : (x : A) (ys : List A) → suc 0 ≤ count x ys → f ys ≡ f (x ∷ remove_one x ys)
    unfolding count remove_one
    pull_front x [] h = absurd (omega arith)
    pull_front x (y ∷ ys) h = elim (Bool-cases (y ≟ x)) [
      | inl p ↦ rw p (ap (λ z. f (z ∷ ys)) ((≟_iff y x).0 p))
      | inr p ↦ rw p (
          under y ys (x ∷ remove_one x ys) (pull_front x ys (ground arith))
          ∙ swap y x (remove_one x ys))
    ]

    pub SameItems-eq : (xs ys : List A) → SameItems xs ys → f xs ≡ f ys
    unfolding count
    SameItems-eq [] [] h = refl
    SameItems-eq [] (y ∷ ys) h = absurd (ground (arith, h y, ≟_iff y y))
    SameItems-eq (x ∷ xs) ys h =
        let here : suc 0 ≤ count x ys = ground (arith, h x, ≟_iff x x) in
        under x xs (remove_one x ys)
          (SameItems-eq xs (remove_one x ys) (λ a. ground (arith, h a, count-remove_one a x ys)))
        ∙ sym (pull_front x ys here)
