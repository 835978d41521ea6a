-- ===== src/Base/Sorting.antt =====
-- `slices.Sort` and `slices.Compact` over an order with laws.
use Prim.Native.Nat.{suc}
use mathlib.Core.Path.{◌≡◌, refl}
use mathlib.Core.Logic.{inl, inr, ◌≢◌}
use mathlib.Core.Bool.{Bool, true, false, ◌||◌}
use mathlib.Core.List.{List, [], ◌∷◌}
use native.Mathlib.Omega.{arith}
use arbiter_core.Base.Tests.{if◌then◌else◌, Bool-cases}
use arbiter_core.Base.Lists.{All, length}
use arbiter_core.Base.Order.{Eq, ◌≟◌, ≟_iff, ≟_refl, Ord, Order}
use arbiter_core.Base.Multiset.{count, contains}

abbrev pub is_more : Order → Bool
is_more Order.more = true
is_more Order.less = false
is_more Order.same = false

module _ {ℓ} {A : Type ℓ} ⦃o : Ord A⦄ where
  unfoldable pub insert_sorted : A → List A → List A
  insert_sorted x [] = x ∷ []
  insert_sorted x (y ∷ ys) = if is_more (o.cmp x y) then y ∷ insert_sorted x ys else x ∷ y ∷ ys

  unfoldable pub sort : List A → List A
  unfolding insert_sorted
  sort [] = []
  sort (x ∷ xs) = insert_sorted x (sort xs)

  abbrev pub IsSorted : List A → Type ℓ
  IsSorted [] = Unit
  IsSorted (x ∷ xs) = All (λ y. o.cmp x y ≢ Order.more) xs × IsSorted xs

  abbrev pub IsStrict : List A → Type ℓ
  IsStrict [] = Unit
  IsStrict (x ∷ xs) = All (λ y. o.cmp x y ≡ Order.less) xs × IsStrict xs

  pub cmp-le_trans :
      (a b c : A) → o.cmp a b ≢ Order.more → o.cmp b c ≢ Order.more → o.cmp a c ≢ Order.more
  cmp-le_trans a b c p q = ground (
    arith,
    o.cmp_trans a b c,
    o.cmp_same a b,
    o.cmp_same b c,
    o.cmp_same a c,
    o.cmp_flip a b,
    o.cmp_flip b c,
    o.cmp_flip a c,
  )

  All-le_trans :
      (x y : A) (ys : List A)
      → o.cmp x y ≢ Order.more
      → All (λ z. o.cmp y z ≢ Order.more) ys
      → All (λ z. o.cmp x z ≢ Order.more) ys
  All-le_trans x y [] h a = tt
  All-le_trans x y (z ∷ zs) h a = (cmp-le_trans x y z h a.0, All-le_trans x y zs h a.1)

  pub All-insert_sorted {κ} :
      (P : A → Type κ) (x : A) (ys : List A) → P x → All P ys → All P (insert_sorted x ys)
  unfolding insert_sorted
  All-insert_sorted P x [] p a = (p, tt)
  All-insert_sorted P x (y ∷ ys) p a = ground (arith, All-insert_sorted P x ys p a.1)

  insert_sorted-IsSorted : (x : A) (ys : List A) → IsSorted ys → IsSorted (insert_sorted x ys)
  unfolding insert_sorted
  insert_sorted-IsSorted x [] s = (tt, tt)
  insert_sorted-IsSorted x (y ∷ ys) s = elim (Bool-cases (is_more (o.cmp x y))) [
    | inl m ↦ rw m (
      All-insert_sorted (λ z. o.cmp y z ≢ Order.more) x ys (ground (arith, o.cmp_flip y x)) s.0,
      insert_sorted-IsSorted x ys s.1,
    )
    | inr m ↦
        let h : o.cmp x y ≢ Order.more = ground arith in rw m ((h, All-le_trans x y ys h s.0), s)
  ]

  pub All-sort {κ} : (P : A → Type κ) (xs : List A) → All P xs → All P (sort xs)
  unfolding sort
  All-sort P [] a = tt
  All-sort P (x ∷ xs) a = All-insert_sorted P x (sort xs) a.0 (All-sort P xs a.1)

  length-insert_sorted : (x : A) (ys : List A) → length (insert_sorted x ys) ≡ suc (length ys)
  unfolding insert_sorted
  length-insert_sorted x [] = refl
  length-insert_sorted x (y ∷ ys) = ground (arith, length-insert_sorted x ys)

  pub length-sort : (xs : List A) → length (sort xs) ≡ length xs
  unfolding sort
  length-sort [] = refl
  length-sort (x ∷ xs) = ground (arith, length-insert_sorted x (sort xs), length-sort xs)

  pub sort-IsSorted : (xs : List A) → IsSorted (sort xs)
  unfolding sort
  sort-IsSorted [] = tt
  sort-IsSorted (x ∷ xs) = insert_sorted-IsSorted x (sort xs) (sort-IsSorted xs)

module _ {ℓ} {A : Type ℓ} ⦃e : Eq A⦄ ⦃o : Ord A⦄ where
  count-insert_sorted :
      (a x : A) (ys : List A)
      → count a (insert_sorted x ys) ≡ (if x ≟ a then suc (count a ys) else count a ys)
  unfolding insert_sorted count
  count-insert_sorted a x [] = refl
  count-insert_sorted a x (y ∷ ys) = ground (arith, count-insert_sorted a x ys)

  pub count-sort : (a : A) (xs : List A) → count a (sort xs) ≡ count a xs
  unfolding sort count
  count-sort a [] = refl
  count-sort a (x ∷ xs) = ground (arith, count-insert_sorted a x (sort xs), count-sort a xs)

  contains-insert_sorted :
      (a x : A) (ys : List A) → contains a (insert_sorted x ys) ≡ ((x ≟ a) || contains a ys)
  unfolding insert_sorted contains
  contains-insert_sorted a x [] = refl
  contains-insert_sorted a x (y ∷ ys) = ground (arith, contains-insert_sorted a x ys)

  pub contains-sort : (a : A) (xs : List A) → contains a (sort xs) ≡ contains a xs
  unfolding sort contains
  contains-sort a [] = refl
  contains-sort a (x ∷ xs) =
      ground (arith, contains-insert_sorted a x (sort xs), contains-sort a xs)

  -- `slices.Compact`: of each run of equal values, one.
  unfoldable pub compact_from : A → List A → List A
  compact_from x [] = x ∷ []
  compact_from x (y ∷ ys) =
      let same_run = compact_from x ys in
      let next_run = compact_from y ys in if x ≟ y then same_run else x ∷ next_run

  unfoldable pub compact : List A → List A
  unfolding compact_from
  compact [] = []
  compact (x ∷ xs) = compact_from x xs

  contains-compact_from :
      (a x : A) (ys : List A) → contains a (compact_from x ys) ≡ contains a (x ∷ ys)
  unfolding compact_from contains
  contains-compact_from a x [] = refl
  contains-compact_from a x (y ∷ ys) =
      ground (arith, ≟_iff x y, contains-compact_from a x ys, contains-compact_from a y ys)

  All-compact_from {κ} :
      (P : A → Type κ) (x : A) (ys : List A) → P x → All P ys → All P (compact_from x ys)
  unfolding compact_from
  All-compact_from P x [] p a = (p, tt)
  All-compact_from P x (y ∷ ys) p a = elim (Bool-cases (x ≟ y)) [
    | inl e ↦ rw (e, compact_from) (All-compact_from P x ys p a.1)
    | inr e ↦ rw (e, compact_from) (p, All-compact_from P y ys a.0 a.1)
  ]

  pub All-compact {κ} : (P : A → Type κ) (xs : List A) → All P xs → All P (compact xs)
  unfolding compact
  All-compact P [] a = tt
  All-compact P (x ∷ xs) a = All-compact_from P x xs a.0 a.1

  pub contains-compact : (a : A) (xs : List A) → contains a (compact xs) ≡ contains a xs
  unfolding compact
  contains-compact a [] = refl
  contains-compact a (x ∷ xs) = contains-compact_from a x xs

  All-less :
      (x y : A) (ys : List A)
      → o.cmp x y ≡ Order.less
      → All (λ z. o.cmp y z ≢ Order.more) ys
      → All (λ z. o.cmp x z ≡ Order.less) ys
  All-less x y [] h a = tt
  All-less x y (z ∷ zs) h a = (
    ground (arith, a.0, o.cmp_trans x y z, o.cmp_same y z, o.cmp_flip y z),
    All-less x y zs h a.1,
  )

  compact_from-IsStrict : (x : A) (ys : List A) → IsSorted (x ∷ ys) → IsStrict (compact_from x ys)
  unfolding compact_from
  compact_from-IsStrict x [] s = (tt, tt)
  compact_from-IsStrict x (y ∷ ys) s = elim (Bool-cases (x ≟ y)) [
    | inl p ↦ rw p (compact_from-IsStrict x ys (s.0.1, s.1.1))
    | inr p ↦
        let lt : o.cmp x y ≡ Order.less = ground (arith, s.0.0, o.cmp_same x y, ≟_iff x y) in
        rw p (
          All-compact_from (λ z. o.cmp x z ≡ Order.less) y ys lt (All-less x y ys lt s.1.0),
          compact_from-IsStrict y ys s.1,
        )
  ]

  compact-IsStrict : (ys : List A) → IsSorted ys → IsStrict (compact ys)
  unfolding compact
  compact-IsStrict [] s = tt
  compact-IsStrict (y ∷ ys) s = compact_from-IsStrict y ys s

  -- Sorting and compacting gives each value once, ascending.
  pub compact-sort-IsStrict : (xs : List A) → IsStrict (compact (sort xs))
  compact-sort-IsStrict xs = compact-IsStrict (sort xs) (sort-IsSorted xs)

  pub All-contains {κ} :
      (P : A → Type κ) (a : A) (xs : List A) → All P xs → contains a xs ≡ true → P a
  unfolding contains
  All-contains P a [] h c = cc
  All-contains P a (x ∷ xs) h c = ground (arith, ≟_iff x a, All-contains P a xs h.1)

  strict_head :
      (x y : A) (xs ys : List A)
      → IsStrict (x ∷ xs)
      → IsStrict (y ∷ ys)
      → contains x (y ∷ ys) ≡ true
      → contains y (x ∷ xs) ≡ true
      → x ≡ y
  unfolding contains
  strict_head x y xs ys s t p q = ground (
    arith,
    ≟_iff x y,
    ≟_iff y x,
    o.cmp_flip x y,
    All-contains (λ z. o.cmp x z ≡ Order.less) y xs s.0,
    All-contains (λ z. o.cmp y z ≡ Order.less) x ys t.0,
  )

  strict_tail :
      (x a : A) (xs ys : List A)
      → IsStrict (x ∷ xs)
      → IsStrict (x ∷ ys)
      → contains a (x ∷ xs) ≡ contains a (x ∷ ys)
      → contains a xs ≡ contains a ys
  unfolding contains
  strict_tail x a xs ys s t h = ground (
    arith,
    ≟_iff x a,
    o.cmp_same x a,
    All-contains (λ z. o.cmp x z ≡ Order.less) a xs s.0,
    All-contains (λ z. o.cmp x z ≡ Order.less) a ys t.0,
  )

  strict_cons :
      (x y : A) (xs ys : List A)
      → x ≡ y
      → IsStrict (x ∷ xs)
      → IsStrict (y ∷ ys)
      → ((a : A) → contains a (x ∷ xs) ≡ contains a (y ∷ ys))
      → (((a : A) → contains a xs ≡ contains a ys) → xs ≡ ys)
      → x ∷ xs ≡ y ∷ ys
  strict_cons x y xs ys p s t h ih =
      let t' : IsStrict (x ∷ ys) = rw p t in
      let h' : (a : A) → contains a (x ∷ xs) ≡ contains a (x ∷ ys) = rw (← p) at h in
      let r : xs ≡ ys = ih (λ a. strict_tail x a xs ys s t' (h' a)) in cc

  -- Strictly ascending lists with the same members are equal.
  pub strict_unique :
      (xs ys : List A)
      → IsStrict xs
      → IsStrict ys
      → ((a : A) → contains a xs ≡ contains a ys)
      → xs ≡ ys
  unfolding contains
  strict_unique [] [] s t h = refl
  strict_unique [] (y ∷ ys) s t h = ground (arith, h y, ≟_refl y)
  strict_unique (x ∷ xs) [] s t h = ground (arith, h x, ≟_refl x)
  strict_unique (x ∷ xs) (y ∷ ys) s t h =
      let p : x ≡ y =
        strict_head x y xs ys s t (ground (arith, h x, ≟_refl x)) (ground (arith, h y, ≟_refl y)) in
      strict_cons x y xs ys p s t h (strict_unique xs ys s.1 t.1)
