-- ===== src/Base/Order.antt =====
-- Equality and order tests as instances, and Go strings as lists of bytes.
use Prim.Native.Nat.{ℕ}
use mathlib.Core.Path.{ap, ◌≡◌, refl}
use mathlib.Core.Logic.{◌↔◌}
use mathlib.Core.Bool.{Bool, true, false, ◌&&◌}
use mathlib.Core.List.{List, [], ◌∷◌}
use native.Mathlib.Omega.{arith}
use arbiter_core.Base.Tests.{ltb, ◌==◌ as nat_beq, ==_iff, if◌then◌else◌}

-- Go's `==` on a comparable type.
pub record Eq {ℓ} (T : Type ℓ) : Type ℓ where
  pub beq : T → T → Bool
  pub beq_iff : (left right : T) → (beq left right ≡ true) ↔ (left ≡ right)

infix 50 ◌≟◌
abbrev pub ◌≟◌ {ℓ} : {A : Type ℓ} ⦃e : Eq A⦄ → A → A → Bool
◌≟◌ ⦃e⦄ = e.beq

pub ≟_iff {ℓ} : {A : Type ℓ} ⦃e : Eq A⦄ (a b : A) → ((a ≟ b) ≡ true) ↔ (a ≡ b)
≟_iff ⦃e⦄ a b = e.beq_iff a b

pub ≟_refl {ℓ} : {A : Type ℓ} ⦃e : Eq A⦄ (a : A) → (a ≟ a) ≡ true
≟_refl ⦃e⦄ a = (e.beq_iff a a).1 refl

instance abbrev pub nat_eq : Eq ℕ
nat_eq = record { beq = nat_beq; beq_iff = ==_iff }

module _ {ℓ} {A : Type ℓ} ⦃e : Eq A⦄ where
  unfoldable pub list_beq : List A → List A → Bool
  list_beq [] [] = true
  list_beq [] (y ∷ ys) = false
  list_beq (x ∷ xs) [] = false
  list_beq (x ∷ xs) (y ∷ ys) = (x ≟ y) && list_beq xs ys

  list_beq_sound : (xs ys : List A) → list_beq xs ys ≡ true → xs ≡ ys
  unfolding list_beq
  list_beq_sound [] [] h = refl
  list_beq_sound [] (y ∷ ys) h = cc
  list_beq_sound (x ∷ xs) [] h = cc
  list_beq_sound (x ∷ xs) (y ∷ ys) h = ground (arith, e.beq_iff x y, list_beq_sound xs ys)

  list_beq_refl : (xs : List A) → list_beq xs xs ≡ true
  unfolding list_beq
  list_beq_refl [] = refl
  list_beq_refl (x ∷ xs) = ground (arith, e.beq_iff x x, list_beq_refl xs)

  pub list_beq_iff : (xs ys : List A) → (list_beq xs ys ≡ true) ↔ (xs ≡ ys)
  list_beq_iff xs ys = (list_beq_sound xs ys, λ p. ground (arith, p, list_beq_refl xs))

instance abbrev pub list_eq {ℓ} : {A : Type ℓ} ⦃e : Eq A⦄ → Eq (List A)
list_eq = record { beq = list_beq; beq_iff = list_beq_iff }

-- A Go string: its bytes.
abbrev pub Bytes : Type 0
Bytes = List ℕ

pub data Order : Type 0 where
  less same more : Order

-- A total order by a three-way comparison, as Go's `cmp.Compare` and `strings.Compare`.
pub record Ord {ℓ} (A : Type ℓ) : Type ℓ where
  pub cmp : A → A → Order
  pub cmp_same : (a b : A) → (cmp a b ≡ Order.same) ↔ (a ≡ b)
  pub cmp_flip : (a b : A) → (cmp a b ≡ Order.less) ↔ (cmp b a ≡ Order.more)
  pub cmp_trans : (a b c : A) → cmp a b ≡ Order.less → cmp b c ≡ Order.less → cmp a c ≡ Order.less

abbrev pub nat_cmp : ℕ → ℕ → Order
nat_cmp a b = if ltb a b then Order.less else if ltb b a then Order.more else Order.same

pub nat_cmp_same : (a b : ℕ) → (nat_cmp a b ≡ Order.same) ↔ (a ≡ b)
nat_cmp_same a b = ground arith

pub nat_cmp_flip : (a b : ℕ) → (nat_cmp a b ≡ Order.less) ↔ (nat_cmp b a ≡ Order.more)
nat_cmp_flip a b = ground arith

pub nat_cmp_trans :
    (a b c : ℕ) → nat_cmp a b ≡ Order.less → nat_cmp b c ≡ Order.less → nat_cmp a c ≡ Order.less
nat_cmp_trans a b c p q = ground arith

instance abbrev pub nat_ord : Ord ℕ
nat_ord = record {
  cmp = nat_cmp;
  cmp_same = nat_cmp_same;
  cmp_flip = nat_cmp_flip;
  cmp_trans = nat_cmp_trans;
}

-- `cmp.Or`: the first comparison that is not equal.
abbrev pub then_cmp : Order → Order → Order
then_cmp Order.less o = Order.less
then_cmp Order.same o = o
then_cmp Order.more o = Order.more

module _ {ℓ} {A : Type ℓ} ⦃o : Ord A⦄ where
  unfoldable pub list_cmp : List A → List A → Order
  list_cmp [] [] = Order.same
  list_cmp [] (y ∷ ys) = Order.less
  list_cmp (x ∷ xs) [] = Order.more
  list_cmp (x ∷ xs) (y ∷ ys) = then_cmp (o.cmp x y) (list_cmp xs ys)

  pub list_cmp_same : (xs ys : List A) → (list_cmp xs ys ≡ Order.same) ↔ (xs ≡ ys)
  unfolding list_cmp
  list_cmp_same [] [] = ground arith
  list_cmp_same [] (y ∷ ys) = ground arith
  list_cmp_same (x ∷ xs) [] = ground arith
  list_cmp_same (x ∷ xs) (y ∷ ys) = ground (arith, o.cmp_same x y, list_cmp_same xs ys)

  pub list_cmp_flip :
      (xs ys : List A) → (list_cmp xs ys ≡ Order.less) ↔ (list_cmp ys xs ≡ Order.more)
  unfolding list_cmp
  list_cmp_flip [] [] = ground arith
  list_cmp_flip [] (y ∷ ys) = ground arith
  list_cmp_flip (x ∷ xs) [] = ground arith
  list_cmp_flip (x ∷ xs) (y ∷ ys) =
      ground
        (arith, o.cmp_flip x y, o.cmp_flip y x, o.cmp_same x y, o.cmp_same y x, list_cmp_flip xs ys)

  pub list_cmp_trans :
      (xs ys zs : List A)
      → list_cmp xs ys ≡ Order.less
      → list_cmp ys zs ≡ Order.less
      → list_cmp xs zs ≡ Order.less
  unfolding list_cmp
  list_cmp_trans [] [] zs p q = cc
  list_cmp_trans [] (y ∷ ys) [] p q = cc
  list_cmp_trans [] (y ∷ ys) (z ∷ zs) p q = refl
  list_cmp_trans (x ∷ xs) [] zs p q = cc
  list_cmp_trans (x ∷ xs) (y ∷ ys) [] p q = cc
  list_cmp_trans (x ∷ xs) (y ∷ ys) (z ∷ zs) p q = ground (
    arith,
    o.cmp_trans x y z,
    o.cmp_same x y,
    o.cmp_same y z,
    o.cmp_same x z,
    list_cmp_trans xs ys zs,
  )

instance abbrev pub list_ord {ℓ} : {A : Type ℓ} ⦃o : Ord A⦄ → Ord (List A)
list_ord = record {
  cmp = list_cmp;
  cmp_same = list_cmp_same;
  cmp_flip = list_cmp_flip;
  cmp_trans = list_cmp_trans;
}

abbrev pub is_less : Order → Bool
is_less Order.less = true
is_less Order.same = false
is_less Order.more = false

-- An order by one key and then another: `cmp.Or` of two comparisons.
module _ {ℓ} {A B C : Type ℓ} (b : Ord B) (c : Ord C) (f : A → B) (g : A → C)
    (apart : (x y : A) → f x ≡ f y → g x ≡ g y → x ≡ y) where
  abbrev pub two_keys_cmp : A → A → Order
  two_keys_cmp x y = then_cmp (b.cmp (f x) (f y)) (c.cmp (g x) (g y))

  pub two_keys_same : (x y : A) → (two_keys_cmp x y ≡ Order.same) ↔ (x ≡ y)
  two_keys_same x y = (
    λ h.
        apart x y (ground (arith, h, b.cmp_same (f x) (f y)))
          (ground (arith, h, b.cmp_same (f x) (f y), c.cmp_same (g x) (g y))),
    λ h. ground (arith, ap f h, ap g h, b.cmp_same (f x) (f y), c.cmp_same (g x) (g y)),
  )

  pub two_keys_flip : (x y : A) → (two_keys_cmp x y ≡ Order.less) ↔ (two_keys_cmp y x ≡ Order.more)
  two_keys_flip x y = ground (
    arith,
    b.cmp_flip (f x) (f y),
    b.cmp_flip (f y) (f x),
    b.cmp_same (f x) (f y),
    b.cmp_same (f y) (f x),
    c.cmp_flip (g x) (g y),
  )

  pub two_keys_trans :
      (x y z : A)
      → two_keys_cmp x y ≡ Order.less
      → two_keys_cmp y z ≡ Order.less
      → two_keys_cmp x z ≡ Order.less
  two_keys_trans x y z p q = ground (
    arith,
    p,
    q,
    b.cmp_trans (f x) (f y) (f z),
    b.cmp_same (f x) (f y),
    b.cmp_same (f y) (f z),
    b.cmp_same (f x) (f z),
    c.cmp_trans (g x) (g y) (g z),
  )

  abbrev pub two_keys : Ord A
  two_keys = record {
    cmp = two_keys_cmp;
    cmp_same = two_keys_same;
    cmp_flip = two_keys_flip;
    cmp_trans = two_keys_trans;
  }
