-- ===== src/Base/Order.antt =====
-- The total order that `BTreeMap` keys need, with instances for numbers and, lexicographically,
-- for lists.
use Prim.Native.Nat.{ℕ}
use mathlib.Core.Path.{◌≡◌, refl}
use mathlib.Core.Logic.{◌≢◌}
use mathlib.Core.Bool.{Bool, true, false}
use mathlib.Core.List.{List, [], ◌∷◌}
use native.Mathlib.Omega.{arith}
use fstx.Base.Tests.{ltb, Eq, ◌==◌, if◌then◌else◌}

pub record Ord {ℓ} (A : Type ℓ) : Type ℓ where
  pub lt : A → A → Bool
  pub lt_irrefl : (a : A) → lt a a ≡ false
  pub lt_trans : (a b c : A) → lt a b ≡ true → lt b c ≡ true → lt a c ≡ true
  pub lt_total : (a b : A) → a ≢ b → lt a b ≡ false → lt b a ≡ true

pub ltb_irrefl : (a : ℕ) → ltb a a ≡ false
ltb_irrefl a = ground arith

pub ltb_trans : (a b c : ℕ) → ltb a b ≡ true → ltb b c ≡ true → ltb a c ≡ true
ltb_trans a b c p q = ground arith

pub ltb_total : (a b : ℕ) → a ≢ b → ltb a b ≡ false → ltb b a ≡ true
ltb_total a b h p = ground arith

instance unfoldable pub nat_ord : Ord ℕ
nat_ord = record { lt = ltb; lt_irrefl = ltb_irrefl; lt_trans = ltb_trans; lt_total = ltb_total }

module _ {ℓ} {A : Type ℓ} ⦃e : Eq A⦄ ⦃o : Ord A⦄ where
  pub lt_list : List A → List A → Bool
  lt_list [] [] = false
  lt_list [] (y ∷ ys) = true
  lt_list (x ∷ xs) [] = false
  lt_list (x ∷ xs) (y ∷ ys) = if x == y then lt_list xs ys else o.lt x y

  pub lt_list_irrefl : (a : List A) → lt_list a a ≡ false
  unfolding lt_list
  lt_list_irrefl [] = refl
  lt_list_irrefl (x ∷ xs) = ground (arith, lt_list_irrefl xs)

  pub lt_list_trans :
      (a b c : List A) → lt_list a b ≡ true → lt_list b c ≡ true → lt_list a c ≡ true
  unfolding lt_list
  lt_list_trans [] [] c p q = cc
  lt_list_trans [] (y ∷ ys) [] p q = cc
  lt_list_trans [] (y ∷ ys) (z ∷ zs) p q = refl
  lt_list_trans (x ∷ xs) [] c p q = cc
  lt_list_trans (x ∷ xs) (y ∷ ys) [] p q = cc
  lt_list_trans (x ∷ xs) (y ∷ ys) (z ∷ zs) p q =
      ground (arith, lt_list_trans xs ys zs, o.lt_trans x y z, o.lt_irrefl x, o.lt_irrefl y)

  pub lt_list_total : (a b : List A) → a ≢ b → lt_list a b ≡ false → lt_list b a ≡ true
  unfolding lt_list
  lt_list_total [] [] h p = absurd (h refl)
  lt_list_total [] (y ∷ ys) h p = cc
  lt_list_total (x ∷ xs) [] h p = refl
  lt_list_total (x ∷ xs) (y ∷ ys) h p = ground (arith, lt_list_total xs ys, o.lt_total x y)

  instance unfoldable pub list_ord : Ord (List A)
  unfolding lt_list
  list_ord = record {
    lt = lt_list;
    lt_irrefl = lt_list_irrefl;
    lt_trans = lt_list_trans;
    lt_total = lt_list_total;
  }
