-- ===== src/Common/Eq.antt =====
-- Equality of keys as an interface: the types that the program compares with `==`.
use Prim.Native.Nat.{ℕ}
use Prim.Native.String.{String}
use mathlib.Core.Path.{◌≡◌, refl}
use mathlib.Core.Logic.{◌↔◌, ◌⊎◌}
use mathlib.Core.Bool.{Bool, true, false, ◌&&◌}
use mathlib.Core.List.{List, [], ◌∷◌}
use text.Mathlib.Text.{◌==◌ as str_eq}
use text.Mathlib.TextEquality.{eq_iff}
use native.Mathlib.Omega.{arith}
use rusty_kimi.Common.Tests.{◌==◌ as nat_beq, ==_iff, if◌then◌else◌}

pub record Eq {ℓ} (A : Type ℓ) : Type ℓ where
  pub beq : A → A → Bool
  pub beq_iff : (a b : A) → (beq a b ≡ true) ↔ (a ≡ b)

infix 50 ◌=?◌
abbrev pub ◌=?◌ {ℓ} : {A : Type ℓ} ⦃e : Eq A⦄ → A → A → Bool
◌=?◌ ⦃e⦄ = e.beq

instance abbrev pub nat_eq : Eq ℕ
nat_eq = record { beq = nat_beq; beq_iff = ==_iff }

instance abbrev pub string_eq : Eq String
string_eq = record { beq = str_eq; beq_iff = eq_iff }

pub =?_self {ℓ} : {A : Type ℓ} ⦃e : Eq A⦄ (a : A) → (a =? a) ≡ true
=?_self ⦃e⦄ a = (e.beq_iff a a).1 refl

unfoldable pub list_beq {ℓ} : {A : Type ℓ} → (A → A → Bool) → List A → List A → Bool
list_beq beq [] [] = true
list_beq beq [] (_ ∷ _) = false
list_beq beq (_ ∷ _) [] = false
list_beq beq (x ∷ xs) (y ∷ ys) = beq x y && list_beq beq xs ys

pub list_beq_iff : (xs ys : List ℕ) → (list_beq nat_beq xs ys ≡ true) ↔ (xs ≡ ys)
unfolding list_beq
list_beq_iff [] [] = (λ _. refl, λ _. refl)
list_beq_iff [] (y ∷ ys) = (λ e. cc e, λ e. cc e)
list_beq_iff (x ∷ xs) [] = (λ e. cc e, λ e. cc e)
list_beq_iff (x ∷ xs) (y ∷ ys) = ground (arith, ==_iff x y, list_beq_iff xs ys)

-- Texts are compared as lists of code points.
instance unfoldable pub text_eq : Eq (List ℕ)
unfolding list_beq
text_eq = record { beq = list_beq nat_beq; beq_iff = list_beq_iff }

-- Membership in a set or a list.
unfoldable pub elem {ℓ} : {A : Type ℓ} ⦃e : Eq A⦄ → A → List A → Bool
elem a [] = false
elem a (b ∷ bs) = if b =? a then true else elem a bs

pub elem_cons {ℓ} :
    {A : Type ℓ} ⦃e : Eq A⦄ (a b : A) (bs : List A)
    → (elem a (b ∷ bs) ≡ true) ↔ ((b ≡ a) ⊎ (elem a bs ≡ true))
unfolding elem
elem_cons ⦃e⦄ a b bs = ground (arith, e.beq_iff b a)
