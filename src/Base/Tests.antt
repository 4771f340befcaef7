-- ===== src/Base/Tests.antt =====
-- Boolean tests, the conditional, and `==` of Python on the types that are compared.
use Prim.Native.Nat.{ℕ, compare, Ordering}
use Prim.Native.String.{String}
use mathlib.Core.Path.{◌≡◌, refl}
use mathlib.Core.Logic.{◌↔◌, ◌⊎◌, inl, inr}
use mathlib.Core.Bool.{Bool, true, false, ◌&&◌}
use mathlib.Core.Option.{Option, none, some}
use native.Mathlib.Omega.{arith}
use text.Mathlib.Text.{◌==◌ as str_eq}
use text.Mathlib.TextEquality.{eq_iff}

abbrev pub ltb : ℕ → ℕ → Bool
ltb a b = elim (compare a b) [ Ordering.lt ↦ true | _ ↦ false ]

abbrev pub leb : ℕ → ℕ → Bool
leb a b = elim (compare a b) [ Ordering.gt ↦ false | _ ↦ true ]

abbrev pub nat_beq : ℕ → ℕ → Bool
nat_beq a b = elim (compare a b) [ Ordering.eq ↦ true | _ ↦ false ]

infix 1 if◌then◌else◌
abbrev pub if◌then◌else◌ {ℓ} : {A : Type ℓ} → Bool → A → A → A
if true then x else y = x
if false then x else y = y

pub Bool-cases : (b : Bool) → (b ≡ true) ⊎ (b ≡ false)
Bool-cases true = inl refl
Bool-cases false = inr refl

pub if-both {ℓ κ} :
    {A : Type ℓ} {x y : A} (P : A → Type κ) (b : Bool) → P x → P y → P (if b then x else y)
if-both P true h k = h
if-both P false h k = k

pub Option-cases {ℓ} : {A : Type ℓ} (o : Option A) → (o ≡ none) ⊎ ((a : A) × (o ≡ some a))
Option-cases none = inl refl
Option-cases (some a) = inr (a, refl)

infix 50 ◌==◌
-- A Boolean equality that decides equality.
pub record Eq {ℓ} (A : Type ℓ) : Type ℓ where
  -- what `__eq__` answers
  pub same : A → A → Bool
  pub same_iff : (a b : A) → (same a b ≡ true) ↔ (a ≡ b)

-- `a ^ b`
abbrev pub xor : Bool → Bool → Bool
xor true true = false
xor true false = true
xor false b = b

-- `a == b`
abbrev pub ◌==◌ {ℓ} : {A : Type ℓ} ⦃e : Eq A⦄ → A → A → Bool
◌==◌ ⦃e⦄ = e.same

module _ {ℓ} {A : Type ℓ} ⦃e : Eq A⦄ where
  pub ==_refl : (a : A) → (a == a) ≡ true
  ==_refl a = (e.same_iff a a).1 refl

  abbrev pub option_beq : Option A → Option A → Bool
  option_beq none none = true
  option_beq (some a) (some b) = a == b
  option_beq _ _ = false

  pub option_beq_iff : (a b : Option A) → (option_beq a b ≡ true) ↔ (a ≡ b)
  option_beq_iff none none = ground arith
  option_beq_iff none (some b) = ground arith
  option_beq_iff (some a) none = ground arith
  option_beq_iff (some a) (some b) = ground (arith, e.same_iff a b)

  instance abbrev pub option_eq : Eq (Option A)
  option_eq = record { same = option_beq; same_iff = option_beq_iff }

instance abbrev pub string_eq : Eq String
string_eq = record { same = str_eq; same_iff = eq_iff }

pub nat_beq_iff : (a b : ℕ) → (nat_beq a b ≡ true) ↔ (a ≡ b)
nat_beq_iff a b = ground arith

instance abbrev pub nat_eq : Eq ℕ
nat_eq = record { same = nat_beq; same_iff = nat_beq_iff }

module _ {ℓ} {A B : Type ℓ} ⦃e : Eq A⦄ ⦃f : Eq B⦄ where
  abbrev pub pair_beq : A × B → A × B → Bool
  pair_beq (a, b) (c, d) = (a == c) && (b == d)

  pub pair_beq_iff : (p q : A × B) → (pair_beq p q ≡ true) ↔ (p ≡ q)
  pair_beq_iff (a, b) (c, d) = ground (arith, e.same_iff a c, f.same_iff b d)

  instance abbrev pub pair_eq : Eq (A × B)
  pair_eq = record { same = pair_beq; same_iff = pair_beq_iff }
