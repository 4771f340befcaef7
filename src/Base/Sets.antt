-- ===== src/Base/Sets.antt =====
-- A Python set, as a list in which no element stands twice.
use mathlib.Core.Path.{◌≡◌, refl, ap, ◌∙◌}
use mathlib.Core.Logic.{inl, inr}
use mathlib.Core.Bool.{Bool, true, false, ◌||◌}
use mathlib.Core.List.{List, [], ◌∷◌, ◌++◌}
use native.Mathlib.Omega.{arith}
use distributed_apps_platfor.Base.Tests.{Eq, ◌==◌, if◌then◌else◌, Bool-cases}
use distributed_apps_platfor.Base.Lists.{contains, contains-append}

or_last : (a b : Bool) → (a || (b || false)) ≡ (b || a)
or_last a b = ground arith

module _ {ℓ} {A : Type ℓ} ⦃e : Eq A⦄ where
  -- `s.add(x)`
  unfoldable pub set_add : A → List A → List A
  set_add x xs = if contains x xs then xs else xs ++ x ∷ []

  -- no element stands twice
  abbrev pub Once : List A → Type 0
  Once [] = Unit
  Once (x ∷ xs) = (contains x xs ≡ false) × Once xs

  pub ==_comm : (x y : A) → (x == y) ≡ (y == x)
  ==_comm x y = ground (arith, e.same_iff x y, e.same_iff y x)

  contains-old :
      (y x : A) (xs : List A) → contains x xs ≡ true → contains y xs ≡ (y == x || contains y xs)
  contains-old y x xs h = elim (Bool-cases (y == x)) [
    | inl q ↦ rw q (ap (λ z. contains z xs) ((e.same_iff y x).0 q) ∙ h)
    | inr q ↦ rw q refl
  ]

  pub contains-set_add :
      (y x : A) (xs : List A) → contains y (set_add x xs) ≡ (y == x || contains y xs)
  unfolding set_add
  contains-set_add y x xs = elim (Bool-cases (contains x xs)) [
    | inl h ↦ rw h (contains-old y x xs h)
    | inr h ↦ rw h (contains-append y xs (x ∷ []) ∙ or_last (contains y xs) (y == x))
  ]

  Once-append : (x : A) (xs : List A) → Once xs → contains x xs ≡ false → Once (xs ++ x ∷ [])
  Once-append x [] o n = (refl, tt)
  Once-append x (y ∷ xs) o n = (
    contains-append y xs (x ∷ []) ∙ ground (arith, o.0, n, ==_comm x y),
    Once-append x xs o.1 (ground (arith, n)),
  )

  pub set_add-Once : (x : A) (xs : List A) → Once xs → Once (set_add x xs)
  unfolding set_add
  set_add-Once x xs o = elim (Bool-cases (contains x xs)) [
    | inl h ↦ rw h o
    | inr h ↦ rw h (Once-append x xs o h)
  ]
