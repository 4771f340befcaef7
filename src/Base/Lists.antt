-- ===== src/Base/Lists.antt =====
-- Lists measured by native numbers, and searches through lists.
use Prim.Native.Nat.{ℕ, zero, suc, ◌+◌}
use mathlib.Core.Path.{◌≡◌, refl}
use mathlib.Core.Bool.{Bool, false, ◌||◌}
use mathlib.Core.List.{List, [], ◌∷◌, ◌++◌}
use native.Mathlib.Omega.{arith}
use distributed_apps_platfor.Base.Tests.{Eq, ◌==◌, if◌then◌else◌, if-both}

module _ {ℓ} {A : Type ℓ} where
  abbrev pub length : List A → ℕ
  length [] = 0
  length (x ∷ xs) = suc (length xs)

  pub length-append : (xs ys : List A) → length (xs ++ ys) ≡ length xs + length ys
  length-append [] ys = omega arith
  length-append (x ∷ xs) ys = omega (arith, length-append xs ys)

  -- `xs[:n]`
  abbrev pub take : ℕ → List A → List A
  take zero xs = []
  take (suc n) [] = []
  take (suc n) (x ∷ xs) = x ∷ take n xs

  -- `[x for x in xs if p(x)]`
  abbrev pub keep : (A → Bool) → List A → List A
  keep p [] = []
  keep p (x ∷ xs) = let rest = keep p xs in if p x then x ∷ rest else rest

  -- `any(p(x) for x in xs)`
  abbrev pub any : (A → Bool) → List A → Bool
  any p [] = false
  any p (x ∷ xs) = p x || any p xs

  -- every element satisfies a predicate
  abbrev pub All {κ} : (A → Type κ) → List A → Type κ
  All P [] = Unit
  All P (x ∷ xs) = P x × All P xs

  pub All-append {κ} : (P : A → Type κ) (xs ys : List A) → All P xs → All P ys → All P (xs ++ ys)
  All-append P [] ys h k = k
  All-append P (x ∷ xs) ys h k = (h.0, All-append P xs ys h.1 k)

pub All-keep {ℓ κ} :
    {A : Type ℓ} (P : A → Type κ) (p : A → Bool) (xs : List A) → All P xs → All P (keep p xs)
All-keep P p [] h = tt
All-keep P p (x ∷ xs) h = if-both (All P) (p x) (h.0, All-keep P p xs h.1) (All-keep P p xs h.1)

module _ {ℓ} {A : Type ℓ} ⦃e : Eq A⦄ where
  -- `x in xs`
  abbrev pub contains : A → List A → Bool
  contains x [] = false
  contains x (y ∷ ys) = x == y || contains x ys

  pub contains-append :
      (x : A) (xs ys : List A) → contains x (xs ++ ys) ≡ (contains x xs || contains x ys)
  contains-append x [] ys = refl
  contains-append x (y ∷ xs) ys = ground (arith, contains-append x xs ys)
