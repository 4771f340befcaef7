-- ===== src/Base/Exec.antt =====
-- Methods that change an object and may raise. What was written before a raise stays written, so
-- the object comes back beside the error too.
use mathlib.Core.List.{List, [], ◌∷◌}
use mathlib.Core.Path.{◌≡◌, ap}
use mathlib.Core.Bool.{Bool, true, false}
use distributed_apps_platfor.Base.Values.{Error, Result, ok, err}

abbrev pub Exec {ℓ κ} : Type ℓ → Type κ → Type (ℓ ⊔ κ)
Exec S A = S → Result A × S

module _ {ℓ κ} {S : Type ℓ} {A : Type κ} where
  abbrev pub pure : A → Exec S A
  pure a s = (ok a, s)

  abbrev pub raise : Error → Exec S A
  raise e s = (err e, s)

  abbrev pub lift : Result A → Exec S A
  lift r s = (r, s)

  abbrev pub gets : (S → A) → Exec S A
  gets f s = (ok (f s), s)

abbrev pub modify {ℓ} : {S : Type ℓ} → (S → S) → Exec S (Unit {0})
modify f s = (ok tt, f s)

module _ {ℓ} {S : Type ℓ} where
  abbrev pub skip : Exec S (Unit {0})
  skip s = (ok tt, s)

  abbrev pub assert : Bool → Exec S (Unit {0})
  assert true s = (ok tt, s)
  assert false s = (err Error.assertion_error, s)

infixl 5 ◌>>=◌ ◌>>◌
abbrev pub ◌>>=◌ {ℓ κ μ} :
    {S : Type ℓ} {A : Type κ} {B : Type μ} → Exec S A → (A → Exec S B) → Exec S B
◌>>=◌ m f s = let (r, s') = m s in elim r [ ok a ↦ f a s' | err e ↦ (err e, s') ]

abbrev pub ◌>>◌ {ℓ κ} : {S : Type ℓ} {B : Type κ} → Exec S (Unit {0}) → Exec S B → Exec S B
m >> k = m >>= λ _. k

-- `try: body finally: cleanup`: what the cleanup raises comes in place of the outcome of the body
abbrev pub try_finally {ℓ κ} : {S : Type ℓ} {A : Type κ} → Exec S A → Exec S (Unit {0}) → Exec S A
try_finally body cleanup s =
    let (r, s1) = body s in
    let (c, s2) = cleanup s1 in elim c [ err e ↦ (err e, s2) | ok _ ↦ (r, s2) ]

-- `for x in xs: body(x)`
unfoldable pub for_each {ℓ κ} :
    {S : Type ℓ} {A : Type κ} → List A → (A → Exec S (Unit {0})) → Exec S (Unit {0})
for_each [] body s = (ok tt, s)
for_each (x ∷ xs) body s =
    let (r, s') = body x s in elim r [ ok _ ↦ for_each xs body s' | err e ↦ (err e, s') ]

module _ {ℓ κ} {S : Type ℓ} {A : Type κ} where
  pub for_each-ok :
      (x : A) (xs : List A) (body : A → Exec S (Unit {0})) (s s' : S)
      → body x s ≡ (ok tt, s')
      → for_each (x ∷ xs) body s ≡ for_each xs body s'
  unfolding for_each
  for_each-ok x xs body s s' h = rw (h, for_each) (rw h)

  pub for_each-err :
      (x : A) (xs : List A) (body : A → Exec S (Unit {0})) (s s' : S) (e : Error)
      → body x s ≡ (err e, s')
      → for_each (x ∷ xs) body s ≡ (err e, s')
  unfolding for_each
  for_each-err x xs body s s' e h = rw (h, for_each) (rw h)

-- How a method goes on after a call that returned, and after one that raised.
module _ {ℓ κ μ} {S : Type ℓ} {A : Type κ} {B : Type μ} where
  pub bind-ok :
      (m : Exec S A) (f : A → Exec S B) (s : S) (a : A) → (m s).0 ≡ ok a → (m >>= f) s ≡ f a (m s).1
  bind-ok m f s a h = go (m s) h
    where
      go :
          (p : Result A × S)
          → p.0 ≡ ok a
          → (elim p.0 [ ok b ↦ f b p.1 | err e ↦ (err e, p.1) ]) ≡ f a p.1
      go (ok b, t) e = cc
      go (err x, t) e = cc

  pub bind-err :
      (m : Exec S A) (f : A → Exec S B) (s : S) (e : Error)
      → (m s).0 ≡ err e
      → (m >>= f) s ≡ (err e, (m s).1)
  bind-err m f s e h = go (m s) h
    where
      go :
          (p : Result A × S)
          → p.0 ≡ err e
          → (elim p.0 [ ok b ↦ f b p.1 | err x ↦ (err x, p.1) ]) ≡ (err e, p.1)
      go (ok b, t) q = cc
      go (err x, t) q = cc

  pub bind-then :
      (m : Exec S A) (f : A → Exec S B) (s s' : S) (a : A) → m s ≡ (ok a, s') → (m >>= f) s ≡ f a s'
  bind-then m f s s' a h =
      ap (λ (p : Result A × S). elim p.0 [ ok b ↦ f b p.1 | err x ↦ (err x, p.1) ]) h

  pub bind-raise :
      (m : Exec S A) (f : A → Exec S B) (s s' : S) (e : Error)
      → m s ≡ (err e, s')
      → (m >>= f) s ≡ (err e, s')
  bind-raise m f s s' e h =
      ap (λ (p : Result A × S). elim p.0 [ ok b ↦ f b p.1 | err x ↦ (err x, p.1) ]) h
