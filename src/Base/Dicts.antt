-- ===== src/Base/Dicts.antt =====
-- A Python dict, as an association list in insertion order.
use mathlib.Core.Path.{◌≡◌, refl}
use mathlib.Core.Bool.{Bool, true, false}
use mathlib.Core.Option.{Option, none, some}
use mathlib.Core.List.{List, [], ◌∷◌}
use native.Mathlib.Omega.{arith}
use distributed_apps_platfor.Base.Tests.{Eq, ◌==◌, if◌then◌else◌, ==_refl}

abbrev pub Dict {ℓ κ} : Type ℓ → Type κ → Type (ℓ ⊔ κ)
Dict K V = List (K × V)

abbrev pub is_some {ℓ} : {A : Type ℓ} → Option A → Bool
is_some none = false
is_some (some a) = true

abbrev pub get_or {ℓ} : {A : Type ℓ} → Option A → A → A
get_or none d = d
get_or (some a) d = a

module _ {ℓ κ} {K : Type ℓ} {V : Type κ} where
  -- `list(d.keys())` and `list(d.values())`
  abbrev pub keys : Dict K V → List K
  keys [] = []
  keys ((k, v) ∷ d) = k ∷ keys d

  abbrev pub values : Dict K V → List V
  values [] = []
  values ((k, v) ∷ d) = v ∷ values d

module _ {ℓ κ} {K : Type ℓ} {V : Type κ} ⦃e : Eq K⦄ where
  -- `d.get(k)`
  unfoldable pub lookup : K → Dict K V → Option V
  lookup k [] = none
  lookup k ((j, v) ∷ d) = if j == k then some v else lookup k d

  -- `k in d`
  abbrev pub has_key : K → Dict K V → Bool
  has_key k d = is_some (lookup k d)

  -- `d[k] = v`
  unfoldable pub insert : K → V → Dict K V → Dict K V
  insert k v [] = (k, v) ∷ []
  insert k v ((j, w) ∷ d) = let rest = insert k v d in if j == k then (j, v) ∷ d else (j, w) ∷ rest

  -- `d.pop(k)`: the keys of a dict are distinct, and every entry under the key goes
  unfoldable pub remove : K → Dict K V → Dict K V
  remove k [] = []
  remove k ((j, v) ∷ d) = let rest = remove k d in if j == k then rest else (j, v) ∷ rest

  pub lookup-insert :
      (k j : K) (v : V) (d : Dict K V)
      → lookup j (insert k v d) ≡ (if k == j then some v else lookup j d)
  unfolding lookup insert
  lookup-insert k j v [] = refl
  lookup-insert k j v ((i, w) ∷ d) =
      ground (arith, lookup-insert k j v d, e.same_iff i k, e.same_iff i j, e.same_iff k j)

  pub lookup-insert_self : (k : K) (v : V) (d : Dict K V) → lookup k (insert k v d) ≡ some v
  lookup-insert_self k v d = simp (lookup-insert, ==_refl)

  pub lookup-remove :
      (k j : K) (d : Dict K V) → lookup j (remove k d) ≡ (if k == j then none else lookup j d)
  unfolding lookup remove
  lookup-remove k j [] = ground arith
  lookup-remove k j ((i, w) ∷ d) =
      ground (arith, lookup-remove k j d, e.same_iff i k, e.same_iff i j, e.same_iff k j)

  -- `d.update(other)`
  unfoldable pub update : Dict K V → Dict K V → Dict K V
  update [] d = d
  update ((k, v) ∷ o) d = update o (insert k v d)

pub ruleset dict_laws = (lookup-insert, lookup-remove, ==_refl)
