-- ===== src/Base/Groups.antt =====
-- `collections.defaultdict(list)`, and dicts where no key stands twice.
use mathlib.Core.Path.{◌≡◌, refl, sym}
use mathlib.Core.Bool.{false}
use mathlib.Core.List.{List, [], ◌∷◌, ◌++◌}
use native.Mathlib.Omega.{arith}
use distributed_apps_platfor.Base.Tests.{Eq, ◌==◌, if◌then◌else◌, Option-cases}
use distributed_apps_platfor.Base.Dicts.{
  Dict, lookup, insert, remove, has_key, get_or, lookup-insert, lookup-remove,
}

module _ {ℓ κ} {K : Type ℓ} {V : Type κ} ⦃e : Eq K⦄ where
  -- no key stands twice
  abbrev pub Distinct : Dict K V → Type 0
  Distinct [] = Unit
  Distinct ((k, v) ∷ d) = (has_key k d ≡ false) × Distinct d

  pub insert-Distinct : (k : K) (v : V) (d : Dict K V) → Distinct d → Distinct (insert k v d)
  unfolding insert lookup
  insert-Distinct k v [] h = (refl, tt)
  insert-Distinct k v ((j, w) ∷ d) h =
      ground
        (arith, lookup-insert k j v d, e.same_iff j k, e.same_iff k j, insert-Distinct k v d h.1)

  pub remove-Distinct : (k : K) (d : Dict K V) → Distinct d → Distinct (remove k d)
  unfolding remove
  remove-Distinct k [] h = tt
  remove-Distinct k ((j, w) ∷ d) h =
      ground (arith, lookup-remove k j d, e.same_iff j k, e.same_iff k j, remove-Distinct k d h.1)

pub append-nil {ℓ} : {A : Type ℓ} (xs : List A) → xs ++ [] ≡ xs
append-nil [] = refl
append-nil (x ∷ xs) = rw (append-nil xs) refl

pub append_assoc {ℓ} : {A : Type ℓ} (xs ys zs : List A) → (xs ++ ys) ++ zs ≡ xs ++ (ys ++ zs)
append_assoc [] ys zs = refl
append_assoc (x ∷ xs) ys zs = rw (append_assoc xs ys zs) refl

module _ {ℓ κ} {K : Type ℓ} {A : Type κ} ⦃e : Eq K⦄ where
  -- the list under a key, empty where there is none
  abbrev pub group : K → Dict K (List A) → List A
  group k d = get_or (lookup k d) []

  -- `d[k].append(a)` and `d[k].extend(xs)`
  unfoldable pub extend : K → List A → Dict K (List A) → Dict K (List A)
  extend k xs d = insert k (group k d ++ xs) d

  unfoldable pub push : K → A → Dict K (List A) → Dict K (List A)
  push k a d = extend k (a ∷ []) d

  pub group-extend :
      (k j : K) (xs : List A) (d : Dict K (List A))
      → group j (extend k xs d) ≡ (if k == j then group j d ++ xs else group j d)
  unfolding extend
  group-extend k j xs d = ground (arith, lookup-insert k j (group k d ++ xs) d, e.same_iff k j)

  pub push-Distinct : (k : K) (a : A) (d : Dict K (List A)) → Distinct d → Distinct (push k a d)
  unfolding push extend
  push-Distinct k a d h = insert-Distinct k (group k d ++ a ∷ []) d h

  -- `for k, xs in other.items(): d[k].extend(xs)`
  unfoldable pub extend_all : Dict K (List A) → Dict K (List A) → Dict K (List A)
  extend_all [] d = d
  extend_all ((k, xs) ∷ other) d = extend_all other (extend k xs d)

  pub group-extend_all :
      (other d : Dict K (List A)) (k : K)
      → Distinct other
      → group k (extend_all other d) ≡ group k d ++ group k other
  unfolding extend_all lookup
  group-extend_all [] d k h = sym (append-nil (group k d))
  group-extend_all ((j, xs) ∷ other) d k h =
      rw (group-extend_all other (extend j xs d) k h.1, group-extend j k xs d)
        (ground (
          arith,
          append_assoc (group k d) xs (group k other),
          append-nil (group k d ++ xs),
          e.same_iff j k,
          Option-cases (lookup k other),
          h.0,
        ))
