-- ===== src/Remote/Parallel.antt =====
-- `ThreadPool` of LYDIAN/lydian/utils/parallel.py: a function run on many arguments at once.
use distributed_apps_platfor.Base.{
  ◌≡◌, refl, arith, [], ◌∷◌, Option, none, some, Dict, lookup, insert, Result, ok, err, Distinct,
  Eq, lookup-insert, Option-cases, if◌then◌else◌, ◌==◌, Bool, true, false, Bool-cases, inl, inr,
  ◌∙◌,
}

module _ {I A B : Type 0} ⦃e : Eq I⦄ (func : A → Result B) where
  -- `results[ident] = future.result()`, or a warning where the call raised
  unfoldable pub record_result : I → Result B → Dict I B → Dict I B
  record_result ident (ok b) results = insert ident b results
  record_result ident (err x) results = results

  -- the calls, in the order in which they complete
  unfoldable pub collect : Dict I A → Dict I B → Dict I B
  collect [] results = results
  collect ((ident, arg) ∷ done) results = collect done (record_result ident (func arg) results)

  unfoldable pub thread_pool : Dict I A → Dict I B
  thread_pool done = collect done []

-- what the call under an identifier returned, if there is one that returned
abbrev pub returned : {A B : Type 0} → (A → Result B) → Option A → Option B
returned func none = none
returned func (some a) = elim (func a) [ ok b ↦ some b | err x ↦ none ]

abbrev pub or_before : {B : Type 0} → Option B → Option B → Option B
or_before none b = b
or_before (some a) b = some a

or_none : {B : Type 0} (b : Option B) → or_before b none ≡ b
or_none none = refl
or_none (some b) = refl

module _ {I A B : Type 0} ⦃e : Eq I⦄ (func : A → Result B) where
  record_result-lookup :
      (ident i : I) (r : Result B) (results : Dict I B)
      → lookup i (record_result func ident r results) ≡ (
          if ident == i
          then or_before (elim r [ ok b ↦ some b | err x ↦ none ]) (lookup i results)
          else lookup i results)
  unfolding record_result
  record_result-lookup ident i (ok b) results = lookup-insert ident i b results
  record_result-lookup ident i (err x) results = if_same (ident == i)
    where
      if_same : (b : Bool) → lookup i results ≡ (if b then lookup i results else lookup i results)
      if_same true = refl
      if_same false = refl

  collect_lem :
      (done : Dict I A) (results : Dict I B) (i : I)
      → Distinct done
      → lookup i (collect func done results)
        ≡ or_before (returned func (lookup i done)) (lookup i results)
  unfolding collect lookup
  collect_lem [] results i h = refl
  collect_lem ((ident, arg) ∷ done) results i h =
      rw
        (
          collect_lem done (record_result func ident (func arg) results) i h.1,
          record_result-lookup ident i (func arg) results,
        )
        (elim (Bool-cases (ident == i)) [
          | inl q ↦
              let none_there : lookup i done ≡ none =
                ground (arith, h.0, e.same_iff ident i, q, Option-cases (lookup i done)) in
              rw (q, none_there) refl
          | inr q ↦ rw q refl
        ])

  -- Where no identifier stands twice, the results of a pool hold under each identifier exactly what
  -- its call returned, and nothing where the call raised or there is none, whatever the order
  -- in which the calls complete.
  pub thread_pool_lem :
      (done : Dict I A) (i : I)
      → Distinct done
      → lookup i (thread_pool func done) ≡ returned func (lookup i done)
  unfolding thread_pool lookup
  thread_pool_lem done i h = collect_lem done [] i h ∙ or_none (returned func (lookup i done))
