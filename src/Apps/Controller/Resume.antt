-- ===== src/Apps/Controller/Resume.antt =====
-- What happens to the rules of the database when a node starts again.
use distributed_apps_platfor.Base.{
  ◌≡◌, refl, Bool, true, List, [], ◌∷◌, All, keep, values, none, some, lookup, insert,
  lookup-insert, Value, null, is_text, ok, string_eq, option_eq, arith, Bool-cases, Option-cases,
  Result-cases, inl, inr,
}
use distributed_apps_platfor.Sql.{Table}
use distributed_apps_platfor.Traffic.Rule.{Rule, getattr, active, external}
use distributed_apps_platfor.Apps.Controller.{
  Controller, store_rule, add_rule_info, with_info, handle_rule, resume_active_rules, resume_each,
  with_tool,
}

module _ (sql : Table) where
  external_null : (r : Rule) → lookup "tool" r ≡ some null → external r ≡ true
  unfolding external
  external_null r h = rw h

  tool-with_info :
      (r : Rule) (src dst : Value) (c : Controller sql)
      → lookup "tool" (with_info sql r src dst c) ≡ lookup "tool" r
  unfolding with_info
  tool-with_info r src dst c = simp lookup-insert

  handle_null :
      (r : Rule) (c : Controller sql)
      → lookup "tool" r ≡ some null
      → lookup none c.tools ≡ none
      → handle_rule sql r c ≡ (ok tt, c)
  unfolding handle_rule with_tool
  handle_null r c h n = ground (arith, external_null r h, h, n)

  add_rule_info-null :
      (r : Rule) (c : Controller sql)
      → lookup "tool" r ≡ some null
      → lookup none c.tools ≡ none
      → (add_rule_info sql r c).1 ≡ c
  unfolding add_rule_info
  add_rule_info-null r c h n = elim (Option-cases (lookup "src" r)) [
    | inl e ↦ ground (arith, e)
    | inr (src, e) ↦ elim (Option-cases (lookup "dst" r)) [
      | inl f ↦ ground (arith, e, f)
      | inr (dst, f) ↦
          let r1 = with_info sql r src dst c in
          let r2 = insert "state" (getattr "state" r1 active) r1 in
          ground (arith, e, f, handle_null r2 c (simp (lookup-insert, tool-with_info) h) n)
    ]
  ]

  -- The rules of a list have a tool that is None.
  abbrev pub AllNull : List Rule → Type 0
  AllNull = All (λ r. lookup "tool" r ≡ some null)

  keep-AllNull : (p : Rule → Bool) (rs : List Rule) → AllNull rs → AllNull (keep p rs)
  keep-AllNull p [] h = tt
  keep-AllNull p (r ∷ rs) h = elim (Bool-cases (p r)) [
    | inl e ↦ rw e (h.0, keep-AllNull p rs h.1)
    | inr e ↦ rw e (keep-AllNull p rs h.1)
  ]

  resume_each-AllNull :
      (rs : List Rule) (c : Controller sql)
      → AllNull rs
      → lookup none c.tools ≡ none
      → let c' = (resume_each sql rs c).1 in
        (c'.clients ≡ c.clients) × (c'.servers ≡ c.servers) × (c'.calls ≡ c.calls)
  unfolding resume_each
  resume_each-AllNull [] c h n = (refl, refl, refl)
  resume_each-AllNull (r ∷ rs) c h n =
      let same = add_rule_info-null r c h.0 n in
      elim (Result-cases (add_rule_info sql r c).0) [
        | inl (r', e) ↦
            ground (arith, e, same, resume_each-AllNull rs (store_rule sql r r' c) h.1 n)
        | inr (x, e) ↦ ground (arith, e, same)
      ]

  -- A node that starts again resumes no traffic for the rules of its database that have no tool: a
  -- tool that was never set comes back as None, which is taken for an external tool.
  pub resume_active_rules-null :
      (c : Controller sql)
      → AllNull (values c.app.rules)
      → lookup none c.tools ≡ none
      → let c' = (resume_active_rules sql c).1 in
        (c'.clients ≡ c.clients) × (c'.servers ≡ c.servers) × (c'.calls ≡ c.calls)
  unfolding resume_active_rules
  resume_active_rules-null c h n =
      resume_each-AllNull _ c (keep-AllNull (λ r. is_text (getattr "state" r null) "ACTIVE") _ h) n
