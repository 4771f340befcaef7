-- ===== src/Apps/Controller/Switched.antt =====
-- Starting a list of rules makes each of them active.
use mathlib.Core.Path.{subst}
use distributed_apps_platfor.Base.{
  ◌≡◌, ◌∙◌, refl, ◌⊎◌, String, true, false, List, [], ◌∷◌, some, lookup, insert, is_some, contains,
  lookup-insert, lookup-insert_self, Value, is_text, string_eq, option_eq, ◌==◌, arith,
  Option-cases, Bool-cases, inl, inr,
}
use distributed_apps_platfor.Sql.{Table}
use distributed_apps_platfor.Traffic.Rule.{Rule, active, enabled, external}
use distributed_apps_platfor.Apps.Rules
use distributed_apps_platfor.Apps.Rules.Rows.{enable-disable_rules}
use distributed_apps_platfor.Apps.Controller.{Controller, on_clients, start_one, start_rules}
use distributed_apps_platfor.Apps.Controller.Consistent.{
  RulesOf, is_active, start_one-effect, unknown-unchanged,
}

-- An internal rule that has a state is cached under the id.
pub record IsKnown (k : String) (rules : RulesOf) : Type 0 where
  pub rule : Rule
  pub found : lookup (some k) rules ≡ some rule
  pub internal : external rule ≡ false
  pub has_state : is_some (lookup "state" rule) ≡ true

-- and the rule is active
pub record IsStarted (k : String) (rules : RulesOf) : Type 0 where
  pub known : IsKnown k rules
  pub runs : is_active known.rule ≡ true

activated-external : (r : Rule) → external (insert "state" active r) ≡ external r
unfolding external
activated-external r = rw lookup-insert

activated-IsStarted :
    (k : String) (r : Rule) (rules : RulesOf)
    → external r ≡ false
    → IsStarted k (insert (some k) (insert "state" active r) rules)
activated-IsStarted k r rules e = record {
  known = record {
    rule = insert "state" active r;
    found = lookup-insert_self (some k) (insert "state" active r) rules;
    internal = activated-external r ∙ e;
    has_state = rw (lookup-insert_self "state" active r) refl;
  };
  runs = rw (lookup-insert_self "state" active r) refl;
}

other-IsKnown :
    (j k : String) (q : Rule) (rules : RulesOf)
    → (j == k) ≡ false
    → (h : IsKnown k rules) → (other : IsKnown k (insert (some j) q rules)) × (other.rule ≡ h.rule)
other-IsKnown j k q rules n h = (
  record {
    rule = h.rule;
    found = lookup-insert (some j) (some k) q rules ∙ rw n h.found;
    internal = h.internal;
    has_state = h.has_state;
  },
  refl,
)

-- a rule that is activated, this one or another, leaves a known rule known and a started one started
activated-IsKnown :
    (j k : String) (r : Rule) (rules : RulesOf)
    → lookup (some j) rules ≡ some r
    → (h : IsKnown k rules)
    → IsStarted k (insert (some j) (insert "state" active r) rules)
      ⊎ ((other : IsKnown k (insert (some j) (insert "state" active r) rules)) × (other.rule
            ≡ h.rule))
activated-IsKnown j k r rules found h = elim (Bool-cases (j == k)) [
  | inr n ↦ inr (other-IsKnown j k (insert "state" active r) rules n h)
  | inl e ↦
      let same : j ≡ k = (string_eq.same_iff j k).0 e in
      let rule : h.rule ≡ r = ground (arith, found, h.found, same) in
      inl (rw same (activated-IsStarted k r rules (rw⁻¹ rule h.internal)))
]

module _ (sql : Table) where
  -- what starting a rule may do to the cache
  start_one-rules :
      (j : String) (c : Controller sql)
      → let c' = (start_one sql j c).1 in
        (c'.app.rules ≡ c.app.rules)
        ⊎ ((r : Rule) × (lookup (some j) c.app.rules ≡ some r)
            × (c'.app.rules ≡ insert (some j) (insert "state" active r) c.app.rules))
  start_one-rules j c = elim (Option-cases (lookup (some j) c.app.rules)) [
    | inl e ↦ inl (rw ((unknown-unchanged sql j c e).0) refl)
    | inr (r, e) ↦ elim (start_one-effect sql j r c e) [
      | inl (rules, _) ↦ inl rules
      | inr (inl (rules, _, _)) ↦ inr (r, e, rules ∙ (enable-disable_rules sql j r c.app e).0)
      | inr (inr (rules, _)) ↦ inr (r, e, rules ∙ (enable-disable_rules sql j r c.app e).0)
    ]
  ]

  start_one-IsKnown :
      (j k : String) (c : Controller sql)
      → IsKnown k c.app.rules
      → IsKnown k (start_one sql j c).1.app.rules
  start_one-IsKnown j k c h = elim (start_one-rules j c) [
    | inl same ↦ rw same h
    | inr (r, found, rules) ↦ rw rules (elim (activated-IsKnown j k r c.app.rules found h) [
      | inl started ↦ started.known
      | inr (known, _) ↦ known
    ])
  ]

  start_one-IsStarted :
      (j k : String) (c : Controller sql)
      → IsStarted k c.app.rules
      → IsStarted k (start_one sql j c).1.app.rules
  start_one-IsStarted j k c h = elim (start_one-rules j c) [
    | inl same ↦ rw same h
    | inr (r, found, rules) ↦ rw rules (elim (activated-IsKnown j k r c.app.rules found h.known) [
      | inl started ↦ started
      | inr (known, same) ↦ record { known = known; runs = rw same h.runs }
    ])
  ]

  start_one-internal :
      (k : String) (r : Rule) (v : Value) (c : Controller sql)
      → lookup (some k) c.app.rules ≡ some r
      → external r ≡ false
      → lookup "state" r ≡ some v
      → (is_text v "ACTIVE" ≡ true → (start_one sql k c).1.app.rules ≡ c.app.rules)
        × (is_text v "ACTIVE" ≡ false
            → (start_one sql k c).1.app.rules ≡ (Rules.enable sql k c.app).rules)
  unfolding start_one on_clients enabled
  start_one-internal k r v c h e q =
      (λ on. ground (arith, h, e, q, on), λ off. ground (arith, h, e, q, off))

  start_one-starts :
      (k : String) (c : Controller sql)
      → IsKnown k c.app.rules
      → IsStarted k (start_one sql k c).1.app.rules
  start_one-starts k c h = elim (Option-cases (lookup "state" h.rule)) [
    | inl e ↦ absurd (ground (arith, e, h.has_state))
    | inr (v, e) ↦
        let (on, off) = start_one-internal k h.rule v c h.found h.internal e in
        elim (Bool-cases (is_text v "ACTIVE")) [
          | inl q ↦ rw (on q) (record { known = h; runs = rw e q })
          | inr q ↦
              rw (off q, (enable-disable_rules sql k h.rule c.app h.found).0)
                (activated-IsStarted k h.rule c.app.rules h.internal)
        ]
  ]

  -- After a list of rules is started, each internal rule of the list that the node knows, with a
  -- state, is active, and each rule that was active before still is.
  pub start_rules-IsStarted :
      (ks : List String) (k : String) (c : Controller sql)
      → (contains k ks ≡ true
          → IsKnown k c.app.rules
          → IsStarted k (start_rules sql ks c).app.rules)
        × (IsStarted k c.app.rules → IsStarted k (start_rules sql ks c).app.rules)
  unfolding start_rules
  start_rules-IsStarted [] k c = (λ i h. cc, λ h. h)
  start_rules-IsStarted (j ∷ ks) k c =
      let (later, still) = start_rules-IsStarted ks k (start_one sql j c).1 in
      (
        λ i h. elim (Bool-cases (k == j)) [
          | inl e ↦ still (
              subst (λ n. IsStarted k (start_one sql n c).1.app.rules)
                ((string_eq.same_iff k j).0 e) (start_one-starts k c h))
          | inr n ↦ later (rw n at i) (start_one-IsKnown j k c h)
        ],
        λ h. still (start_one-IsStarted j k c h),
      )
