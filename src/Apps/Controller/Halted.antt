-- ===== src/Apps/Controller/Halted.antt =====
-- Stopping a list of rules stops their clients.
use distributed_apps_platfor.Base.{
  ◌≡◌, ◌∙◌, refl, ◌⊎◌, String, Bool, true, false, List, [], ◌∷◌, Option, none, some, Dict, lookup,
  insert, contains, Value, is_text, ok, string_eq, option_eq, ◌==◌, arith, lookup-insert,
  lookup-insert_self, Option-cases, Bool-cases, inl, inr,
}
use mathlib.Core.Path.{subst}
use distributed_apps_platfor.Sql.{Table}
use distributed_apps_platfor.Traffic.Rule.{Rule, inactive, enabled, external}
use distributed_apps_platfor.Traffic.Task.{Task, Connection}
use distributed_apps_platfor.Traffic.Manager.{ClientKey, client_manager, stop_task}
use distributed_apps_platfor.Traffic.Manager.Tasks.{start_task-others, stop_task-stops}
use distributed_apps_platfor.Apps.Rules.Rows.{enable-disable_rules}
use distributed_apps_platfor.Apps.Controller.{Controller, on_clients, stop_one, stop_rules}
use distributed_apps_platfor.Apps.Controller.Consistent.{
  RulesOf, Consistent, stop_one-effect, stop_one-Consistent, unknown-unchanged, key_of,
}
use distributed_apps_platfor.Apps.Controller.Switched.{IsKnown}

-- a client does not run: there is none, it has no connection, or its connection is stopped
abbrev pub halted : Option Task → Bool
halted none = true
halted (some t) = elim (t.connection) [ none ↦ true | some c ↦ c.stopped ]

halted-if :
    (o : Option Task)
    → ((t : Task) (c : Connection) → o ≡ some t → t.connection ≡ some c → c.stopped ≡ true)
    → halted o ≡ true
halted-if none h = refl
halted-if (some t) h = elim (Option-cases (t.connection)) [
  | inl e ↦ rw e refl
  | inr (c, e) ↦ rw e (h t c refl e)
]

stop_task-halted :
    (k : String) (r : Rule) (clients : Dict ClientKey Task)
    → client_manager.key r ≡ ok (some k)
    → halted (lookup (some k) (stop_task client_manager r clients).1) ≡ true
stop_task-halted k r clients key =
    halted-if (lookup (some k) (stop_task client_manager r clients).1)
      (λ t c found conn. stop_task-stops client_manager r (some k) t c clients key found conn)

-- a rule that is set inactive, this one or another, leaves a known rule known
inactivated-IsKnown :
    (j k : String) (r : Rule) (rules : RulesOf)
    → lookup (some j) rules ≡ some r
    → IsKnown k rules
    → IsKnown k (insert (some j) (insert "state" inactive r) rules)
unfolding external
inactivated-IsKnown j k r rules found h = elim (Bool-cases (j == k)) [
  | inr n ↦ record {
    rule = h.rule;
    found = lookup-insert (some j) (some k) (insert "state" inactive r) rules ∙ rw n h.found;
    internal = h.internal;
    has_state = h.has_state;
  }
  | inl e ↦
      let same : j ≡ k = (string_eq.same_iff j k).0 e in
      let rule : h.rule ≡ r = ground (arith, found, h.found, same) in
      record {
        rule = insert "state" inactive r;
        found = rw same (lookup-insert_self (some k) (insert "state" inactive r) rules);
        internal = rw lookup-insert (rw⁻¹ rule h.internal);
        has_state = rw (lookup-insert_self "state" inactive r) refl;
      }
]

module _ (sql : Table) where
  -- what stopping a rule may do to the cache and to the clients
  stop_one-cases :
      (j : String) (c : Controller sql)
      → let c' = (stop_one sql j c).1 in
        ((c'.app.rules ≡ c.app.rules)
          ⊎ ((r : Rule) × (lookup (some j) c.app.rules ≡ some r)
              × (c'.app.rules ≡ insert (some j) (insert "state" inactive r) c.app.rules)))
        × ((c'.clients ≡ c.clients)
            ⊎ ((r : Rule) × (lookup (some j) c.app.rules ≡ some r)
                × (c'.clients ≡ (stop_task client_manager r c.clients).1)))
  stop_one-cases j c = elim (Option-cases (lookup (some j) c.app.rules)) [
    | inl e ↦ let same = (unknown-unchanged sql j c e).1 in (inl (rw same refl), inl (rw same refl))
    | inr (r, e) ↦
        let off = (enable-disable_rules sql j r c.app e).1 in
        elim (stop_one-effect sql j r c e) [
          | inl (rules, clients) ↦ (inl rules, inl clients)
          | inr (inl (rules, clients, _)) ↦ (inr (r, e, rules ∙ off), inl clients)
          | inr (inr (inl (rules, clients))) ↦ (inr (r, e, rules ∙ off), inr (r, e, clients))
          | inr (inr (inr (rules, clients, _))) ↦ (inl rules, inr (r, e, clients))
        ]
  ]

  stop_one-IsKnown :
      (j k : String) (c : Controller sql)
      → IsKnown k c.app.rules
      → IsKnown k (stop_one sql j c).1.app.rules
  stop_one-IsKnown j k c h = elim ((stop_one-cases j c).0) [
    | inl same ↦ rw same h
    | inr (r, found, rules) ↦ rw rules (inactivated-IsKnown j k r c.app.rules found h)
  ]

  stop_one-keeps_halted :
      (j k : String) (c : Controller sql)
      → Consistent sql c
      → halted (lookup (some k) c.clients) ≡ true
      → halted (lookup (some k) (stop_one sql j c).1.clients) ≡ true
  stop_one-keeps_halted j k c i h = elim ((stop_one-cases j c).1) [
    | inl same ↦ rw same h
    | inr (r, found, clients) ↦
        let key = key_of r j (i.keyed j r found) in
        rw clients (elim (Bool-cases (j == k)) [
          | inl e ↦
              stop_task-halted k r c.clients
                (subst (λ n. client_manager.key r ≡ ok (some n)) ((string_eq.same_iff j k).0 e) key)
          | inr n ↦ rw ((start_task-others client_manager r (some j) (some k) c.clients key n).1) h
        ])
  ]

  pub stop_one-internal :
      (k : String) (r : Rule) (v : Value) (c : Controller sql)
      → lookup (some k) c.app.rules ≡ some r
      → external r ≡ false
      → lookup "state" r ≡ some v
      → (is_text v "ACTIVE" ≡ false → (stop_one sql k c).1.clients ≡ c.clients)
        × (is_text v "ACTIVE" ≡ true
            → (stop_one sql k c).1.clients ≡ (stop_task client_manager r c.clients).1)
  unfolding stop_one on_clients enabled
  stop_one-internal k r v c h e q =
      (λ off. ground (arith, h, e, q, off), λ on. ground (arith, h, e, q, on))

  stop_one-halts :
      (k : String) (c : Controller sql)
      → Consistent sql c
      → IsKnown k c.app.rules
      → halted (lookup (some k) (stop_one sql k c).1.clients) ≡ true
  stop_one-halts k c i h = elim (Option-cases (lookup "state" h.rule)) [
    | inl e ↦ absurd (ground (arith, e, h.has_state))
    | inr (v, e) ↦
        let (off, on) = stop_one-internal k h.rule v c h.found h.internal e in
        elim (Bool-cases (is_text v "ACTIVE")) [
          | inl q ↦
              rw (on q)
                (stop_task-halted k h.rule c.clients (key_of h.rule k (i.keyed k h.rule h.found)))
          | inr q ↦ rw (off q) (
              halted-if (lookup (some k) c.clients) (λ t d found conn.
                ground (arith, i.agrees k h.rule t d h.found h.internal found conn, e, q)))
        ]
  ]

  -- After a list of rules is stopped on a consistent node, the client of each internal rule of the list that the node
  -- knows, with a state, does not run, and each client that did not run before still does not.
  pub stop_rules-halted :
      (ks : List String) (k : String) (c : Controller sql)
      → Consistent sql c
      → (contains k ks ≡ true
          → IsKnown k c.app.rules
          → halted (lookup (some k) (stop_rules sql ks c).clients) ≡ true)
        × (halted (lookup (some k) c.clients) ≡ true
            → halted (lookup (some k) (stop_rules sql ks c).clients) ≡ true)
  unfolding stop_rules
  stop_rules-halted [] k c i = (λ w h. cc, λ h. h)
  stop_rules-halted (j ∷ ks) k c i =
      let (later, still) =
        stop_rules-halted ks k (stop_one sql j c).1 (stop_one-Consistent sql j c i) in
      (
        λ w h. elim (Bool-cases (k == j)) [
          | inl e ↦ still (
              subst (λ n. halted (lookup (some k) (stop_one sql n c).1.clients) ≡ true)
                ((string_eq.same_iff k j).0 e) (stop_one-halts k c i h))
          | inr n ↦ later (rw n at w) (stop_one-IsKnown j k c h)
        ],
        λ h. still (stop_one-keeps_halted j k c i h),
      )
