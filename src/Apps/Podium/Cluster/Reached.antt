-- ===== src/Apps/Podium/Cluster/Reached.antt =====
-- What each host is asked that is reached when an operation is made on a request.
use mathlib.Core.Path.{subst}
use distributed_apps_platfor.Base.{
  ◌≡◌, ◌∙◌, refl, sym, String, false, List, [], ◌∷◌, Option, none, some, Dict, lookup, insert,
  has_key, group, Distinct, push, push-Distinct, attribute_error, All, Value, ok, err, ◌>>=◌, ◌==◌,
  string_eq, option_eq, arith, lookup-insert, lookup-insert_self, ==_refl, Option-cases, Bool-cases,
  Result-cases, inl, inr,
}
use distributed_apps_platfor.Sql.{Table}
use distributed_apps_platfor.Traffic.Rule.{Rule}
use distributed_apps_platfor.Apps.Controller.{Controller}
use distributed_apps_platfor.Apps.Podium.Endpoints.{Endpoints}
use distributed_apps_platfor.Apps.Podium.Traffic.{
  traffic_op, group_ruleids, get_rules_by_reqid, source_host,
}
use distributed_apps_platfor.Apps.Podium.Traffic.Shared.{
  IsFilled, ruleids_on, traffic_op_lem, result-ok,
}
use distributed_apps_platfor.Apps.Podium.Cluster.{rule_texts, Nodes, each_host, on_request}

-- what a round that does not raise goes on with
group_ruleids_step :
    (eps : Endpoints) (trule : Rule) (trules : List Rule)
    (d hosts : Dict (Option String) (List Value))
    → group_ruleids eps (trule ∷ trules) d ≡ ok hosts
    → (k : Option String) × (v : Value) × (group_ruleids eps trules (push k v d) ≡ ok hosts)
unfolding group_ruleids
group_ruleids_step eps trule trules d hosts h = go (lookup "ruleid" trule) (lookup "src" trule) h
  where
    go :
        (i s : Option Value)
        → (elim i [ none ↦ err attribute_error | some v ↦ ok v ] >>= λ ruleid.
            elim s [ none ↦ err attribute_error | some v ↦ ok v ] >>= λ src.
            group_ruleids eps trules (push (source_host eps src) ruleid d))
          ≡ ok hosts
        → (k : Option String) × (v : Value) × (group_ruleids eps trules (push k v d) ≡ ok hosts)
    go none s q = absurd (ground (arith, q))
    go (some i) none q = absurd (ground (arith, q))
    go (some i) (some s) q = (source_host eps s, i, q)

group_ruleids-Distinct :
    (eps : Endpoints) (trules : List Rule) (d hosts : Dict (Option String) (List Value))
    → Distinct d
    → group_ruleids eps trules d ≡ ok hosts
    → Distinct hosts
unfolding group_ruleids
group_ruleids-Distinct eps [] d hosts h q =
    subst (λ (x : Dict (Option String) (List Value)). Distinct x) (result-ok q) h
group_ruleids-Distinct eps (trule ∷ trules) d hosts h q =
    let (k, v, step) = group_ruleids_step eps trule trules d hosts q in
    group_ruleids-Distinct eps trules (push k v d) hosts (push-Distinct k v d h) step

traffic_op-Distinct :
    (reqid : String) (eps : Endpoints) (trules : List Rule)
    (hosts : Dict (Option String) (List Value))
    → traffic_op reqid eps trules ≡ ok hosts
    → Distinct hosts
unfolding traffic_op
traffic_op-Distinct reqid eps trules hosts q =
    elim (Result-cases (get_rules_by_reqid reqid trules)) [
      | inl (rs, e) ↦ group_ruleids-Distinct eps rs [] hosts tt (ground (arith, q, e))
      | inr (x, e) ↦ absurd (ground (arith, q, e))
    ]

group-cons_other :
    (ip h : Option String) (rules : List Value) (hosts : Dict (Option String) (List Value))
    → (ip == h) ≡ false
    → group h ((ip, rules) ∷ hosts) ≡ group h hosts
unfolding lookup
group-cons_other ip h rules hosts n = rw n refl

group-cons_self :
    (h : Option String) (rules : List Value) (hosts : Dict (Option String) (List Value))
    → has_key h hosts ≡ false
    → (group h ((h, rules) ∷ hosts) ≡ rules) × (group h hosts ≡ [])
unfolding lookup
group-cons_self h rules hosts n =
    (rw (==_refl h) refl, ground (arith, n, Option-cases (lookup h hosts)))

some-none {ℓ} : {A : Type ℓ} (x : A) → some x ≡ none → ⊥
some-none x z = cc

missed :
    {A : Type 0} (ip h : Option String) (nodes : Dict (Option String) A) (a : A)
    → lookup ip nodes ≡ none
    → lookup h nodes ≡ some a
    → (ip == h) ≡ false
missed ip h nodes a e found = elim (Bool-cases (ip == h)) [
  | inl q ↦
      let same : ip ≡ h = (option_eq.same_iff ip h).0 q in
      absurd (some-none a (sym found ∙ subst (λ x. lookup x nodes ≡ none) same e))
  | inr q ↦ q
]

module _ (sql : Table) (op : List String → Controller sql → Controller sql) where
  each_host-cons :
      (ip : Option String) (rules : List Value) (hosts : Dict (Option String) (List Value))
      (nodes : Nodes sql)
      → (lookup ip nodes ≡ none
          → each_host sql op ((ip, rules) ∷ hosts) nodes ≡ each_host sql op hosts nodes)
        × ((node : Controller sql)
            → lookup ip nodes ≡ some node
            → each_host sql op ((ip, rules) ∷ hosts) nodes
              ≡ each_host sql op hosts (insert ip (op (rule_texts rules) node) nodes))
  unfolding each_host
  each_host-cons ip rules hosts nodes =
      (λ e. rw (e, each_host) refl, λ node e. rw (e, each_host) refl)

  each_host_self :
      (h : Option String) (rules : List Value) (hosts : Dict (Option String) (List Value))
      (nodes : Nodes sql) (node : Controller sql)
      → ((node' : Controller sql) → op [] node' ≡ node')
      → has_key h hosts ≡ false
      → lookup h nodes ≡ some node
      → ((nodes' : Nodes sql) (node' : Controller sql)
          → lookup h nodes' ≡ some node'
          → lookup h (each_host sql op hosts nodes') ≡ some (op (rule_texts (group h hosts)) node'))
      → lookup h (each_host sql op ((h, rules) ∷ hosts) nodes)
        ≡ some (op (rule_texts (group h ((h, rules) ∷ hosts))) node)
  each_host_self h rules hosts nodes node none_asked absent found later =
      let (own, none_left) = group-cons_self h rules hosts absent in
      let started : Controller sql = op (rule_texts rules) node in
      rw ((each_host-cons h rules hosts nodes).1 node found, own)
        (later (insert h started nodes) started (lookup-insert_self h started nodes)
          ∙ rw (none_left, none_asked started) refl)

  -- every host that is reached is asked for the rules of its group
  each_host-lookup :
      (hosts : Dict (Option String) (List Value)) (nodes : Nodes sql) (h : Option String)
      (node : Controller sql)
      → ((node' : Controller sql) → op [] node' ≡ node')
      → Distinct hosts
      → lookup h nodes ≡ some node
      → lookup h (each_host sql op hosts nodes) ≡ some (op (rule_texts (group h hosts)) node)
  unfolding each_host lookup
  each_host-lookup [] nodes h node none_asked d found = found ∙ sym (rw (none_asked node) refl)
  each_host-lookup ((ip, rules) ∷ hosts) nodes h node none_asked d found =
      elim (Option-cases (lookup ip nodes)) [
        | inl e ↦
            rw
              (
                (each_host-cons ip rules hosts nodes).0 e,
                group-cons_other ip h rules hosts (missed ip h nodes node e found),
              )
              (each_host-lookup hosts nodes h node none_asked d.1 found)
        | inr (other, e) ↦
            let nodes' : Nodes sql = insert ip (op (rule_texts rules) other) nodes in
            elim (Bool-cases (ip == h)) [
              | inl q ↦
                  let same : ip ≡ h = (option_eq.same_iff ip h).0 q in
                  subst
                    (λ x.
                      lookup h (each_host sql op ((x, rules) ∷ hosts) nodes)
                      ≡ some (op (rule_texts (group h ((x, rules) ∷ hosts))) node))
                    (sym same)
                    (each_host_self h rules hosts nodes node none_asked
                      (subst (λ x. has_key x hosts ≡ false) same d.0) found
                      (λ nodes' node' f. each_host-lookup hosts nodes' h node' none_asked d.1 f))
              | inr q ↦
                  rw
                    (
                      (each_host-cons ip rules hosts nodes).1 other e,
                      group-cons_other ip h rules hosts q,
                    )
                    (each_host-lookup hosts nodes' h node none_asked d.1
                      (lookup-insert ip h (op (rule_texts rules) other) nodes ∙ rw q found))
            ]
      ]

  -- where every rule of the primary node has its attributes, a host that is reached is asked for its rules of the request
  pub on_request_lem :
      (reqid : String) (eps : Endpoints) (trules : List Rule) (nodes : Nodes sql)
      (h : Option String) (node : Controller sql)
      → ((node' : Controller sql) → op [] node' ≡ node')
      → All IsFilled trules
      → lookup h nodes ≡ some node
      → (nodes' : Nodes sql) × (on_request sql op reqid eps trules nodes ≡ ok nodes')
        × (lookup h nodes' ≡ some (op (rule_texts (ruleids_on reqid eps h trules)) node))
  unfolding on_request
  on_request_lem reqid eps trules nodes h node none_asked filled found =
      let (hosts, called, ks) = traffic_op_lem eps h reqid trules filled in
      (
        each_host sql op hosts nodes,
        rw (called, on_request) refl,
        each_host-lookup hosts nodes h node none_asked
              (traffic_op-Distinct reqid eps trules hosts called) found
            ∙ rw ks refl,
      )
