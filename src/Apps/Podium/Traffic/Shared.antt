-- ===== src/Apps/Podium/Traffic/Shared.antt =====
-- What each host is called with when a request is registered, started, stopped or removed.
use distributed_apps_platfor.Base.{
  append_assoc, append-nil, group, group-extend, group-extend_all, push-Distinct, Distinct, push,
  Bool-cases, All-keep, inl, inr, ◌≡◌, ◌∙◌, refl, arith, ap, sym, String, Bool, true, false, ◌&&◌,
  List, [], ◌∷◌, ◌++◌, Option, none, some, Dict, lookup, get_or, map, Value, null, as_key, Result,
  ok, err, ◌>>=◌, All, key_error, attribute_error, if◌then◌else◌, ◌==◌, string_eq, option_eq, push,
  keep, is_some,
}
use mathlib.Core.Path.{subst}
use distributed_apps_platfor.Sql.{Table}
use distributed_apps_platfor.Traffic.Rule.{Rule}
use distributed_apps_platfor.Apps.Rules.{RulesApp, add_rules}
use distributed_apps_platfor.Apps.Podium.Endpoints.{Endpoints}
use distributed_apps_platfor.Apps.Podium.Traffic.{
  Intent, host_of, Groups, no_groups, add_intent, group_intents, phases, register_traffic,
  get_rules_by_reqid, source_host, group_ruleids, traffic_op,
}

-- the host of an intent's endpoint under a key
abbrev pub end_host : String → Endpoints → Intent → Option String
end_host key eps rule = elim (lookup key rule) [ none ↦ none | some v ↦ host_of eps v ]

-- both ends are on a known host
abbrev pub is_runnable : Endpoints → Intent → Bool
is_runnable eps rule = is_some (end_host "src" eps rule) && is_some (end_host "dst" eps rule)

-- the intents that can run and have the end under this key on a host, in order
abbrev pub intents_on : String → Endpoints → String → List Intent → List Intent
intents_on key eps host = keep (λ rule. is_runnable eps rule && end_host key eps rule == some host)

pub result-ok {ℓ} : {A : Type ℓ} {a b : A} → Path (Result A) (ok a) (ok b) → a ≡ b
result-ok h = cc

group-push :
    {A : Type 0} (k j : String) (a : A) (d : Dict String (List A))
    → group j (push k a d) ≡ (if k == j then group j d ++ a ∷ [] else group j d)
unfolding push
group-push k j a d = group-extend k j (a ∷ []) d

module _ (eps : Endpoints) (host : String) where
  add_intent-servers :
      (rule : Intent) (s d : Option String) (g : Groups)
      → group host (add_intent rule s d g).servers ≡ (
          if (is_some s && is_some d) && d == some host
          then group host g.servers ++ rule ∷ []
          else group host g.servers)
  unfolding add_intent
  add_intent-servers rule none d g = refl
  add_intent-servers rule (some s) none g = refl
  add_intent-servers rule (some s) (some d) g = group-push d host rule g.servers

  add_intent-clients :
      (rule : Intent) (s d : Option String) (g : Groups)
      → group host (add_intent rule s d g).clients ≡ (
          if (is_some s && is_some d) && s == some host
          then group host g.clients ++ rule ∷ []
          else group host g.clients)
  unfolding add_intent
  add_intent-clients rule none d g = refl
  add_intent-clients rule (some s) none g = refl
  add_intent-clients rule (some s) (some d) g = group-push s host rule g.clients

  -- a round that does not raise
  group_intents-cons :
      (rule : Intent) (intent : List Intent) (g g' : Groups)
      → group_intents eps (rule ∷ intent) g ≡ ok g'
      → group_intents eps intent
          (add_intent rule (end_host "src" eps rule) (end_host "dst" eps rule) g)
        ≡ ok g'
  unfolding group_intents
  group_intents-cons rule intent g g' h = go (lookup "src" rule) (lookup "dst" rule) h
    where
      go :
          (s d : Option Value)
          → (elim s [ none ↦ err key_error | some v ↦ ok v ] >>= λ src.
              elim d [ none ↦ err key_error | some v ↦ ok v ] >>= λ dst.
              group_intents eps intent (add_intent rule (host_of eps src) (host_of eps dst) g))
            ≡ ok g'
          → group_intents eps intent (
              add_intent rule
                (elim s [ none ↦ none | some v ↦ host_of eps v ])
                (elim d [ none ↦ none | some v ↦ host_of eps v ])
                g)
            ≡ ok g'
      go none d q = cc
      go (some s) none q = cc
      go (some s) (some d) q = q

  keep-cons :
      (p : Intent → Bool) (xs ys : List Intent) (x : Intent)
      → (if p x then xs ++ x ∷ [] else xs) ++ keep p ys ≡ xs ++ keep p (x ∷ ys)
  keep-cons p xs ys x = elim (Bool-cases (p x)) [
    | inl e ↦ rw e (append_assoc xs (x ∷ []) (keep p ys))
    | inr e ↦ rw e refl
  ]

  group_intents_lem :
      (intent : List Intent) (g g' : Groups)
      → group_intents eps intent g ≡ ok g'
      → (group host g'.servers ≡ group host g.servers ++ intents_on "dst" eps host intent)
        × (group host g'.clients ≡ group host g.clients ++ intents_on "src" eps host intent)
  unfolding group_intents
  group_intents_lem [] g g' h =
      (cc (h, append-nil (group host g.servers)), cc (h, append-nil (group host g.clients)))
  group_intents_lem (rule ∷ intent) g g' h =
      let s = end_host "src" eps rule in
      let d = end_host "dst" eps rule in
      let (hs, hc) = group_intents_lem intent _ g' (group_intents-cons rule intent g g' h) in
      (
        hs
            ∙ ap (λ x. x ++ intents_on "dst" eps host intent) (add_intent-servers rule s d g)
            ∙ keep-cons (λ r. is_runnable eps r && end_host "dst" eps r == some host)
                (group host g.servers) intent rule,
        hc
            ∙ ap (λ x. x ++ intents_on "src" eps host intent) (add_intent-clients rule s d g)
            ∙ keep-cons (λ r. is_runnable eps r && end_host "src" eps r == some host)
                (group host g.clients) intent rule,
      )

  add_intent-Distinct :
      (rule : Intent) (s d : Option String) (g : Groups)
      → Distinct g.clients
      → Distinct (add_intent rule s d g).clients
  unfolding add_intent
  add_intent-Distinct rule none d g h = h
  add_intent-Distinct rule (some s) none g h = h
  add_intent-Distinct rule (some s) (some d) g h = push-Distinct s rule g.clients h

  group_intents-Distinct :
      (intent : List Intent) (g g' : Groups)
      → group_intents eps intent g ≡ ok g'
      → Distinct g.clients
      → Distinct g'.clients
  unfolding group_intents
  group_intents-Distinct [] g g' h k = subst (λ (x : Groups). Distinct x.clients) (result-ok h) k
  group_intents-Distinct (rule ∷ intent) g g' h k =
      group_intents-Distinct intent _ g' (group_intents-cons rule intent g g' h)
        (add_intent-Distinct rule (end_host "src" eps rule) (end_host "dst" eps rule) g k)

  -- Where the intents have their two ends, `register_traffic` with servers first calls each host in
  -- the first phase with exactly the runnable intents whose destination is on it, in order, and in the
  -- second with exactly those whose source is on it; in a single phase it calls the host with
  -- the first list followed by the second.
  pub register_traffic_lem :
      (sql : Table) (intent : List Intent) (g : Groups) (app : RulesApp sql)
      → group_intents eps intent no_groups ≡ ok g
      → (map (group host) (register_traffic sql true eps intent app).0
          ≡ intents_on "dst" eps host intent ∷ intents_on "src" eps host intent ∷ [])
        × (map (group host) (register_traffic sql false eps intent app).0
            ≡ (intents_on "dst" eps host intent ++ intents_on "src" eps host intent) ∷ [])
        × ((register_traffic sql true eps intent app).1 ≡ add_rules sql g.trules app)
  unfolding register_traffic phases lookup
  register_traffic_lem sql intent g app h =
      let (hs, hc) = group_intents_lem intent no_groups g h in
      (
        rw (h, register_traffic) (rw (hs, hc) refl),
        rw (h, register_traffic)
            (rw
              (
                group-extend_all g.clients g.servers host
                    (group_intents-Distinct intent no_groups g h tt),
                hs,
                hc,
              )
              refl),
        rw (h, register_traffic) refl,
      )

abbrev pub id_of : Rule → Value
id_of r = get_or (lookup "ruleid" r) null

abbrev pub of_request : String → Rule → Bool
of_request reqid r = as_key (get_or (lookup "reqid" r) null) == some reqid

abbrev pub from_host : Endpoints → Option String → Rule → Bool
from_host eps host r = source_host eps (get_or (lookup "src" r) null) == host

-- the rules of a request that have their source on a host, by their ids
abbrev pub ruleids_on : String → Endpoints → Option String → List Rule → List Value
ruleids_on reqid eps host trules =
    map id_of (keep (from_host eps host) (keep (of_request reqid) trules))

-- a rule object with the attributes that every filled rule has
abbrev pub IsFilled : Rule → Type 0
IsFilled r =
    (is_some (lookup "reqid" r) ≡ true)
    × (is_some (lookup "ruleid" r) ≡ true)
    × (is_some (lookup "src" r) ≡ true)

pub get_rules_by_reqid_lem :
    (reqid : String) (trules : List Rule)
    → All IsFilled trules
    → get_rules_by_reqid reqid trules ≡ ok (keep (of_request reqid) trules)
unfolding get_rules_by_reqid
get_rules_by_reqid_lem reqid [] h = refl
get_rules_by_reqid_lem reqid (trule ∷ trules) h =
    go (lookup "reqid" trule) (get_rules_by_reqid reqid trules) h.0.0
      (get_rules_by_reqid_lem reqid trules h.1)
  where
    kept : List Rule
    kept = keep (of_request reqid) trules

    go :
        (q : Option Value) (rest : Result (List Rule))
        → is_some q ≡ true
        → rest ≡ ok kept
        → (elim q [ none ↦ err attribute_error | some v ↦ ok v ] >>= λ r.
            rest >>= λ rs. ok (if as_key r == some reqid then trule ∷ rs else rs))
          ≡ ok (if as_key (get_or q null) == some reqid then trule ∷ kept else kept)
    go none rest p q = ground arith
    go (some v) rest p q = rw q refl

module _ (eps : Endpoints) (host : Option String) where
  group_ruleids-cons :
      (trule : Rule) (trules : List Rule) (d : Dict (Option String) (List Value))
      → IsFilled trule
      → group_ruleids eps (trule ∷ trules) d
        ≡ group_ruleids eps trules
            (push (source_host eps (get_or (lookup "src" trule) null)) (id_of trule) d)
  unfolding group_ruleids
  group_ruleids-cons trule trules d h = go (lookup "ruleid" trule) (lookup "src" trule) h.1 h.2
    where
      go :
          (i s : Option Value)
          → is_some i ≡ true
          → is_some s ≡ true
          → (elim i [ none ↦ err attribute_error | some v ↦ ok v ] >>= λ ruleid.
              elim s [ none ↦ err attribute_error | some v ↦ ok v ] >>= λ src.
              group_ruleids eps trules (push (source_host eps src) ruleid d))
            ≡ group_ruleids eps trules (push (source_host eps (get_or s null)) (get_or i null) d)
      go none s p q = ground arith
      go (some i) none p q = ground arith
      go (some i) (some s) p q = refl

  group-pushed :
      (k : Option String) (v : Value) (d : Dict (Option String) (List Value)) (vs : List Value)
      → group host (push k v d) ++ vs ≡ group host d ++ (if k == host then v ∷ vs else vs)
  unfolding push
  group-pushed k v d vs = elim (Bool-cases (k == host)) [
    | inl e ↦ rw (group-extend k host (v ∷ []) d, e) (append_assoc (group host d) (v ∷ []) vs)
    | inr e ↦ rw (group-extend k host (v ∷ []) d, e) refl
  ]

  map-if :
      (b : Bool) (r : Rule) (rs : List Rule)
      → (if b then id_of r ∷ map id_of rs else map id_of rs) ≡ map id_of (if b then r ∷ rs else rs)
  map-if true r rs = refl
  map-if false r rs = refl

  group_ruleids_lem :
      (trules : List Rule) (d : Dict (Option String) (List Value))
      → All IsFilled trules
      → (hosts : Dict (Option String) (List Value)) × (group_ruleids eps trules d ≡ ok hosts)
        × (group host hosts ≡ group host d ++ map id_of (keep (from_host eps host) trules))
  unfolding group_ruleids
  group_ruleids_lem [] d h = (d, refl, sym (append-nil (group host d)))
  group_ruleids_lem (trule ∷ trules) d h =
      let k = source_host eps (get_or (lookup "src" trule) null) in
      let rest = keep (from_host eps host) trules in
      let (hosts, q, l) = group_ruleids_lem trules (push k (id_of trule) d) h.1 in
      (
        hosts,
        group_ruleids-cons trule trules d h.0 ∙ q,
        l
            ∙ group-pushed k (id_of trule) d (map id_of rest)
            ∙ ap (λ x. group host d ++ x) (map-if (k == host) trule rest),
      )

  -- Where every rule of the cache has its attributes, a start, a stop or a removal of a request
  -- calls each host with exactly the ids of the request's rules whose source is on the host, in order.
  pub traffic_op_lem :
      (reqid : String) (trules : List Rule)
      → All IsFilled trules
      → (hosts : Dict (Option String) (List Value)) × (traffic_op reqid eps trules ≡ ok hosts)
        × (group host hosts ≡ ruleids_on reqid eps host trules)
  unfolding traffic_op lookup
  traffic_op_lem reqid trules h =
      let (hosts, k, l) =
        group_ruleids_lem (keep (of_request reqid) trules) []
          (All-keep IsFilled (of_request reqid) trules h) in
      (hosts, rw (get_rules_by_reqid_lem reqid trules h, traffic_op) k, l)
