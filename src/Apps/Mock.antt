-- ===== src/Apps/Mock.antt =====
-- `MockTraffic` of LYDIAN/lydian/apps/mocktraffic.py: an external tool that only keeps its rules and
-- puts a record for each of them into the queue in every round.
use distributed_apps_platfor.Base.{
  ◌≡◌, ◌∙◌, refl, ℕ, ◌≤◌, String, Bool, true, false, List, [], ◌∷◌, Option, none, some, Dict,
  lookup, insert, remove, has_key, Value, as_key, is_text, Result, ok, err, key_error,
  if◌then◌else◌, ◌==◌, string_eq, option_eq, lookup-insert, lookup-insert_self, lookup-remove,
  ==_refl, length,
}
use distributed_apps_platfor.Base.Exec.{
  Exec, lift, raise, modify, gets, for_each, skip, bind-ok, ◌>>=◌, ◌>>◌,
}
use distributed_apps_platfor.Traffic.Rule.{Rule, attr}
use distributed_apps_platfor.Traffic.Task.{put}
use distributed_apps_platfor.Traffic.Task.Records.{put_lem}

abbrev pub DummyRules : Type 0
DummyRules = Dict (Option String) Rule

-- `self._dummy_rule[trule.ruleid] = trule`
unfoldable pub start_traffic : Rule → Exec DummyRules (Unit {0})
start_traffic trule = do ruleid ← lift (attr "ruleid" trule); modify (insert (as_key ruleid) trule)

-- `self._dummy_rule.pop(trule.ruleid)` raises on a rule that is not there
unfoldable pub stop_traffic : Rule → Exec DummyRules (Unit {0})
stop_traffic trule = do
  ruleid ← lift (attr "ruleid" trule)
  found ← gets (has_key (as_key ruleid))
  if found then modify (remove (as_key ruleid)) else raise key_error

-- one round of `register_traffic`, on a host with this address; nothing is done for a server
unfoldable pub register_one : String → Rule → Exec DummyRules (Unit {0})
register_one host rule = do
  src_host ← lift (attr "src_host" rule)
  (if is_text src_host host then start_traffic rule else skip)
  dst_host ← lift (attr "dst_host" rule)
  skip

unfoldable pub register_traffic : String → List Rule → Exec DummyRules (Unit {0})
register_traffic host rules = for_each rules (register_one host)

-- The fields of a record that the tool sets; the others stay None.
pub record DummyRecord : Type 0 where
  pub source : String
  pub destination : String
  pub protocol : String
  pub port : String
  pub result : Bool
  pub reqid : Value
  pub ruleid : Option String
  pub latency : String

-- the record of a rule in a round of `ping`: no record where the rule has no request
unfoldable pub dummy_record : Option String → Rule → Result DummyRecord
dummy_record ruleid trule = elim (attr "reqid" trule) [
  | err e ↦ err e
  | ok reqid ↦ ok (record {
    source = "0.0.0.0";
    destination = "0.0.0.0";
    protocol = "TCP";
    port = "00";
    result = true;
    reqid = reqid;
    ruleid = ruleid;
    latency = "0";
  })
]

put_record : ℕ → Result DummyRecord → List DummyRecord → List DummyRecord
put_record maxsize (ok rec) queue = put maxsize rec queue
put_record maxsize (err e) queue = queue

-- one round of `ping`, on a queue of at most `maxsize` records
unfoldable pub ping_round : ℕ → DummyRules → List DummyRecord → List DummyRecord
unfolding put_record
ping_round maxsize [] queue = queue
ping_round maxsize ((ruleid, trule) ∷ rules) queue =
    ping_round maxsize rules (put_record maxsize (dummy_record ruleid trule) queue)

put_record-length :
    (maxsize : ℕ) (r : Result DummyRecord) (queue : List DummyRecord)
    → length queue ≤ maxsize
    → length (put_record maxsize r queue) ≤ maxsize
unfolding put_record
put_record-length maxsize (ok rec) queue h = (put_lem maxsize rec queue h).0
put_record-length maxsize (err e) queue h = h

-- However many rules the tool has, a round leaves at most `maxsize` records in a queue that had no more.
pub ping_round-length :
    (maxsize : ℕ) (rules : DummyRules) (queue : List DummyRecord)
    → length queue ≤ maxsize
    → length (ping_round maxsize rules queue) ≤ maxsize
unfolding ping_round
ping_round-length maxsize [] queue h = h
ping_round-length maxsize ((ruleid, trule) ∷ rules) queue h =
    ping_round-length maxsize rules _
      (put_record-length maxsize (dummy_record ruleid trule) queue h)

start_traffic-eq :
    (trule : Rule) (v : Value) (rules : DummyRules)
    → lookup "ruleid" trule ≡ some v
    → start_traffic trule rules ≡ (ok tt, insert (as_key v) trule rules)
unfolding start_traffic
start_traffic-eq trule v rules h =
    bind-ok (lift (attr "ruleid" trule)) (λ ruleid. modify (insert (as_key ruleid) trule)) rules v
      (rw (h, attr) refl)

stop_traffic-eq :
    (trule : Rule) (v : Value) (rules : DummyRules)
    → lookup "ruleid" trule ≡ some v
    → stop_traffic trule rules ≡ (
        if has_key (as_key v) rules
        then (ok tt, remove (as_key v) rules)
        else (err key_error, rules))
unfolding stop_traffic
stop_traffic-eq trule v rules h =
    bind-ok (lift (attr "ruleid" trule))
      (λ ruleid. gets (has_key (as_key ruleid)) >>= λ b.
        if b then modify (remove (as_key ruleid)) else raise key_error)
      rules v (rw (h, attr) refl)
    ∙ found (has_key (as_key v) rules)
  where
    found :
        (b : Bool)
        → (if b then modify (remove (as_key v)) else raise key_error) rules
          ≡ (if b then (ok tt, remove (as_key v) rules) else (err key_error, rules))
    found true = refl
    found false = refl

-- A rule that the tool starts is kept under its id, and stopped after that it is gone, with every
-- other rule as it was; stopping a rule that is not kept raises KeyError and changes nothing.
pub start_traffic-stop_traffic :
    (trule : Rule) (v : Value) (rules : DummyRules)
    → lookup "ruleid" trule ≡ some v
    → let (started, rules') = start_traffic trule rules in
      let (stopped, rules'') = stop_traffic trule rules' in
      (started ≡ ok tt)
      × (lookup (as_key v) rules' ≡ some trule)
      × (stopped ≡ ok tt)
      × (lookup (as_key v) rules'' ≡ none)
      × ((k : Option String) → (as_key v == k) ≡ false → lookup k rules'' ≡ lookup k rules)
      × (has_key (as_key v) rules ≡ false → stop_traffic trule rules ≡ (err key_error, rules))
start_traffic-stop_traffic trule v rules h = rw (start_traffic-eq trule v rules h) (
    rw
      (
        stop_traffic-eq trule v (insert (as_key v) trule rules) h,
        lookup-insert_self (as_key v) trule rules,
      )
      (
        refl,
        refl,
        refl,
        rw (lookup-remove (as_key v) (as_key v) (insert (as_key v) trule rules), ==_refl (as_key v))
            refl,
        λ k n.
            rw
              (
                lookup-remove (as_key v) k (insert (as_key v) trule rules),
                n,
                lookup-insert (as_key v) k trule rules,
                n,
              )
              refl,
        λ n. rw (stop_traffic-eq trule v rules h, n) refl,
      ))
