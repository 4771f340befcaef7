-- ===== src/Tests/Remote.antt =====
-- Runs of the connection, the pool, the interfaces, the jobs and the mock tool.
use distributed_apps_platfor.Base.{
  connection_error, Option, ◌≡◌, refl, arith, ℕ, zero, suc, ◌+◌, text, option_eq, String, Bool,
  true, false, List, [], ◌∷◌, none, some, Dict, lookup, Result, ok, err, Error, value_error, nat_eq,
  string_eq, Distinct,
}
use distributed_apps_platfor.Traffic.Rule.{Rule}
use distributed_apps_platfor.Apps.Mock.{DummyRules, DummyRecord}
use distributed_apps_platfor.Apps.Controller.Discover.{TargetMap}
use distributed_apps_platfor.Remote.Connect.{
  Outcome, connected, timed_out, refused, Session, closed, is_connected, connect, connect-gives_up,
}
use distributed_apps_platfor.Remote.Network.{Interface}
use distributed_apps_platfor.Apps.Iperf.{
  Iperf, Job, running, start_iperf_client, get_client_job_info, finish, start_iperf_server,
  stop_iperf_server,
}
use distributed_apps_platfor.Apps.Iperf.Jobs.{IsNumbered}

abbrev outcomes : ℕ → Outcome
outcomes zero = timed_out
outcomes (suc zero) = refused
outcomes (suc (suc n)) = connected

abbrev dead : ℕ → Outcome
dead n = refused

abbrev fresh : Session
fresh = record { rpc_client = none; attempts = 0 }

abbrev stale : Session
stale = record { rpc_client = some closed; attempts = 0 }

stale-closed : is_connected stale ≡ false
unfolding is_connected
stale-closed = refl

-- the root of an open connection can be read, and that of a closed one cannot
abbrev root : Bool → Result (Unit {0})
root true = err connection_error
root false = ok tt

connect-gives_up_example :
    let (r, s') = connect dead root 3 stale in
    (s' ≡ record { rpc_client = some closed; attempts = 0 + 3 })
    × (stale.rpc_client ≡ none → (e : Error) × (r ≡ err e))
    × (stale.rpc_client ≡ some closed → r ≡ err connection_error)
connect-gives_up_example =
    connect-gives_up dead root 3 stale stale-closed (omega arith) (λ j h. refl)

abbrev predecessor : ℕ → Result ℕ
predecessor zero = err value_error
predecessor (suc n) = ok n

abbrev calls : Dict String ℕ
calls = ("a", 0) ∷ ("b", 5) ∷ []

calls-Distinct : Distinct calls
unfolding lookup
calls-Distinct = (refl, (refl, tt))

abbrev nic : ℕ → String → Interface
nic family address = record {
  name = "";
  address = address;
  family = family;
  netmask = none;
  broadcast = none;
}

abbrev addrs : Dict String (List Interface)
addrs = ("eth0", nic 2 "10.0.0.1" ∷ nic 17 "aa:bb" ∷ []) ∷ ("lo", nic 2 "127.0.0.1" ∷ []) ∷ []

addrs-Distinct : Distinct addrs
unfolding lookup
addrs-Distinct = (refl, (refl, tt))

abbrev job : Job
job = record { popen_obj = 7; state = running; result = none; cmd = "iperf3" }

abbrev app : Iperf
app = record {
  server_handles = [];
  client_handles = (1000, job) ∷ [];
  job_id = some 1000;
  killed = [];
}

app-IsNumbered : IsNumbered app
unfolding lookup distributed_apps_platfor.Apps.Iperf.next_job_id
app-IsNumbered j h = ground (arith, h)

job-there : lookup 1000 app.client_handles ≡ some job
unfolding lookup
job-there = refl

abbrev look : ℕ → Bool
look zero = false
look (suc n) = true

abbrev dummy : Rule
dummy = ("ruleid", text "r-1") ∷ ("reqid", text "q-1") ∷ []

abbrev others : DummyRules
others = (some "r-2", dummy) ∷ []

abbrev full : List DummyRecord
full =
    record {
      source = "0.0.0.0";
      destination = "0.0.0.0";
      protocol = "TCP";
      port = "00";
      result = true;
      reqid = text "q-1";
      ruleid = some "r-1";
      latency = "0";
    }
    ∷ []

dummy-id : lookup "ruleid" dummy ≡ some (text "r-1")
unfolding lookup
dummy-id = refl

abbrev fresh_id : ℕ → String
fresh_id zero = "r-0"
fresh_id (suc i) = "r"

abbrev mesh : List String
mesh = "10.0.0.1" ∷ "10.0.0.2" ∷ "10.0.0.3" ∷ []

abbrev namespaces : Dict String (Option (List String))
namespaces = ("ns-1", some ("10.2.0.1" ∷ [])) ∷ ("ns-2", some ("10.2.0.2" ∷ [])) ∷ []

abbrev no_targets : TargetMap
no_targets = []
