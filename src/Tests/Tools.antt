-- ===== src/Tests/Tools.antt =====
-- Runs of packet captures, of bandwidth measurements and of the map of rules.
use distributed_apps_platfor.Base.{
  ◌≡◌, refl, ℕ, String, Bool, true, false, List, [], ◌∷◌, Option, none, some, Dict, values, Result,
  ok, err, Error, connection_error, rerun_error, if◌then◌else◌, ◌==◌, string_eq, nat_eq, arith,
  text, Value,
}
use distributed_apps_platfor.Apps.Capture.{
  Console, TcpDump, get_identifier, get_pcap_handle, start_pcap, is_running, stop,
}
use distributed_apps_platfor.Apps.Capture.Runs.{all_gone, start_pcap_lem}
use distributed_apps_platfor.Apps.Iperf.{running, done}
use distributed_apps_platfor.Apps.Podium.Measure.{JobInfo, Hosts, watch, run_iperf}
use distributed_apps_platfor.Apps.Podium.Measure.Ended.{run_iperf-stops, run_iperf-result}
use distributed_apps_platfor.Apps.Rules.{RulesApp, get}
use distributed_apps_platfor.Apps.Rules.Refined.{
  Call, added, deleted, enabled, disabled, closed, calls_spec, run_calls, view, run_calls-refines,
}
use distributed_apps_platfor.Tests.Memory.{memory}
use distributed_apps_platfor.Tests.Traffic.{web}

-- a console that numbers its processes
abbrev console : Console ℕ ℕ
console = record {
  start_subprocess = λ cmd s. (ok s, s);
  ctrl_c = λ p s. (if p == 3 then err connection_error else ok tt, s);
  kill_subprocess = λ p s. (ok tt, s);
  is_alive = λ p s. true;
}

abbrev idle : TcpDump console
idle = record { pcap_handles = []; env = 1 }

abbrev capturing : TcpDump console
capturing = record { pcap_handles = ("/tmp/eth0.pcap", 1) ∷ []; env = 1 }

idle-free : get_pcap_handle console "eth0.pcap" idle ≡ none
unfolding get_pcap_handle distributed_apps_platfor.Base.lookup
idle-free = refl

capturing-there : get_pcap_handle console "eth0.pcap" capturing ≡ some 1
unfolding get_pcap_handle get_identifier distributed_apps_platfor.Base.join
    distributed_apps_platfor.Base.lookup
capturing-there = refl

start_pcap_lem_example :
    let (result, app') = start_pcap console "eth0.pcap" "eth0" "" none idle in
    let (told, stopped) = stop console app' in
    (result ≡ ok true)
    × (is_running console "eth0.pcap" app' ≡ ok true)
    × (start_pcap console "eth0.pcap" "eth0" "" none app' ≡ (err rerun_error, app'))
    × (told ≡ ok tt)
    × (stopped.env ≡ all_gone console (λ p s. s) (values app'.pcap_handles) 1)
    × (stopped.pcap_handles ≡ app'.pcap_handles)
    × (start_pcap console "eth0.pcap" "eth0" "" none stopped ≡ (err rerun_error, stopped))
start_pcap_lem_example =
    start_pcap_lem console (λ p s. s) (λ q t. refl) "eth0.pcap" "eth0" "" none idle 1 1 idle-free
      refl

abbrev on_going : JobInfo
on_going = record { state = running; result = none }

abbrev ended : JobInfo
ended = record { state = done; result = some "9 Gbits/sec" }

-- Hosts on which a job is over after some seconds; the state is the time.
abbrev hosts : Hosts ℕ
hosts = record {
  start_iperf_server = λ s. (ok 5201, s);
  start_iperf_client = λ p s. (ok 1001, s);
  get_client_job_info = λ j s. (ok (if s == 11 then ended else on_going), s);
  stop_iperf_server = λ p s. (ok tt, s);
  stop_iperf_client = λ j s. (ok tt, s);
  sleep = λ t s. if t == 10 then 10 else 11;
}

run_iperf-stops_example :
    (hosts.start_iperf_client 5201 0 ≡ (ok 1001, 0)
      → run_iperf hosts 1 10 0 ≡ ((watch hosts 1 10 1001 0).0, (watch hosts 1 10 1001 0).1))
    × (hosts.start_iperf_client 5201 0 ≡ (err connection_error, 0)
        → run_iperf hosts 1 10 0 ≡ (err connection_error, 0))
run_iperf-stops_example =
    run_iperf-stops hosts (λ p s. s) (λ j s. s) (λ p s. refl) (λ j s. refl) 1 10 5201 1001
      connection_error 0 0 0 refl refl refl

run_iperf-result_example : run_iperf hosts 1 10 0 ≡ (ok (some (some "9 Gbits/sec")), 11)
run_iperf-result_example =
    run_iperf-result hosts (λ p s. s) (λ j s. s) (λ p s. refl) (λ j s. refl) 1 1 10 5201 1001
      on_going ended 0 0 0 0 11 refl refl refl refl refl (omega arith)
      (refl, (ended, refl, (refl, refl, refl)))

abbrev no_rules : RulesApp (memory "ruleid")
no_rules = record { rules = []; db = [] }

abbrev calls : List Call
calls = added web true ∷ disabled "r-1" ∷ closed ∷ deleted ("r-2" ∷ []) ∷ enabled "r-3" ∷ []

run_calls-refines_example :
    get (memory "ruleid") "r-1" (run_calls (memory "ruleid") calls no_rules)
    ≡ calls_spec calls (view (memory "ruleid") no_rules) "r-1"
run_calls-refines_example = run_calls-refines (memory "ruleid") calls no_rules "r-1"
