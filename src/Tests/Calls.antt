-- ===== src/Tests/Calls.antt =====
-- The calls of the managers, and the commands of a node, at concrete inputs.
use Prim.Native.String.{◌++◌}
use distributed_apps_platfor.Base.{
  ◌≡◌, refl, ℕ, ◌+◌, ◌≤◌, ◌⊎◌, ◌==◌, string_eq, nat_eq, String, false, [], ◌∷◌, none, some, pos,
  Result, ok, err, Error, value_error, attribute_error, arith, if◌then◌else◌,
}
use distributed_apps_platfor.Base.Exec.{Exec, ◌>>◌}
use distributed_apps_platfor.Apps.Console.{
  Subprocess, start_subprocess, is_alive, kill_subprocess, finish, run_command, run_command-ends,
}
use distributed_apps_platfor.Hosts.Enter.{Linux, namespace, namespace-ns}
use distributed_apps_platfor.Remote.Managers.Traffic.{
  TrafficManger, StatsManager, TrafficControllerManager, MockTrafficManager, ResultsManager,
  traffic_manger, stats_manager, traffic_controller_manager, mock_traffic_manager, results_manager,
}
use distributed_apps_platfor.Remote.Managers.Node.{
  NsManager, IfaceManager, HostInfoManager, ResourceMonitorManager, ConfigManager, TcpDumpManager,
  IperfManager, ns_manager, iface_manager, host_info_manager, resource_monitor_manager,
  config_manager, tcp_dump_manager, iperf_manager,
}
use distributed_apps_platfor.Remote.Managers.Tools.{
  ScapyManager, LynisManager, ThreatMonitorManager, RapidscanManager, scapy_manager, lynis_manager,
  threat_monitor_manager, rapidscan_manager,
}
use distributed_apps_platfor.Remote.Service.{served}
use distributed_apps_platfor.Remote.Service.Methods.{exposed}
use distributed_apps_platfor.Remote.Managers.Served.{
  lynis_answer, mock_answer, managers-served, managers-unserved,
}

abbrev dumps : String → String
dumps v = "<" ++ v ++ ">"

managers-served_example :
    ((r : HostInfoManager String) → served exposed (host_info_manager r) ≡ ok tt)
    × ((r : NsManager String) → served exposed (ns_manager r) ≡ ok tt)
    × ((r : IfaceManager String) → served exposed (iface_manager r) ≡ ok tt)
    × ((r : TrafficControllerManager String)
        → served exposed (traffic_controller_manager dumps r) ≡ ok tt)
    × ((r : ResultsManager String) → served exposed (results_manager r) ≡ ok tt)
    × ((r : ResourceMonitorManager String) → served exposed (resource_monitor_manager r) ≡ ok tt)
    × ((r : TcpDumpManager String) → served exposed (tcp_dump_manager r) ≡ ok tt)
    × ((r : IperfManager String) → served exposed (iperf_manager r) ≡ ok tt)
    × ((r : ConfigManager String) → served exposed (config_manager r) ≡ ok tt)
    × ((r : ThreatMonitorManager String) → served exposed (threat_monitor_manager r) ≡ ok tt)
    × ((r : RapidscanManager String) → served exposed (rapidscan_manager r) ≡ ok tt)
managers-served_example = managers-served dumps

managers-unserved_example :
    ((r : TrafficManger String) → served exposed (traffic_manger r) ≡ err attribute_error)
    × ((r : StatsManager String) → served exposed (stats_manager r) ≡ err attribute_error)
    × ((r : ScapyManager String) → served exposed (scapy_manager r) ≡ err attribute_error)
    × ((r : LynisManager String) → served exposed (lynis_manager r) ≡ lynis_answer dumps r)
    × ((r : MockTrafficManager String)
        → served exposed (mock_traffic_manager dumps r) ≡ mock_answer dumps r)
managers-unserved_example = managers-unserved dumps

-- a node on which a process is over when the clock shows 3
abbrev node : Subprocess ℕ ℕ
node = record {
  split = λ cmnd. ok (cmnd ∷ []);
  popen = λ args cwd s. (ok 7, s);
  poll = λ p s. if s == 3 then some (pos 0) else none;
  kill = λ p s. (ok tt, s);
  communicate = λ p s. (ok "done", s);
  returncode = λ p s. some (pos 0);
  interrupt = λ p s. (ok tt, s);
  wait = λ p n s. (ok tt, s);
  clock = λ s. s;
  sleep = λ n s. n + s;
}

ticks : (t : ℕ) → t + 1 ≤ 1 + t
ticks t = omega arith

began : (start_subprocess node "id" none 1).0 ≡ ok 7
unfolding start_subprocess
began = refl

run_command-ends_example :
    (s' : ℕ) × (run_command node 11 "id" none 10 1
      ≡ some ((kill_subprocess node 7 false >> finish node 7) s'))
    × ((is_alive node 7 s' ≡ false) ⊎ ((start_subprocess node "id" none 1).1 + 10 ≤ s'))
run_command-ends_example = run_command-ends node "id" none 9 1 7 ticks began

abbrev ok_of : ℕ → Result ℕ
ok_of s = ok s

abbrev ok_unit : Result (Unit {0})
ok_unit = ok tt

ok-injective : (s fd : ℕ) → ok_of s ≡ ok_of fd → fd ≡ s
ok-injective s fd h = cc

ok_is_no_err : (fd s : ℕ) (e : Error) → ok_unit ≡ err e → fd ≡ s
ok_is_no_err fd s e h = cc

-- a process in one of the namespaces 0, 1, ..., of which it may enter each
abbrev linux : Linux ℕ ℕ ℕ
linux = record {
  kind = "net";
  open_fd = λ path s. (ok (if path == "/proc/self/ns/net" then s else 4), s);
  close_fd = λ fd s. s;
  setns = λ fd s. (ok tt, fd);
  ns = λ s. s;
  held = λ fd. fd;
  open-ns = λ path s. refl;
  close-ns = λ fd s. refl;
  own = λ s fd h. ok-injective s fd h;
  back = λ s t fd h e. refl;
  stays = λ fd s e h. ok_is_no_err fd s e h;
}

abbrev raises : Exec ℕ ℕ
raises s = (err value_error, s)

namespace-ns_example :
    ((namespace linux "/var/run/netns/a" "net" raises 2).1 ≡ 2)
    × (namespace linux "/var/run/netns/a" "disk" raises 2 ≡ (err value_error, 2))
namespace-ns_example =
    namespace-ns linux "/var/run/netns/a" "disk" raises 2 (λ fd t h. refl) refl refl
