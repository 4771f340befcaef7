-- ===== src/Tests/Discovery.antt =====
-- Runs of the discovery of interfaces and namespaces.
use distributed_apps_platfor.Base.{
  ◌≡◌, refl, ℕ, String, Bool, true, false, List, [], ◌∷◌, ◌++◌, Option, none, some, Dict, Result,
  ok, err, Error, value_error, if◌then◌else◌, ◌==◌, string_eq, contains, any, values, map,
}
use distributed_apps_platfor.Remote.Network.{Interface, discover_interfaces, get_ips_by_interface}
use distributed_apps_platfor.Remote.Addrs.{Host, linux, net_if_addrs_linux, snicaddr}
use distributed_apps_platfor.Remote.Addrs.Listed.{shown, net_if_addrs_linux_lem}
use distributed_apps_platfor.Remote.Namespaces.{
  NamespaceManager, discover_namespaces, get_namespace,
}
use distributed_apps_platfor.Remote.Namespaces.Lines.{Line, with_id, bare, print}
use distributed_apps_platfor.Remote.Namespaces.Addresses.{listed, discover_namespaces_lem}

abbrev node : Host
node = record {
  os_type = some linux;
  run_command = λ cmd.
      (if cmd == "ip addr show eth0"
        then ok "2: eth0\n inet 10.0.0.5/24 brd\n"
        else err value_error);
  listdir = "lo" ∷ "eth0" ∷ [];
  words = λ s. [];
  entries = λ v6 s. ok [];
}

eth0-shown : shown node "inet " "eth0" ≡ "10.0.0.5" ∷ []
unfolding distributed_apps_platfor.Base.split_second distributed_apps_platfor.Base.before
eth0-shown = refl

net_if_addrs_linux_lem_example :
    get_ips_by_interface "eth0" (discover_interfaces (net_if_addrs_linux node))
    ≡ shown node "inet " "eth0" ++ shown node "inet6 " "eth0"
net_if_addrs_linux_lem_example = net_if_addrs_linux_lem node "eth0" refl (refl, (refl, tt))

abbrev manager : NamespaceManager
manager = record {
  namespace_map =
      ("blue", record { name = "blue"; id = "0"; interfaces = snicaddr 2 "10.1.0.1" ∷ [] }) ∷ [];
  namespace_interface_map = [];
}

abbrev no_addrs : String → Dict String (List Interface)
no_addrs name = []

abbrev lines : List Line
lines = with_id "red" "(id: " "3" ")" ∷ bare "green" ∷ []

discover_namespaces_lem_example :
    let (result, m') = discover_namespaces (λ name. ok (no_addrs name)) (map print lines) manager in
    (result ≡ ok tt)
    × (get_namespace "red" m'
        ≡ (elim (listed (λ name. ok (no_addrs name)) no_addrs (λ name. refl) "red" lines) [
          | some ns ↦ some ns
          | none ↦ get_namespace "red" manager
        ]))
discover_namespaces_lem_example =
    discover_namespaces_lem (λ name. ok (no_addrs name)) no_addrs (λ name. refl) lines manager "red"
      (refl, (refl, tt))
