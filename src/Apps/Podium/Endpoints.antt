-- ===== src/Apps/Podium/Endpoints.antt =====
-- The endpoint map of `Podium` in LYDIAN/lydian/apps/podium.py: the host of each endpoint's address.
pub mod Mapped
use distributed_apps_platfor.Base.{
  ◌≡◌, String, Bool, true, false, List, [], ◌∷◌, Option, none, some, Dict, lookup, insert, remove,
  update, has_key, any, keep, map, Result, ok, err, if◌then◌else◌, ◌==◌, string_eq,
}
use distributed_apps_platfor.Base.Exec.{Exec, lift, modify, for_each, ◌>>=◌, ◌>>◌}
use text.Mathlib.Text.{starts_with}

-- `self._ep_hosts`
abbrev pub Endpoints : Type 0
Endpoints = Dict String String

unfoldable pub get_ep_host : String → Endpoints → Option String
get_ep_host epip eps = lookup epip eps

unfoldable pub update_endpoints : Dict String String → Endpoints → Endpoints
update_endpoints iface_hosts eps = update iface_hosts eps

-- `for ep in eps: self._ep_hosts.pop(ep)`
pop_each : List String → Endpoints → Endpoints
pop_each [] eps = eps
pop_each (ep ∷ rest) eps = pop_each rest (remove ep eps)

-- `[k for k, v in self._ep_hosts.items() if v == hostip]`
endpoints_of : String → Endpoints → List String
endpoints_of hostip eps = map (λ (p : String × String). p.0) (keep (λ p. p.1 == hostip) eps)

unfoldable pub remove_endpoints : String → Endpoints → Endpoints
unfolding pop_each endpoints_of
remove_endpoints hostip eps = pop_each (endpoints_of hostip eps) eps

-- What a host answers: the connection to it, its interfaces with their addresses, and the
-- addresses of its namespaces. Each call may raise.
pub record Remote : Type 0 where
  pub connect : Result (Unit {0})
  pub interface_ips : Result (Dict String (List String))
  pub namespace_ips : Result (List String)

-- `for ip in ips: self._ep_hosts[ip] = hostip`
unfoldable pub put_ips : String → List String → Endpoints → Endpoints
put_ips hostip [] eps = eps
put_ips hostip (ip ∷ ips) eps = put_ips hostip ips (insert ip hostip eps)

module _ (prefixes : List String) where
  put_interfaces : String → Dict String (List String) → Endpoints → Endpoints
  put_interfaces hostip [] eps = eps
  put_interfaces hostip ((iface, ips) ∷ ifaces) eps =
      put_interfaces hostip ifaces
        (if any (λ x. starts_with iface x) prefixes then put_ips hostip ips eps else eps)

  -- `LydianClient(hostip)` is entered, `_add_endpoints` runs, and the host itself is added
  fetch : Remote → String → Exec Endpoints (Unit {0})
  unfolding put_interfaces
  fetch remote hostip = do
    lift remote.connect
    ifaces ← lift remote.interface_ips
    modify (put_interfaces hostip ifaces)
    ips ← lift remote.namespace_ips
    modify (put_ips hostip ips)
    modify (insert hostip hostip)

  -- an exception is logged, and what was added before it stays
  unfoldable pub add_endpoints : Remote → String → Endpoints → Endpoints
  unfolding fetch
  add_endpoints remote hostip eps = if has_key hostip eps then eps else (fetch remote hostip eps).1

-- `cleanup_hosts`: what `cleanup_node` returned for each host, in the order of `results`
unfoldable pub drop_hosts : Dict String Bool → Endpoints → Endpoints
drop_hosts [] eps = eps
drop_hosts ((host_ip, result) ∷ results) eps =
    drop_hosts results (if result then remove_endpoints host_ip eps else eps)

-- `self.nodes`, a set
unfoldable pub drop_nodes : Dict String Bool → List String → List String
drop_nodes [] nodes = nodes
drop_nodes ((host_ip, result) ∷ results) nodes =
    drop_nodes results
      (if result then keep (λ n. if n == host_ip then false else true) nodes else nodes)
