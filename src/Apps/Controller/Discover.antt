-- ===== src/Apps/Controller/Discover.antt =====
-- The map of endpoints that the controller of LYDIAN/lydian/apps/traffic_controller.py builds from the
-- interfaces of its host and of its namespaces.
use distributed_apps_platfor.Base.{
  ◌≡◌, refl, arith, String, true, false, List, [], ◌∷◌, Option, none, some, Dict, lookup, insert,
  lookup-insert, contains, any, if◌then◌else◌, string_eq, Target, posix, namespace, Result, ok, err,
  type_error,
}
use distributed_apps_platfor.Remote.Network.{InterfaceMap, get_ips_by_interface, get_all_interfaces}
use text.Mathlib.Text.{starts_with}

abbrev pub TargetMap : Type 0
TargetMap = Dict String Target

-- `for ip in ips: self._ep_map[ip] = target`
unfoldable pub put_targets : Target → List String → TargetMap → TargetMap
put_targets t [] m = m
put_targets t (ip ∷ ips) m = put_targets t ips (insert ip t m)

-- the loop over the interfaces
unfoldable pub put_ifnames :
    List String → Target → InterfaceMap → List String → TargetMap → TargetMap
put_ifnames prefixes t interfaces [] m = m
put_ifnames prefixes t interfaces (ifname ∷ ifnames) m = put_ifnames prefixes t interfaces ifnames (
    if any (λ x. starts_with ifname x) prefixes
    then put_targets t (get_ips_by_interface ifname interfaces) m
    else m)

abbrev pub namespace_target : String → String → Target
namespace_target host ns_name = record {
  name = some ns_name;
  ip = some host;
  target_type = namespace;
}

-- the loop over the namespaces: one without interfaces stands with None, and iterating None raises
unfoldable pub put_namespaces :
    String → Dict String (Option (List String)) → TargetMap → Result TargetMap
put_namespaces host [] m = ok m
put_namespaces host ((ns_name, none) ∷ rest) m = err type_error
put_namespaces host ((ns_name, some addresses) ∷ rest) m =
    put_namespaces host rest (put_targets (namespace_target host ns_name) addresses m)

-- `_update_endpoints_map`, on the name and the address of the host
unfoldable pub update_endpoints_map :
    List String
    → String
    → String
    → InterfaceMap
    → Dict String (Option (List String))
    → Result TargetMap
update_endpoints_map prefixes host_name host interfaces namespaces =
    let t : Target = record { name = some host_name; ip = some host; target_type = posix } in
    put_namespaces host namespaces (
      put_ifnames prefixes t interfaces (get_all_interfaces interfaces)
        (insert "::1" t (insert "127.0.0.1" t [])))

put_targets-lookup :
    (t : Target) (ips : List String) (m : TargetMap) (ip : String)
    → lookup ip (put_targets t ips m) ≡ (if contains ip ips then some t else lookup ip m)
unfolding put_targets
put_targets-lookup t [] m ip = refl
put_targets-lookup t (j ∷ ips) m ip = ground (
  arith,
  put_targets-lookup t ips (insert j t m) ip,
  lookup-insert j ip t m,
  string_eq.same_iff j ip,
  string_eq.same_iff ip j,
)

-- the last namespace with an address, and what stands before for an address of none
abbrev pub last_namespace :
    String → Dict String (Option (List String)) → String → Option Target → Option Target
last_namespace host [] ip before = before
last_namespace host ((ns_name, none) ∷ rest) ip before = last_namespace host rest ip before
last_namespace host ((ns_name, some addresses) ∷ rest) ip before =
    last_namespace host rest ip
      (if contains ip addresses then some (namespace_target host ns_name) else before)

-- every namespace has interfaces
abbrev pub HasInterfaces : Dict String (Option (List String)) → Type 0
HasInterfaces [] = Unit
HasInterfaces ((ns_name, none) ∷ rest) = true ≡ false
HasInterfaces ((ns_name, some addresses) ∷ rest) = HasInterfaces rest

-- Where every namespace has interfaces, the addresses of the namespaces go to the last namespace that has them,
-- in place of the host, and every other endpoint stays with its target.
pub put_namespaces-lookup :
    (host : String) (namespaces : Dict String (Option (List String))) (m : TargetMap) (ip : String)
    → HasInterfaces namespaces
    → (m' : TargetMap) × (put_namespaces host namespaces m ≡ ok m')
      × (lookup ip m' ≡ last_namespace host namespaces ip (lookup ip m))
unfolding put_namespaces
put_namespaces-lookup host [] m ip h = (m, refl, refl)
put_namespaces-lookup host ((ns_name, none) ∷ rest) m ip h = ground (arith, h)
put_namespaces-lookup host ((ns_name, some addresses) ∷ rest) m ip h =
    let t = namespace_target host ns_name in
    let (m', e, k) = put_namespaces-lookup host rest (put_targets t addresses m) ip h in
    (m', e, rw (← put_targets-lookup t addresses m ip) k)
