-- ===== src/Remote/Namespaces.antt =====
-- `Namespace` and `NamespaceManager` of LYDIAN/lydian/utils/network_utils.py: the network namespaces of
-- a Linux host and their interfaces.
pub mod Lines
pub mod Addresses
use Prim.Native.String.{◌++◌ as join_text}
use distributed_apps_platfor.Base.{
  ◌≡◌, ℕ, String, Bool, true, false, ◌&&◌, List, [], ◌∷◌, ◌++◌, Option, none, some, Dict, lookup,
  insert, keys, values, keep, map, contains, any, Result, ok, err, if◌then◌else◌, ◌==◌, string_eq,
  nat_eq, has_text, cut_at, first_number,
}
use distributed_apps_platfor.Base.Exec.{Exec, lift, modify, ◌>>=◌}
use distributed_apps_platfor.Remote.Network.{Interface, interface_family}

pub record Namespace : Type 0 where
  pub name : String
  pub id : String
  pub interfaces : List Interface

-- A manager; the map of interfaces has None for a namespace without any.
pub record NamespaceManager : Type 0 where
  pub namespace_map : Dict String Namespace
  pub namespace_interface_map : Dict String (Option (List Interface))

named : String → List Interface → List Interface
named name [] = []
named name (nic ∷ snics) =
    let rest = named name snics in
    if contains nic.family interface_family then record nic { name = name } ∷ rest else rest

-- `Namespace.discover_interfaces`, on what `net_if_addrs` returned inside the namespace
unfoldable pub interfaces_of : Dict String (List Interface) → List Interface
unfolding named
interfaces_of [] = []
interfaces_of ((name, snics) ∷ addrs) = named name snics ++ interfaces_of addrs

-- A line of `ip netns list`, as the name and id in it: nothing where it has no blank or, after the
-- blank, no digit.
unfoldable pub parse_namespace : String → Option (String × String)
parse_namespace ns = elim (cut_at 32 ns) [
  | none ↦ none
  | some (ns_name, rest) ↦ elim (first_number rest) [
    | none ↦ none
    | some ns_id ↦ some (ns_name, ns_id)
  ]
]

-- what `interfaces or None` gives
abbrev or_none : List Interface → Option (List Interface)
or_none [] = none
or_none (i ∷ is) = some (i ∷ is)

abbrev pub put_namespace : Namespace → NamespaceManager → NamespaceManager
put_namespace ns m = record {
  namespace_map = insert ns.name ns m.namespace_map;
  namespace_interface_map = insert ns.name (or_none ns.interfaces) m.namespace_interface_map;
}

-- `discover_namespaces` on the lines of `ip netns list`, where `inside` runs `net_if_addrs` in a namespace
unfoldable pub discover_namespaces :
    (String → Result (Dict String (List Interface)))
    → List String
    → Exec NamespaceManager (Unit {0})
discover_namespaces inside [] m = (ok tt, m)
discover_namespaces inside (ns ∷ lines) m = elim (parse_namespace ns) [
  | none ↦ discover_namespaces inside lines m
  | some (ns_name, ns_id) ↦ elim (inside ns_name) [
    | err e ↦ (err e, m)
    | ok addrs ↦
        discover_namespaces inside lines (
          put_namespace (record { name = ns_name; id = ns_id; interfaces = interfaces_of addrs }) m)
  ]
]

unfoldable pub get_all_namespaces : NamespaceManager → List String
get_all_namespaces m = keys m.namespace_map

unfoldable pub get_namespace : String → NamespaceManager → Option Namespace
get_namespace namespace m = lookup namespace m.namespace_map

-- one interface for each prefix that stands in its name
for_prefixes : List String → Interface → List Interface
for_prefixes [] iface = []
for_prefixes (prefix ∷ prefixes) iface =
    let rest = for_prefixes prefixes iface in
    if has_text prefix iface.name then iface ∷ rest else rest

chosen : List String → List Interface → List Interface
chosen prefixes [] = []
chosen prefixes (iface ∷ interfaces) = for_prefixes prefixes iface ++ chosen prefixes interfaces

ips_of : List String → List Namespace → List String
ips_of prefixes [] = []
ips_of prefixes (np ∷ namespaces) =
    map (λ (i : Interface). i.address) (chosen prefixes np.interfaces) ++ ips_of prefixes namespaces

unfoldable pub get_all_namespaces_ips : List String → NamespaceManager → List String
unfolding ips_of chosen for_prefixes
get_all_namespaces_ips prefixes m = ips_of prefixes (values m.namespace_map)
