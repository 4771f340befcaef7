-- ===== src/Remote/Network.antt =====
-- `InterfaceManager` and `NamespaceManager` of LYDIAN/lydian/utils/network_utils.py.
pub mod Found
use distributed_apps_platfor.Base.{
  ◌≡◌, ℕ, String, Bool, true, false, ◌&&◌, List, [], ◌∷◌, ◌++◌, Option, none, some, Dict, lookup,
  insert, get_or, keys, values, keep, map, contains, if◌then◌else◌, ◌==◌, string_eq, nat_eq, push,
  group,
}

-- An address of an interface, as `psutil.net_if_addrs` gives it and as `Interface` keeps it.
pub record Interface : Type 0 where
  pub name : String
  pub address : String
  pub family : ℕ
  pub netmask : Option String
  pub broadcast : Option String

-- `INTERFACE_FAMILY`
abbrev pub interface_family : List ℕ
interface_family = 2 ∷ 10 ∷ []

abbrev pub InterfaceMap : Type 0
InterfaceMap = Dict String (List Interface)

-- the loop over `snics`
unfoldable pub append_nics : String → List Interface → InterfaceMap → InterfaceMap
append_nics name [] m = m
append_nics name (nic ∷ snics) m =
    append_nics name snics
      (if contains nic.family interface_family then push name (record nic { name = name }) m else m)

unfoldable pub append_addrs : Dict String (List Interface) → InterfaceMap → InterfaceMap
append_addrs [] m = m
append_addrs ((name, snics) ∷ addrs) m = append_addrs addrs (append_nics name snics m)

-- `discover_interfaces` of `InterfaceManager`, on what `psutil.net_if_addrs()` returned
unfoldable pub discover_interfaces : Dict String (List Interface) → InterfaceMap
discover_interfaces addrs = append_addrs addrs []

unfoldable pub get_all_interfaces : InterfaceMap → List String
get_all_interfaces m = keys m

-- an empty address counts as none
unfoldable pub first_match : Option String → List Interface → Option Interface
first_match ip [] = none
first_match none (snic ∷ snics) = some snic
first_match (some ip) (snic ∷ snics) =
    if ip == ""
    then some snic
    else if snic.address == ip
    then some snic
    else first_match (some ip) snics

unfoldable pub get_interface : String → Option String → InterfaceMap → Option Interface
get_interface name ip m = first_match ip (get_or (lookup name m) [])

-- `any address of these is ip`
abbrev pub addresses : List Interface → List String
addresses snics = map (λ (i : Interface). i.address) snics

unfoldable pub get_interface_by_ip : String → InterfaceMap → Option String
get_interface_by_ip ip [] = none
get_interface_by_ip ip ((name, interface) ∷ m) =
    if contains ip (addresses interface) then some name else get_interface_by_ip ip m

unfoldable pub get_ips_by_interface : String → InterfaceMap → List String
get_ips_by_interface interface m = addresses (get_or (lookup interface m) [])

all_ips : List String → InterfaceMap → List String
all_ips [] m = []
all_ips (interface ∷ rest) m = get_ips_by_interface interface m ++ all_ips rest m

unfoldable pub get_all_ips : InterfaceMap → List String
unfolding all_ips
get_all_ips m = all_ips (get_all_interfaces m) m

put_ips : InterfaceMap → List String → Dict String (List String) → Dict String (List String)
put_ips m [] result = result
put_ips m (iface ∷ ifaces) result =
    put_ips m ifaces (insert iface (get_ips_by_interface iface m) result)

-- `get_interface_ips_map` of `InterfaceApp` in LYDIAN/lydian/apps/interface.py
unfoldable pub get_interface_ips_map : InterfaceMap → Dict String (List String)
unfolding put_ips
get_interface_ips_map m = put_ips m (get_all_interfaces m) []
