-- ===== src/Remote/Addrs.antt =====
-- LYDIAN/lydian/utils/lpsutil.py: the addresses of the interfaces of a host, from its commands.
pub mod Listed
use Prim.Native.String.{◌++◌}
use distributed_apps_platfor.Base.{
  ◌≡◌, ℕ, String, Bool, true, false, not, List, [], ◌∷◌, Option, none, some, Dict, keep, Result, ok,
  err, if◌then◌else◌, ◌==◌, string_eq, push, has_text, before, split_second, first_word, strip,
  splitlines,
}
use distributed_apps_platfor.Base.{◌>>=◌}
use distributed_apps_platfor.Remote.Network.{Interface}

pub data OsType : Type 0 where
  linux esx windows : OsType

-- What a host answers: the output of a command, the entries of `/sys/class/net/`, the words of a text
-- and, of the JSON text that `esxcli` writes for IPv4 or IPv6, the interface and address of each entry.
pub record Host : Type 0 where
  pub os_type : Option OsType
  pub run_command : String → Result String
  pub listdir : List String
  pub words : String → List String
  pub entries : Bool → String → Result (List (String × String))

abbrev pub snicaddr : ℕ → String → Interface
snicaddr family address = record {
  name = "";
  address = address;
  family = family;
  netmask = none;
  broadcast = none;
}

abbrev pub af_inet : ℕ
af_inet = 2

abbrev pub af_inet6 : ℕ
af_inet6 = 10

abbrev pub map_address : (String → String) → Option String → Option String
map_address f none = none
map_address f (some s) = some (f s)

module _ (host : Host) where
  unfoldable pub get_ip_addresses_linux : String → Bool → Option String
  get_ip_addresses_linux ifname ipv6 = elim (host.run_command ("ip addr show " ++ ifname)) [
    | err _ ↦ none
    | ok output ↦
        map_address (before "/") (split_second (if ipv6 then "inet6 " else "inet ") output)
  ]

  unfoldable pub get_ip_addresses_windows : String → Bool → Option String
  get_ip_addresses_windows ifname ipv6 =
      elim (host.run_command (
        if ipv6
        then "netsh interface ipv6 show addresses interface=" ++ ifname
        else "netsh interface ipv4 show addresses name=" ++ ifname)) [
          | err _ ↦ none
          | ok output ↦
              if ipv6
              then (elim (split_second "Address" output) [
                | none ↦ none
                | some rest ↦ map_address strip (first_word rest)
              ])
              else map_address (λ rest. strip (before "\n" rest)) (split_second "Address:" output)
        ]

  unfoldable pub get_ip_address : String → Bool → Option String
  get_ip_address ifname ipv6 = elim host.os_type [
    | none ↦ none
    | some os ↦ elim os [
      | linux ↦ get_ip_addresses_linux ifname ipv6
      | windows ↦ get_ip_addresses_windows ifname ipv6
      | esx ↦ none
    ]
  ]

  -- one round of the inner loop: an address that is None or empty is left out
  unfoldable pub add_addr :
      String → ℕ → Option String → Dict String (List Interface) → Dict String (List Interface)
  add_addr ifname family none result = result
  add_addr ifname family (some addr) result =
      if addr == "" then result else push ifname (snicaddr family addr) result

  unfoldable pub add_each :
      List String → Dict String (List Interface) → Dict String (List Interface)
  add_each [] result = result
  add_each (ifname ∷ ifnames) result = add_each ifnames (
      add_addr ifname af_inet6 (get_ip_address ifname true)
        (add_addr ifname af_inet (get_ip_address ifname false) result))

  unfoldable pub net_if_addrs_linux : Dict String (List Interface)
  net_if_addrs_linux = add_each host.listdir []

  unfoldable pub net_if_addrs_windows : Result (Dict String (List Interface))
  net_if_addrs_windows = do
    output ← host.run_command "netsh interface show interface"
    ok (add_each (keep (has_text "Ethernet") (host.words output)) [])

  unfoldable pub add_entries :
      ℕ → List (String × String) → Dict String (List Interface) → Dict String (List Interface)
  add_entries family [] result = result
  add_entries family ((interface, address) ∷ addrs) result =
      add_entries family addrs (push interface (snicaddr family address) result)

  esx_entries : Bool → Result (List (String × String))
  esx_entries ipv6 = do
    output ← host.run_command (
        "esxcli --debug --formatter=json  network ip interface "
        ++ (if ipv6 then "ipv6" else "ipv4")
        ++ " address list")
    host.entries ipv6 output

  unfoldable pub net_if_addrs_esx : Result (Dict String (List Interface))
  unfolding esx_entries
  net_if_addrs_esx = do
    ipv4 ← esx_entries false
    ipv6 ← esx_entries true
    ok (add_entries af_inet6 ipv6 (add_entries af_inet ipv4 []))

  -- None on a system of no known type
  unfoldable pub net_if_addrs : Result (Option (Dict String (List Interface)))
  net_if_addrs = elim host.os_type [
    | none ↦ ok none
    | some os ↦ elim os [
      | linux ↦ ok (some net_if_addrs_linux)
      | esx ↦ (do addrs ← net_if_addrs_esx; ok (some addrs))
      | windows ↦ (do addrs ← net_if_addrs_windows; ok (some addrs))
    ]
  ]
