-- ===== src/Remote/Addrs/Listed.antt =====
-- Which addresses of an interface the interface manager knows.
use mathlib.Core.Path.{subst}
use Prim.Native.String.{◌++◌ as join_text}
use distributed_apps_platfor.Base.{
  ◌≡◌, ◌∙◌, refl, sym, ap, arith, ℕ, String, true, false, inl, inr, List, [], ◌∷◌, ◌++◌, Option,
  none, some, Bool, Result, ok, err, before, split_second, Dict, lookup, contains, if◌then◌else◌,
  ◌==◌, string_eq, nat_eq, push, group, group-extend, push-Distinct, Distinct, append_assoc,
  append-nil, Bool-cases,
}
use distributed_apps_platfor.Remote.Network.{
  Interface, discover_interfaces, addresses, get_ips_by_interface,
}
use distributed_apps_platfor.Remote.Network.Found.{kept, get_ips_by_interface-discover}
use distributed_apps_platfor.Remote.Addrs.{
  linux, map_address, get_ip_addresses_linux, Host, snicaddr, af_inet, af_inet6, get_ip_address,
  add_addr, add_each, net_if_addrs_linux,
}

-- no name stands twice
abbrev pub Unique : List String → Type 0
Unique [] = Unit
Unique (x ∷ xs) = (contains x xs ≡ false) × Unique xs

-- the address of a kind that counts: one that is found and is not empty
abbrev pub counted : Option String → List String
counted none = []
counted (some addr) = if addr == "" then [] else addr ∷ []

abbrev nics_of : ℕ → Option String → List Interface
nics_of family none = []
nics_of family (some addr) = if addr == "" then [] else snicaddr family addr ∷ []

module _ (host : Host) where
  add_addr-group :
      (ifname key : String) (family : ℕ) (addr : Option String) (d : Dict String (List Interface))
      → group key (add_addr host ifname family addr d)
        ≡ (if ifname == key then group key d ++ nics_of family addr else group key d)
  unfolding add_addr push
  add_addr-group ifname key family none d =
      ground (arith, append-nil (group key d), Bool-cases (ifname == key))
  add_addr-group ifname key family (some addr) d =
      let grown = group-extend ifname key (snicaddr family addr ∷ []) d in
      elim (Bool-cases (addr == "")) [
        | inl e ↦ ground (arith, e, append-nil (group key d), Bool-cases (ifname == key))
        | inr e ↦ ground (arith, e, grown)
      ]

  add_addr-Distinct :
      (ifname : String) (family : ℕ) (addr : Option String) (d : Dict String (List Interface))
      → Distinct d
      → Distinct (add_addr host ifname family addr d)
  unfolding add_addr
  add_addr-Distinct ifname family none d h = h
  add_addr-Distinct ifname family (some addr) d h = elim (Bool-cases (addr == "")) [
    | inl e ↦ rw e h
    | inr e ↦ rw e (push-Distinct ifname (snicaddr family addr) d h)
  ]

  add_each-Distinct :
      (ifnames : List String) (d : Dict String (List Interface))
      → Distinct d
      → Distinct (add_each host ifnames d)
  unfolding add_each
  add_each-Distinct [] d h = h
  add_each-Distinct (x ∷ xs) d h = add_each-Distinct xs _ (
      add_addr-Distinct x af_inet6 (get_ip_address host x true) _
        (add_addr-Distinct x af_inet (get_ip_address host x false) d h))

  nics : String → List Interface
  nics key =
      nics_of af_inet (get_ip_address host key false)
      ++ nics_of af_inet6 (get_ip_address host key true)

  add_each-group :
      (ifnames : List String) (key : String) (d : Dict String (List Interface))
      → Unique ifnames
      → group key (add_each host ifnames d)
        ≡ (if contains key ifnames then group key d ++ nics key else group key d)
  unfolding add_each nics
  add_each-group [] key d u = refl
  add_each-group (x ∷ xs) key d u =
      let d4 = add_addr host x af_inet (get_ip_address host x false) d in
      let d6 = add_addr host x af_inet6 (get_ip_address host x true) d4 in
      let both = add_addr-group x key af_inet6 (get_ip_address host x true) d4 in
      let one = add_addr-group x key af_inet (get_ip_address host x false) d in
      let rest = add_each-group xs key d6 u.1 in
      elim (Bool-cases (x == key)) [
        | inl e ↦
            let same : x ≡ key = (string_eq.same_iff x key).0 e in
            let here : (key == x) ≡ true = (string_eq.same_iff key x).1 (sym same) in
            let gone : contains key xs ≡ false = subst (λ n. contains n xs ≡ false) same u.0 in
            rw (rest, gone, both, one, e, here, same)
              (append_assoc (group key d) (nics_of af_inet (get_ip_address host key false))
                (nics_of af_inet6 (get_ip_address host key true)))
        | inr e ↦
            let other : (key == x) ≡ false =
              ground (arith, e, string_eq.same_iff x key, string_eq.same_iff key x) in
            rw (rest, both, one, e, other) refl
      ]

  kept-nics :
      (key : String)
      → addresses (kept key (nics key))
        ≡ counted (get_ip_address host key false) ++ counted (get_ip_address host key true)
  unfolding nics
  kept-nics key = ground arith

  -- the address that stands in the output of `ip addr show` behind the first such word, before the first slash, where it is not empty
  abbrev pub shown : String → String → List String
  shown word key = elim (host.run_command (join_text "ip addr show " key)) [
    | err _ ↦ []
    | ok output ↦ elim (split_second word output) [
      | none ↦ []
      | some rest ↦ if before "/" rest == "" then [] else before "/" rest ∷ []
    ]
  ]

  linux-address :
      (key : String) (ipv6 : Bool)
      → host.os_type ≡ some linux
      → get_ip_address host key ipv6 ≡ get_ip_addresses_linux host key ipv6
  unfolding get_ip_address
  linux-address key ipv6 l = ground (arith, l)

  counted-shown :
      (key : String) (ipv6 : Bool)
      → host.os_type ≡ some linux
      → counted (get_ip_address host key ipv6) ≡ shown (if ipv6 then "inet6 " else "inet ") key
  unfolding get_ip_addresses_linux
  counted-shown key ipv6 l =
      ap counted (linux-address key ipv6 l)
      ∙ by_output (host.run_command (join_text "ip addr show " key))
    where
      word : String
      word = if ipv6 then "inet6 " else "inet "

      by_part :
          (o : Option String)
          → counted (map_address (before "/") o) ≡ (elim o as (λ _. List String) [
            | none ↦ []
            | some rest ↦ if before "/" rest == "" then [] else before "/" rest ∷ []
          ])
      by_part none = refl
      by_part (some rest) = refl

      by_output :
          (r : Result String)
          → counted (elim r as (λ _. Option String) [
            | err _ ↦ none
            | ok output ↦ map_address (before "/") (split_second word output)
          ])
            ≡ (elim r as (λ _. List String) [
              | err _ ↦ []
              | ok output ↦ elim (split_second word output) as (λ _. List String) [
                | none ↦ []
                | some rest ↦ if before "/" rest == "" then [] else before "/" rest ∷ []
              ]
            ])
      by_output (err e) = refl
      by_output (ok output) = by_part (split_second word output)

  -- On Linux, where psutil is not there, so that the addresses are those of lpsutil: after a discovery of the interfaces, the addresses that the interface manager knows of an
  -- interface of the system are the one that `ip addr show` shows behind `inet ` and then the one behind `inet6 `, each
  -- before the slash and where it is not empty, and it knows none of any other name.
  pub net_if_addrs_linux_lem :
      (key : String)
      → host.os_type ≡ some linux
      → Unique host.listdir
      → get_ips_by_interface key (discover_interfaces (net_if_addrs_linux host))
        ≡ (if contains key host.listdir then shown "inet " key ++ shown "inet6 " key else [])
  unfolding net_if_addrs_linux lookup
  net_if_addrs_linux_lem key l u =
      get_ips_by_interface-discover (net_if_addrs_linux host) key
        (add_each-Distinct host.listdir [] tt)
      ∙ ap (λ l. addresses (kept key l)) (add_each-group host.listdir key [] u)
      ∙ elim (Bool-cases (contains key host.listdir)) [
        | inl e ↦ rw e (
            kept-nics key
            ∙ ap (λ xs. xs ++ counted (get_ip_address host key true)) (counted-shown key false l)
            ∙ ap (λ xs. shown "inet " key ++ xs) (counted-shown key true l))
        | inr e ↦ rw e refl
      ]
