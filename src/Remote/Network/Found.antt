-- ===== src/Remote/Network/Found.antt =====
-- What `InterfaceManager` finds of the addresses that it discovered.
use distributed_apps_platfor.Base.{
  ◌≡◌, ◌∙◌, refl, sym, ap, arith, String, Bool, true, false, inl, inr, List, [], ◌∷◌, ◌++◌, Option,
  none, some, Dict, lookup, get_or, is_some, contains, if◌then◌else◌, if-both, ◌==◌, string_eq,
  nat_eq, push, group, group-extend, push-Distinct, Distinct, append_assoc, append-nil, Bool-cases,
  Option-cases,
}
use distributed_apps_platfor.Remote.Network.{
  Interface, interface_family, InterfaceMap, append_nics, append_addrs, discover_interfaces,
  addresses, get_interface_by_ip, get_ips_by_interface,
}

-- what is kept of the addresses of one interface
abbrev pub kept : String → List Interface → List Interface
kept name [] = []
kept name (nic ∷ snics) =
    let rest = kept name snics in
    if contains nic.family interface_family then record nic { name = name } ∷ rest else rest

append_nics-group :
    (name key : String) (snics : List Interface) (m : InterfaceMap)
    → group key (append_nics name snics m)
      ≡ (if name == key then group key m ++ kept name snics else group key m)
unfolding append_nics push
append_nics-group name key [] m = elim (Bool-cases (name == key)) [
  | inl e ↦ rw e (sym (append-nil (group key m)))
  | inr e ↦ rw e refl
]
append_nics-group name key (nic ∷ snics) m =
    let f = record nic { name = name } in
    elim (Bool-cases (contains nic.family interface_family)) [
      | inl e ↦ elim (Bool-cases (name == key)) [
        | inl k ↦
            rw
              (
                e,
                append_nics-group name key snics (push name f m),
                group-extend name key (f ∷ []) m,
                k,
              )
              (append_assoc (group key m) (f ∷ []) (kept name snics))
        | inr k ↦
            rw
              (
                e,
                append_nics-group name key snics (push name f m),
                group-extend name key (f ∷ []) m,
                k,
              )
              refl
      ]
      | inr e ↦ rw e (append_nics-group name key snics m)
    ]

append_nics-Distinct :
    (name : String) (snics : List Interface) (m : InterfaceMap)
    → Distinct m
    → Distinct (append_nics name snics m)
unfolding append_nics
append_nics-Distinct name [] m h = h
append_nics-Distinct name (nic ∷ snics) m h = append_nics-Distinct name snics _ (
    if-both Distinct (contains nic.family interface_family)
      (push-Distinct name (record nic { name = name }) m h) h)

append_addrs-Distinct :
    (addrs : Dict String (List Interface)) (m : InterfaceMap)
    → Distinct m
    → Distinct (append_addrs addrs m)
unfolding append_addrs
append_addrs-Distinct [] m h = h
append_addrs-Distinct ((name, snics) ∷ addrs) m h =
    append_addrs-Distinct addrs (append_nics name snics m) (append_nics-Distinct name snics m h)

append_addrs-group :
    (addrs : Dict String (List Interface)) (m : InterfaceMap) (key : String)
    → Distinct addrs
    → group key (append_addrs addrs m) ≡ group key m ++ kept key (group key addrs)
unfolding append_addrs lookup
append_addrs-group [] m key h = sym (append-nil (group key m))
append_addrs-group ((name, snics) ∷ addrs) m key h =
    append_addrs-group addrs (append_nics name snics m) key h.1 ∙ elim (Bool-cases (name == key)) [
      | inl e ↦
          let gone : lookup key addrs ≡ none =
            ground (arith, h.0, e, string_eq.same_iff name key, Option-cases (lookup key addrs)) in
          rw (append_nics-group name key snics m, e, gone)
            (append-nil (group key m ++ kept name snics)
              ∙ ap (λ k. group key m ++ kept k snics) ((string_eq.same_iff name key).0 e))
      | inr e ↦ rw (append_nics-group name key snics m, e) refl
    ]

-- For each interface, `get_ips_by_interface` after a discovery gives exactly the IPv4 and IPv6 addresses
-- that the system reported for it, in order, where no interface is reported twice.
pub get_ips_by_interface-discover :
    (addrs : Dict String (List Interface)) (key : String)
    → Distinct addrs
    → get_ips_by_interface key (discover_interfaces addrs) ≡ addresses (kept key (group key addrs))
unfolding get_ips_by_interface discover_interfaces lookup
get_ips_by_interface-discover addrs key h = ap addresses (append_addrs-group addrs [] key h)

module _ (ip : String) where
  no_address :
      (o : Option (List Interface)) (b : Bool)
      → o ≡ none
      → contains ip (addresses (get_or o [])) ≡ true
      → b ≡ true
  no_address none b h q = ground (arith, q)
  no_address (some i) b h q = ground (arith, h)

by_ip_sound :
    (ip : String) (m : InterfaceMap) (name : String)
    → Distinct m
    → get_interface_by_ip ip m ≡ some name
    → contains ip (addresses (group name m)) ≡ true
unfolding get_interface_by_ip lookup
by_ip_sound ip [] name h q = ground (arith, q)
by_ip_sound ip ((n, i) ∷ m) name h q = elim (Bool-cases (contains ip (addresses i))) [
  | inl e ↦
      let same : (n == name) ≡ true = ground (arith, q, e, string_eq.same_iff n name) in rw same e
  | inr e ↦
      let later : get_interface_by_ip ip m ≡ some name = ground (arith, q, e) in
      elim (Bool-cases (n == name)) [
        | inl k ↦
            let gone : lookup name m ≡ none =
              ground (arith, h.0, k, string_eq.same_iff n name, Option-cases (lookup name m)) in
            no_address ip (lookup name m) _ gone (by_ip_sound ip m name h.1 later)
        | inr k ↦ rw k (by_ip_sound ip m name h.1 later)
      ]
]

under_if :
    (ip : String) (b : Bool) (i : List Interface) (o : Option (List Interface))
    → b ≡ true
    → contains ip (addresses (get_or (if b then some i else o) [])) ≡ true
    → contains ip (addresses i) ≡ true
under_if ip true i o h q = q
under_if ip false i o h q = ground (arith, h)

by_ip_complete :
    (ip : String) (m : InterfaceMap) (name : String)
    → contains ip (addresses (group name m)) ≡ true
    → is_some (get_interface_by_ip ip m) ≡ true
unfolding get_interface_by_ip lookup
by_ip_complete ip [] name q = q
by_ip_complete ip ((n, i) ∷ m) name q = elim (Bool-cases (n == name)) [
  | inl e ↦ ground (arith, under_if ip (n == name) i (lookup name m) e q)
  | inr e ↦ ground (arith, by_ip_complete ip m name, q, e)
]

-- Where no interface stands twice in the map: an interface that `get_interface_by_ip` gives for an address
-- has the address among those that `get_ips_by_interface` gives, and the function finds one
-- whenever some interface of the map has the address.
pub get_interface_by_ip_lem :
    (ip : String) (m : InterfaceMap)
    → Distinct m
    → ((name : String)
        → get_interface_by_ip ip m ≡ some name
        → contains ip (get_ips_by_interface name m) ≡ true)
      × ((name : String)
          → contains ip (get_ips_by_interface name m) ≡ true
          → is_some (get_interface_by_ip ip m) ≡ true)
unfolding get_ips_by_interface
get_interface_by_ip_lem ip m h = (λ name q. by_ip_sound ip m name h q, by_ip_complete ip m)
