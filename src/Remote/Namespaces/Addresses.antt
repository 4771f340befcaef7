-- ===== src/Remote/Namespaces/Addresses.antt =====
-- Which namespaces are found, and which of their addresses are reported.
use distributed_apps_platfor.Base.{
  ◌≡◌, ◌∙◌, refl, ap, String, Bool, ◌&&◌, List, [], ◌∷◌, ◌++◌, Option, none, some, Dict, values,
  map, contains, any, Result, ok, if◌then◌else◌, ◌==◌, string_eq, has_text, arith, contains-append,
  lookup-insert, All, true, Bool-cases, Option-cases, inl, inr,
}
use distributed_apps_platfor.Remote.Network.{Interface}
use distributed_apps_platfor.Remote.Namespaces.Lines.{
  Line, print, is_line, named, parse_namespace-print,
}
use distributed_apps_platfor.Remote.Namespaces.{
  Namespace, NamespaceManager, interfaces_of, put_namespace, discover_namespaces, get_namespace,
  for_prefixes, chosen, ips_of, get_all_namespaces_ips,
}

abbrev addresses : List Interface → List String
addresses is = map (λ (i : Interface). i.address) is

addresses-append : (xs ys : List Interface) → addresses (xs ++ ys) ≡ addresses xs ++ addresses ys
addresses-append [] ys = refl
addresses-append (x ∷ xs) ys = rw (addresses-append xs ys) refl

-- an interface whose name has one of the prefixes in it, and this address
abbrev pub reported : List String → String → Interface → Bool
reported prefixes ip iface = ip == iface.address && any (λ p. has_text p iface.name) prefixes

module _ (ip : String) (prefixes : List String) where
  for_prefixes-contains :
      (ps : List String) (iface : Interface)
      → contains ip (addresses (for_prefixes ps iface)) ≡ reported ps ip iface
  unfolding for_prefixes
  for_prefixes-contains [] iface = ground arith
  for_prefixes-contains (p ∷ ps) iface = elim (Bool-cases (has_text p iface.name)) [
    | inl e ↦ ground (arith, e, for_prefixes-contains ps iface)
    | inr e ↦ ground (arith, e, for_prefixes-contains ps iface)
  ]

  chosen-contains :
      (is : List Interface)
      → contains ip (addresses (chosen prefixes is)) ≡ any (reported prefixes ip) is
  unfolding chosen
  chosen-contains [] = refl
  chosen-contains (i ∷ is) =
      ap (contains ip) (addresses-append (for_prefixes prefixes i) (chosen prefixes is))
      ∙ contains-append ip (addresses (for_prefixes prefixes i)) (addresses (chosen prefixes is))
      ∙ rw (for_prefixes-contains prefixes i, chosen-contains is) refl

  ips_of-contains :
      (nss : List Namespace)
      → contains ip (ips_of prefixes nss)
        ≡ any (λ (np : Namespace). any (reported prefixes ip) np.interfaces) nss
  unfolding ips_of
  ips_of-contains [] = refl
  ips_of-contains (np ∷ nss) =
      contains-append ip (addresses (chosen prefixes np.interfaces)) (ips_of prefixes nss)
      ∙ rw (chosen-contains np.interfaces, ips_of-contains nss) refl

  -- An address is among those of all namespaces exactly if some namespace has an interface with that address, in
  -- whose name one of the prefixes stands.
  pub get_all_namespaces_ips_lem :
      (m : NamespaceManager)
      → contains ip (get_all_namespaces_ips prefixes m)
        ≡ any
            (λ (np : Namespace). any (reported prefixes ip) np.interfaces)
            (values m.namespace_map)
  unfolding get_all_namespaces_ips
  get_all_namespaces_ips_lem m = ips_of-contains (values m.namespace_map)

module _ (inside : String → Result (Dict String (List Interface)))
    (addrs : String → Dict String (List Interface))
    (enters : (name : String) → inside name ≡ ok (addrs name)) where
  abbrev of_line : String × String → Namespace
  of_line (name, id) = record { name = name; id = id; interfaces = interfaces_of (addrs name) }

  -- the namespace of the last line that names it with an id
  abbrev pub listed : String → List Line → Option Namespace
  listed k [] = none
  listed k (line ∷ lines) = elim (listed k lines) [
    | some ns ↦ some ns
    | none ↦ elim (named line) [
      | none ↦ none
      | some (name, id) ↦ if name == k then some (of_line (name, id)) else none
    ]
  ]

  abbrev pub IsLine : Line → Type 0
  IsLine line = is_line line ≡ true

  -- On lines, each of which is a name alone, or a name, a blank and a rest in which there may be a number: where every namespace can be
  -- entered, discovering the namespaces raises nothing, and a namespace is found as its last
  -- line with a number tells, the first number being its id, with the interfaces inside it. A line without a number is passed over, so that
  -- a namespace that has no other line stays as it was, as does one that no line names.
  pub discover_namespaces_lem :
      (lines : List Line) (m : NamespaceManager) (k : String)
      → All IsLine lines
      → let (result, m') = discover_namespaces inside (map print lines) m in
        (result ≡ ok tt)
        × (get_namespace k m'
            ≡ (elim (listed k lines) [ some ns ↦ some ns | none ↦ get_namespace k m ]))
  unfolding discover_namespaces get_namespace
  discover_namespaces_lem [] m k h = (refl, refl)
  discover_namespaces_lem (line ∷ lines) m k h =
      let read = parse_namespace-print line h.0 in
      elim (Option-cases (named line)) [
        | inl e ↦
            let (done, found) = discover_namespaces_lem lines m k h.1 in
            (
              ground (arith, e, read, done),
              ground (arith, e, read, found, Option-cases (listed k lines)),
            )
        | inr ((name, id), e) ↦
            let m1 = put_namespace (of_line (name, id)) m in
            let (done, found) = discover_namespaces_lem lines m1 k h.1 in
            (
              ground (arith, e, read, enters name, done),
              ground (
                arith,
                e,
                read,
                enters name,
                found,
                Option-cases (listed k lines),
                lookup-insert name k (of_line (name, id)) m.namespace_map,
              ),
            )
      ]
