-- ===== src/Apps/Podium/Endpoints/Mapped.antt =====
-- The endpoint map after hosts were removed and added.
use distributed_apps_platfor.Base.{
  if-both, Bool-cases, ◌||◌, inl, inr, ◌≡◌, ◌∙◌, refl, arith, String, true, false, List, [], ◌∷◌,
  Option, none, some, Dict, lookup, insert, remove, has_key, any, contains, Result, ok, err,
  if◌then◌else◌, ◌==◌, string_eq, Distinct, insert-Distinct, remove-Distinct, lookup-insert,
  lookup-remove, Option-cases,
}
use distributed_apps_platfor.Apps.Podium.Endpoints.{
  Endpoints, get_ep_host, pop_each, endpoints_of, remove_endpoints, Remote, put_ips, put_interfaces,
  fetch, add_endpoints,
}
use text.Mathlib.Text.{starts_with}

-- the host that an endpoint keeps when those of one host go
abbrev pub unless_host : String → Option String → Option String
unless_host hostip none = none
unless_host hostip (some h) = if h == hostip then none else some h

pop_each_lem :
    (ks : List String) (eps : Endpoints) (ip : String)
    → lookup ip (pop_each ks eps) ≡ (if contains ip ks then none else lookup ip eps)
unfolding pop_each
pop_each_lem [] eps ip = refl
pop_each_lem (k ∷ ks) eps ip =
    rw (pop_each_lem ks (remove k eps) ip)
      (ground (arith, lookup-remove k ip eps, string_eq.same_iff k ip, string_eq.same_iff ip k))

endpoints_of-cons :
    (hostip k v : String) (eps : Endpoints) (ip : String)
    → contains ip (endpoints_of hostip ((k, v) ∷ eps)) ≡ (
        if v == hostip
        then ip == k || contains ip (endpoints_of hostip eps)
        else contains ip (endpoints_of hostip eps))
unfolding endpoints_of
endpoints_of-cons hostip k v eps ip = elim (Bool-cases (v == hostip)) [
  | inl e ↦ rw e refl
  | inr e ↦ rw e refl
]

endpoints_of-absent :
    (hostip : String) (eps : Endpoints) (ip : String)
    → has_key ip eps ≡ false
    → contains ip (endpoints_of hostip eps) ≡ false
unfolding lookup endpoints_of
endpoints_of-absent hostip [] ip h = refl
endpoints_of-absent hostip ((k, v) ∷ eps) ip h = ground (
  arith,
  endpoints_of-cons hostip k v eps ip,
  endpoints_of-absent hostip eps ip,
  string_eq.same_iff k ip,
  string_eq.same_iff ip k,
)

endpoints_of_lem :
    (hostip : String) (eps : Endpoints) (ip : String)
    → Distinct eps
    → (if contains ip (endpoints_of hostip eps) then none else lookup ip eps)
      ≡ unless_host hostip (lookup ip eps)
unfolding lookup endpoints_of
endpoints_of_lem hostip [] ip h = refl
endpoints_of_lem hostip ((k, v) ∷ eps) ip h = ground (
  arith,
  endpoints_of-cons hostip k v eps ip,
  endpoints_of-absent hostip eps ip,
  endpoints_of_lem hostip eps ip h.1,
  Option-cases (lookup ip eps),
  string_eq.same_iff k ip,
  string_eq.same_iff ip k,
  h.0,
)

-- Where no endpoint stands twice in the map, removing the endpoints of a host takes away exactly the
-- endpoints on that host, and leaves every other endpoint on its host.
pub remove_endpoints_lem :
    (hostip : String) (eps : Endpoints) (ip : String)
    → Distinct eps
    → get_ep_host ip (remove_endpoints hostip eps) ≡ unless_host hostip (get_ep_host ip eps)
unfolding get_ep_host remove_endpoints
remove_endpoints_lem hostip eps ip h =
    pop_each_lem (endpoints_of hostip eps) eps ip ∙ endpoints_of_lem hostip eps ip h

pop_each-Distinct : (ks : List String) (eps : Endpoints) → Distinct eps → Distinct (pop_each ks eps)
unfolding pop_each
pop_each-Distinct [] eps h = h
pop_each-Distinct (k ∷ ks) eps h = pop_each-Distinct ks (remove k eps) (remove-Distinct k eps h)

put_ips-Distinct :
    (hostip : String) (ips : List String) (eps : Endpoints)
    → Distinct eps
    → Distinct (put_ips hostip ips eps)
unfolding put_ips
put_ips-Distinct hostip [] eps h = h
put_ips-Distinct hostip (ip ∷ ips) eps h =
    put_ips-Distinct hostip ips (insert ip hostip eps) (insert-Distinct ip hostip eps h)

put_ips_lem :
    (hostip : String) (ips : List String) (eps : Endpoints) (ip : String)
    → lookup ip (put_ips hostip ips eps) ≡ (if contains ip ips then some hostip else lookup ip eps)
unfolding put_ips
put_ips_lem hostip [] eps ip = refl
put_ips_lem hostip (j ∷ ips) eps ip = rw (put_ips_lem hostip ips (insert j hostip eps) ip) (
    ground (arith, lookup-insert j ip hostip eps, string_eq.same_iff j ip, string_eq.same_iff ip j))

module _ (prefixes : List String) where
  put_interfaces-Distinct :
      (hostip : String) (ifaces : Dict String (List String)) (eps : Endpoints)
      → Distinct eps
      → Distinct (put_interfaces prefixes hostip ifaces eps)
  unfolding put_interfaces
  put_interfaces-Distinct hostip [] eps h = h
  put_interfaces-Distinct hostip ((iface, ips) ∷ ifaces) eps h =
      put_interfaces-Distinct hostip ifaces _ (
        if-both Distinct (any (λ x. starts_with iface x) prefixes)
          (put_ips-Distinct hostip ips eps h) h)

  fetch-Distinct :
      (remote : Remote) (hostip : String) (eps : Endpoints)
      → Distinct eps
      → Distinct (fetch prefixes remote hostip eps).1
  unfolding fetch
  fetch-Distinct remote hostip eps h = go remote.connect remote.interface_ips remote.namespace_ips
    where
      go :
          (c : Result (Unit {0})) (i : Result (Dict String (List String)))
          (n : Result (List String))
          → Distinct
              (fetch prefixes
                (record { connect = c; interface_ips = i; namespace_ips = n })
                hostip
                eps).1
      go (ok tt) (ok i) (ok n) =
          insert-Distinct hostip hostip _
            (put_ips-Distinct hostip n _ (put_interfaces-Distinct hostip i eps h))
      go (ok tt) (ok i) (err e) = put_interfaces-Distinct hostip i eps h
      go (ok tt) (err e) n = h
      go (err e) i n = h

  -- Adding a host's endpoints, whether its calls return or raise, leaves no endpoint twice in the map.
  -- Where the host was not in the map and every call returned, the host's own address and each
  -- address of its namespaces is an endpoint on the host.
  pub add_endpoints_lem :
      (remote : Remote) (hostip : String) (eps : Endpoints)
      → Distinct eps
      → Distinct (add_endpoints prefixes remote hostip eps)
        × ((i : Dict String (List String)) (n : List String)
            → remote.connect ≡ ok tt
            → remote.interface_ips ≡ ok i
            → remote.namespace_ips ≡ ok n
            → has_key hostip eps ≡ false
            → (ip : String) → (hostip == ip || contains ip n) ≡ true
            → get_ep_host ip (add_endpoints prefixes remote hostip eps) ≡ some hostip)
  unfolding add_endpoints get_ep_host fetch
  add_endpoints_lem remote hostip eps h = (
    if-both Distinct (has_key hostip eps) h (fetch-Distinct remote hostip eps h),
    λ i n hc hi hn hk ip hip.
        rw
          (
            hk,
            hc,
            hi,
            hn,
            lookup-insert hostip ip hostip
                (put_ips hostip n (put_interfaces prefixes hostip i eps)),
          )
          (ground (arith, put_ips_lem hostip n (put_interfaces prefixes hostip i eps) ip, hip)),
  )
