-- ===== src/Hosts/Available.antt =====
-- `get_avail_hosts` of LYDIAN/lydian/utils/soup.py: which hosts of a list can be reached.
use distributed_apps_platfor.Base.{
  ◌≡◌, ◌∙◌, refl, ap, String, Bool, true, false, not, ◌&&◌, List, [], ◌∷◌, Option, none, some, Dict,
  lookup, insert, contains, Distinct, Once, insert-Distinct, Result, ok, err, unbound_local,
  if◌then◌else◌, string_eq, arith, Bool-cases, Result-cases, inl, inr, ==_comm,
}
use distributed_apps_platfor.Remote.Parallel.{
  thread_pool, collect, record_result, returned, thread_pool_lem,
}

-- `LydianClient` is no name of the module: the lookup raises a NameError, of which UnboundLocalError is one
abbrev check : Bool → Result (Unit {0})
check false = ok tt
check true = err unbound_local

-- `_is_host_available`, where `ssh` tells whether a command ran on a host
unfoldable pub is_host_available : (String → Result (Unit {0})) → Bool → String → Result Bool
is_host_available ssh check_service host = elim (ssh host) [
  | err e ↦ ok false
  | ok _ ↦ elim (check check_service) [ err e ↦ ok false | ok _ ↦ ok true ]
]

-- `avails` and `fails`
unfoldable pub split_hosts : Dict String Bool → List String × List String
split_hosts [] = ([], [])
split_hosts ((host, result) ∷ results) =
    let (avails, fails) = split_hosts results in
    if result then (host ∷ avails, fails) else (avails, host ∷ fails)

-- a host with itself as the argument of its call
abbrev params : List String → Dict String String
params [] = []
params (host ∷ hosts) = (host, host) ∷ params hosts

-- on the hosts in the order in which their calls end
unfoldable pub get_avail_hosts :
    (String → Result (Unit {0})) → Bool → List String → List String × List String
get_avail_hosts ssh check_service hosts =
    split_hosts (thread_pool (is_host_available ssh check_service) (params hosts))

-- a result is there and is this one
abbrev told : Bool → Option Bool → Bool
told b none = false
told true (some r) = r
told false (some r) = not r

split_hosts_lem :
    (k : String) (results : Dict String Bool)
    → Distinct results
    → let (avails, fails) = split_hosts results in
      (contains k avails ≡ told true (lookup k results))
      × (contains k fails ≡ told false (lookup k results))
unfolding split_hosts lookup
split_hosts_lem k [] d = (refl, refl)
split_hosts_lem k ((host, true) ∷ results) d =
    let (up, down) = split_hosts_lem k results d.1 in
    (
      ground (arith, up, d.0, ==_comm k host, string_eq.same_iff host k),
      ground (arith, down, d.0, ==_comm k host, string_eq.same_iff host k),
    )
split_hosts_lem k ((host, false) ∷ results) d =
    let (up, down) = split_hosts_lem k results d.1 in
    (
      ground (arith, up, d.0, ==_comm k host, string_eq.same_iff host k),
      ground (arith, down, d.0, ==_comm k host, string_eq.same_iff host k),
    )

collect-Distinct :
    (func : String → Result Bool) (done : Dict String String) (results : Dict String Bool)
    → Distinct results
    → Distinct (collect func done results)
unfolding collect record_result
collect-Distinct func [] results d = d
collect-Distinct func ((ident, arg) ∷ done) results d = elim (Result-cases (func arg)) [
  | inl (b, q) ↦
      rw q (collect-Distinct func done (insert ident b results) (insert-Distinct ident b results d))
  | inr (e, q) ↦ rw q (collect-Distinct func done results d)
]

params-lookup :
    (k : String) (hosts : List String)
    → lookup k (params hosts) ≡ (if contains k hosts then some k else none)
unfolding lookup
params-lookup k [] = refl
params-lookup k (host ∷ hosts) =
    ground (arith, params-lookup k hosts, string_eq.same_iff host k, string_eq.same_iff k host)

params-Distinct : (hosts : List String) → Once hosts → Distinct (params hosts)
params-Distinct [] o = tt
params-Distinct (host ∷ hosts) o =
    (rw (params-lookup host hosts, o.0) refl, params-Distinct hosts o.1)

-- whether a command ran on a host
abbrev pub is_reached : Result (Unit {0}) → Bool
is_reached (ok _) = true
is_reached (err e) = false

available-ok :
    (ssh : String → Result (Unit {0})) (check_service : Bool) (host : String)
    → is_host_available ssh check_service host ≡ ok (is_reached (ssh host) && not check_service)
unfolding is_host_available
available-ok ssh false host = ground arith
available-ok ssh true host = ground arith

or_nothing : Result Bool → Option Bool
or_nothing r = elim r [ ok b ↦ some b | err x ↦ none ]

pool-lookup :
    (ssh : String → Result (Unit {0})) (check_service : Bool) (hosts : List String) (k : String)
    → Once hosts
    → lookup k (thread_pool (is_host_available ssh check_service) (params hosts))
      ≡ (if contains k hosts then some (is_reached (ssh k) && not check_service) else none)
unfolding or_nothing
pool-lookup ssh check_service hosts k o =
    thread_pool_lem (is_host_available ssh check_service) (params hosts) k (params-Distinct hosts o)
    ∙ ap (returned (is_host_available ssh check_service)) (params-lookup k hosts)
    ∙ elim (Bool-cases (contains k hosts)) [
      | inl e ↦ rw e (ap or_nothing (available-ok ssh check_service k))
      | inr e ↦ rw e refl
    ]

-- Each host of a list in which none stands twice is either available or not, and no other is: without the check of the service
-- it is available exactly if a command ran on it, and with the check no host is ever available.
pub get_avail_hosts_lem :
    (ssh : String → Result (Unit {0})) (check_service : Bool) (hosts : List String) (k : String)
    → Once hosts
    → let (avails, fails) = get_avail_hosts ssh check_service hosts in
      let available = is_reached (ssh k) && not check_service in
      (contains k avails ≡ (contains k hosts && available))
      × (contains k fails ≡ (contains k hosts && not available))
unfolding get_avail_hosts thread_pool
get_avail_hosts_lem ssh check_service hosts k o =
    let (up, down) =
      split_hosts_lem k (thread_pool (is_host_available ssh check_service) (params hosts))
        (collect-Distinct (is_host_available ssh check_service) (params hosts) [] tt) in
    (
      up ∙ ap (told true) (pool-lookup ssh check_service hosts k o) ∙ ground arith,
      down ∙ ap (told false) (pool-lookup ssh check_service hosts k o) ∙ ground arith,
    )
