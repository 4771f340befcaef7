-- ===== src/Apps/Podium/Nodes/Added.antt =====
-- What adding nodes tells and leaves.
use distributed_apps_platfor.Base.{
  ◌≡◌, ◌∙◌, refl, ℕ, zero, suc, ◌<◌, ◌≤◌, String, Bool, true, false, ◌&&◌, ◌||◌, List, [], ◌∷◌,
  none, some, Dict, lookup, insert, contains, set_add, contains-set_add, ok, err, Error,
  if◌then◌else◌, string_eq, lookup-insert, arith, Bool-cases, inl, inr,
}
use distributed_apps_platfor.Apps.Podium.Nodes.{
  Look, is_host_up, wait_from, wait_on_host, Hosts, Site, add_host, add_each, add_hosts,
}

-- whether one of the looks i, i + 1, ..., i + n - 1 finds the node up
abbrev pub up_within : (ℕ → Look) → ℕ → ℕ → Bool
up_within looks i zero = false
up_within looks i (suc n) = is_host_up (looks i).answer || up_within looks (suc i) n

-- of the looks from the i-th on, the n-th is the first at the deadline or after it
abbrev pub IsDeadline : (ℕ → Look) → ℕ → ℕ → ℕ → Type 0
IsDeadline looks et i zero = et ≤ (looks i).time
IsDeadline looks et i (suc n) = ((looks i).time < et) × IsDeadline looks et (suc i) n

wait_from_lem :
    (looks : ℕ → Look) (et i n : ℕ)
    → IsDeadline looks et i n
    → wait_from looks et i (suc n) ≡ some (up_within looks i n)
unfolding wait_from
wait_from_lem looks et i zero h = ground (arith, h)
wait_from_lem looks et i (suc n) h = ground (arith, h.0, wait_from_lem looks et (suc i) n h.1)

-- Where the n-th look is the first at the deadline or after it, the wait for a node returns with n + 1 looks: true exactly
-- if one of the looks before it found the node up.
pub wait_on_host_lem :
    (looks : ℕ → Look) (et n : ℕ)
    → IsDeadline looks et 0 n
    → wait_on_host looks et (suc n) ≡ some (up_within looks 0 n)
unfolding wait_on_host
wait_on_host_lem looks et n h = wait_from_lem looks et 0 n h

module _ {S : Type 0} (site : Site S) (prefixes : List String) (prepared : String → Bool) where
  -- `prep_node` returns on the nodes that are prepared, and raises on the others
  abbrev pub Prepares : Type 0
  Prepares =
      (hostip : String) (s : S)
      → (prepared hostip ≡ true → (b : Bool) × ((site.prep_node hostip s).0 ≡ ok b))
        × (prepared hostip ≡ false → (e : Error) × ((site.prep_node hostip s).0 ≡ err e))

  add_host_lem :
      (hostip : String) (fetch_iface : Bool) (h : Hosts S)
      → Prepares
      → let (added, h') = add_host site prefixes hostip fetch_iface h in
        (added ≡ prepared hostip)
        × (h'.nodes ≡ (if prepared hostip then set_add hostip h.nodes else h.nodes))
  unfolding add_host
  add_host_lem hostip fetch_iface h p = elim (Bool-cases (prepared hostip)) [
    | inl e ↦ let (b, q) = (p hostip h.env).0 e in rw (e, q, add_host) (refl, refl)
    | inr e ↦ let (x, q) = (p hostip h.env).1 e in rw (e, q, add_host) (refl, refl)
  ]

  add_each_lem :
      (hostips : List String) (fetch_iface : Bool) (results : Dict String Bool) (h : Hosts S)
      (k : String)
      → Prepares
      → let (results', h') = add_each site prefixes hostips fetch_iface results h in
        (lookup k results' ≡ (if contains k hostips then some (prepared k) else lookup k results))
        × (contains k h'.nodes ≡ (contains k hostips && prepared k || contains k h.nodes))
  unfolding add_each
  add_each_lem [] fetch_iface results h k p = (refl, refl)
  add_each_lem (hostip ∷ rest) fetch_iface results h k p =
      let (added, h') = add_host site prefixes hostip fetch_iface h in
      let (told, kept) = add_host_lem hostip fetch_iface h p in
      let (found, there) = add_each_lem rest fetch_iface (insert hostip added results) h' k p in
      (
        found
            ∙ ground (
              arith,
              lookup-insert hostip k added results,
              told,
              string_eq.same_iff k hostip,
              string_eq.same_iff hostip k,
            ),
        there
            ∙ ground (arith, kept, contains-set_add k hostip h.nodes, string_eq.same_iff k hostip),
      )

  -- Where `prep_node` returns on some nodes and raises on the others, adding nodes answers for every one of them, and for no
  -- other, whether `prep_node` returned, whether or not its service came up, and those nodes, beside the old ones, are
  -- the nodes of the primary node.
  pub add_hosts_lem :
      (hostips : List String) (fetch_iface : Bool) (h : Hosts S) (k : String)
      → Prepares
      → let (results, h') = add_hosts site prefixes hostips fetch_iface h in
        (lookup k results ≡ (if contains k hostips then some (prepared k) else none))
        × (contains k h'.nodes ≡ (contains k hostips && prepared k || contains k h.nodes))
  unfolding add_hosts lookup
  add_hosts_lem hostips fetch_iface h k p = add_each_lem hostips fetch_iface [] h k p
