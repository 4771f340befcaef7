-- ===== src/Apps/Podium/Nodes.antt =====
-- The nodes of `Podium` in LYDIAN/lydian/apps/podium.py: `add_hosts`, with the wait for the service of a
-- node, and `cleanup_hosts`.
pub mod Added
use distributed_apps_platfor.Base.{
  ◌≡◌, ℕ, zero, suc, String, Bool, true, false, not, List, [], ◌∷◌, ◌++◌, Option, none, some, Dict,
  insert, contains, Result, ok, err, Error, if◌then◌else◌, ltb, set_add, ◌==◌, string_eq,
}
use distributed_apps_platfor.Base.Exec.{Exec}
use distributed_apps_platfor.Apps.Podium.Endpoints.{
  Endpoints, Remote, add_endpoints, drop_hosts, drop_nodes,
}

-- `is_host_up`: the connection and the call of the monitor, either of which may raise
unfoldable pub is_host_up : Result Bool → Bool
is_host_up (ok running) = true
is_host_up (err e) = false

-- The i-th look at a node: the time of the test, and what the look at the node gives.
pub record Look : Type 0 where
  pub time : ℕ
  pub answer : Result Bool

-- the loop of `wait_on_host` from the i-th look, with this many looks at most; None where these do not suffice
unfoldable pub wait_from : (ℕ → Look) → ℕ → ℕ → ℕ → Option Bool
wait_from looks et i zero = none
wait_from looks et i (suc fuel) =
    let rest = wait_from looks et (suc i) fuel in
    if ltb (looks i).time et
    then if is_host_up (looks i).answer then some true else rest
    else some false

unfoldable pub wait_on_host : (ℕ → Look) → ℕ → ℕ → Option Bool
wait_on_host looks et fuel = wait_from looks et 0 fuel

-- `self._ep_hosts`, `self.nodes`, and the state of the nodes themselves
pub record Hosts (S : Type 0) : Type 0 where
  pub eps : Endpoints
  pub nodes : List String
  pub env : S

-- What is done at a node: `prep_node`, the wait, which tells whether the node came up, and the answers of
-- its interfaces.
pub record Site (S : Type 0) : Type 0 where
  pub prep_node : String → Exec S Bool
  pub wait : String → S → Bool × S
  pub remote : String → S → Remote

module _ {S : Type 0} (site : Site S) (prefixes : List String) where
  -- `add_host`: what `prep_node` returns is not looked at, and a node that does not come up is logged
  unfoldable pub add_host : String → Bool → Hosts S → Bool × Hosts S
  add_host hostip fetch_iface h =
      let (r, env) = site.prep_node hostip h.env in
      elim r [
        | err e ↦ (false, record h { env = env })
        | ok prepared ↦
            let (up, env') = site.wait hostip env in
            (
              true,
              record {
                eps =
                    if fetch_iface
                    then add_endpoints prefixes (site.remote hostip env') hostip h.eps
                    else h.eps;
                nodes = set_add hostip h.nodes;
                env = env';
              },
            )
      ]

  add_each : List String → Bool → Dict String Bool → Hosts S → Dict String Bool × Hosts S
  add_each [] fetch_iface results h = (results, h)
  add_each (hostip ∷ rest) fetch_iface results h =
      let (added, h') = add_host hostip fetch_iface h in
      add_each rest fetch_iface (insert hostip added results) h'

  -- `add_hosts`, on the nodes in the order in which their calls end
  unfoldable pub add_hosts : List String → Bool → Hosts S → Dict String Bool × Hosts S
  unfolding add_each
  add_hosts hostips fetch_iface h = add_each hostips fetch_iface [] h

-- `cleanup_hosts`, on what `cleanup_node` returned for each node
unfoldable pub cleanup_hosts : {S : Type 0} → Dict String Bool → Hosts S → Hosts S
cleanup_hosts results h = record h {
  eps = drop_hosts results h.eps;
  nodes = drop_nodes results h.nodes;
}
