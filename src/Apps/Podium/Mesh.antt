-- ===== src/Apps/Podium/Mesh.antt =====
-- `run_mesh_ping` of `Podium` in LYDIAN/lydian/apps/podium.py: an intent for each ordered pair of hosts.
use mathlib.Core.Path.{subst}
use distributed_apps_platfor.Base.{
  ◌≡◌, refl, arith, ℕ, suc, ◌+◌, ◌*◌, String, Bool, List, [], ◌∷◌, ◌++◌, map, length, length-append,
  Value, text,
}
use distributed_apps_platfor.Apps.Podium.Traffic.{Intent, create_traffic_intent}

abbrev pair_with : String → String → String × String
pair_with host other = (host, other)

-- `itertools.permutations(hosts, 2)`: `before` holds the hosts already passed
unfoldable pub permutations : List String → List String → List (String × String)
permutations before [] = []
permutations before (host ∷ hosts) =
    map (pair_with host) (before ++ hosts) ++ permutations (before ++ host ∷ []) hosts

-- the loop over the pairs; `ruleid i` is the fresh id of the i-th intent
unfoldable pub mesh_intents :
    String → (ℕ → String) → Value → Value → Bool → ℕ → List (String × String) → List Intent
mesh_intents reqid ruleid dst_port protocol connected i [] = []
mesh_intents reqid ruleid dst_port protocol connected i ((src, dst) ∷ pairs) =
    create_traffic_intent reqid (ruleid i) (text src) (text dst) dst_port protocol (text reqid)
      connected []
    ∷ mesh_intents reqid ruleid dst_port protocol connected (i + 1) pairs

unfoldable pub run_mesh_ping :
    String → (ℕ → String) → List String → Value → Value → Bool → List Intent
run_mesh_ping reqid ruleid hosts dst_port protocol connected =
    mesh_intents reqid ruleid dst_port protocol connected 0 (permutations [] hosts)

length-map : {A B : Type 0} (f : A → B) (xs : List A) → length (map f xs) ≡ length xs
length-map f [] = refl
length-map f (x ∷ xs) = ground (arith, length-map f xs)

count : (p m r : ℕ) → r + m ≡ m * ((p + 1) + m) → ((p + m) + r) + suc m ≡ suc m * (p + suc m)
count p m r h = omega (arith, h)

length-permutations :
    (before hosts : List String)
    → length (permutations before hosts) + length hosts
      ≡ length hosts * (length before + length hosts)
unfolding permutations
length-permutations before [] = omega arith
length-permutations before (host ∷ hosts) =
    let rest : ℕ = length (permutations (before ++ host ∷ []) hosts) in
    let longer : length (before ++ host ∷ []) ≡ length before + 1 =
      length-append before (host ∷ []) in
    let later : rest + length hosts ≡ length hosts * ((length before + 1) + length hosts) =
      subst (λ q. rest + length hosts ≡ length hosts * (q + length hosts)) longer
        (length-permutations (before ++ host ∷ []) hosts) in
    ground (
      arith,
      length-append (map (pair_with host) (before ++ hosts))
          (permutations (before ++ host ∷ []) hosts),
      length-map (pair_with host) (before ++ hosts),
      length-append before hosts,
      count (length before) (length hosts) rest later,
    )

length-mesh_intents :
    (reqid : String) (ruleid : ℕ → String) (dst_port protocol : Value) (connected : Bool) (i : ℕ)
    (pairs : List (String × String))
    → length (mesh_intents reqid ruleid dst_port protocol connected i pairs) ≡ length pairs
unfolding mesh_intents
length-mesh_intents reqid ruleid dst_port protocol connected i [] = refl
length-mesh_intents reqid ruleid dst_port protocol connected i (p ∷ pairs) =
    ground (arith, length-mesh_intents reqid ruleid dst_port protocol connected (i + 1) pairs)

-- A mesh of `n` hosts makes `n * n` less `n` intents, as many as there are ordered pairs of two hosts.
pub length-run_mesh_ping :
    (reqid : String) (ruleid : ℕ → String) (hosts : List String) (dst_port protocol : Value)
    (connected : Bool)
    → length (run_mesh_ping reqid ruleid hosts dst_port protocol connected) + length hosts
      ≡ length hosts * length hosts
unfolding run_mesh_ping
length-run_mesh_ping reqid ruleid hosts dst_port protocol connected = ground (
  arith,
  length-mesh_intents reqid ruleid dst_port protocol connected 0 (permutations [] hosts),
  length-permutations [] hosts,
)
