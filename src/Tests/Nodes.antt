-- ===== src/Tests/Nodes.antt =====
-- Runs of adding nodes, and of the questions that a primary node asks of its nodes.
use Prim.Native.Nat.{◌/◌}
use native.Mathlib.Nat.{mul-div-mul_right}
use distributed_apps_platfor.Base.{
  ◌≡◌, refl, ℕ, suc, ◌*◌, ◌<◌, String, Bool, true, false, ◌&&◌, ◌||◌, List, [], ◌∷◌, Option, none,
  some, lookup, contains, any, keep, Once, text, ok, err, value_error, if◌then◌else◌, ◌==◌,
  string_eq, nat_eq, option_eq, arith,
}
use distributed_apps_platfor.Apps.Podium.Nodes.{Hosts, Site, add_hosts}
use distributed_apps_platfor.Apps.Podium.Nodes.Added.{Prepares, add_hosts_lem}
use distributed_apps_platfor.Apps.Podium.Traffic.Shared.{of_request}
use distributed_apps_platfor.Apps.Podium.Stats.{Row, get_traffic_stats}
use distributed_apps_platfor.Apps.Podium.Answers.{
  result_hosts, sends_from, result_hosts_lem, pass_percent, fail_percent, percents-rows,
}
use distributed_apps_platfor.Tests.Podium.{eps, intents, remote, intents-All}

-- the node h4 can be prepared, and no service comes up on it
abbrev site : Site ℕ
site = record {
  prep_node = λ hostip s. (if hostip == "h4" then ok true else err value_error, suc s);
  wait = λ hostip s. (false, s);
  remote = λ hostip s. remote;
}

abbrev prepared : String → Bool
prepared hostip = hostip == "h4"

site-Prepares : Prepares site ("veth" ∷ []) prepared
site-Prepares hostip s = (λ h. (true, rw h refl), λ h. (value_error, rw h refl))

abbrev hosts : Hosts ℕ
hosts = record { eps = eps; nodes = "h1" ∷ []; env = 0 }

abbrev wanted : List String
wanted = "h4" ∷ "h5" ∷ []

add_hosts_lem_example :
    let (results, h') = add_hosts site ("veth" ∷ []) wanted true hosts in
    (lookup "h4" results
      ≡ (if contains {A = String} "h4" wanted then some (prepared "h4") else none))
    × (contains {A = String} "h4" h'.nodes ≡ (
        contains {A = String} "h4" wanted && prepared "h4"
        || contains {A = String} "h4" hosts.nodes))
add_hosts_lem_example =
    add_hosts_lem site ("veth" ∷ []) prepared wanted true hosts "h4" site-Prepares

result_hosts_lem_example :
    (asked : List (Option String)) × (result_hosts "q-1" eps intents ≡ ok asked)
    × Once asked
    × (contains (some "h1") asked
        ≡ any (sends_from eps (some "h1")) (keep (of_request "q-1") intents))
result_hosts_lem_example = result_hosts_lem "q-1" eps (some "h1") intents intents-All

-- two pings that passed and one that failed
abbrev passed : List Row
passed = (text "1" ∷ text "q-1" ∷ []) ∷ (text "2" ∷ text "q-1" ∷ []) ∷ []

abbrev failed : List Row
failed = (text "3" ∷ text "q-1" ∷ []) ∷ []

abbrev whole : ℕ → ℕ → ℕ
whole a b = a / b

whole-scaled : (a b k : ℕ) → 0 < k → whole (a * k) (b * k) ≡ whole a b
whole-scaled a b k h = mul-div-mul_right a b h

percents-rows_example :
    let stats = get_traffic_stats passed failed in
    (pass_percent (λ n. n) whole stats ≡ whole 200 3)
    × (fail_percent (λ n. n) whole stats ≡ whole 100 3)
percents-rows_example =
    percents-rows (λ n. n) whole 2 passed failed whole-scaled (omega arith) (refl, (refl, tt))
      (refl, tt)
