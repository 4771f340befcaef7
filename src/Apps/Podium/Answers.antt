-- ===== src/Apps/Podium/Answers.antt =====
-- Which hosts `Podium` in LYDIAN/lydian/apps/podium.py asks for the results and latencies of a request,
-- and the shares that it computes of the answers.
use distributed_apps_platfor.Base.{
  ◌≡◌, ◌∙◌, refl, ap, ℕ, ◌+◌, ◌*◌, ◌<◌, String, Bool, ◌&&◌, ◌||◌, List, [], ◌∷◌, Option, none, some,
  lookup, get_or, contains, any, set_add, Once, set_add-Once, contains-set_add, ==_comm, if-both,
  Option-cases, zero, suc, keep, All, All-keep, Value, null, truthy, Result, ok, err,
  attribute_error, ◌>>=◌, if◌then◌else◌, ◌==◌, nat_eq, string_eq, option_eq, length, arith, inl,
  inr,
}
use distributed_apps_platfor.Traffic.Rule.{Rule, attr}
use distributed_apps_platfor.Apps.Podium.Endpoints.{Endpoints}
use distributed_apps_platfor.Apps.Podium.Traffic.{get_rules_by_reqid, source_host}
use distributed_apps_platfor.Apps.Podium.Traffic.Shared.{
  IsFilled, of_request, from_host, get_rules_by_reqid_lem,
}
use distributed_apps_platfor.Apps.Podium.Stats.{
  Row, HasColumns, get_traffic_stats, get_traffic_stats_lem,
}

-- `set([self.get_ep_host(rule.src) for rule in trules if rule.src])`
unfoldable pub hosts_of :
    Endpoints → List Rule → List (Option String) → Result (List (Option String))
hosts_of eps [] hosts = ok hosts
hosts_of eps (rule ∷ trules) hosts = do
  src ← attr "src" rule
  hosts_of eps trules (if truthy src then set_add (source_host eps src) hosts else hosts)

-- the hosts that `get_results` asks
unfoldable pub result_hosts : String → Endpoints → List Rule → Result (List (Option String))
result_hosts reqid eps rules = do trules ← get_rules_by_reqid reqid rules; hosts_of eps trules []

-- `_get_latencies` takes the source of a rule as it is
unfoldable pub latency_hosts :
    Endpoints → List Rule → List (Option String) → Result (List (Option String))
latency_hosts eps [] hosts = ok hosts
latency_hosts eps (trule ∷ trules) hosts = do
  src ← attr "src" trule
  latency_hosts eps trules (set_add (source_host eps src) hosts)

-- `get_traffic_pass_percent` and `get_traffic_fail_percent`, where `ratio` is `round(a / b, 2)`
module _ {N : Type 0} (of_int : ℕ → N) (ratio : ℕ → ℕ → N) where
  unfoldable pub pass_percent : ℕ × ℕ → N
  pass_percent (success, failure) =
      let total = success + failure in if total == 0 then of_int 0 else ratio (success * 100) total

  unfoldable pub fail_percent : ℕ × ℕ → N
  fail_percent (success, failure) =
      let total = success + failure in
      if total == 0 then of_int 100 else ratio (failure * 100) total

-- a rule whose source is not empty and is on a host
abbrev pub sends_from : Endpoints → Option String → Rule → Bool
sends_from eps host r = truthy (get_or (lookup "src" r) null) && from_host eps host r

mul_right : (a b w : ℕ) → a * w + b * w ≡ (a + b) * w
mul_right a b w = grind arith

swap_mul : (a w : ℕ) → a * w * 100 ≡ a * 100 * w
swap_mul a w = grind arith

zero-mul : (n w : ℕ) → 0 < w → (n * w == 0) ≡ (n == 0)
zero-mul zero w h = ground arith
zero-mul (suc n) w h = grind arith

share :
    {N : Type 0} (z : N) (ratio : ℕ → ℕ → N) (part n w : ℕ)
    → ((a b k : ℕ) → 0 < k → ratio (a * k) (b * k) ≡ ratio a b)
    → 0 < w
    → (if n * w == 0 then z else ratio (part * 100 * w) (n * w))
      ≡ (if n == 0 then z else ratio (part * 100) n)
share z ratio part n w law h = rw (zero-mul n w h, law (part * 100) n w h) refl

hosts_of-cons :
    (eps : Endpoints) (rule : Rule) (trules : List Rule) (hosts : List (Option String)) (v : Value)
    → lookup "src" rule ≡ some v
    → hosts_of eps (rule ∷ trules) hosts
      ≡ hosts_of eps trules (if truthy v then set_add (source_host eps v) hosts else hosts)
unfolding hosts_of
hosts_of-cons eps rule trules hosts v h = ap go h
  where
    go : Option Value → Result (List (Option String))
    go o = elim o [ none ↦ err attribute_error | some src ↦ ok src ] >>= λ src.
        hosts_of eps trules (if truthy src then set_add (source_host eps src) hosts else hosts)

hosts_of_lem :
    (eps : Endpoints) (k : Option String) (trules : List Rule) (hosts : List (Option String))
    → All IsFilled trules
    → Once hosts
    → (hosts' : List (Option String)) × (hosts_of eps trules hosts ≡ ok hosts')
      × Once hosts'
      × (contains k hosts' ≡ (contains k hosts || any (sends_from eps k) trules))
unfolding hosts_of
hosts_of_lem eps k [] hosts h o = (hosts, refl, o, ground arith)
hosts_of_lem eps k (rule ∷ trules) hosts h o = elim (Option-cases (lookup "src" rule)) [
  | inl q ↦ absurd (ground (arith, q, h.0))
  | inr (v, q) ↦
      let k_from : Bool = source_host eps v == k in
      let (hosts', called, once, asked) =
        hosts_of_lem eps k trules (if truthy v then set_add (source_host eps v) hosts else hosts)
          h.1 (if-both Once (truthy v) (set_add-Once (source_host eps v) hosts o) o) in
      (
        hosts',
        hosts_of-cons eps rule trules hosts v q ∙ called,
        once,
        asked
            ∙ ground (
              arith,
              q,
              contains-set_add k (source_host eps v) hosts,
              ==_comm (source_host eps v) k,
            ),
      )
]

-- Where every rule of the cache has its attributes, the results of a request are asked of each host once, and of exactly
-- the hosts that are the source of one of its rules.
pub result_hosts_lem :
    (reqid : String) (eps : Endpoints) (k : Option String) (rules : List Rule)
    → All IsFilled rules
    → (hosts : List (Option String)) × (result_hosts reqid eps rules ≡ ok hosts)
      × Once hosts
      × (contains k hosts ≡ any (sends_from eps k) (keep (of_request reqid) rules))
unfolding result_hosts
result_hosts_lem reqid eps k rules h =
    rw (get_rules_by_reqid_lem reqid rules h, result_hosts)
      (hosts_of_lem eps k (keep (of_request reqid) rules) []
        (All-keep IsFilled (of_request reqid) rules h) tt)

module _ {N : Type 0} (of_int : ℕ → N) (ratio : ℕ → ℕ → N) where
  -- Although the statistics count the columns of rows, of which each row has the same number, the share of the pings
  -- that passed and the share of those that failed are those of the rows: a ratio does not change where both its numbers
  -- are multiplied. Without rows nothing passed and everything failed.
  pub percents-rows :
      (w : ℕ) (pass_records fail_records : List Row)
      → ((a b k : ℕ) → 0 < k → ratio (a * k) (b * k) ≡ ratio a b)
      → 0 < w
      → HasColumns w pass_records
      → HasColumns w fail_records
      → let stats = get_traffic_stats pass_records fail_records in
        let passed = length pass_records in
        let failed = length fail_records in
        let total = passed + failed in
        (pass_percent of_int ratio stats
          ≡ (if total == 0 then of_int 0 else ratio (passed * 100) total))
        × (fail_percent of_int ratio stats
            ≡ (if total == 0 then of_int 100 else ratio (failed * 100) total))
  unfolding pass_percent fail_percent
  percents-rows w pass_records fail_records law pos h k =
      rw (get_traffic_stats_lem w pass_records fail_records h k) (
        ground (
          arith,
          share (of_int 0) ratio (length pass_records) (length pass_records + length fail_records) w
              law pos,
          share (of_int 100) ratio (length fail_records) (length pass_records + length fail_records)
              w law pos,
          mul_right (length pass_records) (length fail_records) w,
          swap_mul (length pass_records) w,
          swap_mul (length fail_records) w,
        ))
