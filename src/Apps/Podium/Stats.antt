-- ===== src/Apps/Podium/Stats.antt =====
-- `get_traffic_stats` of `Podium` in LYDIAN/lydian/apps/podium.py, and the queries of `Results` in
-- LYDIAN/lydian/apps/results.py that it rests on.
use distributed_apps_platfor.Base.{
  ◌≡◌, arith, ℕ, ◌+◌, ◌*◌, String, Option, none, ◌==◌, List, [], ◌∷◌, ◌++◌, Dict, Value, Result, ok,
  length, keep, contains, All, string_eq, if◌then◌else◌,
}

-- A record as the database gives it: a row of its columns.
abbrev pub Row : Type 0
Row = List Value

-- the columns of `TrafficRecordDB.SCHEMA`
unfoldable pub record_schema : List String
record_schema =
    "timestamp" ∷ "reqid" ∷ "ruleid" ∷ "source" ∷ "destination" ∷ "protocol" ∷ "port" ∷ "expected"
    ∷ "result" ∷ "latency" ∷ "error" ∷ []

-- the conditions of a query that name a column
unfoldable pub filtered : Dict String Value → Dict String Value
unfolding record_schema
filtered kwargs = keep (λ (p : String × Value). contains p.0 record_schema) kwargs

-- `Results.traffic`, on the database's answer to a request and conditions
unfoldable pub traffic :
    (String → Dict String Value → Result (List Row))
    → String
    → Dict String Value
    → Result (List Row)
traffic read reqid kwargs = read reqid (filtered kwargs)

-- `get_latency_stat`, on what the database answers for `avg`, `min` or `max` of the latency; another
-- method is logged
unfoldable pub get_latency_stat :
    {N : Type 0}
    → (String → String → Dict String Value → Result (Option N))
    → String
    → String
    → Dict String Value
    → Result (Option N)
get_latency_stat stat reqid method kwargs =
    if method == "avg"
    then stat "avg" reqid (filtered kwargs)
    else if method == "min"
    then stat "min" reqid (filtered kwargs)
    else if method == "max"
    then stat "max" reqid (filtered kwargs)
    else ok none

-- `_get_results`: the rows of the hosts, in the order of the results of the pool
unfoldable pub get_results : Dict String (List Row) → List Row
get_results [] = []
get_results ((host, rows) ∷ results) = rows ++ get_results results

-- `for record in records: stats[key] += len(record)`
unfoldable pub add_lengths : ℕ → List Row → ℕ
add_lengths n [] = n
add_lengths n (row ∷ rows) = add_lengths (n + length row) rows

-- `stats['success']` and `stats['failure']`
unfoldable pub get_traffic_stats : List Row → List Row → ℕ × ℕ
get_traffic_stats pass_records fail_records =
    (add_lengths 0 pass_records, add_lengths 0 fail_records)

-- every row has as many columns as this
abbrev pub HasColumns : ℕ → List Row → Type 0
HasColumns w rows = All (λ (row : Row). length row ≡ w) rows

add_lengths-rows :
    (w n : ℕ) (rows : List Row) → HasColumns w rows → add_lengths n rows ≡ n + length rows * w
unfolding add_lengths
add_lengths-rows w n [] h = omega arith
add_lengths-rows w n (row ∷ rows) h =
    omega (arith, add_lengths-rows w (n + length row) rows h.1, h.0)

-- Where every row has `w` columns, the statistics count each row that passed or failed `w` times.
pub get_traffic_stats_lem :
    (w : ℕ) (pass_records fail_records : List Row)
    → HasColumns w pass_records
    → HasColumns w fail_records
    → get_traffic_stats pass_records fail_records
      ≡ (length pass_records * w, length fail_records * w)
unfolding get_traffic_stats
get_traffic_stats_lem w pass_records fail_records h k =
    ground (arith, add_lengths-rows w 0 pass_records h, add_lengths-rows w 0 fail_records k)
