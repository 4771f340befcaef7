-- ===== src/Tests/Scans.antt =====
-- Runs of the scanners and of what is read of their reports.
use distributed_apps_platfor.Base.{
  ◌≡◌, refl, ℕ, suc, String, Bool, true, false, not, ◌&&◌, ◌||◌, List, [], ◌∷◌, ◌++◌, Option, none,
  some, Dict, lookup, insert, has_key, contains, Distinct, All, Result, ok, err, value_error, ◌==◌,
  string_eq, if◌then◌else◌, has_text,
}
use distributed_apps_platfor.Base.Exec.{Exec}
use distributed_apps_platfor.Apps.Scan.{clean, tool_of, verdict_of, parse}
use distributed_apps_platfor.Apps.Scan.Report.{Entry, IsEntry, lines_of, told, parse-report}
use distributed_apps_platfor.Apps.Scan.Lynis.{save_each, due, saved, save_each_lem}

abbrev entry : Entry
entry = record {
  head_line = "[1/80] | dnsrecon scans";
  level_line = "Vulnerability Threat Level";
  verdict_line = "high Zone transfer is open";
  tool = "dnsrecon";
  severity = "high";
  message = "Zone transfer is open";
}

entry-IsEntry : IsEntry entry
unfolding clean tool_of verdict_of has_text distributed_apps_platfor.Base.Patterns.sub
    distributed_apps_platfor.Base.Patterns.match_any
    distributed_apps_platfor.Base.Patterns.match_length distributed_apps_platfor.Base.split_second
    distributed_apps_platfor.Base.first_word distributed_apps_platfor.Base.before
    distributed_apps_platfor.Base.strip distributed_apps_platfor.Base.rstrip
    distributed_apps_platfor.Base.split_at
entry-IsEntry = record {
  head_there = refl;
  level_there = refl;
  verdict_there = refl;
  plain = refl;
  named = refl;
  levelled = refl;
  judged = refl;
  tool_there = refl;
  severity_there = refl;
}

parse-report_example :
    (vul_info : Dict String (String × String)) × (parse
        ("[ Checking ]" ∷ lines_of (entry ∷ []) ++ [])
      ≡ ok vul_info)
    × ((j : String) → lookup j vul_info ≡ told j (entry ∷ []) none)
parse-report_example = parse-report "[ Checking ]" (entry ∷ []) (entry-IsEntry, tt)

-- two scans, of which the first one is complete, and its save raises
abbrev requests : Dict String ℕ
requests = ("q-1", 11) ∷ ("q-2", 12) ∷ []

requests-Distinct : Distinct requests
unfolding distributed_apps_platfor.Base.lookup
requests-Distinct = (refl, (refl, tt))

abbrev save : String → ℕ → Exec (List String) (Unit {0})
save reqid proc s = (err value_error, reqid ∷ s)

abbrev complete : String → Bool
complete reqid = reqid == "q-1"

save_each_lem_example :
    let (done', s') = save_each save complete requests [] [] in
    (s' ≡ saved save complete (due save complete requests []) [])
    × (contains {A = String} "q-1" done' ≡ (false || complete "q-1" && has_key "q-1" requests))
save_each_lem_example = save_each_lem save complete requests [] [] "q-1" requests-Distinct
