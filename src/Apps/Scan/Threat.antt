-- ===== src/Apps/Scan/Threat.antt =====
-- `ThreatMonitor` of LYDIAN/lydian/apps/watch/threat.py: an alert for each user that becomes a sudoer.
use Prim.Native.String.{◌++◌}
use distributed_apps_platfor.Base.{
  String, Bool, false, List, [], ◌∷◌, Dict, contains, Value, text, ℤ, pos, Result, ok, err,
  if◌then◌else◌, ◌==◌, string_eq, nat_eq, split_char,
}
use distributed_apps_platfor.Base.Exec.{Exec, for_each}

-- whether the status of a command is 0
abbrev is_done : ℤ → Bool
is_done (pos n) = n == 0
is_done _ = false

-- `get_sudoers`, on what the command gave: without a result there are none
unfoldable pub get_sudoers : Result (ℤ × String) → List String
get_sudoers (ok (status, result)) = if is_done status then split_char 44 result else []
get_sudoers (err e) = []

-- the alerts of a round, against the sudoers at the start
unfoldable pub alerts_of : List String → List String → List String
alerts_of known [] = []
alerts_of known (user ∷ sudoers) =
    let rest = alerts_of known sudoers in
    if contains user known then rest else ("Privilege escalation for user " ++ user) ∷ rest

-- the row of an alert; the time is that of its writing
abbrev pub threat : String → String → String → Dict String Value
threat timestamp host alert =
    ("timestamp", Value.real timestamp)
    ∷ ("host", text host)
    ∷ ("severity", text "HIGH")
    ∷ ("message", text alert)
    ∷ []

module _ {S : Type 0} (write : Dict String Value → Exec S (Unit {0})) (host : String)
    (known : List String) where
  -- a round of `run` with the times of its alerts: what writing raises is passed over
  unfoldable pub round : (String → String) → Result (ℤ × String) → S → S
  round time_of answer s =
      (for_each (alerts_of known (get_sudoers answer))
        (λ alert. write (threat (time_of alert) host alert)) s).1

  unfoldable pub run : (String → String) → List (Result (ℤ × String)) → S → S
  run time_of [] s = s
  run time_of (answer ∷ rounds) s = run time_of rounds (round time_of answer s)
