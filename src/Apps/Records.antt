-- ===== src/Apps/Records.antt =====
-- `Subscribe` of LYDIAN/lydian/common/core.py, and `RecordManager` and `TrafficRecorder` of
-- LYDIAN/lydian/apps/recorder.py: what the recorders of a node do with a record.
pub mod Wavefront
pub mod Elastic
pub mod Columns
pub mod Restart
pub mod Missed
use distributed_apps_platfor.Base.{
  ◌≡◌, ℕ, String, Bool, true, false, List, [], ◌∷◌, ◌++◌, Option, none, some, Dict, lookup, insert,
  keep, contains, Value, null, bool, int, text, pos, truthy, Result, ok, err, Error, key_error,
  type_error, runtime_error, ◌>>=◌, if◌then◌else◌, string_eq,
}
use distributed_apps_platfor.Base.Exec
use distributed_apps_platfor.Base.Exec.{Exec, for_each, lift, skip}
use distributed_apps_platfor.Traffic.Task.{TrafficRecord}
use distributed_apps_platfor.Apps.Podium.Stats.{record_schema}

-- `conf.get_param`: the parameters as they are now, None where there is none
abbrev pub Conf : Type 0
Conf = String → Value

-- `self._config_params`
abbrev pub Params : Type 0
Params = Dict String Value

put_params : Conf → List String → Params → Params
put_params conf [] params = params
put_params conf (param ∷ rest) params = put_params conf rest (insert param (conf param) params)

-- `Subscribe.__init__`
unfoldable pub subscribed : Conf → List String → Params
unfolding put_params
subscribed conf config_params = put_params conf config_params []

-- the callback of a change
unfoldable pub update_config : Conf → String → Params → Params
update_config conf param params = insert param (conf param) params

unfoldable pub get_config : String → Params → Result Value
get_config param params = elim (lookup param params) [ none ↦ err key_error | some v ↦ ok v ]

unfoldable pub set_config : String → Value → Params → Params
set_config param val params = insert param val params

-- a record of a ping, with the seconds when it was made
pub record Stamped : Type 0 where
  pub record_of : TrafficRecord Value
  pub timestamp : ℕ

abbrev pub value_of : Option (Option String) → Value
value_of none = null
value_of (some none) = null
value_of (some (some s)) = text s

-- `as_dict`
unfoldable pub as_dict : Stamped → Dict String Value
as_dict s =
    ("_id", null)
    ∷ ("_timestamp", int (pos s.timestamp))
    ∷ ("source", s.record_of.source)
    ∷ ("destination", s.record_of.destination)
    ∷ ("protocol", s.record_of.protocol)
    ∷ ("port", s.record_of.port)
    ∷ ("expected", bool s.record_of.expected)
    ∷ ("result", bool s.record_of.result)
    ∷ ("latency", s.record_of.latency)
    ∷ ("error", value_of s.record_of.error)
    ∷ ("reqid", s.record_of.reqid)
    ∷ ("ruleid", s.record_of.ruleid)
    ∷ []

-- the columns that `TrafficRecorder.write` writes
unfoldable pub columns_of : Stamped → Dict String Value
unfolding record_schema
columns_of s =
    insert "timestamp" (int (pos s.timestamp))
      (keep (λ (p : String × Value). contains p.0 record_schema) (as_dict s))

abbrev pub sqlite_param : String
sqlite_param = "SQLITE_TRAFFIC_RECORDING"

-- `TrafficRecorder.write`, where `write` is that of the database
unfoldable pub write_sqlite :
    {S : Type 0} → (Dict String Value → Exec S (Unit {0})) → Params → Stamped → Exec S (Unit {0})
write_sqlite write params trec s = elim (get_config sqlite_param params) [
  | err e ↦ (err e, s)
  | ok on ↦ if truthy on then write (columns_of trec) s else (ok tt, s)
]

-- `RecordManager`: whether it is stopped, and for each of its threads whether it was started.
pub record RecordManager : Type 0 where
  pub is_stopped : Bool
  pub handlers : List Bool

abbrev pub new_manager : RecordManager
new_manager = record { is_stopped = true; handlers = [] }

-- `for handler in handlers: handler.start()`: a thread that was started raises
unfoldable pub start_each : List Bool → Result (Unit {0}) × List Bool
start_each [] = (ok tt, [])
start_each (true ∷ handlers) = (err runtime_error, true ∷ handlers)
start_each (false ∷ handlers) = let (r, rest) = start_each handlers in (r, true ∷ rest)

unfoldable pub start : Exec RecordManager (Unit {0})
start m =
    let (r, handlers) = start_each (m.handlers ++ false ∷ false ∷ []) in
    (r, record { is_stopped = false; handlers = handlers })

-- `stop`, where the clients of the recorders are stopped on a state of their own
unfoldable pub stop : {S : Type 0} → List (Exec S (Unit {0})) → RecordManager → Exec S RecordManager
stop recorders m s =
    let (r, s') = for_each recorders (λ recorder. recorder) s in
    elim r [ err e ↦ (err e, s') | ok _ ↦ (ok (record m { is_stopped = true }), s') ]

-- `[h.join() for h in self._handlers]`: a thread that was not started raises
unfoldable pub join_each : List Bool → Result (Unit {0})
join_each [] = ok tt
join_each (true ∷ handlers) = join_each handlers
join_each (false ∷ handlers) = err runtime_error
