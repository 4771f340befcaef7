-- ===== src/Apps/Podium/Primary.antt =====
-- The monitoring of the primary node: `start_primary_monitor` and `close` of `Podium` in
-- LYDIAN/lydian/apps/podium.py, with the monitor and the record manager that they start.
use distributed_apps_platfor.Base.{
  ◌≡◌, refl, ℕ, Bool, true, false, [], ◌∷◌, Option, none, some, get_or, Result, ok, err,
  runtime_error, arith, if◌then◌else◌,
}
use distributed_apps_platfor.Apps.Monitor.{Monitor, new_monitor}
use distributed_apps_platfor.Apps.Monitor
use distributed_apps_platfor.Apps.Records.{RecordManager, new_manager, start_each}
use distributed_apps_platfor.Apps.Records

-- `self.monitor` and `self.db_pool`
pub record Primary : Type 0 where
  pub monitor : Option Monitor
  pub db_pool : Option RecordManager

-- `if self.monitor.stopped(): self.monitor.start()`
abbrev monitoring : Monitor → Monitor
monitoring m = if m.stop_switch then Monitor.start m else m

-- `if self.db_pool.stopped(): self.db_pool.start()`
abbrev recording : RecordManager → Result (Unit {0}) × RecordManager
recording m = if m.is_stopped then Records.start m else (ok tt, m)

-- the queues are made with the first start, and are held by the two
unfoldable pub start_primary_monitor : Primary → Result (Unit {0}) × Primary
start_primary_monitor p =
    let (r, db_pool) = recording (get_or p.db_pool new_manager) in
    (
      r,
      record { monitor = some (monitoring (get_or p.monitor new_monitor)); db_pool = some db_pool },
    )

-- `close`, where the recorders stop without raising
unfoldable pub close : (ℕ → Bool) → Primary → Primary
close alive p = record {
  monitor = elim (p.monitor) [ none ↦ none | some m ↦ some (Monitor.stop alive m) ];
  db_pool = elim (p.db_pool) [ none ↦ none | some m ↦ some (record m { is_stopped = true }) ];
}

-- a monitor that was asked to start is not asked again
monitoring_twice : (m : Monitor) → monitoring (monitoring m) ≡ monitoring m
unfolding distributed_apps_platfor.Apps.Monitor.start
monitoring_twice m = ground arith

-- As long as there is no record manager, the start of the primary node's monitoring, whatever its monitor does, starts the
-- two threads of the records, and a second start changes nothing. After a close it raises: the manager then counts as
-- running, none of its old threads is started again, and its new ones are not started.
pub start_primary_monitor-again :
    (alive : ℕ → Bool) (monitor : Option Monitor)
    → let first : Primary = record { monitor = monitor; db_pool = none } in
      let (r, p) = start_primary_monitor first in
      let (r', p') = start_primary_monitor (close alive p) in
      (r ≡ ok tt)
      × (p.db_pool ≡ some (record { is_stopped = false; handlers = true ∷ true ∷ [] }))
      × (start_primary_monitor p ≡ (ok tt, p))
      × (r' ≡ err runtime_error)
      × (p'.db_pool
          ≡ some (record { is_stopped = false; handlers = true ∷ true ∷ false ∷ false ∷ [] }))
unfolding start_primary_monitor close distributed_apps_platfor.Apps.Records.start start_each
start_primary_monitor-again alive monitor =
    (refl, refl, rw (monitoring_twice (get_or monitor new_monitor)) refl, refl, refl)
