-- ===== src/Apps/Records/Restart.antt =====
-- A record manager that is started again.
use distributed_apps_platfor.Base.{
  ◌≡◌, refl, Bool, true, false, List, [], ◌∷◌, ◌++◌, ok, err, runtime_error,
}
use distributed_apps_platfor.Apps.Records.{RecordManager, new_manager, start, start_each, join_each}

join_each-unstarted : (hs hs' : List Bool) → join_each (hs ++ false ∷ hs') ≡ err runtime_error
unfolding join_each
join_each-unstarted [] hs' = refl
join_each-unstarted (true ∷ hs) hs' = join_each-unstarted hs hs'
join_each-unstarted (false ∷ hs) hs' = refl

-- A record manager whose first thread was started, running or stopped, raises when it is started: it counts as
-- running, none of its old threads is started again, the two new ones are not started, and to close it raises too. The
-- first start of a new manager starts its two threads.
pub start-again :
    (is_stopped : Bool) (hs : List Bool)
    → let m : RecordManager = record { is_stopped = is_stopped; handlers = true ∷ hs } in
      let (r, m') = start m in
      (r ≡ err runtime_error)
      × (m'.is_stopped ≡ false)
      × (m'.handlers ≡ m.handlers ++ false ∷ false ∷ [])
      × (join_each m'.handlers ≡ err runtime_error)
      × (start new_manager ≡ (ok tt, record { is_stopped = false; handlers = true ∷ true ∷ [] }))
unfolding start start_each join_each
start-again is_stopped hs = (refl, refl, refl, join_each-unstarted (true ∷ hs) (false ∷ []), refl)
