-- ===== src/Traffic/Manager/Tasks.antt =====
-- What the calls of a manager do to its tasks.
use distributed_apps_platfor.Base.{
  ◌≡◌, ◌⊎◌, refl, true, false, none, some, Dict, lookup, insert, has_key, lookup-insert,
  lookup-insert_self, Result, ok, err, Error, if◌then◌else◌, Eq, ◌==◌, arith, Option-cases,
  Result-cases, inl, inr,
}
use distributed_apps_platfor.Traffic.Rule.{Rule}
use distributed_apps_platfor.Traffic.Task.{Task, start, stop, is_running, Connection, with_stopped}
use distributed_apps_platfor.Traffic.Manager.{
  Manager, new_task, add_task, on_task, start_task, stop_task,
}

module _ {K : Type 0} ⦃e : Eq K⦄ (m : Manager K) where
  add_task-eq :
      (r : Rule) (k : K) (t : Task) (tasks : Dict K Task)
      → m.key r ≡ ok k
      → m.valid k ≡ true
      → new_task m r ≡ ok t
      → add_task m r tasks ≡ (ok tt, if has_key k tasks then tasks else insert k t tasks)
  unfolding add_task
  add_task-eq r k t tasks h v c = ground arith

  -- Adding a rule with a valid key, for which a task can be made: where the key is taken nothing
  -- changes, so that rules that share a key share one task; where it is free the new task has it. No
  -- other key is touched.
  pub add_task_lem :
      (r : Rule) (k : K) (t : Task) (tasks : Dict K Task)
      → m.key r ≡ ok k
      → m.valid k ≡ true
      → new_task m r ≡ ok t
      → let (result, tasks') = add_task m r tasks in
        (result ≡ ok tt)
        × (has_key k tasks ≡ true → tasks' ≡ tasks)
        × (has_key k tasks ≡ false → lookup k tasks' ≡ some t)
        × ((j : K) → (k == j) ≡ false → lookup j tasks' ≡ lookup j tasks)
  add_task_lem r k t tasks h v c = rw (add_task-eq r k t tasks h v c) (
    refl,
    λ taken. rw taken,
    λ free. rw free (lookup-insert_self k t tasks),
    λ j n. ground (arith, lookup-insert k j t tasks, n),
  )

  -- A rule that raises, for an invalid key or a task that cannot be made, changes no task.
  pub add_task-raises :
      (r : Rule) (tasks : Dict K Task) (x : Error)
      → (add_task m r tasks).0 ≡ err x
      → (add_task m r tasks).1 ≡ tasks
  unfolding add_task
  add_task-raises r tasks x h = elim (Result-cases (m.key r)) [
    | inl (k, q) ↦ elim (Result-cases (new_task m r)) [
      | inl (t, c) ↦ ground arith
      | inr (y, c) ↦ ground arith
    ]
    | inr (y, q) ↦ ground arith
  ]

  on_task-eq :
      (f : Task → Result Task) (r : Rule) (k : K) (t t' : Task) (tasks : Dict K Task)
      → m.key r ≡ ok k
      → lookup k tasks ≡ some t
      → f t ≡ ok t'
      → on_task m f r tasks ≡ (ok tt, insert k t' tasks)
  unfolding on_task
  on_task-eq f r k t t' tasks h found done = ground arith

  on_task-missing :
      (f : Task → Result Task) (r : Rule) (k : K) (tasks : Dict K Task)
      → m.key r ≡ ok k
      → lookup k tasks ≡ none
      → on_task m f r tasks ≡ (ok tt, tasks)
  unfolding on_task
  on_task-missing f r k tasks h missing = ground arith

  -- Starting or stopping the task under a key leaves a task there that runs, or does not.
  pub start_task-stop_task :
      (r : Rule) (k : K) (t : Task) (c : Connection) (tasks : Dict K Task)
      → m.key r ≡ ok k
      → lookup k tasks ≡ some t
      → t.connection ≡ some c
      → (start_task m r tasks ≡ (ok tt, insert k (with_stopped false t c) tasks))
        × (stop_task m r tasks ≡ (ok tt, insert k (with_stopped true t c) tasks))
        × (is_running (with_stopped false t c) ≡ ok true)
        × (is_running (with_stopped true t c) ≡ ok false)
  unfolding start_task stop_task is_running
  start_task-stop_task r k t c tasks h found conn = (
    on_task-eq start r k t (with_stopped false t c) tasks h found (unfold start in ground arith),
    on_task-eq stop r k t (with_stopped true t c) tasks h found (unfold stop in ground arith),
    refl,
    refl,
  )

  on_task-others :
      (f : Task → Result Task) (r : Rule) (k j : K) (tasks : Dict K Task)
      → m.key r ≡ ok k
      → (k == j) ≡ false
      → lookup j (on_task m f r tasks).1 ≡ lookup j tasks
  unfolding on_task
  on_task-others f r k j tasks h n = elim (Option-cases (lookup k tasks)) [
    | inl missing ↦ ground arith
    | inr (t, found) ↦ elim (Result-cases (f t)) [
      | inl (t', done) ↦ ground (arith, lookup-insert k j t' tasks)
      | inr (x, failed) ↦ ground arith
    ]
  ]

  -- a task under the key afterwards is one that `f` returned, or one on which `f` raised
  on_task-at :
      (f : Task → Result Task) (r : Rule) (k : K) (t : Task) (tasks : Dict K Task)
      → m.key r ≡ ok k
      → lookup k (on_task m f r tasks).1 ≡ some t
      → ((u : Task) × (f u ≡ ok t)) ⊎ ((x : Error) × (f t ≡ err x))
  unfolding on_task
  on_task-at f r k t tasks h q = elim (Option-cases (lookup k tasks)) [
    | inl missing ↦ absurd (ground arith)
    | inr (u, found) ↦ elim (Result-cases (f u)) [
      | inl (t', done) ↦ inl (u, ground (arith, lookup-insert_self k t' tasks))
      | inr (x, failed) ↦ inr (x, ground arith)
    ]
  ]

  pub start_task-others :
      (r : Rule) (k j : K) (tasks : Dict K Task)
      → m.key r ≡ ok k
      → (k == j) ≡ false
      → (lookup j (start_task m r tasks).1 ≡ lookup j tasks)
        × (lookup j (stop_task m r tasks).1 ≡ lookup j tasks)
  unfolding start_task stop_task
  start_task-others r k j tasks h n =
      (on_task-others start r k j tasks h n, on_task-others stop r k j tasks h n)

  pub start_task-runs :
      (r : Rule) (k : K) (t : Task) (c : Connection) (tasks : Dict K Task)
      → m.key r ≡ ok k
      → lookup k (start_task m r tasks).1 ≡ some t
      → t.connection ≡ some c
      → c.stopped ≡ false
  unfolding start_task
  start_task-runs r k t c tasks h q d = elim (on_task-at start r k t tasks h q) [
    | inl (u, done) ↦ unfold start in ground arith
    | inr (x, failed) ↦ unfold start in ground arith
  ]

  pub stop_task-stops :
      (r : Rule) (k : K) (t : Task) (c : Connection) (tasks : Dict K Task)
      → m.key r ≡ ok k
      → lookup k (stop_task m r tasks).1 ≡ some t
      → t.connection ≡ some c
      → c.stopped ≡ true
  unfolding stop_task
  stop_task-stops r k t c tasks h q d = elim (on_task-at stop r k t tasks h q) [
    | inl (u, done) ↦ unfold stop in ground arith
    | inr (x, failed) ↦ unfold stop in ground arith
  ]

  pub stop_task-raises :
      (r : Rule) (tasks : Dict K Task)
      → ¬ ((stop_task m r tasks).0 ≡ ok tt)
      → (stop_task m r tasks).1 ≡ tasks
  unfolding stop_task on_task
  stop_task-raises r tasks h = elim (Result-cases (m.key r)) [
    | inl (k, q) ↦ elim (Option-cases (lookup k tasks)) [
      | inl missing ↦ ground arith
      | inr (t, found) ↦ elim (Result-cases (stop t)) [
        | inl (u, done) ↦ absurd (h (ground arith))
        | inr (x, failed) ↦ ground arith
      ]
    ]
    | inr (x, q) ↦ ground arith
  ]
