-- ===== src/Apps/Iperf/Jobs.antt =====
-- The jobs and servers of `Iperf` over its calls.
use distributed_apps_platfor.Base.{
  ◌≡◌, ◌∙◌, sym, refl, arith, ℕ, zero, suc, ◌<◌, String, Bool, true, false, ◌∷◌, Option, none, some,
  lookup, insert, has_key, ok, err, runtime_error, if◌then◌else◌, ◌==◌, nat_eq, lookup-insert,
  lookup-insert_self, ==_refl, lookup-remove, Option-cases, ◌⊎◌, inl, inr,
}
use distributed_apps_platfor.Apps.Iperf.{
  Iperf, Job, running, wait_running, start_iperf_server, stop_iperf_server, stop_iperf_client,
  next_job_id, start_iperf_client, finish, get_client_job_info,
}

-- the last id that was given, and no job has a later one
abbrev pub IsNumbered : Iperf → Type 0
IsNumbered app = (j : ℕ) → has_key j app.client_handles ≡ true → j < next_job_id app.job_id

-- The calls of the client side.
pub data Call : Type 0 where
  start_client : String → ℕ → Call
  stop_client : ℕ → Call
  info : ℕ → Bool → String → Call

abbrev pub after : Call → Iperf → Iperf
after (start_client cmd p) app = (start_iperf_client cmd p app).1
after (stop_client j) app = stop_iperf_client j app
after (info j alive output) app = (get_client_job_info j alive output app).1

next_job_id-step : (o : Option ℕ) → next_job_id (some (next_job_id o)) ≡ suc (next_job_id o)
unfolding next_job_id
next_job_id-step none = refl
next_job_id-step (some zero) = refl
next_job_id-step (some (suc n)) = refl

-- a look at a job that is there
info-of :
    (i : ℕ) (job : Job) (alive : Bool) (output : String) (app : Iperf)
    → lookup i app.client_handles ≡ some job
    → get_client_job_info i alive output app ≡ (
        if alive then (some job, app) else (
          some (finish output job),
          record app { client_handles = insert i (finish output job) app.client_handles },
        ))
unfolding get_client_job_info
info-of i job alive output app h = rw (h, get_client_job_info) refl

info-keys :
    (i : ℕ) (alive : Bool) (output : String) (app : Iperf)
    → ((get_client_job_info i alive output app).1.job_id ≡ app.job_id)
      × ((j : ℕ)
          → has_key j (get_client_job_info i alive output app).1.client_handles
            ≡ has_key j app.client_handles)
unfolding get_client_job_info
info-keys i alive output app = elim (Option-cases (lookup i app.client_handles)) [
  | inl e ↦ rw (e, get_client_job_info) (refl, λ j. refl)
  | inr (job, e) ↦ rw (info-of i job alive output app e) (go job e alive)
]
  where
    looked : Job → Bool → Option Job × Iperf
    looked job b = if b then (some job, app) else (
      some (finish output job),
      record app { client_handles = insert i (finish output job) app.client_handles },
    )

    go :
        (job : Job)
        → lookup i app.client_handles ≡ some job
        → (b : Bool)
        → ((looked job b).1.job_id ≡ app.job_id)
          × ((j : ℕ) → has_key j (looked job b).1.client_handles ≡ has_key j app.client_handles)
    go job e true = (refl, λ j. refl)
    go job e false =
        (refl, λ j. ground (arith, lookup-insert i j (finish output job) app.client_handles, e))

finish-finish :
    (later output : String) (job : Job) → finish later (finish output job) ≡ finish output job
unfolding finish
finish-finish later output job = elim (Option-cases job.result) [
  | inl e ↦ rw e refl
  | inr (r, e) ↦ rw e refl
]

after-IsNumbered : (c : Call) (app : Iperf) → IsNumbered app → IsNumbered (after c app)
unfolding start_iperf_client stop_iperf_client get_client_job_info
after-IsNumbered (start_client cmd p) app h j q = ground (
  arith,
  h j,
  next_job_id-step app.job_id,
  lookup-insert (next_job_id app.job_id) j
      (record { popen_obj = p; state = running; result = none; cmd = cmd }) app.client_handles,
  q,
)
after-IsNumbered (stop_client i) app h j q = ground (
  arith,
  h j,
  Option-cases (lookup i app.client_handles),
  lookup-remove i j app.client_handles,
  q,
)
after-IsNumbered (info i alive output) app h j q =
    let (e, k) = info-keys i alive output app in rw e (h j (sym (k j) ∙ q))

-- Where every job's id is below the next one, a job that `start_iperf_client` starts gets an id that no
-- job of the app has, the job is there under the id, running and without a result, and every other
-- job stays as it was. Starting, stopping and looking at jobs leave every id below the next one.
pub start_iperf_client-fresh :
    (cmd : String) (p : ℕ) (app : Iperf)
    → IsNumbered app
    → let (id, app') = start_iperf_client cmd p app in
      (lookup id app.client_handles ≡ none)
      × (lookup id app'.client_handles
          ≡ some (record { popen_obj = p; state = running; result = none; cmd = cmd }))
      × ((j : ℕ) → (id == j) ≡ false → lookup j app'.client_handles ≡ lookup j app.client_handles)
      × ((c : Call) → IsNumbered (after c app))
unfolding start_iperf_client
start_iperf_client-fresh cmd p app h = (
  ground (
    arith,
    h (next_job_id app.job_id),
    Option-cases (lookup (next_job_id app.job_id) app.client_handles),
  ),
  lookup-insert_self _ _ app.client_handles,
  λ j e. rw (lookup-insert _ j _ app.client_handles, e) refl,
  λ c. after-IsNumbered c app h,
)

-- Once a job was seen with its process dead, a later look returns the same job, whatever the process
-- answers then, and changes nothing.
pub get_client_job_info-stable :
    (job_id : ℕ) (job : Job) (output later : String) (alive : Bool) (app : Iperf)
    → lookup job_id app.client_handles ≡ some job
    → let (seen, app') = get_client_job_info job_id false output app in
      let (again, app'') = get_client_job_info job_id alive later app' in
      (seen ≡ some (finish output job))
      × (again ≡ seen)
      × ((j : ℕ) → lookup j app''.client_handles ≡ lookup j app'.client_handles)
get_client_job_info-stable job_id job output later alive app h =
    rw (info-of job_id job false output app h) (
      rw
        (info-of job_id (finish output job) alive later (seen_app output)
          (lookup-insert_self job_id (finish output job) app.client_handles))
        (rw (finish-finish later output job) (go alive)))
  where
    seen_app : String → Iperf
    seen_app output = record app {
      client_handles = insert job_id (finish output job) app.client_handles;
    }

    after_look : Bool → Option Job × Iperf
    after_look b = if b then (some (finish output job), seen_app output) else (
      some (finish output job),
      record (seen_app output) {
        client_handles = insert job_id (finish output job) (seen_app output).client_handles;
      },
    )

    go :
        (b : Bool)
        → (some (finish output job) ≡ some (finish output job))
          × ((after_look b).0 ≡ some (finish output job))
          × ((j : ℕ)
              → lookup j (after_look b).1.client_handles
                ≡ lookup j (seen_app output).client_handles)
    go true = (refl, refl, λ j. refl)
    go false = (
      refl,
      refl,
      λ j. ground (
        arith,
        lookup-insert job_id j (finish output job) (seen_app output).client_handles,
        lookup-insert job_id j (finish output job) app.client_handles,
      ),
    )

wait_running-true : (look : ℕ → Bool) (i : ℕ) → i < 3 → look i ≡ true → wait_running 3 look 0 ≡ true
unfolding wait_running
wait_running-true look i q e = elim (below_three i q) [
  | inl k ↦ ground (arith, k, e)
  | inr (inl k) ↦ ground (arith, k, e)
  | inr (inr k) ↦ ground (arith, k, e)
]
  where
    below_three : (i : ℕ) → i < 3 → (look 0 ≡ look i) ⊎ (look 1 ≡ look i) ⊎ (look 2 ≡ look i)
    below_three zero q = inl refl
    below_three (suc zero) q = inr (inl refl)
    below_three (suc (suc zero)) q = inr (inr refl)
    below_three (suc (suc (suc i))) q = ground (arith, q)

wait_running-false :
    (look : ℕ → Bool) → ((i : ℕ) → i < 3 → look i ≡ false) → wait_running 3 look 0 ≡ false
unfolding wait_running
wait_running-false look k = ground (arith, k 0 (omega arith), k 1 (omega arith), k 2 (omega arith))

stop_iperf_server-kept :
    (port p : ℕ) (app : Iperf)
    → lookup port app.server_handles ≡ some p
    → ((stop_iperf_server port app).killed ≡ p ∷ app.killed)
      × (lookup port (stop_iperf_server port app).server_handles ≡ none)
unfolding stop_iperf_server lookup
stop_iperf_server-kept port p app h =
    rw (h, stop_iperf_server)
      (refl, rw (lookup-remove port port app.server_handles, ==_refl port) refl)

-- A server is kept under its port exactly when no server ran on the port before and one of three looks
-- after the start shows one; otherwise the servers stay as they were, and the start raises where
-- no look shows one. Stopping a server kept so kills its process, and the port is free again.
pub start_iperf_server_lem :
    (port p : ℕ) (before : Bool) (look : ℕ → Bool) (app : Iperf)
    → let (r, app') = start_iperf_server port before look p app in
      (before ≡ true → (r ≡ ok port) × (app' ≡ app))
      × (before ≡ false
          → (i : ℕ) → i < 3
          → look i ≡ true
          → (r ≡ ok port)
            × (lookup port app'.server_handles ≡ some p)
            × ((stop_iperf_server port app').killed ≡ p ∷ app.killed)
            × (lookup port (stop_iperf_server port app').server_handles ≡ none))
      × (before ≡ false
          → ((i : ℕ) → i < 3 → look i ≡ false)
          → (r ≡ err runtime_error) × (app' ≡ app))
unfolding start_iperf_server
start_iperf_server_lem port p true look app =
    (λ h. (refl, refl), λ h. ground (arith, h), λ h. ground (arith, h))
start_iperf_server_lem port p false look app = (
  λ h. ground (arith, h),
  λ h i q e.
      let (killed, free) =
        stop_iperf_server-kept port p
          (record app { server_handles = insert port p app.server_handles })
          (lookup-insert_self port p app.server_handles) in
      rw (wait_running-true look i q e)
        (refl, lookup-insert_self port p app.server_handles, killed, free),
  λ h k. rw (wait_running-false look k) (refl, refl),
)
