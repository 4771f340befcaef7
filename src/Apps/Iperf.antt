-- ===== src/Apps/Iperf.antt =====
-- `Iperf` of LYDIAN/lydian/apps/iperf.py: the servers by their ports and the client jobs by their ids.
pub mod Jobs
use distributed_apps_platfor.Base.{
  ◌≡◌, ℕ, zero, suc, ◌+◌, String, Bool, true, false, not, List, [], ◌∷◌, Option, none, some, Dict,
  lookup, insert, remove, has_key, keys, Result, ok, err, Error, runtime_error, if◌then◌else◌, ◌==◌,
  nat_eq,
}

-- The state of a job: running, or done.
pub data JobState : Type 0 where
  running done : JobState

-- A process is the number of its handle.
pub record Job : Type 0 where
  pub popen_obj : ℕ
  pub state : JobState
  pub result : Option String
  pub cmd : String

-- `killed` holds the processes that were killed, the last one first.
pub record Iperf : Type 0 where
  pub server_handles : Dict ℕ ℕ
  pub client_handles : Dict ℕ Job
  pub job_id : Option ℕ
  pub killed : List ℕ

abbrev pub starting_job_id : ℕ
starting_job_id = 1000

-- `for _ in range(3)`: whether a server runs on the port at each look
unfoldable pub wait_running : ℕ → (ℕ → Bool) → ℕ → Bool
wait_running zero look i = false
wait_running (suc n) look i =
    let rest = wait_running n look (suc i) in if look i then true else rest

-- `start_iperf_server` on a port: what a look at the port shows before the start, and after it, and
-- the process started
unfoldable pub start_iperf_server : ℕ → Bool → (ℕ → Bool) → ℕ → Iperf → Result ℕ × Iperf
start_iperf_server port before look p app =
    if before
    then (ok port, app)
    else if wait_running 3 look 0
    then (ok port, record app { server_handles = insert port p app.server_handles })
    else (err runtime_error, app)

unfoldable pub stop_iperf_server : ℕ → Iperf → Iperf
stop_iperf_server port app = elim (lookup port app.server_handles) [
  | none ↦ app
  | some p ↦ record app { server_handles = remove port app.server_handles; killed = p ∷ app.killed }
]

unfoldable pub stop_iperf_client : ℕ → Iperf → Iperf
stop_iperf_client job_id app = elim (lookup job_id app.client_handles) [
  | none ↦ app
  | some job ↦ record app {
    client_handles = remove job_id app.client_handles;
    killed = job.popen_obj ∷ app.killed;
  }
]

-- the first id, or the next one; an id of 0 counts as none
unfoldable pub next_job_id : Option ℕ → ℕ
next_job_id none = starting_job_id
next_job_id (some zero) = starting_job_id
next_job_id (some (suc n)) = suc (suc n)

-- `start_iperf_client`, with the process started and its command
unfoldable pub start_iperf_client : String → ℕ → Iperf → ℕ × Iperf
start_iperf_client cmd p app =
    let job_id = next_job_id app.job_id in
    let job : Job = record { popen_obj = p; state = running; result = none; cmd = cmd } in
    (
      job_id,
      record app { client_handles = insert job_id job app.client_handles; job_id = some job_id },
    )

unfoldable pub finish : String → Job → Job
finish output job = record job {
  result = (elim (job.result) [ none ↦ some output | some r ↦ some r ]);
  state = done;
}

-- `get_client_job_info`: whether the process is alive, and the output that `communicate` would give
unfoldable pub get_client_job_info : ℕ → Bool → String → Iperf → Option Job × Iperf
get_client_job_info job_id alive output app = elim (lookup job_id app.client_handles) [
  | none ↦ (none, app)
  | some job ↦ if alive then (some job, app) else (
    some (finish output job),
    record app { client_handles = insert job_id (finish output job) app.client_handles },
  )
]
