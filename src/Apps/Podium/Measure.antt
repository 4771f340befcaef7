-- ===== src/Apps/Podium/Measure.antt =====
-- `run_iperf` of LYDIAN/lydian/apps/podium.py: a server on one host, a client on another, and the
-- result of the client's job.
pub mod Ended
use distributed_apps_platfor.Base.{
  ◌≡◌, ◌∙◌, refl, sym, ap, ℕ, zero, suc, ◌+◌, ◌<◌, String, Bool, true, false, List, [], ◌∷◌, Option,
  none, some, Result, ok, err, Error, if◌then◌else◌, ◌==◌, nat_eq, arith, Bool-cases, Option-cases,
  Result-cases, inl, inr,
}
use distributed_apps_platfor.Base.Exec.{Exec, pure, lift, modify, skip, try_finally, ◌>>=◌, ◌>>◌}
use distributed_apps_platfor.Apps.Iperf.{JobState, running, done}

-- What `get_client_job_info` tells of a job.
pub record JobInfo : Type 0 where
  pub state : JobState
  pub result : Option String

-- The calls of the apps on the two hosts, on a state `S` of both; `sleep` passes seconds.
pub record Hosts (S : Type 0) : Type 0 where
  pub start_iperf_server : Exec S ℕ
  pub start_iperf_client : ℕ → Exec S ℕ
  pub get_client_job_info : ℕ → Exec S JobInfo
  pub stop_iperf_server : ℕ → Exec S (Unit {0})
  pub stop_iperf_client : ℕ → Exec S (Unit {0})
  pub sleep : ℕ → S → S

module _ {S : Type 0} (hosts : Hosts S) where
  -- the loop that waits for the job, with this many rounds at most; None where they do not suffice
  wait_job : ℕ → ℕ → JobInfo → Exec S (Option JobInfo)
  wait_job zero job_id info = elim info.state [ done ↦ pure (some info) | running ↦ pure none ]
  wait_job (suc n) job_id info = elim info.state [
    | done ↦ pure (some info)
    | running ↦ (do
      modify (hosts.sleep 1)
      info' ← hosts.get_client_job_info job_id
      wait_job n job_id info')
  ]

  -- the body of the `try` after the client has started
  unfoldable pub watch : ℕ → ℕ → ℕ → Exec S (Option (Option String))
  unfolding wait_job
  watch fuel duration job_id = do
    info ← hosts.get_client_job_info job_id
    modify (hosts.sleep duration)
    last ← wait_job fuel job_id info
    pure (elim last [ none ↦ none | some i ↦ some i.result ])

  -- the `finally`, with the job where the client has started: a port or a job of 0 counts as none
  unfoldable pub cleanup : ℕ → Option ℕ → Exec S (Unit {0})
  cleanup port job_id = if port == 0 then skip else (do
    hosts.stop_iperf_server port
    elim job_id [ none ↦ skip | some job ↦ if job == 0 then skip else hosts.stop_iperf_client job ])

  with_server : ℕ → ℕ → ℕ → Exec S (Option (Option String))
  with_server fuel duration port s =
      let (r, s1) = hosts.start_iperf_client port s in
      elim r [
        | err e ↦ try_finally (λ t. (err e, t)) (cleanup port none) s1
        | ok job ↦ try_finally (watch fuel duration job) (cleanup port (some job)) s1
      ]

  -- None where the job has not ended after `fuel` rounds
  unfoldable pub run_iperf : ℕ → ℕ → Exec S (Option (Option String))
  unfolding with_server
  run_iperf fuel duration = do port ← hosts.start_iperf_server; with_server fuel duration port
