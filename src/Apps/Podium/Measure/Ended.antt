-- ===== src/Apps/Podium/Measure/Ended.antt =====
-- What `run_iperf` returns, and that its server and client are stopped.
use distributed_apps_platfor.Base.{
  ◌≡◌, ℕ, zero, suc, ◌≤◌, false, none, some, ok, err, Error, ◌==◌, nat_eq, arith,
}
use distributed_apps_platfor.Apps.Iperf.{running, done}
use distributed_apps_platfor.Apps.Podium.Measure.{
  JobInfo, Hosts, wait_job, watch, cleanup, with_server, run_iperf,
}

module _ {S : Type 0} (hosts : Hosts S) (job : ℕ) where
  -- The job runs at `n` looks, the first of which gave `info`, and then is done with `last`.
  abbrev pub Waits : ℕ → JobInfo → S → JobInfo → S → Type 0
  Waits zero info s last s' = (info ≡ last) × (last.state ≡ done) × (s ≡ s')
  Waits (suc n) info s last s' =
      let (r, s1) = hosts.get_client_job_info job (hosts.sleep 1 s) in
      (info.state ≡ running) × ((next : JobInfo) × (r ≡ ok next) × Waits n next s1 last s')

  wait_job-enough :
      (n fuel : ℕ) (info last : JobInfo) (s s' : S)
      → n ≤ fuel
      → Waits n info s last s'
      → wait_job hosts fuel job info s ≡ (ok (some last), s')
  unfolding wait_job
  wait_job-enough zero zero info last s s' l (same, over, ended) = ground (arith, same, over, ended)
  wait_job-enough zero (suc fuel) info last s s' l (same, over, ended) =
      ground (arith, same, over, ended)
  wait_job-enough (suc n) zero info last s s' l h = absurd (omega (arith, l))
  wait_job-enough (suc n) (suc fuel) info last s s' l (on, (next, told, rest)) =
      ground (arith, on, told, wait_job-enough n fuel next last _ s' (omega (arith, l)) rest)

  watch-enough :
      (n fuel duration : ℕ) (info last : JobInfo) (s s1 s' : S)
      → hosts.get_client_job_info job s ≡ (ok info, s1)
      → n ≤ fuel
      → Waits n info (hosts.sleep duration s1) last s'
      → watch hosts fuel duration job s ≡ (ok (some last.result), s')
  unfolding watch
  watch-enough n fuel duration info last s s1 s' told l waits =
      ground (arith, told, wait_job-enough n fuel info last (hosts.sleep duration s1) s' l waits)

module _ {S : Type 0} (hosts : Hosts S) (down kill : ℕ → S → S)
    (stops : (p : ℕ) (s : S) → hosts.stop_iperf_server p s ≡ (ok tt, down p s))
    (kills : (j : ℕ) (s : S) → hosts.stop_iperf_client j s ≡ (ok tt, kill j s)) where
  cleanup-both :
      (port job : ℕ) (s : S)
      → (port == 0) ≡ false
      → (job == 0) ≡ false
      → cleanup hosts port (some job) s ≡ (ok tt, kill job (down port s))
  unfolding cleanup
  cleanup-both port job s p j = ground (arith, p, j, stops port s, kills job (down port s))

  cleanup-server :
      (port : ℕ) (s : S) → (port == 0) ≡ false → cleanup hosts port none s ≡ (ok tt, down port s)
  unfolding cleanup
  cleanup-server port s p = ground (arith, p, stops port s)

  -- Where stopping does not raise: once the server has started on a port, and the client with a job, both are stopped
  -- at the end, the server first, whatever the job comes to; and where starting the client raises,
  -- that is raised and the server is stopped. The port and the job are not 0.
  pub run_iperf-stops :
      (fuel duration port job : ℕ) (e : Error) (s s1 s2 : S)
      → (port == 0) ≡ false
      → (job == 0) ≡ false
      → hosts.start_iperf_server s ≡ (ok port, s1)
      → (hosts.start_iperf_client port s1 ≡ (ok job, s2)
          → run_iperf hosts fuel duration s ≡ (
            (watch hosts fuel duration job s2).0,
            kill job (down port (watch hosts fuel duration job s2).1),
          ))
        × (hosts.start_iperf_client port s1 ≡ (err e, s2)
            → run_iperf hosts fuel duration s ≡ (err e, down port s2))
  unfolding run_iperf with_server
  run_iperf-stops fuel duration port job e s s1 s2 p j begun =
      let s3 = (watch hosts fuel duration job s2).1 in
      (
        λ c. ground (arith, begun, c, cleanup-both port job s3 p j),
        λ c. ground (arith, begun, c, cleanup-server port s2 p),
      )

  -- Where stopping does not raise, a job that is done after `n` further looks is waited for, with at
  -- least as many rounds, and its result returned.
  pub run_iperf-result :
      (n fuel duration port job : ℕ) (info last : JobInfo) (s s1 s2 s3 s4 : S)
      → (port == 0) ≡ false
      → (job == 0) ≡ false
      → hosts.start_iperf_server s ≡ (ok port, s1)
      → hosts.start_iperf_client port s1 ≡ (ok job, s2)
      → hosts.get_client_job_info job s2 ≡ (ok info, s3)
      → n ≤ fuel
      → Waits hosts job n info (hosts.sleep duration s3) last s4
      → run_iperf hosts fuel duration s ≡ (ok (some last.result), kill job (down port s4))
  run_iperf-result n fuel duration port job info last s s1 s2 s3 s4 p j begun on told l waits =
      let ended = watch-enough hosts job n fuel duration info last s2 s3 s4 told l waits in
      ground (
        arith,
        ended,
        (run_iperf-stops fuel duration port job Error.value_error s s1 s2 p j begun).0 on,
      )
