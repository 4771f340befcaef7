-- ===== src/Tests/Records.antt =====
-- Runs of the recorders and of the monitors.
use distributed_apps_platfor.Base.{
  ◌≡◌, refl, ℕ, suc, String, Bool, true, false, not, ◌&&◌, ◌||◌, List, [], ◌∷◌, none, some, is_some,
  Value, null, bool, text, ok, err, runtime_error, if◌then◌else◌, ◌==◌, string_eq,
}
use distributed_apps_platfor.Base.Exec.{Exec}
use distributed_apps_platfor.Apps.Background.{write_record}
use distributed_apps_platfor.Apps.Monitor.{Monitor, start, stop, is_running, stop-start}
use distributed_apps_platfor.Apps.Records.{Conf, Stamped, update_config}
use distributed_apps_platfor.Apps.Records.Wavefront.{
  Sdk, get_wf_sender, new_recorder, write_traffic,
}
use distributed_apps_platfor.Apps.Records.Missed.{write_record-missed}
use distributed_apps_platfor.Apps.Podium.Primary.{
  Primary, start_primary_monitor, close, start_primary_monitor-again,
}

-- a service that counts what it is sent
abbrev counting : Sdk ℕ
counting = record {
  send_metric = λ c m n. (ok tt, suc n);
  flush_now = λ c n. (ok tt, n);
  close = λ c n. (ok tt, n);
}

-- no address is configured, and later the recording is asked for
abbrev unset : Conf
unset param = text ""

abbrev recording : Conf
recording param = if param == "WAVEFRONT_TRAFFIC_RECORDING" then bool true else text ""

abbrev str : Value → String
str v = "7"

abbrev pinged : Stamped
pinged = record {
  record_of = record {
    source = text "10.0.0.1";
    destination = text "10.0.0.2";
    protocol = text "TCP";
    port = text "80";
    expected = true;
    result = true;
    latency = null;
    error = none;
    reqid = text "q-1";
    ruleid = text "r-1";
  };
  timestamp = 1600000000;
}

-- a recorder that counts the records
abbrev others : List (Stamped → Exec ℕ (Unit {0}))
others = (λ trec n. (ok tt, suc n)) ∷ []

no_sender : get_wf_sender unset ≡ none
unfolding get_wf_sender distributed_apps_platfor.Apps.Records.Wavefront.get_wf_proxy_send
no_sender = refl

write_record-missed_example :
    let r = new_recorder str "WAVEFRONT_TRAFFIC_RECORDING" "h1" unset in
    let r' = record r {
      config_params = update_config recording "WAVEFRONT_TRAFFIC_RECORDING" r.config_params;
    } in
    (write_record (write_traffic str counting recording r ∷ others) pinged 5
      ≡ write_record others pinged 5)
    × (write_record (write_traffic str counting recording r' ∷ others) pinged 5 ≡ 5)
write_record-missed_example =
    write_record-missed str counting others "WAVEFRONT_TRAFFIC_RECORDING" "h1" "TCP" unset recording
      pinged 5 no_sender refl refl

abbrev dead : ℕ → Bool
dead t = false

abbrev died : Monitor
died = record { stop_switch = false; thread = some 0; started = 1 }

stop-start_example :
    let m' = start (stop dead died) in
    let renewed = is_running dead died || not (is_some died.thread) in
    (m'.stop_switch ≡ false)
    × (m'.thread ≡ (if renewed then some 1 else some 0))
    × (m'.started ≡ (if renewed then 2 else 1))
    × (is_running dead m' ≡ renewed && dead 1)
    × (start m' ≡ m')
stop-start_example = stop-start dead died

start_primary_monitor-again_example :
    let first : Primary = record { monitor = none; db_pool = none } in
    let (r, p) = start_primary_monitor first in
    let (r', p') = start_primary_monitor (close dead p) in
    (r ≡ ok tt)
    × (p.db_pool ≡ some (record { is_stopped = false; handlers = true ∷ true ∷ [] }))
    × (start_primary_monitor p ≡ (ok tt, p))
    × (r' ≡ err runtime_error)
    × (p'.db_pool
        ≡ some (record { is_stopped = false; handlers = true ∷ true ∷ false ∷ false ∷ [] }))
start_primary_monitor-again_example = start_primary_monitor-again dead none
