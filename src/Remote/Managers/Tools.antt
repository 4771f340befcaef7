-- ===== src/Remote/Managers/Tools.antt =====
-- The managers of the tools that scan a node, in LYDIAN/lydian/controller/client.py; `dumps` is `pickle.dumps`.
use distributed_apps_platfor.Base.{[], ◌∷◌}
use distributed_apps_platfor.Remote.Managers.{Call}

pub data ScapyManager (A : Type 0) : Type 0 where
  run : A → ScapyManager A
  get_console : A → ScapyManager A
  close_session : A → ScapyManager A

pub data LynisManager (A : Type 0) : Type 0 where
  start_scan : A → LynisManager A
  stop_scan : A → LynisManager A
  is_scan_complete : A → LynisManager A
  install : A → A → A → A → LynisManager A
  get_result : A → LynisManager A

pub data ThreatMonitorManager (A : Type 0) : Type 0 where
  start : ThreatMonitorManager A
  stop : ThreatMonitorManager A

pub data RapidscanManager (A : Type 0) : Type 0 where
  start_run : A → A → RapidscanManager A
  stop_run : A → RapidscanManager A
  is_running : RapidscanManager A
  show_running_processes : RapidscanManager A
  is_run_complete : A → RapidscanManager A
  save_results_to_db : A → RapidscanManager A
  get_result : A → RapidscanManager A

module _ {A : Type 0} where
  unfoldable pub scapy_manager : ScapyManager A → Call A
  scapy_manager (ScapyManager.run code) = record {
    app = "scapy";
    method = "execute";
    args = code ∷ [];
    kwargs = [];
  }
  scapy_manager (ScapyManager.get_console params) = record {
    app = "scapy";
    method = "get_console";
    args = params ∷ [];
    kwargs = [];
  }
  scapy_manager (ScapyManager.close_session _) = record {
    app = "scapy";
    method = "close_session";
    args = [];
    kwargs = [];
  }

  unfoldable pub lynis_manager : LynisManager A → Call A
  lynis_manager (LynisManager.start_scan reqid) = record {
    app = "lynis";
    method = "start_scan";
    args = reqid ∷ [];
    kwargs = [];
  }
  lynis_manager (LynisManager.stop_scan reqid) = record {
    app = "lynis";
    method = "stop_scan";
    args = reqid ∷ [];
    kwargs = [];
  }
  lynis_manager (LynisManager.is_scan_complete reqid) = record {
    app = "lynis";
    method = "is_scan_complete";
    args = reqid ∷ [];
    kwargs = [];
  }
  lynis_manager (LynisManager.install runnerip username password filepath) = record {
    app = "lynis";
    method = "install";
    args = runnerip ∷ username ∷ password ∷ filepath ∷ [];
    kwargs = [];
  }
  lynis_manager (LynisManager.get_result reqid) = record {
    app = "lynis";
    method = "get_result";
    args = reqid ∷ [];
    kwargs = [];
  }

  unfoldable pub threat_monitor_manager : ThreatMonitorManager A → Call A
  threat_monitor_manager ThreatMonitorManager.start = record {
    app = "threatmonitor";
    method = "start";
    args = [];
    kwargs = [];
  }
  threat_monitor_manager ThreatMonitorManager.stop = record {
    app = "threatmonitor";
    method = "stop";
    args = [];
    kwargs = [];
  }

  unfoldable pub rapidscan_manager : RapidscanManager A → Call A
  rapidscan_manager (RapidscanManager.start_run target reqid) = record {
    app = "rapidscan";
    method = "start_run";
    args = target ∷ [];
    kwargs = ("reqid", reqid) ∷ [];
  }
  rapidscan_manager (RapidscanManager.stop_run reqid) = record {
    app = "rapidscan";
    method = "stop_run";
    args = reqid ∷ [];
    kwargs = [];
  }
  rapidscan_manager RapidscanManager.is_running = record {
    app = "rapidscan";
    method = "is_running";
    args = [];
    kwargs = [];
  }
  rapidscan_manager RapidscanManager.show_running_processes = record {
    app = "rapidscan";
    method = "show_running_processes";
    args = [];
    kwargs = [];
  }
  rapidscan_manager (RapidscanManager.is_run_complete reqid) = record {
    app = "rapidscan";
    method = "is_run_complete";
    args = reqid ∷ [];
    kwargs = [];
  }
  rapidscan_manager (RapidscanManager.save_results_to_db reqid) = record {
    app = "rapidscan";
    method = "save_results_to_db";
    args = reqid ∷ [];
    kwargs = [];
  }
  rapidscan_manager (RapidscanManager.get_result reqid) = record {
    app = "rapidscan";
    method = "get_result";
    args = reqid ∷ [];
    kwargs = [];
  }
