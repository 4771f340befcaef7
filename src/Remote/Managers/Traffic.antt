-- ===== src/Remote/Managers/Traffic.antt =====
-- The managers of traffic and of its results, in LYDIAN/lydian/controller/client.py; `dumps` is `pickle.dumps`.
use distributed_apps_platfor.Base.{String, [], ◌∷◌, Dict}
use distributed_apps_platfor.Remote.Managers.{Call}

pub data TrafficManger (A : Type 0) : Type 0 where
  delete_traffic_rules : A → TrafficManger A
  add_server : A → A → A → A → TrafficManger A
  start_clients : TrafficManger A
  get_traffic_rules : A → TrafficManger A
  register_traffic : A → TrafficManger A
  unregister_traffic : A → TrafficManger A
  list_servers : TrafficManger A
  get_server : A → A → TrafficManger A
  stop_servers : A → TrafficManger A
  start_servers : A → TrafficManger A
  stop_server : A → A → A → A → TrafficManger A
  stop_client : A → A → TrafficManger A
  stop_clients : A → TrafficManger A

pub data StatsManager (A : Type 0) : Type 0 where
  get_traffic_stats : A → A → StatsManager A
  get_avg_latency : A → A → StatsManager A
  get_failure_count : A → A → A → A → A → StatsManager A
  get_success_count : A → A → A → A → A → StatsManager A
  get_failures : A → A → A → A → A → StatsManager A
  get_successes : A → A → A → A → A → StatsManager A

pub data TrafficControllerManager (A : Type 0) : Type 0 where
  register_traffic : A → TrafficControllerManager A
  register_rule : A → TrafficControllerManager A
  start : A → TrafficControllerManager A
  stop : A → A → TrafficControllerManager A
  unregister_traffic : A → TrafficControllerManager A
  discover_interfaces : TrafficControllerManager A

pub data MockTrafficManager (A : Type 0) : Type 0 where
  register_traffic : A → MockTrafficManager A
  register_rule : A → MockTrafficManager A
  start_traffic : A → MockTrafficManager A
  stop_traffic : A → MockTrafficManager A
  start : MockTrafficManager A
  stop : MockTrafficManager A

pub data ResultsManager (A : Type 0) : Type 0 where
  traffic : A → Dict String A → ResultsManager A
  traffic_records_count : Dict String A → ResultsManager A
  get_latency_stat : A → A → Dict String A → ResultsManager A
  get_avg_latency : A → Dict String A → ResultsManager A
  get_min_latency : A → Dict String A → ResultsManager A
  get_max_latency : A → Dict String A → ResultsManager A
  delete_record : A → Dict String A → ResultsManager A

module _ {A : Type 0} where
  unfoldable pub traffic_manger : TrafficManger A → Call A
  traffic_manger (TrafficManger.delete_traffic_rules endpoint) = record {
    app = "traffic";
    method = "delete_traffic_rules";
    args = endpoint ∷ [];
    kwargs = [];
  }
  traffic_manger (TrafficManger.add_server protocol port endpoint namespace) = record {
    app = "traffic";
    method = "add_server";
    args = protocol ∷ port ∷ endpoint ∷ namespace ∷ [];
    kwargs = [];
  }
  traffic_manger TrafficManger.start_clients = record {
    app = "traffic";
    method = "start_clients";
    args = [];
    kwargs = [];
  }
  traffic_manger (TrafficManger.get_traffic_rules endpoint) = record {
    app = "traffic";
    method = "get_traffic_rules";
    args = endpoint ∷ [];
    kwargs = [];
  }
  traffic_manger (TrafficManger.register_traffic traffic_rules) = record {
    app = "traffic";
    method = "register_traffic";
    args = traffic_rules ∷ [];
    kwargs = [];
  }
  traffic_manger (TrafficManger.unregister_traffic traffic_rules) = record {
    app = "traffic";
    method = "unregister_traffic";
    args = traffic_rules ∷ [];
    kwargs = [];
  }
  traffic_manger TrafficManger.list_servers = record {
    app = "traffic";
    method = "list_servers";
    args = [];
    kwargs = [];
  }
  traffic_manger (TrafficManger.get_server protocol port) = record {
    app = "traffic";
    method = "get_server";
    args = protocol ∷ port ∷ [];
    kwargs = [];
  }
  traffic_manger (TrafficManger.stop_servers namespace) = record {
    app = "traffic";
    method = "stop_servers";
    args = namespace ∷ [];
    kwargs = [];
  }
  traffic_manger (TrafficManger.start_servers namespace) = record {
    app = "traffic";
    method = "start_servers";
    args = namespace ∷ [];
    kwargs = [];
  }
  traffic_manger (TrafficManger.stop_server protocol port namespace endpoint) = record {
    app = "traffic";
    method = "stop_server";
    args = protocol ∷ port ∷ namespace ∷ endpoint ∷ [];
    kwargs = [];
  }
  traffic_manger (TrafficManger.stop_client namespace endpoint) = record {
    app = "traffic";
    method = "stop_client";
    args = namespace ∷ endpoint ∷ [];
    kwargs = [];
  }
  traffic_manger (TrafficManger.stop_clients namespace) = record {
    app = "traffic";
    method = "stop_clients";
    args = namespace ∷ [];
    kwargs = [];
  }

  unfoldable pub stats_manager : StatsManager A → Call A
  stats_manager (StatsManager.get_traffic_stats start_time end_time) = record {
    app = "stats";
    method = "get_traffic_stats";
    args = [];
    kwargs = ("start_time", start_time) ∷ ("end_time", end_time) ∷ [];
  }
  stats_manager (StatsManager.get_avg_latency start_time end_time) = record {
    app = "stats";
    method = "get_avg_latency";
    args = [];
    kwargs = ("start_time", start_time) ∷ ("end_time", end_time) ∷ [];
  }
  stats_manager (StatsManager.get_failure_count start_time end_time destination port source) =
      record {
        app = "stats";
        method = "get_failure_count";
        args = [];
        kwargs =
            ("start_time", start_time)
            ∷ ("end_time", end_time)
            ∷ ("destination", destination)
            ∷ ("port", port)
            ∷ ("source", source)
            ∷ [];
      }
  stats_manager (StatsManager.get_success_count start_time end_time destination port source) =
      record {
        app = "stats";
        method = "get_success_count";
        args = [];
        kwargs =
            ("start_time", start_time)
            ∷ ("end_time", end_time)
            ∷ ("destination", destination)
            ∷ ("port", port)
            ∷ ("source", source)
            ∷ [];
      }
  stats_manager (StatsManager.get_failures start_time end_time destination port source) = record {
    app = "stats";
    method = "get_failures";
    args = [];
    kwargs =
        ("start_time", start_time)
        ∷ ("end_time", end_time)
        ∷ ("destination", destination)
        ∷ ("port", port)
        ∷ ("source", source)
        ∷ [];
  }
  stats_manager (StatsManager.get_successes start_time end_time destination port source) = record {
    app = "stats";
    method = "get_successes";
    args = [];
    kwargs =
        ("start_time", start_time)
        ∷ ("end_time", end_time)
        ∷ ("destination", destination)
        ∷ ("port", port)
        ∷ ("source", source)
        ∷ [];
  }

  unfoldable pub traffic_controller_manager : (A → A) → TrafficControllerManager A → Call A
  traffic_controller_manager dumps (TrafficControllerManager.register_traffic traffic_rules) =
      record {
        app = "controller";
        method = "register_traffic";
        args = (dumps traffic_rules) ∷ [];
        kwargs = [];
      }
  traffic_controller_manager dumps (TrafficControllerManager.register_rule trule) = record {
    app = "controller";
    method = "register_rule";
    args = (dumps trule) ∷ [];
    kwargs = [];
  }
  traffic_controller_manager dumps (TrafficControllerManager.start rules) = record {
    app = "controller";
    method = "start";
    args = rules ∷ [];
    kwargs = [];
  }
  traffic_controller_manager dumps (TrafficControllerManager.stop rules blocking) = record {
    app = "controller";
    method = "stop";
    args = rules ∷ blocking ∷ [];
    kwargs = [];
  }
  traffic_controller_manager dumps (TrafficControllerManager.unregister_traffic rules) = record {
    app = "controller";
    method = "unregister_traffic";
    args = rules ∷ [];
    kwargs = [];
  }
  traffic_controller_manager dumps TrafficControllerManager.discover_interfaces = record {
    app = "controller";
    method = "discover_interfaces";
    args = [];
    kwargs = [];
  }

  unfoldable pub mock_traffic_manager : (A → A) → MockTrafficManager A → Call A
  mock_traffic_manager dumps (MockTrafficManager.register_traffic traffic_rules) = record {
    app = "controller";
    method = "register_traffic";
    args = (dumps traffic_rules) ∷ [];
    kwargs = [];
  }
  mock_traffic_manager dumps (MockTrafficManager.register_rule trule) = record {
    app = "controller";
    method = "register_rule";
    args = (dumps trule) ∷ [];
    kwargs = [];
  }
  mock_traffic_manager dumps (MockTrafficManager.start_traffic ruleid) = record {
    app = "controller";
    method = "start_traffic";
    args = ruleid ∷ [];
    kwargs = [];
  }
  mock_traffic_manager dumps (MockTrafficManager.stop_traffic ruleid) = record {
    app = "controller";
    method = "stop_traffic";
    args = ruleid ∷ [];
    kwargs = [];
  }
  mock_traffic_manager dumps MockTrafficManager.start = record {
    app = "controller";
    method = "start";
    args = [];
    kwargs = [];
  }
  mock_traffic_manager dumps MockTrafficManager.stop = record {
    app = "controller";
    method = "stop";
    args = [];
    kwargs = [];
  }

  unfoldable pub results_manager : ResultsManager A → Call A
  results_manager (ResultsManager.traffic reqid kwargs) = record {
    app = "results";
    method = "traffic";
    args = reqid ∷ [];
    kwargs = kwargs;
  }
  results_manager (ResultsManager.traffic_records_count kwargs) = record {
    app = "results";
    method = "traffic_records_count";
    args = [];
    kwargs = kwargs;
  }
  results_manager (ResultsManager.get_latency_stat reqid method kwargs) = record {
    app = "results";
    method = "get_latency_stat";
    args = [];
    kwargs = ("reqid", reqid) ∷ ("method", method) ∷ kwargs;
  }
  results_manager (ResultsManager.get_avg_latency reqid kwargs) = record {
    app = "results";
    method = "get_avg_latency";
    args = reqid ∷ [];
    kwargs = kwargs;
  }
  results_manager (ResultsManager.get_min_latency reqid kwargs) = record {
    app = "results";
    method = "get_min_latency";
    args = reqid ∷ [];
    kwargs = kwargs;
  }
  results_manager (ResultsManager.get_max_latency reqid kwargs) = record {
    app = "results";
    method = "get_max_latency";
    args = reqid ∷ [];
    kwargs = kwargs;
  }
  results_manager (ResultsManager.delete_record reqid kwargs) = record {
    app = "results";
    method = "delete_record";
    args = reqid ∷ [];
    kwargs = kwargs;
  }
