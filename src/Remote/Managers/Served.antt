-- ===== src/Remote/Managers/Served.antt =====
-- Which calls of the managers the service answers.
use distributed_apps_platfor.Base.{
  ◌≡◌, refl, lookup, Result, ok, err, attribute_error, type_error, string_eq,
}
use distributed_apps_platfor.Remote.Managers.Traffic.{
  TrafficManger, StatsManager, TrafficControllerManager, MockTrafficManager, ResultsManager,
  traffic_manger, stats_manager, traffic_controller_manager, mock_traffic_manager, results_manager,
}
use distributed_apps_platfor.Remote.Managers.Node.{
  NsManager, IfaceManager, HostInfoManager, ResourceMonitorManager, ConfigManager, TcpDumpManager,
  IperfManager, ns_manager, iface_manager, host_info_manager, resource_monitor_manager,
  config_manager, tcp_dump_manager, iperf_manager,
}
use distributed_apps_platfor.Remote.Managers.Tools.{
  ScapyManager, LynisManager, ThreatMonitorManager, RapidscanManager, scapy_manager, lynis_manager,
  threat_monitor_manager, rapidscan_manager,
}
use distributed_apps_platfor.Remote.Service.{served, exposify, accepts}
use distributed_apps_platfor.Remote.Service.Methods.{exposed}

module _ {A : Type 0} (dumps : A → A) where
  host_info_manager-served : (r : HostInfoManager A) → served exposed (host_info_manager r) ≡ ok tt
  unfolding served exposed exposify accepts lookup host_info_manager
  host_info_manager-served HostInfoManager.hostname = refl
  host_info_manager-served HostInfoManager.mgmt_ifname = refl
  host_info_manager-served HostInfoManager.mgmt_ip = refl
  host_info_manager-served HostInfoManager.host_type = refl
  host_info_manager-served HostInfoManager.interfaces = refl
  host_info_manager-served (HostInfoManager.iface_info a) = refl

  ns_manager-served : (r : NsManager A) → served exposed (ns_manager r) ≡ ok tt
  unfolding served exposed exposify accepts lookup ns_manager
  ns_manager-served NsManager.list_namespaces = refl
  ns_manager-served (NsManager.get_namespace a) = refl
  ns_manager-served NsManager.list_namespaces_ips = refl
  ns_manager-served NsManager.discover_namespaces = refl

  iface_manager-served : (r : IfaceManager A) → served exposed (iface_manager r) ≡ ok tt
  unfolding served exposed exposify accepts lookup iface_manager
  iface_manager-served IfaceManager.list_interfaces = refl
  iface_manager-served (IfaceManager.get_interface a b) = refl
  iface_manager-served IfaceManager.get_all_ips = refl
  iface_manager-served (IfaceManager.get_ips_by_interface a) = refl
  iface_manager-served IfaceManager.get_interface_ips_map = refl

  traffic_controller_manager-served :
      (r : TrafficControllerManager A) → served exposed (traffic_controller_manager dumps r) ≡ ok tt
  unfolding served exposed exposify accepts lookup traffic_controller_manager
  traffic_controller_manager-served (TrafficControllerManager.register_traffic a) = refl
  traffic_controller_manager-served (TrafficControllerManager.register_rule a) = refl
  traffic_controller_manager-served (TrafficControllerManager.start a) = refl
  traffic_controller_manager-served (TrafficControllerManager.stop a b) = refl
  traffic_controller_manager-served (TrafficControllerManager.unregister_traffic a) = refl
  traffic_controller_manager-served TrafficControllerManager.discover_interfaces = refl

  results_manager-served : (r : ResultsManager A) → served exposed (results_manager r) ≡ ok tt
  unfolding served exposed exposify accepts lookup results_manager
  results_manager-served (ResultsManager.traffic a b) = refl
  results_manager-served (ResultsManager.traffic_records_count a) = refl
  results_manager-served (ResultsManager.get_latency_stat a b c) = refl
  results_manager-served (ResultsManager.get_avg_latency a b) = refl
  results_manager-served (ResultsManager.get_min_latency a b) = refl
  results_manager-served (ResultsManager.get_max_latency a b) = refl
  results_manager-served (ResultsManager.delete_record a b) = refl

  resource_monitor_manager-served :
      (r : ResourceMonitorManager A) → served exposed (resource_monitor_manager r) ≡ ok tt
  unfolding served exposed exposify accepts lookup resource_monitor_manager
  resource_monitor_manager-served ResourceMonitorManager.start = refl
  resource_monitor_manager-served ResourceMonitorManager.stop = refl
  resource_monitor_manager-served ResourceMonitorManager.is_running = refl

  tcp_dump_manager-served : (r : TcpDumpManager A) → served exposed (tcp_dump_manager r) ≡ ok tt
  unfolding served exposed exposify accepts lookup tcp_dump_manager
  tcp_dump_manager-served (TcpDumpManager.start_pcap a b c d) = refl
  tcp_dump_manager-served (TcpDumpManager.stop_pcap a) = refl
  tcp_dump_manager-served (TcpDumpManager.is_running a) = refl

  iperf_manager-served : (r : IperfManager A) → served exposed (iperf_manager r) ≡ ok tt
  unfolding served exposed exposify accepts lookup iperf_manager
  iperf_manager-served (IperfManager.start_iperf_server a b c) = refl
  iperf_manager-served (IperfManager.stop_iperf_server a) = refl
  iperf_manager-served (IperfManager.start_iperf_client a b c d e f g) = refl
  iperf_manager-served (IperfManager.stop_iperf_client a) = refl
  iperf_manager-served IperfManager.get_server_ports = refl
  iperf_manager-served IperfManager.get_client_jobs = refl
  iperf_manager-served (IperfManager.get_client_job_info a) = refl
  iperf_manager-served (IperfManager.is_running a) = refl

  config_manager-served : (r : ConfigManager A) → served exposed (config_manager r) ≡ ok tt
  unfolding served exposed exposify accepts lookup config_manager
  config_manager-served (ConfigManager.get_param a) = refl
  config_manager-served (ConfigManager.set_param a b) = refl

  threat_monitor_manager-served :
      (r : ThreatMonitorManager A) → served exposed (threat_monitor_manager r) ≡ ok tt
  unfolding served exposed exposify accepts lookup threat_monitor_manager
  threat_monitor_manager-served ThreatMonitorManager.start = refl
  threat_monitor_manager-served ThreatMonitorManager.stop = refl

  rapidscan_manager-served : (r : RapidscanManager A) → served exposed (rapidscan_manager r) ≡ ok tt
  unfolding served exposed exposify accepts lookup rapidscan_manager
  rapidscan_manager-served (RapidscanManager.start_run a b) = refl
  rapidscan_manager-served (RapidscanManager.stop_run a) = refl
  rapidscan_manager-served RapidscanManager.is_running = refl
  rapidscan_manager-served RapidscanManager.show_running_processes = refl
  rapidscan_manager-served (RapidscanManager.is_run_complete a) = refl
  rapidscan_manager-served (RapidscanManager.save_results_to_db a) = refl
  rapidscan_manager-served (RapidscanManager.get_result a) = refl

  traffic_manger-served :
      (r : TrafficManger A) → served exposed (traffic_manger r) ≡ err attribute_error
  unfolding served exposed exposify accepts lookup traffic_manger
  traffic_manger-served (TrafficManger.delete_traffic_rules a) = refl
  traffic_manger-served (TrafficManger.add_server a b c d) = refl
  traffic_manger-served TrafficManger.start_clients = refl
  traffic_manger-served (TrafficManger.get_traffic_rules a) = refl
  traffic_manger-served (TrafficManger.register_traffic a) = refl
  traffic_manger-served (TrafficManger.unregister_traffic a) = refl
  traffic_manger-served TrafficManger.list_servers = refl
  traffic_manger-served (TrafficManger.get_server a b) = refl
  traffic_manger-served (TrafficManger.stop_servers a) = refl
  traffic_manger-served (TrafficManger.start_servers a) = refl
  traffic_manger-served (TrafficManger.stop_server a b c d) = refl
  traffic_manger-served (TrafficManger.stop_client a b) = refl
  traffic_manger-served (TrafficManger.stop_clients a) = refl

  stats_manager-served :
      (r : StatsManager A) → served exposed (stats_manager r) ≡ err attribute_error
  unfolding served exposed exposify accepts lookup stats_manager
  stats_manager-served (StatsManager.get_traffic_stats a b) = refl
  stats_manager-served (StatsManager.get_avg_latency a b) = refl
  stats_manager-served (StatsManager.get_failure_count a b c d e) = refl
  stats_manager-served (StatsManager.get_success_count a b c d e) = refl
  stats_manager-served (StatsManager.get_failures a b c d e) = refl
  stats_manager-served (StatsManager.get_successes a b c d e) = refl

  scapy_manager-served :
      (r : ScapyManager A) → served exposed (scapy_manager r) ≡ err attribute_error
  unfolding served exposed exposify accepts lookup scapy_manager
  scapy_manager-served (ScapyManager.run a) = refl
  scapy_manager-served (ScapyManager.get_console a) = refl
  scapy_manager-served (ScapyManager.close_session a) = refl

  -- `install` of the scanner is no method of its app
  abbrev pub lynis_answer : LynisManager A → Result (Unit {0})
  lynis_answer (LynisManager.install a b c d) = err attribute_error
  lynis_answer r = ok tt

  lynis_manager-served : (r : LynisManager A) → served exposed (lynis_manager r) ≡ lynis_answer r
  unfolding served exposed exposify accepts lookup lynis_manager
  lynis_manager-served (LynisManager.start_scan a) = refl
  lynis_manager-served (LynisManager.stop_scan a) = refl
  lynis_manager-served (LynisManager.is_scan_complete a) = refl
  lynis_manager-served (LynisManager.install a b c d) = refl
  lynis_manager-served (LynisManager.get_result a) = refl

  -- the managed tool is called through the controller, whose `start` and `stop` want rules
  abbrev pub mock_answer : MockTrafficManager A → Result (Unit {0})
  mock_answer (MockTrafficManager.register_traffic a) = ok tt
  mock_answer (MockTrafficManager.register_rule a) = ok tt
  mock_answer (MockTrafficManager.start_traffic a) = err attribute_error
  mock_answer (MockTrafficManager.stop_traffic a) = err attribute_error
  mock_answer MockTrafficManager.start = err type_error
  mock_answer MockTrafficManager.stop = err type_error

  mock_traffic_manager-served :
      (r : MockTrafficManager A) → served exposed (mock_traffic_manager dumps r) ≡ mock_answer r
  unfolding served exposed exposify accepts lookup mock_traffic_manager
  mock_traffic_manager-served (MockTrafficManager.register_traffic a) = refl
  mock_traffic_manager-served (MockTrafficManager.register_rule a) = refl
  mock_traffic_manager-served (MockTrafficManager.start_traffic a) = refl
  mock_traffic_manager-served (MockTrafficManager.stop_traffic a) = refl
  mock_traffic_manager-served MockTrafficManager.start = refl
  mock_traffic_manager-served MockTrafficManager.stop = refl

  -- The service finds the app and the method of every call of these managers, and the method takes the arguments of
  -- the call: the managers of the host, of namespaces and interfaces, of the controller and the results, of the
  -- monitor, of captures, of Iperf, of the parameters, of threats and of the scanner Rapidscan.
  pub managers-served :
      ((r : HostInfoManager A) → served exposed (host_info_manager r) ≡ ok tt)
      × ((r : NsManager A) → served exposed (ns_manager r) ≡ ok tt)
      × ((r : IfaceManager A) → served exposed (iface_manager r) ≡ ok tt)
      × ((r : TrafficControllerManager A)
          → served exposed (traffic_controller_manager dumps r) ≡ ok tt)
      × ((r : ResultsManager A) → served exposed (results_manager r) ≡ ok tt)
      × ((r : ResourceMonitorManager A) → served exposed (resource_monitor_manager r) ≡ ok tt)
      × ((r : TcpDumpManager A) → served exposed (tcp_dump_manager r) ≡ ok tt)
      × ((r : IperfManager A) → served exposed (iperf_manager r) ≡ ok tt)
      × ((r : ConfigManager A) → served exposed (config_manager r) ≡ ok tt)
      × ((r : ThreatMonitorManager A) → served exposed (threat_monitor_manager r) ≡ ok tt)
      × ((r : RapidscanManager A) → served exposed (rapidscan_manager r) ≡ ok tt)
  managers-served = (
    host_info_manager-served, ns_manager-served, iface_manager-served,
    traffic_controller_manager-served, results_manager-served, resource_monitor_manager-served,
    tcp_dump_manager-served, iperf_manager-served, config_manager-served,
    threat_monitor_manager-served, rapidscan_manager-served,
  )

  -- Every call of the managers of traffic, of statistics and of Scapy raises, since the service has no such app; so does
  -- `install` of the manager of Lynis, while its other calls are answered; and of the manager of the mock tool only
  -- the registrations are answered.
  pub managers-unserved :
      ((r : TrafficManger A) → served exposed (traffic_manger r) ≡ err attribute_error)
      × ((r : StatsManager A) → served exposed (stats_manager r) ≡ err attribute_error)
      × ((r : ScapyManager A) → served exposed (scapy_manager r) ≡ err attribute_error)
      × ((r : LynisManager A) → served exposed (lynis_manager r) ≡ lynis_answer r)
      × ((r : MockTrafficManager A) → served exposed (mock_traffic_manager dumps r) ≡ mock_answer r)
  managers-unserved = (
    traffic_manger-served, stats_manager-served, scapy_manager-served, lynis_manager-served,
    mock_traffic_manager-served,
  )
