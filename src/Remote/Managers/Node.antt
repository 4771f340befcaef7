-- ===== src/Remote/Managers/Node.antt =====
-- The managers of what a node is and has, in LYDIAN/lydian/controller/client.py; `dumps` is `pickle.dumps`.
use distributed_apps_platfor.Base.{[], ◌∷◌}
use distributed_apps_platfor.Remote.Managers.{Call}

pub data NsManager (A : Type 0) : Type 0 where
  list_namespaces : NsManager A
  get_namespace : A → NsManager A
  list_namespaces_ips : NsManager A
  discover_namespaces : NsManager A

pub data IfaceManager (A : Type 0) : Type 0 where
  list_interfaces : IfaceManager A
  get_interface : A → A → IfaceManager A
  get_all_ips : IfaceManager A
  get_ips_by_interface : A → IfaceManager A
  get_interface_ips_map : IfaceManager A

pub data HostInfoManager (A : Type 0) : Type 0 where
  hostname : HostInfoManager A
  mgmt_ifname : HostInfoManager A
  mgmt_ip : HostInfoManager A
  host_type : HostInfoManager A
  interfaces : HostInfoManager A
  iface_info : A → HostInfoManager A

pub data ResourceMonitorManager (A : Type 0) : Type 0 where
  start : ResourceMonitorManager A
  stop : ResourceMonitorManager A
  is_running : ResourceMonitorManager A

pub data ConfigManager (A : Type 0) : Type 0 where
  get_param : A → ConfigManager A
  set_param : A → A → ConfigManager A

pub data TcpDumpManager (A : Type 0) : Type 0 where
  start_pcap : A → A → A → A → TcpDumpManager A
  stop_pcap : A → TcpDumpManager A
  is_running : A → TcpDumpManager A

pub data IperfManager (A : Type 0) : Type 0 where
  start_iperf_server : A → A → A → IperfManager A
  stop_iperf_server : A → IperfManager A
  start_iperf_client : A → A → A → A → A → A → A → IperfManager A
  stop_iperf_client : A → IperfManager A
  get_server_ports : IperfManager A
  get_client_jobs : IperfManager A
  get_client_job_info : A → IperfManager A
  is_running : A → IperfManager A

module _ {A : Type 0} where
  unfoldable pub ns_manager : NsManager A → Call A
  ns_manager NsManager.list_namespaces = record {
    app = "namespace";
    method = "list_namespaces";
    args = [];
    kwargs = [];
  }
  ns_manager (NsManager.get_namespace name) = record {
    app = "namespace";
    method = "get_namespace";
    args = name ∷ [];
    kwargs = [];
  }
  ns_manager NsManager.list_namespaces_ips = record {
    app = "namespace";
    method = "list_namespaces_ips";
    args = [];
    kwargs = [];
  }
  ns_manager NsManager.discover_namespaces = record {
    app = "namespace";
    method = "discover_namespaces";
    args = [];
    kwargs = [];
  }

  unfoldable pub iface_manager : IfaceManager A → Call A
  iface_manager IfaceManager.list_interfaces = record {
    app = "interface";
    method = "list_interfaces";
    args = [];
    kwargs = [];
  }
  iface_manager (IfaceManager.get_interface name ip) = record {
    app = "interface";
    method = "get_interface";
    args = name ∷ ip ∷ [];
    kwargs = [];
  }
  iface_manager IfaceManager.get_all_ips = record {
    app = "interface";
    method = "get_all_ips";
    args = [];
    kwargs = [];
  }
  iface_manager (IfaceManager.get_ips_by_interface interface) = record {
    app = "interface";
    method = "get_ips_by_interface";
    args = interface ∷ [];
    kwargs = [];
  }
  iface_manager IfaceManager.get_interface_ips_map = record {
    app = "interface";
    method = "get_interface_ips_map";
    args = [];
    kwargs = [];
  }

  unfoldable pub host_info_manager : HostInfoManager A → Call A
  host_info_manager HostInfoManager.hostname = record {
    app = "hostinfo";
    method = "hostname";
    args = [];
    kwargs = [];
  }
  host_info_manager HostInfoManager.mgmt_ifname = record {
    app = "hostinfo";
    method = "mgmt_ifname";
    args = [];
    kwargs = [];
  }
  host_info_manager HostInfoManager.mgmt_ip = record {
    app = "hostinfo";
    method = "mgmt_ip";
    args = [];
    kwargs = [];
  }
  host_info_manager HostInfoManager.host_type = record {
    app = "hostinfo";
    method = "host_type";
    args = [];
    kwargs = [];
  }
  host_info_manager HostInfoManager.interfaces = record {
    app = "hostinfo";
    method = "interfaces";
    args = [];
    kwargs = [];
  }
  host_info_manager (HostInfoManager.iface_info ifname) = record {
    app = "hostinfo";
    method = "iface_info";
    args = ifname ∷ [];
    kwargs = [];
  }

  unfoldable pub resource_monitor_manager : ResourceMonitorManager A → Call A
  resource_monitor_manager ResourceMonitorManager.start = record {
    app = "monitor";
    method = "start";
    args = [];
    kwargs = [];
  }
  resource_monitor_manager ResourceMonitorManager.stop = record {
    app = "monitor";
    method = "stop";
    args = [];
    kwargs = [];
  }
  resource_monitor_manager ResourceMonitorManager.is_running = record {
    app = "monitor";
    method = "is_running";
    args = [];
    kwargs = [];
  }

  unfoldable pub config_manager : ConfigManager A → Call A
  config_manager (ConfigManager.get_param param) = record {
    app = "configs";
    method = "get_param";
    args = param ∷ [];
    kwargs = [];
  }
  config_manager (ConfigManager.set_param param val) = record {
    app = "configs";
    method = "set_param";
    args = param ∷ val ∷ [];
    kwargs = [];
  }

  unfoldable pub tcp_dump_manager : TcpDumpManager A → Call A
  tcp_dump_manager (TcpDumpManager.start_pcap dst_file interface args tool_path) = record {
    app = "tcpdump";
    method = "start_pcap";
    args = dst_file ∷ interface ∷ args ∷ tool_path ∷ [];
    kwargs = [];
  }
  tcp_dump_manager (TcpDumpManager.stop_pcap dst_file) = record {
    app = "tcpdump";
    method = "stop_pcap";
    args = dst_file ∷ [];
    kwargs = [];
  }
  tcp_dump_manager (TcpDumpManager.is_running dst_file) = record {
    app = "tcpdump";
    method = "is_running";
    args = dst_file ∷ [];
    kwargs = [];
  }

  unfoldable pub iperf_manager : IperfManager A → Call A
  iperf_manager (IperfManager.start_iperf_server port args iperf_bin) = record {
    app = "iperf";
    method = "start_iperf_server";
    args = [];
    kwargs = ("port", port) ∷ ("args", args) ∷ ("iperf_bin", iperf_bin) ∷ [];
  }
  iperf_manager (IperfManager.stop_iperf_server port) = record {
    app = "iperf";
    method = "stop_iperf_server";
    args = port ∷ [];
    kwargs = [];
  }
  iperf_manager
        (IperfManager.start_iperf_client dst_ip dst_port duration udp bandwidth args iperf_bin) =
      record {
        app = "iperf";
        method = "start_iperf_client";
        args = dst_ip ∷ dst_port ∷ [];
        kwargs =
            ("duration", duration)
            ∷ ("udp", udp)
            ∷ ("bandwidth", bandwidth)
            ∷ ("args", args)
            ∷ ("iperf_bin", iperf_bin)
            ∷ [];
      }
  iperf_manager (IperfManager.stop_iperf_client job_id) = record {
    app = "iperf";
    method = "stop_iperf_client";
    args = job_id ∷ [];
    kwargs = [];
  }
  iperf_manager IperfManager.get_server_ports = record {
    app = "iperf";
    method = "get_server_ports";
    args = [];
    kwargs = [];
  }
  iperf_manager IperfManager.get_client_jobs = record {
    app = "iperf";
    method = "get_client_jobs";
    args = [];
    kwargs = [];
  }
  iperf_manager (IperfManager.get_client_job_info job_id) = record {
    app = "iperf";
    method = "get_client_job_info";
    args = job_id ∷ [];
    kwargs = [];
  }
  iperf_manager (IperfManager.is_running port) = record {
    app = "iperf";
    method = "is_running";
    args = port ∷ [];
    kwargs = [];
  }
