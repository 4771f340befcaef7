-- ===== src/Remote/Service/Methods.antt =====
-- The methods of the apps that `LydianService` exposes, of LYDIAN/lydian/apps.
use distributed_apps_platfor.Base.{String, true, [], ◌∷◌, ◌++◌, Dict, string_eq}
use distributed_apps_platfor.Remote.Service.{
  need, have, Signature, takes, takes_more, Attribute, callable, exposify,
}

-- `Console` of console.py and `BackgroundMixin` of LYDIAN/lydian/common/background.py
abbrev pub console : Dict String Attribute
console =
    ("run_command", callable (takes (need "cmnd" ∷ have "env" ∷ have "cwd" ∷ have "timeout" ∷ [])))
    ∷ []

abbrev pub background : Dict String Attribute
background = ("on", callable (takes [])) ∷ ("off", callable (takes [])) ∷ []

-- `exposed_get_param` and `exposed_set_param` are set in the class itself
abbrev configs : Dict String Signature
configs =
    ("exposed_get_param", takes (need "param" ∷ have "default" ∷ []))
    ∷ ("exposed_set_param", takes (need "param" ∷ need "val" ∷ have "write_to_db" ∷ []))
    ∷ []

abbrev pub controller : Dict String Attribute
controller =
    ("discover_interfaces", callable (takes []))
    ∷ ("register_traffic", callable (takes (have "traffic_rules" ∷ [])))
    ∷ ("register_rule", callable (takes (need "trule" ∷ [])))
    ∷ ("start", callable (takes (need "rules" ∷ [])))
    ∷ ("stop", callable (takes (need "rules" ∷ have "blocking" ∷ [])))
    ∷ ("unregister_traffic", callable (takes (need "rules" ∷ [])))
    ∷ ("close", callable (takes []))
    ∷ []

abbrev pub hostinfo : Dict String Attribute
hostinfo =
    ("hostname", callable (takes []))
    ∷ ("mgmt_ifname", callable (takes []))
    ∷ ("mgmt_ip", callable (takes []))
    ∷ ("host_type", callable (takes []))
    ∷ ("iface_info", callable (takes (need "ifname" ∷ [])))
    ∷ ("interfaces", callable (takes []))
    ∷ []

abbrev pub interface : Dict String Attribute
interface =
    ("list_interfaces", callable (takes []))
    ∷ ("get_interface", callable (takes (need "name" ∷ have "ip" ∷ [])))
    ∷ ("get_all_ips", callable (takes []))
    ∷ ("get_ips_by_interface", callable (takes (need "interface" ∷ [])))
    ∷ ("get_interface_ips_map", callable (takes []))
    ∷ []

abbrev pub iperf : Dict String Attribute
iperf =
    ("start_iperf_server", callable (takes (have "port" ∷ have "args" ∷ have "iperf_bin" ∷ [])))
    ∷ ("get_server_ports", callable (takes []))
    ∷ ("stop_iperf_server", callable (takes (need "port" ∷ [])))
    ∷ ("stop_iperf_client", callable (takes (need "job_id" ∷ [])))
    ∷ (
      "start_iperf_client",
      callable (
          takes (
            need "dst_ip"
            ∷ need "dst_port"
            ∷ have "duration"
            ∷ have "udp"
            ∷ have "bandwidth"
            ∷ have "args"
            ∷ have "iperf_bin"
            ∷ [])),
    )
    ∷ ("get_client_jobs", callable (takes []))
    ∷ ("get_client_job_info", callable (takes (need "job_id" ∷ [])))
    ∷ ("stop", callable (takes []))
    ∷ ("is_running", callable (takes (need "port" ∷ [])))
    ∷ console

abbrev pub lynis : Dict String Attribute
lynis =
    ("is_running", callable (takes []))
    ∷ ("start_scan", callable (takes (have "reqid" ∷ [])))
    ∷ ("is_scan_complete", callable (takes (need "reqid" ∷ [])))
    ∷ ("stop_scan", callable (takes (need "reqid" ∷ [])))
    ∷ ("run", callable (takes []))
    ∷ ("get_result", callable (takes (need "reqid" ∷ [])))
    ∷ (console ++ background)

abbrev pub monitor : Dict String Attribute
monitor =
    ("stopped", callable (takes []))
    ∷ ("is_running", callable (takes []))
    ∷ ("stop", callable (takes []))
    ∷ ("start", callable (takes []))
    ∷ []

abbrev pub namespace : Dict String Attribute
namespace =
    ("list_namespaces", callable (takes []))
    ∷ ("get_namespace", callable (takes (need "namespace" ∷ [])))
    ∷ ("list_namespaces_ips", callable (takes []))
    ∷ ("discover_namespaces", callable (takes []))
    ∷ []

abbrev pub rapidscan : Dict String Attribute
rapidscan =
    (
      "start_run",
      callable
          (record { params = []; keywords = have "reqid" ∷ []; star = true; star_star = true }),
    )
    ∷ ("is_running", callable (takes []))
    ∷ ("show_running_processes", callable (takes []))
    ∷ ("is_run_complete", callable (takes (need "reqid" ∷ [])))
    ∷ ("stop_run", callable (takes (need "reqid" ∷ [])))
    ∷ ("get_result", callable (takes_more (need "reqid" ∷ [])))
    ∷ ("save_results_to_db", callable (takes (need "reqid" ∷ [])))
    ∷ console

abbrev pub results : Dict String Attribute
results =
    ("traffic", callable (takes_more (need "reqid" ∷ [])))
    ∷ ("traffic_records_count", callable (takes_more []))
    ∷ ("get_latency_stat", callable (takes_more (need "reqid" ∷ need "method" ∷ [])))
    ∷ ("get_avg_latency", callable (takes_more (need "reqid" ∷ [])))
    ∷ ("get_min_latency", callable (takes_more (need "reqid" ∷ [])))
    ∷ ("get_max_latency", callable (takes_more (need "reqid" ∷ [])))
    ∷ ("delete_record", callable (takes_more (need "reqid" ∷ [])))
    ∷ []

abbrev pub rules : Dict String Attribute
rules =
    ("get", callable (takes (need "ruleid" ∷ [])))
    ∷ ("add", callable (takes (need "trule" ∷ have "save_to_db" ∷ [])))
    ∷ ("add_rules", callable (takes (need "trules" ∷ [])))
    ∷ ("delete_rules", callable (takes (need "ruleids" ∷ [])))
    ∷ ("load_from_db", callable (takes []))
    ∷ ("save_to_db", callable (takes (need "trules" ∷ [])))
    ∷ ("disable", callable (takes (need "ruleid" ∷ [])))
    ∷ ("enable", callable (takes (need "ruleid" ∷ [])))
    ∷ ("is_enabled", callable (takes (need "ruleid" ∷ [])))
    ∷ ("close", callable (takes []))
    ∷ ("cleanup", callable (takes []))
    ∷ []

abbrev pub tcpdump : Dict String Attribute
tcpdump =
    (
      "start_pcap",
      callable (takes (need "dst_file" ∷ have "interface" ∷ have "args" ∷ have "tool_path" ∷ [])),
    )
    ∷ ("stop_pcap", callable (takes (need "dst_file" ∷ [])))
    ∷ ("is_running", callable (takes (need "dst_file" ∷ [])))
    ∷ ("stop", callable (takes []))
    ∷ console

abbrev pub threatmonitor : Dict String Attribute
threatmonitor =
    ("is_running", callable (takes []))
    ∷ ("get_sudoers", callable (takes []))
    ∷ ("run", callable (takes []))
    ∷ ("start", callable (takes []))
    ∷ ("stop", callable (takes []))
    ∷ (console ++ background)

-- `EXPOSED`, with the apps as `expose` sets them
unfoldable pub exposed : Dict String (Dict String Signature)
exposed =
    ("exposed_configs", configs)
    ∷ ("exposed_controller", exposify controller)
    ∷ ("exposed_hostinfo", exposify hostinfo)
    ∷ ("exposed_interface", exposify interface)
    ∷ ("exposed_iperf", exposify iperf)
    ∷ ("exposed_lynis", exposify lynis)
    ∷ ("exposed_monitor", exposify monitor)
    ∷ ("exposed_namespace", exposify namespace)
    ∷ ("exposed_rapidscan", exposify rapidscan)
    ∷ ("exposed_results", exposify results)
    ∷ ("exposed_rules", exposify rules)
    ∷ ("exposed_tcpdump", exposify tcpdump)
    ∷ ("exposed_threatmonitor", exposify threatmonitor)
    ∷ []
