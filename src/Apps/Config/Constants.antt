-- ===== src/Apps/Config/Constants.antt =====
-- The constants of LYDIAN/lydian/common/consts.py, with what the environment sets.
pub mod Numbers
use distributed_apps_platfor.Base.{
  ◌≡◌, ◌∙◌, refl, ℕ, String, Bool, true, false, ◌&&◌, ◌||◌, List, [], ◌∷◌, Option, none, some, Dict,
  ℤ, pos, Result, ok, err, value_error, ◌>>=◌, if◌then◌else◌, ◌==◌, string_eq, arith,
}
use distributed_apps_platfor.Apps.Config.{Param, nothing, bool, int, str, list}
use distributed_apps_platfor.Apps.Config.Start.{Categories}

-- `platform.system()`, `os.environ.get`, `socket.gethostname()`, and `int` of a text, none where it raises
pub record Platform : Type 0 where
  pub system : String
  pub environ : String → Option String
  pub hostname : String
  pub to_int : String → Option ℤ

module _ (p : Platform) where
  abbrev linux_os : Bool
  linux_os = p.system == "Linux"

  abbrev mac_os : Bool
  mac_os = p.system == "Darwin"

  abbrev win_os : Bool
  win_os = p.system == "Windows"

  -- `os.environ.get(key, default)`
  unfoldable pub env : String → Param → Param
  env key default = elim (p.environ key) [ none ↦ default | some s ↦ str s ]

  -- `int(os.environ.get(key, n))`
  unfoldable pub env_int : String → ℕ → Result Param
  env_int key n = elim (p.environ key) [
    | none ↦ ok (int (pos n))
    | some s ↦ elim (p.to_int s) [ none ↦ err value_error | some z ↦ ok (int z) ]
  ]

  -- `SystemConstants`
  unfoldable pub system_constants : Result (Dict String Param)
  system_constants = do
    threads ← env_int "NODE_PREP_MAX_THREAD" 32
    wait ← env_int "LYDIAN_SERVICE_WAIT_TIME" 4
    ok (
        ("_NAME", str "System")
        ∷ ("SYSTEM", str p.system)
        ∷ ("LINUX_OS", bool linux_os)
        ∷ ("MAC_OS", bool mac_os)
        ∷ ("WIN_OS", bool win_os)
        ∷ ("NODE_PREP_MAX_THREAD", threads)
        ∷ ("LYDIAN_SERVICE_WAIT_TIME", wait)
        ∷ ("THREADS_JOIN_TIMEOUT", int (pos 5))
        ∷ ("DEFAULT_CONCURRENCY", int (pos 32))
        ∷ [])

  -- `LYDIAN_LOG_DIR`, which is set twice
  abbrev or_else : Param → Param → Param
  or_else nothing other = other
  or_else (str s) other = if s == "" then other else str s
  or_else v other = v

  abbrev log_dir : Param
  log_dir =
      or_else (if linux_os || mac_os then env "LINUX_LOG_DIR" (str "/var/log/lydian") else nothing)
        (if win_os then env "WIN_LOG_DIR" (str "C:\\lydian\\log") else str "./")

  -- `LoggingConstants`
  unfoldable pub logging_constants : Dict String Param
  logging_constants =
      ("_NAME", str "Logging")
      ∷ ("LINUX_LOG_DIR", env "LINUX_LOG_DIR" (str "/var/log/lydian"))
      ∷ ("WIN_LOG_DIR", env "WIN_LOG_DIR" (str "C:\\lydian\\log"))
      ∷ ("LYDIAN_LOG_DIR", log_dir)
      ∷ ("LYDIAN_LOG_FILE", str "lydian.log")
      ∷ ("PARAMIKO_LOG_LEVEL", env "PARAMIKO_LOG_LEVEL" (str "ERROR"))
      ∷ ("RPYC_LOG_LEVEL", env "RPYC_LOG_LEVEL" (str "INFO"))
      ∷ []

  -- `LydianServiceConstants`
  unfoldable pub service_constants : Result (Dict String Param)
  service_constants = do
    port ← env_int "LYDIAN_PORT" 5649
    ok (
        ("_NAME", str "Lydian Service")
        ∷ ("LYDIAN_PORT", port)
        ∷ ("LYDIAN_CONFIG", env "LYDIAN_CONFIG" (str "/etc/lydian/lydian.conf"))
        ∷ ("LYDIAN_EGG_PATH", env "LYDIAN_EGG_PATH" (str ""))
        ∷ ("LYDIAN_HOSTPREP_CONFIG", env "LYDIAN_HOSTPREP_CONFIG" (str ""))
        ∷ [])

  -- `Sqlite3Constants`
  unfoldable pub sqlite3_constants : Result (Dict String Param)
  sqlite3_constants = do
    timeout ← env_int "SQLITE3_CONNECTION_TIMEOUT" 20
    ok (("_NAME", str "SQLITE3 Constants") ∷ ("SQLITE3_CONNECTION_TIMEOUT", timeout) ∷ [])

  -- `TestbedConstants`
  unfoldable pub testbed_constants : Dict String Param
  testbed_constants =
      ("_NAME", str "Testbed")
      ∷ ("TEST_ID", env "TEST_ID" (str "1234"))
      ∷ ("TESTBED_NAME", env "TESTBED_NAME" (str p.hostname))
      ∷ ("ENDPOINT_USERNAME", env "ENDPOINT_USERNAME" (str "root"))
      ∷ ("ENDPOINT_PASSWORD", env "ENDPOINT_PASSWORD" (str "FAKE_PASSWORD"))
      ∷ ("LYDIAN_NTP_SERVER", env "LYDIAN_NTP_SERVER" nothing)
      ∷ ("LYDIAN_EGG_TYPE", env "LYDIAN_EGG_TYPE" (str "LOCAL"))
      ∷ []

  -- `NamespaceConstants`
  unfoldable pub namespace_constants : Dict String Param
  namespace_constants =
      ("_NAME", str "Namespace")
      ∷ ("NAMESPACE_DIR", str "/var/run/netns")
      ∷ ("NAMESPACE_INTERFACE_NAME_PREFIXES", list ("veth" ∷ "eth" ∷ "vmk" ∷ []))
      ∷ []

  -- `TrafficConstants`
  unfoldable pub traffic_constants : Result (Dict String Param)
  traffic_constants = do
    latency ← env_int "TRAFFIC_STATS_QUERY_LATENCY" 15
    ok (
        ("_NAME", str "Traffic")
        ∷ ("TRAFFIC_START_SERVERS_FIRST", env "TRAFFIC_START_SERVERS_FIRST" (bool true))
        ∷ ("TRAFFIC_STATS_QUERY_LATENCY", latency)
        ∷ [])

  -- `RecorderConstants`
  unfoldable pub recorder_constants : Result (Dict String Param)
  recorder_constants = do
    threads ← env_int "RECORD_UPDATER_THREAD_POOL_SIZE" 2
    resource ← env_int "RESOURCE_RECORD_REPORT_FREQ" 4
    traffic ← env_int "TRAFFIC_RECORD_REPORT_FREQ" 4
    ok (
        ("_NAME", str "Data Recording")
        ∷ ("WAVEFRONT_TRAFFIC_RECORDING", env "WAVEFRONT_TRAFFIC_RECORDING" (bool true))
        ∷ ("WAVEFRONT_RESOURCE_RECORDING", env "WAVEFRONT_RESOURCE_RECORDING" (bool true))
        ∷ ("ELASTICSEARCH_TRAFFIC_RECORDING", env "ELASTICSEARCH_TRAFFIC_RECORDING" (bool true))
        ∷ ("SQLITE_TRAFFIC_RECORDING", env "SQLITE_TRAFFIC_RECORDING" (bool true))
        ∷ ("SQLITE_RESOURCE_RECORDING", env "SQLITE_RESOURCE_RECORDING" (bool true))
        ∷ ("RECORD_UPDATER_THREAD_POOL_SIZE", threads)
        ∷ ("RESOURCE_RECORD_REPORT_FREQ", resource)
        ∷ ("TRAFFIC_RECORD_REPORT_FREQ", traffic)
        ∷ [])

  -- `WavefrontConstants`; the source tag is the variable WAVEFRONT_SOURCE
  unfoldable pub wavefront_constants : Result (Dict String Param)
  wavefront_constants = do
    metrics ← env_int "WAVEFRONT_PROXY_METRICS_PORT" 2878
    distribution ← env_int "WAVEFRONT_PROXY_DISTRIBUTION_PORT" 2878
    tracing ← env_int "WAVEFRONT_PROXY_TRACING_PORT" 30000
    ok (
        ("_NAME", str "Wavefront")
        ∷ ("WAVEFRONT_SERVER_ADDRESS", env "WAVEFRONT_SERVER_ADDRESS" (str ""))
        ∷ ("WAVEFRONT_SERVER_API_TOKEN", env "WAVEFRONT_SERVER_API_TOKEN" (str ""))
        ∷ ("WAVEFRONT_SOURCE_TAG", env "WAVEFRONT_SOURCE" (str ""))
        ∷ ("WAVEFRONT_PROXY_ADDRESS", env "WAVEFRONT_PROXY_ADDRESS" (str ""))
        ∷ ("WAVEFRONT_PROXY_METRICS_PORT", metrics)
        ∷ ("WAVEFRONT_PROXY_DISTRIBUTION_PORT", distribution)
        ∷ ("WAVEFRONT_PROXY_TRACING_PORT", tracing)
        ∷ ("WAVEFRONT_USE_UNIQUE_METRIC", env "WAVEFRONT_USE_UNIQUE_METRIC" (bool false))
        ∷ [])

  -- `ELSConstants`; the source tag is the variable ELASTIC_SEARCH_SOURCE
  unfoldable pub els_constants : Result (Dict String Param)
  els_constants = do
    port ← env_int "ELASTIC_SEARCH_SERVER_PORT" 9200
    ok (
        ("_NAME", str "Elastic Search")
        ∷ ("ELASTIC_SEARCH_SERVER_ADDRESS", env "ELASTIC_SEARCH_SERVER_ADDRESS" (str ""))
        ∷ ("ELASTIC_SEARCH_SERVER_PORT", port)
        ∷ ("ELASTIC_SEARCH_SERVER_INDEX", env "ELASTIC_SEARCH_SERVER_INDEX" (str ""))
        ∷ ("ELASTIC_SEARCH_SOURCE_TAG", env "ELASTIC_SEARCH_SOURCE" (str ""))
        ∷ ("LYDIAN_ES_NS_NAME", env "LYDIAN_ES_NS_NAME" (str ""))
        ∷ [])

  -- `get_categories`, with the classes as the module makes them
  unfoldable pub get_categories : Result Categories
  get_categories = do
    system ← system_constants
    service ← service_constants
    sqlite3 ← sqlite3_constants
    traffic ← traffic_constants
    recorder ← recorder_constants
    wavefront ← wavefront_constants
    els ← els_constants
    ok (
        system ∷ sqlite3 ∷ logging_constants ∷ service ∷ testbed_constants ∷ namespace_constants
        ∷ traffic ∷ recorder ∷ wavefront ∷ els ∷ [])
