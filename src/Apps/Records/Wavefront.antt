-- ===== src/Apps/Records/Wavefront.antt =====
-- The recorders of LYDIAN/lydian/recorder/wf_client.py.
use Prim.Native.String.{◌++◌}
use distributed_apps_platfor.Base.{
  ℕ, String, Bool, true, false, [], ◌∷◌, Option, none, some, Dict, Value, bool, int, text, pos,
  truthy, Result, ok, err, type_error, attribute_error, if◌then◌else◌, string_eq, ◌&&◌,
}
use distributed_apps_platfor.Base.Exec.{Exec, lift, raise, skip, for_each, ◌>>=◌, ◌>>◌}
use distributed_apps_platfor.Apps.Monitor.{ResourceRecord}
use distributed_apps_platfor.Apps.Records.{
  Conf, Params, subscribed, get_config, set_config, Stamped,
}

-- A client of the wavefront_sdk package, by what it was made with.
pub data Client : Type 0 where
  proxy : Value → Value → Value → Value → Client
  direct : Value → Value → Client

-- What `send_metric` is called with.
pub record Metric : Type 0 where
  pub name : String
  pub value : Value
  pub timestamp : ℕ
  pub source : Value
  pub tags : Dict String Value

-- The package, on a state `S` of the service that it talks to.
pub record Sdk (S : Type 0) : Type 0 where
  pub send_metric : Client → Metric → Exec S (Unit {0})
  pub flush_now : Client → Exec S (Unit {0})
  pub close : Client → Exec S (Unit {0})

-- `_get_wf_proxy_send`
unfoldable pub get_wf_proxy_send : Conf → Option Client
get_wf_proxy_send conf =
    if truthy (conf "WAVEFRONT_PROXY_ADDRESS")
    then some (
        proxy (conf "WAVEFRONT_PROXY_ADDRESS") (conf "WAVEFRONT_PROXY_METRICS_PORT")
          (conf "WAVEFRONT_PROXY_DISTRIBUTION_PORT") (conf "WAVEFRONT_PROXY_TRACING_PORT"))
    else none

-- `_get_wf_sender`
unfoldable pub get_wf_sender : Conf → Option Client
unfolding get_wf_proxy_send
get_wf_sender conf = elim (get_wf_proxy_send conf) [
  | some c ↦ some c
  | none ↦
      if truthy (conf "WAVEFRONT_SERVER_ADDRESS") && truthy (conf "WAVEFRONT_SERVER_API_TOKEN")
      then some (direct (conf "WAVEFRONT_SERVER_ADDRESS") (conf "WAVEFRONT_SERVER_API_TOKEN"))
      else none
]

pub record Recorder : Type 0 where
  pub enable_param : String
  pub config_params : Params
  pub client : Option Client
  pub testbed : Value
  pub testid : String
  pub node : String

-- `str(v)`, and `s + v` for a text `s`
module _ (str : Value → String) where
  -- `WavefrontRecorder.__init__`, on the host's name
  unfoldable pub new_recorder : String → String → Conf → Recorder
  new_recorder enable_param node conf =
      let params = subscribed conf (enable_param ∷ []) in
      let client = get_wf_sender conf in
      record {
        enable_param = enable_param;
        config_params = elim client [
          | some c ↦ params
          | none ↦ set_config enable_param (bool false) params
        ];
        client = client;
        testbed = conf "TESTBED_NAME";
        testid = str (conf "TEST_ID");
        node = node;
      }

  -- `prefix`, for the kind of metrics of a recorder
  unfoldable pub prefix : String → Conf → Recorder → String
  prefix kind conf r =
      if truthy (conf "WAVEFRONT_USE_UNIQUE_METRIC")
      then kind ++ str r.testbed ++ "." ++ r.testid ++ "."
      else kind

  abbrev pub source_tag : Conf → Recorder → Value
  source_tag conf r = let tag = conf "WAVEFRONT_SOURCE_TAG" in if truthy tag then tag else r.testbed

  module _ {S : Type 0} (sdk : Sdk S) where
    -- `self._client.send_metric(...)`; None has no such method
    unfoldable pub send : Recorder → Metric → Exec S (Unit {0})
    send r m = elim (r.client) [ none ↦ raise attribute_error | some c ↦ sdk.send_metric c m ]

    abbrev pub enabled : Recorder → Result Bool
    enabled r = elim (get_config r.enable_param r.config_params) [
      | err e ↦ err e
      | ok v ↦ ok (truthy v)
    ]

    abbrev pub traffic_tags : Recorder → Stamped → Dict String Value
    traffic_tags r rec =
        ("datacenter", r.testbed)
        ∷ ("test_id", text r.testid)
        ∷ ("reqid", rec.record_of.reqid)
        ∷ ("ruleid", rec.record_of.ruleid)
        ∷ ("origin", rec.record_of.source)
        ∷ ("destination", rec.record_of.destination)
        ∷ ("node", text r.node)
        ∷ []

    abbrev pub traffic_metric : Conf → Recorder → Stamped → String → Value → Metric
    traffic_metric conf r rec name value = record {
      name = name;
      value = value;
      timestamp = rec.timestamp;
      source = source_tag conf r;
      tags = traffic_tags r rec;
    }

    -- `self.prefix + record.protocol`
    abbrev pub metric_prefix : Conf → Recorder → Stamped → Result String
    metric_prefix conf r rec = elim (rec.record_of.protocol) [
      | text p ↦ ok (prefix "lydian.traffic." conf r ++ p)
      | _ ↦ err type_error
    ]

    -- `WavefrontTrafficRecorder.write`
    unfoldable pub write_traffic : Conf → Recorder → Stamped → Exec S (Unit {0})
    write_traffic conf r rec = do
      on ← lift (enabled r)
      elim on [
        | false ↦ skip
        | true ↦ (do
          name ← lift (metric_prefix conf r rec)
          send r (
              traffic_metric conf r rec (name ++ ".result")
                (int (if rec.record_of.result then pos 1 else pos 0)))
          send r (traffic_metric conf r rec (name ++ ".latency") rec.record_of.latency))
      ]

    -- `as_dict()` of a record of resources, without `_id` and `_timestamp`, where `real` and `count` are the
    -- values of its floats and counts
    abbrev pub figures : (String → Value) → (ℕ → Value) → ResourceRecord → Dict String Value
    figures real count rec =
        ("syscpu", real rec.syscpu)
        ∷ ("sysmem", real rec.sysmem)
        ∷ ("sysconns", count rec.sysconns)
        ∷ ("lydiancpu", real rec.lydiancpu)
        ∷ ("lydianmem", real rec.lydianmem)
        ∷ ("lydianconns", count rec.lydianconns)
        ∷ []

    abbrev pub resource_tags : Recorder → Dict String Value
    resource_tags r =
        ("datacenter", r.testbed) ∷ ("node", text r.node) ∷ ("test_id", text r.testid) ∷ []

    -- `WavefrontResourceRecorder.write`
    unfoldable pub write_resource : Conf → Recorder → ℕ → ResourceRecord → Exec S (Unit {0})
    write_resource conf r timestamp rec = do
      on ← lift (enabled r)
      elim on [
        | false ↦ skip
        | true ↦ for_each (figures Value.real (λ n. int (pos n)) rec) (λ (f : String × Value).
            send r (record {
              name = prefix "lydian.resources." conf r ++ f.0;
              value = f.1;
              timestamp = timestamp;
              source = source_tag conf r;
              tags = resource_tags r;
            }))
      ]

    -- `stop`: only a direct client is flushed
    unfoldable pub stop : Recorder → Exec S (Unit {0})
    stop r = elim (r.client) [
      | none ↦ skip
      | some c ↦ elim c [
        | direct server token ↦ (do
          sdk.flush_now (direct server token)
          sdk.close (direct server token))
        | proxy host metrics distribution tracing ↦
            sdk.close (proxy host metrics distribution tracing)
      ]
    ]
