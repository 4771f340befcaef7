-- ===== src/Apps/Records/Elastic.antt =====
-- The recorder of LYDIAN/lydian/recorder/es_client.py.
use distributed_apps_platfor.Base.{
  String, true, false, [], ◌∷◌, Option, none, some, Dict, Value, bool, int, text, ℤ, pos, truthy,
  Result, ok, err, if◌then◌else◌, string_eq, ◌&&◌,
}
use distributed_apps_platfor.Base.Exec.{Exec, lift, skip, ◌>>=◌, ◌>>◌}
use distributed_apps_platfor.Apps.Records.{
  Conf, Params, subscribed, get_config, set_config, Stamped,
}

-- The elasticsearch package with clients `C`, on a state `S` of the service.
pub record Elasticsearch (C S : Type 0) : Type 0 where
  -- `Elasticsearch(host=host, port=port)`
  pub new_client : Value → ℤ → Result C
  -- `index(index=, id=, body=)`
  pub index : C → Value → String → Dict String Value → Exec S (Unit {0})
  pub close : C → Exec S (Unit {0})

module _ {C S : Type 0} (es : Elasticsearch C S) where
  -- `_get_es_sender`, where `to_int` is `int(v)`: whatever raises, the client is None
  unfoldable pub get_es_sender : (Value → Result ℤ) → Conf → Option C
  get_es_sender to_int conf = elim (to_int (conf "ELASTIC_SEARCH_SERVER_PORT")) [
    | err e ↦ none
    | ok port ↦
        if truthy (conf "ELASTIC_SEARCH_SERVER_ADDRESS") && truthy (int port)
        then elim (es.new_client (conf "ELASTIC_SEARCH_SERVER_ADDRESS") port) [
          | err e ↦ none
          | ok c ↦ some c
        ]
        else none
  ]

  pub record Recorder : Type 0 where
    pub enable_param : String
    pub config_params : Params
    pub client : Option C
    pub index : Value
    pub testbed : Value
    pub testid : String

  -- `ElasticSearchRecorder.__init__`
  unfoldable pub new_recorder : (Value → Result ℤ) → (Value → String) → String → Conf → Recorder
  new_recorder to_int str enable_param conf =
      let params = subscribed conf (enable_param ∷ []) in
      let client = get_es_sender to_int conf in
      record {
        enable_param = enable_param;
        config_params = elim client [
          | some c ↦ params
          | none ↦ set_config enable_param (bool false) params
        ];
        client = client;
        index = conf "ELASTIC_SEARCH_SERVER_INDEX";
        testbed = conf "TESTBED_NAME";
        testid = str (conf "TEST_ID");
      }

  -- `send`: what the call raises is logged; None has no `index`
  unfoldable pub send : Recorder → String → Dict String Value → Exec S (Unit {0})
  send r id body s = elim (r.client) [
    | none ↦ (ok tt, s)
    | some c ↦ let (_, s') = es.index c r.index id body s in (ok tt, s')
  ]

  -- the two bodies, with the time of each
  abbrev pub result_body : Conf → Recorder → String → Stamped → Dict String Value
  result_body conf r now rec =
      ("datacenter", r.testbed)
      ∷ ("test_id", text r.testid)
      ∷ ("type", text "record")
      ∷ ("timestamp", Value.real now)
      ∷ ("origin", rec.record_of.source)
      ∷ ("destination", rec.record_of.destination)
      ∷ ("port", rec.record_of.port)
      ∷ ("protocol", rec.record_of.protocol)
      ∷ ("connected", text (if rec.record_of.expected then "true" else "false"))
      ∷ ("created", int (pos rec.timestamp))
      ∷ (
        "source",
        (let tag = conf "ELASTIC_SEARCH_SOURCE_TAG" in if truthy tag then tag else r.testbed),
      )
      ∷ ("ns_name", conf "LYDIAN_ES_NS_NAME")
      ∷ ("result", int (if rec.record_of.result then pos 1 else pos 0))
      ∷ []

  abbrev pub latency_body : Conf → Recorder → String → Stamped → Dict String Value
  latency_body conf r now rec =
      ("datacenter", r.testbed)
      ∷ ("test_id", text r.testid)
      ∷ ("type", text "latency")
      ∷ ("timestamp", Value.real now)
      ∷ ("origin", rec.record_of.source)
      ∷ ("destination", rec.record_of.destination)
      ∷ ("port", rec.record_of.port)
      ∷ ("protocol", rec.record_of.protocol)
      ∷ ("connected", text (if rec.record_of.expected then "true" else "false"))
      ∷ ("created", int (pos rec.timestamp))
      ∷ ("result", rec.record_of.latency)
      ∷ ("ns_name", conf "LYDIAN_ES_NS_NAME")
      ∷ (
        "source",
        (let tag = conf "ELASTIC_SEARCH_SOURCE_TAG" in if truthy tag then tag else r.testbed),
      )
      ∷ []

  -- The ids and the times of the two bodies.
  pub record Fresh : Type 0 where
    pub result_id : String
    pub result_time : String
    pub latency_id : String
    pub latency_time : String

  -- `ElasticSearchTrafficRecorder.write`
  unfoldable pub write : Conf → Fresh → Recorder → Stamped → Exec S (Unit {0})
  write conf fresh r rec = do
    on ← lift (get_config r.enable_param r.config_params)
    elim (truthy on) [
      | false ↦ skip
      | true ↦ (do
        send r fresh.result_id (result_body conf r fresh.result_time rec)
        send r fresh.latency_id (latency_body conf r fresh.latency_time rec))
    ]

  unfoldable pub stop : Recorder → Exec S (Unit {0})
  stop r = elim (r.client) [ none ↦ skip | some c ↦ es.close c ]
