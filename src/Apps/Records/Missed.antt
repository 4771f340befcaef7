-- ===== src/Apps/Records/Missed.antt =====
-- What a Wavefront recorder without a client does with the records of a node.
use distributed_apps_platfor.Base.{
  ◌≡◌, refl, ap, String, true, false, List, [], ◌∷◌, none, some, lookup, Value, bool, text, truthy,
  Result, ok, err, attribute_error, string_eq, lookup-insert_self, arith,
}
use distributed_apps_platfor.Base.Exec.{Exec}
use distributed_apps_platfor.Apps.Background.{write_record}
use distributed_apps_platfor.Apps.Records.{
  Conf, Stamped, subscribed, update_config, set_config, get_config,
}
use distributed_apps_platfor.Apps.Records.Wavefront.{
  Sdk, Recorder, get_wf_sender, new_recorder, send, write_traffic,
}

module _ (str : Value → String) {S : Type 0} (sdk : Sdk S) where
  -- a recorder that is off leaves a record alone
  write_traffic-off :
      (conf : Conf) (r : Recorder) (rec : Stamped) (s : S) (v : Value)
      → lookup r.enable_param r.config_params ≡ some v
      → truthy v ≡ false
      → write_traffic str sdk conf r rec s ≡ (ok tt, s)
  unfolding write_traffic get_config
  write_traffic-off conf r rec s v h off = ground (arith, h, off)

  write_traffic-raises :
      (conf : Conf) (r : Recorder) (rec : Stamped) (s : S) (v : Value) (p : String)
      → lookup r.enable_param r.config_params ≡ some v
      → truthy v ≡ true
      → r.client ≡ none
      → rec.record_of.protocol ≡ text p
      → write_traffic str sdk conf r rec s ≡ (err attribute_error, s)
  unfolding write_traffic get_config send
  write_traffic-raises conf r rec s v p h on c q = ground (arith, h, on, c, q)

  new_recorder-none :
      (enable_param node : String) (conf : Conf)
      → get_wf_sender conf ≡ none
      → let r = new_recorder str enable_param node conf in
        (r.client ≡ none) × (lookup enable_param r.config_params ≡ some (bool false))
  unfolding new_recorder set_config
  new_recorder-none enable_param node conf h = (
    h,
    rw (h, new_recorder)
        (lookup-insert_self enable_param (bool false) (subscribed conf (enable_param ∷ []))),
  )

  write_record-past :
      {R : Type 0} (recorder : R → Exec S (Unit {0})) (others : List (R → Exec S (Unit {0})))
      (rec : R) (s : S)
      → (recorder rec s ≡ (ok tt, s)
          → write_record (recorder ∷ others) rec s ≡ write_record others rec s)
        × (recorder rec s ≡ (err attribute_error, s) → write_record (recorder ∷ others) rec s ≡ s)
  unfolding write_record
  write_record-past recorder others rec s = (ap go, ap go)
    where
      go : Result (Unit {0}) × S → S
      go p = elim p.0 [ ok _ ↦ write_record others rec p.1 | err e ↦ p.1 ]

  -- Where no address of Wavefront is configured when a node starts, its recorder passes every record on to
  -- the recorders after it; once the parameter of the recording is set at runtime, the recorder raises on each record
  -- with a protocol, and the recorders after it get none of them.
  pub write_record-missed :
      (others : List (Stamped → Exec S (Unit {0}))) (enable_param node p : String)
      (conf conf' : Conf) (rec : Stamped) (s : S)
      → get_wf_sender conf ≡ none
      → truthy (conf' enable_param) ≡ true
      → rec.record_of.protocol ≡ text p
      → let r = new_recorder str enable_param node conf in
        let r' = record r { config_params = update_config conf' enable_param r.config_params } in
        (write_record (write_traffic str sdk conf' r ∷ others) rec s ≡ write_record others rec s)
        × (write_record (write_traffic str sdk conf' r' ∷ others) rec s ≡ s)
  unfolding update_config new_recorder
  write_record-missed others enable_param node p conf conf' rec s h on q =
      let r = new_recorder str enable_param node conf in
      let (none_there, off) = new_recorder-none enable_param node conf h in
      (
        (write_record-past _ others rec s).0
            (write_traffic-off conf' r rec s (bool false) off refl),
        (write_record-past _ others rec s).1 (
            write_traffic-raises conf'
              (record r { config_params = update_config conf' enable_param r.config_params }) rec s
              (conf' enable_param) p
              (lookup-insert_self enable_param (conf' enable_param) r.config_params) on none_there
              q),
      )
