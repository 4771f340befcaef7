-- ===== src/Apps/Background.antt =====
-- The switches of the threads that run beside the service: `BackgroundMixin` of
-- LYDIAN/lydian/common/background.py, and the record handlers of LYDIAN/lydian/apps/recorder.py.
use distributed_apps_platfor.Base.{
  ◌≡◌, refl, ℕ, suc, Bool, true, false, List, [], ◌∷◌, ◌++◌, Option, none, some, Result, ok, err,
  attribute_error, if◌then◌else◌, append_assoc, append-nil, sym, ap, ◌∙◌,
}

-- `_stop_switch` and the thread: the number of the thread that runs, and how many were started
pub record Background : Type 0 where
  pub stop_switch : Bool
  pub task_thread : Option ℕ
  pub started : ℕ

abbrev pub fresh : Background
fresh = record { stop_switch = true; task_thread = none; started = 0 }

unfoldable pub on : Background → Bool × Background
on b =
    if b.stop_switch
    then (
      true,
      record { stop_switch = false; task_thread = some b.started; started = suc b.started },
    )
    else (false, b)

-- `self._task_thread.join()` of no thread raises
unfoldable pub off : Background → Result Bool × Background
off b = if b.stop_switch then (ok false, b) else elim (b.task_thread) [
  | none ↦ (err attribute_error, record b { stop_switch = true })
  | some t ↦ (ok true, record b { stop_switch = true; task_thread = none })
]

-- The switch is set exactly while there is no thread.
pub data IsSwitched : Background → Type 0 where
  at_rest : (n : ℕ) → IsSwitched (record { stop_switch = true; task_thread = none; started = n })
  at_work :
      (t n : ℕ) → IsSwitched (record { stop_switch = false; task_thread = some t; started = n })

-- Where the switch is set exactly while there is no thread, this stays so over `on` and `off`, `off` does not
-- raise, and `on` starts a thread exactly if there was none: a second `on` starts no second thread.
pub on-off :
    (b : Background)
    → IsSwitched b
    → let (went_on, b') = on b in
      let (went_off, b'') = off b in
      IsSwitched b'
      × IsSwitched b''
      × (went_on ≡ b.stop_switch)
      × (went_off ≡ ok (if b.stop_switch then false else true))
      × ((on b').1 ≡ b')
unfolding on off
on-off b (at_rest n) = (at_work n (suc n), at_rest n, refl, refl, refl)
on-off b (at_work t n) = (at_work t n, at_rest n, refl, refl, refl)

module _ {R S : Type 0} where
  -- `for recorder in recorders: recorder.write(record)`; what a recorder raises ends the round and
  -- is logged, so that the recorders after it miss the record
  unfoldable pub write_record : List (R → S → Result (Unit {0}) × S) → R → S → S
  write_record [] t_record s = s
  write_record (recorder ∷ recorders) t_record s =
      let (r, s') = recorder t_record s in
      elim r [ ok _ ↦ write_record recorders t_record s' | err e ↦ s' ]

  -- `_traffic_record_handler`, on what `get` gives round by round until the stop: a record, or
  -- nothing where it times out
  unfoldable pub handle_records : List (R → S → Result (Unit {0}) × S) → List (Option R) → S → S
  handle_records recorders [] s = s
  handle_records recorders (none ∷ rounds) s = handle_records recorders rounds s
  handle_records recorders (some t_record ∷ rounds) s =
      handle_records recorders rounds (write_record recorders t_record s)

-- A recorder that keeps what it is given, in order, in front of the state of the others.
abbrev pub keeper : {R T : Type 0} → R → List R × T → Result (Unit {0}) × (List R × T)
keeper r p = (ok tt, (p.0 ++ r ∷ [], p.1))

-- the records among the rounds
abbrev pub taken : {R : Type 0} → List (Option R) → List R
taken [] = []
taken (none ∷ rounds) = taken rounds
taken (some r ∷ rounds) = r ∷ taken rounds

-- A recorder that never raises, in front of others that leave its records alone, is given every record of the
-- queue once and in order, whatever the others raise.
pub handle_records-first :
    {R T : Type 0} (others : List (R → List R × T → Result (Unit {0}) × (List R × T)))
    (rounds : List (Option R)) (p : List R × T)
    → ((r : R) (q : List R × T) → (write_record others r q).0 ≡ q.0)
    → (handle_records (keeper ∷ others) rounds p).0 ≡ p.0 ++ taken rounds
unfolding handle_records write_record
handle_records-first others [] p h = sym (append-nil p.0)
handle_records-first others (none ∷ rounds) p h = handle_records-first others rounds p h
handle_records-first others (some r ∷ rounds) p h =
    handle_records-first others rounds (write_record others r (p.0 ++ r ∷ [], p.1)) h
    ∙ ap (λ x. x ++ taken rounds) (h r (p.0 ++ r ∷ [], p.1))
    ∙ append_assoc p.0 (r ∷ []) (taken rounds)
