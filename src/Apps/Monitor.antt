-- ===== src/Apps/Monitor.antt =====
-- `ResourceMonitor` of LYDIAN/lydian/apps/monitor.py: the thread that samples a node, its switch, and
-- the queue of its records.
use distributed_apps_platfor.Base.{
  ◌≡◌, ◌∙◌, refl, ℕ, zero, suc, ◌-◌, String, Bool, true, false, not, ◌&&◌, ◌||◌, List, [], ◌∷◌,
  ◌++◌, Option, none, some, is_some, Result, ok, err, if◌then◌else◌, ltb, length, length-append,
  take, arith, Bool-cases, inl, inr, append_assoc, append-nil, sym,
}
use distributed_apps_platfor.Traffic.Task.{put}

-- What one look at psutil gives: the figures of the system and of this process, as floats and counts.
pub record Figures : Type 0 where
  pub cpu_percent : String
  pub memory_percent : String
  pub connections : ℕ

pub record Sample : Type 0 where
  pub system : Figures
  pub process : Figures

-- the fields of a `ResourceRecord`, of LYDIAN/lydian/recorder/record.py
pub record ResourceRecord : Type 0 where
  pub syscpu : String
  pub sysmem : String
  pub sysconns : ℕ
  pub lydiancpu : String
  pub lydianmem : String
  pub lydianconns : ℕ

-- the record of a sample, where `round2` is `round(x, 2)`
unfoldable pub record_of : (String → String) → Sample → ResourceRecord
record_of round2 s = record {
  syscpu = round2 s.system.cpu_percent;
  sysmem = round2 s.system.memory_percent;
  sysconns = s.system.connections;
  lydiancpu = round2 s.process.cpu_percent;
  lydianmem = round2 s.process.memory_percent;
  lydianconns = s.process.connections;
}

-- `_run`, on what the rounds until the stop sample, with a queue of at most `maxsize` records: a record
-- for which there is no place is dropped, and what psutil raises ends the thread
unfoldable pub run :
    (String → String)
    → ℕ
    → List (Result Sample)
    → List ResourceRecord
    → Result (Unit {0}) × List ResourceRecord
run round2 maxsize [] queue = (ok tt, queue)
run round2 maxsize (err e ∷ rounds) queue = (err e, queue)
run round2 maxsize (ok s ∷ rounds) queue =
    run round2 maxsize rounds (put maxsize (record_of round2 s) queue)

-- The switch, and the thread by a number; `started` counts the threads that were started.
pub record Monitor : Type 0 where
  pub stop_switch : Bool
  pub thread : Option ℕ
  pub started : ℕ

abbrev pub new_monitor : Monitor
new_monitor = record { stop_switch = true; thread = none; started = 0 }

abbrev pub stopped : Monitor → Bool
stopped m = m.stop_switch

-- on whether each thread is alive
unfoldable pub is_running : (ℕ → Bool) → Monitor → Bool
is_running alive m = elim (m.thread) [ none ↦ false | some t ↦ alive t ]

-- `join` returns when the thread has seen the switch
unfoldable pub stop : (ℕ → Bool) → Monitor → Monitor
unfolding is_running
stop alive m =
    if is_running alive m
    then record m { stop_switch = true; thread = none }
    else record m { stop_switch = true }

unfoldable pub start : Monitor → Monitor
start m = elim (m.thread) [
  | none ↦ record { stop_switch = false; thread = some m.started; started = suc m.started }
  | some t ↦ record m { stop_switch = false }
]

-- the records of the rounds before the first that raises
abbrev pub sampled : (String → String) → List (Result Sample) → List ResourceRecord
sampled round2 [] = []
sampled round2 (err e ∷ rounds) = []
sampled round2 (ok s ∷ rounds) = record_of round2 s ∷ sampled round2 rounds

take-nil : {A : Type 0} (n : ℕ) → take {A = A} n [] ≡ []
take-nil zero = refl
take-nil (suc n) = refl

put-take :
    {R : Type 0} (maxsize : ℕ) (r : R) (rs queue : List R)
    → put maxsize r queue ++ take (maxsize - length (put maxsize r queue)) rs
      ≡ queue ++ take (maxsize - length queue) (r ∷ rs)
unfolding put
put-take maxsize r rs queue = elim (Bool-cases (ltb (length queue) maxsize)) [
  | inl e ↦
      let room : maxsize - length queue ≡ suc (maxsize - length (queue ++ r ∷ [])) =
        ground (arith, e, length-append queue (r ∷ [])) in
      rw (e, room) (append_assoc queue (r ∷ []) _)
  | inr e ↦ let no_room : maxsize - length queue ≡ 0 = ground (arith, e) in rw (e, no_room) refl
]

-- A run of the monitor adds to the queue, in order, the records of the rounds before the first that
-- raises, and of these exactly as many as there is room for: where the queue is full the newest are dropped.
pub run_lem :
    (round2 : String → String) (maxsize : ℕ) (rounds : List (Result Sample))
    (queue : List ResourceRecord)
    → (run round2 maxsize rounds queue).1
      ≡ queue ++ take (maxsize - length queue) (sampled round2 rounds)
unfolding run
run_lem round2 maxsize [] queue = sym (rw (take-nil (maxsize - length queue)) (append-nil queue))
run_lem round2 maxsize (err e ∷ rounds) queue =
    sym (rw (take-nil (maxsize - length queue)) (append-nil queue))
run_lem round2 maxsize (ok s ∷ rounds) queue =
    run_lem round2 maxsize rounds (put maxsize (record_of round2 s) queue)
    ∙ put-take maxsize (record_of round2 s) (sampled round2 rounds) queue

-- A monitor that is stopped and started again runs a new thread if its thread was alive, or if it had none. If its thread had
-- died of an exception the monitor keeps that dead thread, although its switch is on, and no later start changes this.
pub stop-start :
    (alive : ℕ → Bool) (m : Monitor)
    → let m' = start (stop alive m) in
      let renewed = is_running alive m || not (is_some m.thread) in
      (m'.stop_switch ≡ false)
      × (m'.thread ≡ (if renewed then some m.started else m.thread))
      × (m'.started ≡ (if renewed then suc m.started else m.started))
      × (is_running alive m' ≡ renewed && alive m.started)
      × (start m' ≡ m')
unfolding start stop is_running
stop-start alive m = (ground arith, ground arith, ground arith, ground arith, ground arith)
