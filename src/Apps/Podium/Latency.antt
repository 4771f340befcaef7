-- ===== src/Apps/Podium/Latency.antt =====
-- `get_latency` and `get_traffic_stats` of `Podium` in LYDIAN/lydian/apps/podium.py.
use distributed_apps_platfor.Base.{List, [], ◌∷◌, Option, none, some, Result, ok}

-- Numbers as Python computes with them: 0, and what `round(sum(xs) / len(xs), 2)`,
-- `round(min(xs), 2)` and `round(max(xs), 2)` give or raise. On no numbers the mean raises
-- ZeroDivisionError and the other two ValueError, which are three results of their own.
pub record Numbers : Type 1 where
  pub Num : Type 0
  pub zero : Num
  pub mean : List Num → Result Num
  pub least : List Num → Result Num
  pub greatest : List Num → Result Num

pub data Method : Type 0 where
  avg min max other : Method

-- `[x for x in xs if x is not None]`
abbrev pub known : {A : Type 0} → List (Option A) → List A
known [] = []
known (none ∷ xs) = known xs
known (some x ∷ xs) = x ∷ known xs

module _ (n : Numbers) where
  open n use {Num}

  -- `if latencies: return result`, and the method of what is left; an unknown method is logged
  unfoldable pub latency_of : Method → List Num → Result Num
  latency_of method (x ∷ xs) = ok n.zero
  latency_of avg [] = n.mean []
  latency_of min [] = n.least []
  latency_of max [] = n.greatest []
  latency_of other [] = ok n.zero

  unfoldable pub get_latency : Method → List (Option Num) → Result Num
  get_latency method latencies = latency_of method (known latencies)
