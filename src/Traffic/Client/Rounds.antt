-- ===== src/Traffic/Client/Rounds.antt =====
-- How many pings a client sends before it stops.
use native.Mathlib.Nat.{add-zero}
use distributed_apps_platfor.Base.{
  ◌≡◌, ◌≢◌, refl, inl, inr, ap, ◌∙◌, ℕ, zero, suc, ◌+◌, ◌≤◌, ◌<◌, Bool, true, false, some,
  Bool-cases, arith, pos,
}
use distributed_apps_platfor.Traffic.Client.{start}

before_suc :
    (stop : ℕ → Bool) (i k : ℕ)
    → stop i ≡ false
    → ((j : ℕ) → j < k → stop (i + 1 + j) ≡ false)
    → (j : ℕ) → j < suc k
    → stop (i + j) ≡ false
before_suc stop i k e before zero lt = rw add-zero e
before_suc stop i k e before (suc j) lt = ap stop (omega arith) ∙ before j (omega arith)

-- With `n` pings to send and fuel above `n`, the client stops by itself: after `k` rounds, where `k`
-- is the first round at which the stop event is set, or `n` if it is set at none before.
pub start-stops :
    (stop : ℕ → Bool) (fuel n i : ℕ)
    → n < fuel
    → (k : ℕ) × (start stop fuel (some (pos n)) i ≡ some (i + k))
      × (k ≤ n)
      × ((j : ℕ) → j < k → stop (i + j) ≡ false)
      × (k ≢ n → stop (i + k) ≡ true)
unfolding start
start-stops stop zero n i h = absurd (omega arith)
start-stops stop (suc fuel) zero i h =
    (0, ap some (omega arith), omega arith, λ j k. absurd (omega arith), λ e. absurd (e refl))
start-stops stop (suc fuel) (suc n) i h = elim (Bool-cases (stop i)) [
  | inl e ↦ (
    0,
    rw e (ap some (omega arith)),
    omega arith,
    λ j k. absurd (omega arith),
    λ _. rw add-zero e,
  )
  | inr e ↦
      let (k, q, le, before, at) = start-stops stop fuel n (i + 1) (omega arith) in
      (
        suc k,
        rw e (q ∙ ap some (omega arith)),
        omega arith,
        λ j lt. before_suc stop i k e before j lt,
        λ ne. ap stop (omega arith) ∙ at (λ x. ne (ap suc x)),
      )
]
