-- ===== src/Tests/Service.antt =====
-- Runs of the switches of a thread, of the record handler and of the statistics.
use distributed_apps_platfor.Base.{
  ◌≡◌, refl, ℕ, List, [], ◌∷◌, Option, none, some, text, Result, err, value_error,
}
use distributed_apps_platfor.Apps.Background.{write_record}
use distributed_apps_platfor.Apps.Podium.Stats.{Row}

-- a recorder that always raises
abbrev broken : ℕ → List ℕ × ℕ → Result (Unit {0}) × (List ℕ × ℕ)
broken r p = (err value_error, p)

abbrev rounds : List (Option ℕ)
rounds = some 4 ∷ none ∷ some 5 ∷ []

abbrev kept_before : List ℕ × ℕ
kept_before = (3 ∷ [], 0)

broken-leaves : (r : ℕ) (q : List ℕ × ℕ) → (write_record (broken ∷ []) r q).0 ≡ q.0
unfolding write_record
broken-leaves r q = refl

abbrev passed : List Row
passed = (text "1" ∷ text "q-1" ∷ []) ∷ []

abbrev no_rows : List Row
no_rows = []
