-- ===== src/Apps/Config/Constants/Numbers.antt =====
-- Which variables of the environment have to be numbers.
use distributed_apps_platfor.Base.{
  ◌≡◌, ◌∙◌, refl, sym, ℕ, String, Bool, true, false, ◌&&◌, List, [], ◌∷◌, ◌++◌, none, some, is_some,
  Result, ok, err, ◌>>=◌, arith,
}
use distributed_apps_platfor.Apps.Config.{Param}
use distributed_apps_platfor.Apps.Config.Constants.{
  Platform, env_int, system_constants, service_constants, sqlite3_constants, traffic_constants,
  recorder_constants, wavefront_constants, els_constants, get_categories,
}

abbrev pub returns : {A : Type 0} → Result A → Bool
returns (ok a) = true
returns (err e) = false

-- the numbers of each class, with those of the classes after it
abbrev els_on : List String
els_on = "ELASTIC_SEARCH_SERVER_PORT" ∷ []

abbrev wavefront_variables : List String
wavefront_variables =
    "WAVEFRONT_PROXY_METRICS_PORT" ∷ "WAVEFRONT_PROXY_DISTRIBUTION_PORT"
    ∷ "WAVEFRONT_PROXY_TRACING_PORT" ∷ []

abbrev wavefront_on : List String
wavefront_on = wavefront_variables ++ els_on

abbrev recorder_variables : List String
recorder_variables =
    "RECORD_UPDATER_THREAD_POOL_SIZE" ∷ "RESOURCE_RECORD_REPORT_FREQ" ∷ "TRAFFIC_RECORD_REPORT_FREQ"
    ∷ []

abbrev recorder_on : List String
recorder_on = recorder_variables ++ wavefront_on

abbrev traffic_on : List String
traffic_on = "TRAFFIC_STATS_QUERY_LATENCY" ∷ recorder_on

abbrev sqlite3_on : List String
sqlite3_on = "SQLITE3_CONNECTION_TIMEOUT" ∷ traffic_on

abbrev service_on : List String
service_on = "LYDIAN_PORT" ∷ sqlite3_on

abbrev system_variables : List String
system_variables = "NODE_PREP_MAX_THREAD" ∷ "LYDIAN_SERVICE_WAIT_TIME" ∷ []

abbrev pub number_variables : List String
number_variables = system_variables ++ service_on

module _ (p : Platform) where
  -- a variable is not set, or is a number
  abbrev pub is_number : String → Bool
  is_number key = elim (p.environ key) [ none ↦ true | some s ↦ is_some (p.to_int s) ]

  abbrev pub all_numbers : List String → Bool
  all_numbers [] = true
  all_numbers (key ∷ keys) = is_number key && all_numbers keys

  all_numbers-append :
      (xs ys : List String) → all_numbers (xs ++ ys) ≡ (all_numbers xs && all_numbers ys)
  all_numbers-append [] ys = refl
  all_numbers-append (x ∷ xs) ys = ground (arith, all_numbers-append xs ys)

  env_int-returns : (key : String) (n : ℕ) → returns (env_int p key n) ≡ all_numbers (key ∷ [])
  unfolding env_int
  env_int-returns key n = ground arith

  bind-returns :
      {A B : Type 0} (m : Result A) (f : A → Result B) (xs ys : List String)
      → returns m ≡ all_numbers xs
      → ((a : A) → returns (f a) ≡ all_numbers ys)
      → returns (m >>= f) ≡ all_numbers (xs ++ ys)
  bind-returns (ok a) f xs ys h k = k a ∙ sym (all_numbers-append xs ys ∙ rw⁻¹ h refl)
  bind-returns (err e) f xs ys h k = sym (all_numbers-append xs ys ∙ rw⁻¹ h refl)

  int-then :
      {B : Type 0} (key : String) (n : ℕ) (f : Param → Result B) (ys : List String)
      → ((v : Param) → returns (f v) ≡ all_numbers ys)
      → returns (env_int p key n >>= f) ≡ all_numbers (key ∷ ys)
  int-then key n f ys k = bind-returns (env_int p key n) f (key ∷ []) ys (env_int-returns key n) k

  one-returns :
      {B : Type 0} (key : String) (n : ℕ) (f : Param → B)
      → returns (env_int p key n >>= λ v. ok (f v)) ≡ all_numbers (key ∷ [])
  one-returns key n f = int-then key n (λ v. ok (f v)) [] (λ v. refl)

  system-returns : returns (system_constants p) ≡ all_numbers system_variables
  unfolding system_constants
  system-returns =
      int-then "NODE_PREP_MAX_THREAD" 32 _ ("LYDIAN_SERVICE_WAIT_TIME" ∷ [])
        (λ t. one-returns "LYDIAN_SERVICE_WAIT_TIME" 4 _)

  recorder-returns : returns (recorder_constants p) ≡ all_numbers recorder_variables
  unfolding recorder_constants
  recorder-returns =
      int-then "RECORD_UPDATER_THREAD_POOL_SIZE" 2 _
        ("RESOURCE_RECORD_REPORT_FREQ" ∷ "TRAFFIC_RECORD_REPORT_FREQ" ∷ [])
        (λ t.
          int-then "RESOURCE_RECORD_REPORT_FREQ" 4 _ ("TRAFFIC_RECORD_REPORT_FREQ" ∷ [])
            (λ r. one-returns "TRAFFIC_RECORD_REPORT_FREQ" 4 _))

  wavefront-returns : returns (wavefront_constants p) ≡ all_numbers wavefront_variables
  unfolding wavefront_constants
  wavefront-returns =
      int-then "WAVEFRONT_PROXY_METRICS_PORT" 2878 _
        ("WAVEFRONT_PROXY_DISTRIBUTION_PORT" ∷ "WAVEFRONT_PROXY_TRACING_PORT" ∷ [])
        (λ m.
          int-then "WAVEFRONT_PROXY_DISTRIBUTION_PORT" 2878 _ ("WAVEFRONT_PROXY_TRACING_PORT" ∷ [])
            (λ d. one-returns "WAVEFRONT_PROXY_TRACING_PORT" 30000 _))

  -- The constants are made exactly where each of the twelve variables of the environment that are numbers is not set or is the
  -- text of an integer; otherwise their module raises.
  pub get_categories_lem : returns (get_categories p) ≡ all_numbers number_variables
  unfolding get_categories service_constants sqlite3_constants traffic_constants els_constants
  get_categories_lem =
      bind-returns (system_constants p) _ system_variables service_on system-returns (λ a.
        bind-returns (service_constants p) _ ("LYDIAN_PORT" ∷ []) sqlite3_on
          (one-returns "LYDIAN_PORT" 5649 _)
          (λ b.
            bind-returns (sqlite3_constants p) _ ("SQLITE3_CONNECTION_TIMEOUT" ∷ []) traffic_on
              (one-returns "SQLITE3_CONNECTION_TIMEOUT" 20 _)
              (λ c.
                bind-returns (traffic_constants p) _ ("TRAFFIC_STATS_QUERY_LATENCY" ∷ [])
                  recorder_on (one-returns "TRAFFIC_STATS_QUERY_LATENCY" 15 _)
                  (λ d.
                    bind-returns (recorder_constants p) _ recorder_variables wavefront_on
                      recorder-returns
                      (λ e.
                        bind-returns (wavefront_constants p) _ wavefront_variables els_on
                          wavefront-returns
                          (λ f.
                            bind-returns (els_constants p) _ els_on []
                              (one-returns "ELASTIC_SEARCH_SERVER_PORT" 9200 _) (λ g. refl)))))))
