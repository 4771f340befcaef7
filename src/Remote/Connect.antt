-- ===== src/Remote/Connect.antt =====
-- The connection of `LydianClient` in LYDIAN/lydian/controller/client.py, with its retries.
use mathlib.Core.Path.{subst}
use distributed_apps_platfor.Base.{
  is_some, ap, ◌∙◌, ◌≡◌, refl, arith, ℕ, zero, suc, ◌+◌, ◌<◌, Bool, true, false, not, Option, none,
  some, Result, ok, err, Error, attribute_error, type_error, timeout_error, connection_error,
  runtime_error, if◌then◌else◌, nat_eq, inl, ◌⊎◌,
}

-- How one call of `rpyc.connect` ends, directly or through the proxy.
pub data Outcome : Type 0 where
  connected timed_out reset refused other_socket_error other_error : Outcome

-- `self.rpc_client`: None, or a connection that is closed or not
pub record Session : Type 0 where
  pub rpc_client : Option Bool
  pub attempts : ℕ

abbrev pub closed : Bool
closed = true

abbrev pub open_client : Option Bool
open_client = some false

unfoldable pub is_connected : Session → Bool
is_connected s = elim (s.rpc_client) [ none ↦ false | some c ↦ not c ]

-- `if self.rpc_client is None: raise last_exception`; `raise None` is a TypeError
unfoldable pub after_loop : Option Error → Session → Result (Unit {0}) × Session
after_loop last s = elim (s.rpc_client) [
  | none ↦ elim last [ none ↦ (err type_error, s) | some e ↦ (err e, s) ]
  | some c ↦ (ok tt, s)
]

abbrev pub attempt : Session → Session
attempt s = record s { attempts = suc s.attempts }

module _ (outcomes : ℕ → Outcome) where
  -- the while loop: how many rounds are left, the number of the call, and the last exception
  unfoldable pub rounds : ℕ → ℕ → Option Error → Session → Result (Unit {0}) × Session
  rounds zero i last s = after_loop last s
  rounds (suc n) i last s =
      let again_timeout = rounds n (suc i) (some timeout_error) (attempt s) in
      let again_refused = rounds n (suc i) (some connection_error) (attempt s) in
      elim (outcomes i) [
        | connected ↦
            after_loop last (record { rpc_client = open_client; attempts = suc s.attempts })
        | timed_out ↦ again_timeout
        | reset ↦ again_refused
        | refused ↦ again_refused
        | other_socket_error ↦ (err connection_error, attempt s)
        | other_error ↦ (err runtime_error, attempt s)
      ]

  -- `_link_apps`: what reading the `root` of a connection that is closed, or is not, comes to, for all the managers
  unfoldable pub link_apps : (Bool → Result (Unit {0})) → Session → Result (Unit {0})
  link_apps root s = elim (s.rpc_client) [ none ↦ err attribute_error | some c ↦ root c ]

  -- `connect` on a client with the retry count of its constructor
  unfoldable pub connect : (Bool → Result (Unit {0})) → ℕ → Session → Result (Unit {0}) × Session
  connect root retry_count s =
      if is_connected s
      then (ok tt, s)
      else let (r, s') = rounds retry_count 0 none s in
        elim r [ err e ↦ (err e, s') | ok _ ↦ (link_apps root s', s') ]

-- a call that the loop makes again
abbrev pub is_retried : Outcome → Bool
is_retried timed_out = true
is_retried reset = true
is_retried refused = true
is_retried _ = false

module _ (outcomes : ℕ → Outcome) where
  -- the index of a later call, counted from the next round
  shifted : (P : Outcome → Type 0) (i j : ℕ) → P (outcomes (i + suc j)) → P (outcomes (suc i + j))
  shifted P i j h = let e : i + suc j ≡ suc i + j = omega arith in subst (λ m. P (outcomes m)) e h

  at_start : (P : Outcome → Type 0) (i : ℕ) → P (outcomes (i + 0)) → P (outcomes i)
  at_start P i h = let e : i + 0 ≡ i = omega arith in subst (λ m. P (outcomes m)) e h

  from_start : (P : Outcome → Type 0) (j : ℕ) → P (outcomes j) → P (outcomes (0 + j))
  from_start P j h = let e : j ≡ 0 + j = omega arith in subst (λ m. P (outcomes m)) e h

  retried-after :
      (i n : ℕ)
      → ((j : ℕ) → j < suc n → is_retried (outcomes (i + j)) ≡ true)
      → (j : ℕ) → j < n
      → is_retried (outcomes (suc i + j)) ≡ true
  retried-after i n h j q = shifted (λ o. is_retried o ≡ true) i j (h (suc j) (omega (arith, q)))

  -- a round that the loop makes again
  rounds-retry :
      (n i : ℕ) (last : Option Error) (s : Session)
      → is_retried (outcomes i) ≡ true
      → (next : Option Error) × (is_some next ≡ true)
        × (rounds outcomes (suc n) i last s ≡ rounds outcomes n (suc i) next (attempt s))
  unfolding rounds
  rounds-retry n i last s h = go (outcomes i) h
    where
      go :
          (o : Outcome)
          → is_retried o ≡ true
          → (next : Option Error) × (is_some next ≡ true)
            × ((elim o [
              | connected ↦
                  after_loop last (record { rpc_client = open_client; attempts = suc s.attempts })
              | timed_out ↦ rounds outcomes n (suc i) (some timeout_error) (attempt s)
              | reset ↦ rounds outcomes n (suc i) (some connection_error) (attempt s)
              | refused ↦ rounds outcomes n (suc i) (some connection_error) (attempt s)
              | other_socket_error ↦ (err connection_error, attempt s)
              | other_error ↦ (err runtime_error, attempt s)
            ])
                ≡ rounds outcomes n (suc i) next (attempt s))
      go connected p = ground arith
      go timed_out p = (some timeout_error, refl, refl)
      go reset p = (some connection_error, refl, refl)
      go refused p = (some connection_error, refl, refl)
      go other_socket_error p = ground arith
      go other_error p = ground arith

  rounds-gives_up :
      (n i : ℕ) (last : Option Error) (s : Session)
      → ((j : ℕ) → j < n → is_retried (outcomes (i + j)) ≡ true)
      → (x : Option Error) × ((n ≡ 0) × (x ≡ last) ⊎ (is_some x ≡ true))
        × (rounds outcomes n i last s ≡ after_loop x (record s { attempts = s.attempts + n }))
  unfolding rounds
  rounds-gives_up zero i last s h =
      (last, inl (refl, refl), ap (λ m. after_loop last (record s { attempts = m })) (omega arith))
  rounds-gives_up (suc n) i last s h =
      let (next, p, r) =
        rounds-retry n i last s (at_start (λ o. is_retried o ≡ true) i (h 0 (omega arith))) in
      let (x, c, t) = rounds-gives_up n (suc i) next (attempt s) (retried-after i n h) in
      (
        x,
        ground (arith, c, p),
        r ∙ t ∙ ap (λ m. after_loop x (record s { attempts = m })) (omega arith),
      )

  connect-rounds :
      (root : Bool → Result (Unit {0})) (n : ℕ) (s s' : Session) (r : Result (Unit {0}))
      → is_connected s ≡ false
      → rounds outcomes n 0 none s ≡ (r, s')
      → connect outcomes root n s
        ≡ (elim r [ err e ↦ (err e, s') | ok _ ↦ (link_apps outcomes root s', s') ])
  unfolding connect
  connect-rounds root n s s' r h q = rw h (ap go q)
    where
      go : Result (Unit {0}) × Session → Result (Unit {0}) × Session
      go p = elim p.0 [ err e ↦ (err e, p.1) | ok _ ↦ (link_apps outcomes root p.1, p.1) ]

  -- Where every call within a positive retry count times out or is reset or refused, `connect` makes exactly as
  -- many calls as the retry count and leaves the client as it was; it raises on a client that never had a connection,
  -- and on a client with a closed connection it goes on to read the root of that connection, and returns or raises as this does.
  pub connect-gives_up :
      (root : Bool → Result (Unit {0})) (n : ℕ) (s : Session)
      → is_connected s ≡ false
      → 0 < n
      → ((j : ℕ) → j < n → is_retried (outcomes j) ≡ true)
      → let (r, s') = connect outcomes root n s in
        (s' ≡ record s { attempts = s.attempts + n })
        × (s.rpc_client ≡ none → (e : Error) × (r ≡ err e))
        × (s.rpc_client ≡ some closed → r ≡ root closed)
  unfolding after_loop link_apps
  connect-gives_up root n s h q hr =
      let (x, c, t) =
        rounds-gives_up n 0 none s (λ j p. from_start (λ o. is_retried o ≡ true) j (hr j p)) in
      end s.rpc_client x refl t c
    where
      left : Session
      left = record s { attempts = s.attempts + n }

      end :
          (client : Option Bool) (x : Option Error)
          → s.rpc_client ≡ client
          → rounds outcomes n 0 none s ≡ after_loop x left
          → (n ≡ 0) × (x ≡ none) ⊎ (is_some x ≡ true)
          → let (r, s') = connect outcomes root n s in
            (s' ≡ left)
            × (s.rpc_client ≡ none → (e : Error) × (r ≡ err e))
            × (s.rpc_client ≡ some closed → r ≡ root closed)
      end (some d) x e t c =
          let whole = connect-rounds root n s left (ok tt) h (t ∙ rw e refl) in
          rw whole (refl, λ z. ground (arith, e, z), λ z. rw z refl)
      end none none e t c = ground (arith, c, q)
      end none (some x) e t c =
          let whole = connect-rounds root n s left (err x) h (t ∙ rw e refl) in
          rw whole (refl, λ z. (x, refl), λ z. ground (arith, e, z))
