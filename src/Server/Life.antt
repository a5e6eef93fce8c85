-- ===== src/Server/Life.antt =====
-- src/app/serve.cpp: the loop that accepts connections, the signals, and the threads that answer. A thread
-- is a connection that waits, and answers in one step, in any order; the source has the closing brace of
-- the thread missing, and the step is its whole body.
pub mod Served
pub mod Safety
use neuralware_x.Prelude.{
  ℕ, ◌+◌, ◌≡◌, Bool, true, false, List, [], ◌∷◌, ◌++◌, Option, none, some, if◌then◌else◌,
}
use neuralware_x.Prelude.Int.{ℤ, pos, ltb_ℤ}
use neuralware_x.Double.{Double}
use neuralware_x.Capi.{Handle}
use neuralware_x.Loading.{Loaded, loaded, missing, throws, unnamed_activation}
use neuralware_x.Server.Predict.{Sent, status, Moment}
use neuralware_x.Server.Routes.{
  Setup, Files, State, Ended, ends, goes_on, read_bundle, serve_request,
}

-- Where the loop stands: at its test, before the call of `accept`, or behind the loop.
pub data Phase : Type 0 where
  at_test at_accept stopped : Phase

pub record Connection (D : Type 0) : Type 0 where
  pub moment : Moment D
  pub received : Option (List ℕ)

-- `g_reload`, `g_stop`, `active_conns` and the threads that have not answered.
pub record Program (D : Type 0) : Type 0 where
  pub state : State D
  pub g_reload : Bool
  pub g_stop : Bool
  pub active_conns : ℕ
  pub waiting : List (Connection D)
  pub phase : Phase

module _ {D : Type 0} ⦃d : Double D⦄ where
  abbrev pub with_bundle : Program D → Handle D → Program D
  with_bundle p h = record p { state = record p.state { bundle = h } }

  -- `if (load_bundle(nb, model_on_disk)) b = nb;`, `none` where the program ends.
  unfoldable pub after_hup : Loaded D → Program D → Option (Program D)
  after_hup (loaded h) p = some (with_bundle p h)
  after_hup missing p = some p
  after_hup throws p = none
  after_hup unnamed_activation p = none

  -- One pass of the test and of the check for a reload.
  unfoldable pub test_loop : Setup D → (disk : Option (List ℕ)) → Program D → Option (Program D)
  unfolding after_hup read_bundle
  test_loop u disk p =
      let q = record p { phase = at_accept; g_reload = false } in
      if p.g_stop
      then some (record p { phase = stopped })
      else if p.g_reload
      then after_hup (read_bundle u.codec disk) q
      else some q

  -- A connection is answered 503 at once, or gets a thread.
  unfoldable pub accept_connection : ℤ → Connection D → Program D → Program D × List (Sent D)
  accept_connection max_conc c p =
      if ltb_ℤ (pos p.active_conns) max_conc
      then (
        record p {
          active_conns = p.active_conns + 1;
          waiting = p.waiting ++ (c ∷ []);
          phase = at_test;
        },
        [],
      )
      else (record p { phase = at_test }, status 503 ∷ [])

  pub data Step (u : Setup D) (max_conc : ℤ) (p : Program D) : Program D → Type 0 where
    term : Step u max_conc p (record p { g_stop = true })
    hup : Step u max_conc p (record p { g_reload = true })
    test :
        {q : Program D} (disk : Option (List ℕ))
        → p.phase ≡ at_test
        → test_loop u disk p ≡ some q
        → Step u max_conc p q
    accept :
        (c : Connection D)
        → p.phase ≡ at_accept
        → Step u max_conc p (accept_connection max_conc c p).0
    accept_fails : p.phase ≡ at_accept → Step u max_conc p (record p { phase = at_test })
    answer :
        {s : State D} {sent : List (Sent D)} (f : Files) (before after : List (Connection D))
        (c : Connection D)
        → p.waiting ≡ before ++ (c ∷ after)
        → serve_request u f p.state c.moment c.received ≡ goes_on s sent
        → Step u max_conc p (record p { state = s; waiting = before ++ after })

  -- The reachable states, from the bundle that is loaded at the start.
  pub data Reach (u : Setup D) (max_conc : ℤ) (p : Program D) : Program D → Type 0 where
    start : Reach u max_conc p p
    next : {q r : Program D} → Reach u max_conc p q → Step u max_conc q r → Reach u max_conc p r

  -- Nothing has been asked yet.
  pub record IsFresh (p : Program D) : Type 0 where
    pub no_requests : p.state.total_requests ≡ 0
    pub no_predictions : p.state.shared.pred_requests ≡ 0
    pub no_connections : p.active_conns ≡ 0
    pub no_waiting : p.waiting ≡ []
