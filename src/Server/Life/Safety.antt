-- ===== src/Server/Life/Safety.antt =====
-- What holds in every state that the server can reach.
use mathlib.Core.Option.{some_inj}
use neuralware_x.Prelude.{
  ℕ, ◌+◌, ◌≤◌, ◌≡◌, ◌⊎◌, inl, inr, refl, sym, ap, subst, Bool, true, List, [], ◌∷◌, ◌++◌, Option,
  some, Bool-cases, ltb→lt, length, length-append, arith,
}
use neuralware_x.Prelude.Int.{ℤ, pos, pos_part, ltb_ℤ}
use neuralware_x.Double.{Double}
use neuralware_x.Capi.{Handle}
use neuralware_x.Loading.{Loaded, loaded, missing, throws, unnamed_activation}
use neuralware_x.Server.Routes.{Setup, Files, State, read_bundle}
use neuralware_x.Server.Life.{
  Program, Connection, Phase, Step, term, hup, test, accept, accept_fails, answer, Reach, start,
  next, IsFresh, test_loop, after_hup, accept_connection,
}
use neuralware_x.Server.Life.Served.{IsServed, Serves, counted, serve_request-Serves}

module _ {D : Type 0} ⦃d : Double D⦄ where
  -- The contents of the model file as the steps found it that look at it: the tests of the loop and the
  -- answers.
  abbrev pub disks_of :
      {u : Setup D} {max_conc : ℤ} {p q : Program D} → Step u max_conc p q → List (Option (List ℕ))
  disks_of term = []
  disks_of hup = []
  disks_of (test disk at e) = disk ∷ []
  disks_of (accept c at) = []
  disks_of (accept_fails at) = []
  disks_of (answer f before after c w e) = f.disk ∷ []

  abbrev pub disks_on :
      {u : Setup D} {max_conc : ℤ} {p q : Program D} → Reach u max_conc p q → List (Option (List ℕ))
  disks_on start = []
  disks_on (next r st) = disks_of st ++ disks_on r

  -- The bundle was read from one of the contents.
  abbrev pub WasRead : Setup D → Handle D → List (Option (List ℕ)) → Type 0
  WasRead u h [] = ⊥
  WasRead u h (disk ∷ disks) = (read_bundle u.codec disk ≡ loaded h) ⊎ WasRead u h disks

  -- The bundle is the one of the start, or one that was read from the model file by then.
  abbrev pub IsServedFrom : Setup D → Handle D → List (Option (List ℕ)) → Handle D → Type 0
  IsServedFrom u b disks h = (h ≡ b) ⊎ WasRead u h disks

  IsServedFrom-later :
      (u : Setup D) (b h : Handle D) (disk : Option (List ℕ)) (disks : List (Option (List ℕ)))
      → IsServedFrom u b disks h
      → IsServedFrom u b (disk ∷ disks) h
  IsServedFrom-later u b h disk disks (inl first) = inl first
  IsServedFrom-later u b h disk disks (inr read) = inr (inr read)

  -- Every connection that got a thread waits or was counted, and predictions are counted requests.
  pub record IsSound (u : Setup D) (max_conc : ℤ) (b : Handle D) (disks : List (Option (List ℕ)))
      (p : Program D) : Type 0 where
    pub all_counted : p.state.total_requests + length p.waiting ≡ p.active_conns
    pub active_le : p.active_conns ≤ pos_part max_conc
    pub predicted : p.state.shared.pred_requests ≤ p.state.total_requests
    pub served : IsServedFrom u b disks p.state.bundle

  -- What a pass of the test of the loop keeps.
  pub record Keeps (u : Setup D) (disk : Option (List ℕ)) (p q : Program D) : Type 0 where
    pub counts : q.state.total_requests ≡ p.state.total_requests
    pub predictions : q.state.shared.pred_requests ≡ p.state.shared.pred_requests
    pub threads : q.waiting ≡ p.waiting
    pub actives : q.active_conns ≡ p.active_conns
    pub bundle_from :
        (q.state.bundle ≡ p.state.bundle) ⊎ (read_bundle u.codec disk ≡ loaded q.state.bundle)

  after_hup-Keeps :
      (u : Setup D) (disk : Option (List ℕ)) (l : Loaded D) (p : Program D) {q : Program D}
      → read_bundle u.codec disk ≡ l
      → after_hup l p ≡ some q
      → Keeps u disk p q
  unfolding after_hup
  after_hup-Keeps u disk (loaded h) p r e = subst (Keeps u disk p) (some_inj.0 e) (record {
    counts = refl;
    predictions = refl;
    threads = refl;
    actives = refl;
    bundle_from = inr r;
  })
  after_hup-Keeps u disk missing p r e = subst (Keeps u disk p) (some_inj.0 e) (record {
    counts = refl;
    predictions = refl;
    threads = refl;
    actives = refl;
    bundle_from = inl refl;
  })
  after_hup-Keeps u disk throws p r e = absurd (ground arith)
  after_hup-Keeps u disk unnamed_activation p r e = absurd (ground arith)

  pub test_loop-Keeps :
      (u : Setup D) (disk : Option (List ℕ)) (p : Program D) {q : Program D}
      → test_loop u disk p ≡ some q
      → Keeps u disk p q
  unfolding test_loop
  test_loop-Keeps u disk p {q} e = elim (Bool-cases p.g_stop) [
    | inl stops ↦ ground arith
    | inr runs ↦ elim (Bool-cases p.g_reload) [
      | inl reloads ↦
          let k =
            after_hup-Keeps u disk (read_bundle u.codec disk) _ refl (rw (runs, reloads) at e) in
          record {
            counts = k.counts;
            predictions = k.predictions;
            threads = k.threads;
            actives = k.actives;
            bundle_from = k.bundle_from;
          }
      | inr keeps ↦ ground arith
    ]
  ]

  module _ (u : Setup D) (max_conc : ℤ) (b : Handle D) where
    abbrev Sound : List (Option (List ℕ)) → Program D → Type 0
    Sound = IsSound u max_conc b

    accept_connection-IsSound :
        (ds : List (Option (List ℕ))) (c : Connection D) (p : Program D)
        → Sound ds p
        → Sound ds (accept_connection max_conc c p).0
    unfolding accept_connection
    accept_connection-IsSound ds c p v = elim (Bool-cases (ltb_ℤ (pos p.active_conns) max_conc)) [
      | inr full ↦ rw full (record {
        all_counted = v.all_counted;
        active_le = v.active_le;
        predicted = v.predicted;
        served = v.served;
      })
      | inl free ↦ rw free (record {
        all_counted = omega (arith, v.all_counted, length-append p.waiting (c ∷ []));
        active_le = omega (arith, ltb→lt _ _ free);
        predicted = v.predicted;
        served = v.served;
      })
    ]

    -- A pass of the test changes no counter.
    moved :
        (ds : List (Option (List ℕ))) (p : Program D) (f : Phase) (reload stop : Bool)
        → Sound ds p
        → Sound ds (record p { phase = f; g_reload = reload; g_stop = stop })
    moved ds p f reload stop v = record {
      all_counted = v.all_counted;
      active_le = v.active_le;
      predicted = v.predicted;
      served = v.served;
    }

    test_loop-IsSound :
        (ds : List (Option (List ℕ))) (disk : Option (List ℕ)) (p : Program D) {q : Program D}
        → test_loop u disk p ≡ some q
        → Sound ds p
        → Sound (disk ∷ ds) q
    test_loop-IsSound ds disk p {q} e v =
        let k = test_loop-Keeps u disk p e in
        record {
          all_counted = omega (arith, v.all_counted, k.counts, k.actives, ap length k.threads);
          active_le = omega (arith, v.active_le, k.actives);
          predicted = omega (arith, v.predicted, k.counts, k.predictions);
          served = elim k.bundle_from [
            | inl same ↦
                subst (IsServedFrom u b (disk ∷ ds)) (sym same)
                  (IsServedFrom-later u b p.state.bundle disk ds v.served)
            | inr read ↦ inr (inl read)
          ];
        }

    answer-IsSound :
        (ds : List (Option (List ℕ))) (f : Files) (p : Program D) {s : State D}
        (before after : List (Connection D)) (c : Connection D)
        → p.waiting ≡ before ++ (c ∷ after)
        → IsServed u f (counted p.state) s
        → Sound ds p
        → Sound (f.disk ∷ ds) (record p { state = s; waiting = before ++ after })
    answer-IsSound ds f p {s} before after c w i v = record {
      all_counted = omega (
        arith,
        v.all_counted,
        i.total_same,
        ap length w,
        length-append before (c ∷ after),
        length-append before after,
      );
      active_le = v.active_le;
      predicted = omega (arith, i.total_same, i.pred_le, v.predicted);
      served = served_after i.bundle_from;
    }
      where
        served_after :
            (s.bundle ≡ p.state.bundle) ⊎ (read_bundle u.codec f.disk ≡ loaded s.bundle)
            → IsServedFrom u b (f.disk ∷ ds) s.bundle
        served_after (inl same) =
            subst (IsServedFrom u b (f.disk ∷ ds)) (sym same)
              (IsServedFrom-later u b p.state.bundle f.disk ds v.served)
        served_after (inr read) = inr (inl read)

    Step-IsSound :
        (ds : List (Option (List ℕ))) {p q : Program D} (st : Step u max_conc p q)
        → Sound ds p
        → Sound (disks_of st ++ ds) q
    Step-IsSound ds {p} term v = moved ds p p.phase p.g_reload true v
    Step-IsSound ds {p} hup v = moved ds p p.phase true p.g_stop v
    Step-IsSound ds {p} (test disk at e) v = test_loop-IsSound ds disk p e v
    Step-IsSound ds {p} (accept c at) v = accept_connection-IsSound ds c p v
    Step-IsSound ds {p} (accept_fails at) v = moved ds p Phase.at_test p.g_reload p.g_stop v
    Step-IsSound ds {p} (answer f before after c w e) v =
        answer-IsSound ds f p before after c w
          (subst (Serves u f (counted p.state)) e
            (serve_request-Serves u f p.state c.moment c.received))
          v

  IsFresh-IsSound :
      (u : Setup D) (max_conc : ℤ) (p : Program D)
      → IsFresh p
      → IsSound u max_conc p.state.bundle [] p
  IsFresh-IsSound u max_conc p h = record {
    all_counted = omega (arith, h.no_requests, h.no_connections, ap length h.no_waiting);
    active_le = omega (arith, h.no_connections);
    predicted = omega (arith, h.no_predictions);
    served = inl refl;
  }

  -- In every state that the server reaches from its start, whatever is asked and in whatever order the
  -- signals, the connections and the threads come: every connection that got a thread waits or is a counted
  -- request, at most `max_conc` connections got a thread, no more predictions are counted than requests, and
  -- the bundle is that of the start or one that `read_bundle` loaded from the model file as one of the steps
  -- on the way found it.
  pub Reach-IsSound :
      (u : Setup D) (max_conc : ℤ) (p : Program D) {q : Program D}
      → IsFresh p
      → (r : Reach u max_conc p q) → IsSound u max_conc p.state.bundle (disks_on r) q
  Reach-IsSound u max_conc p h start = IsFresh-IsSound u max_conc p h
  Reach-IsSound u max_conc p h (next r st) =
      Step-IsSound u max_conc p.state.bundle (disks_on r) st (Reach-IsSound u max_conc p h r)
