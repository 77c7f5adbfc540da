-- ===== src/ControlPlane/Scheduler/Keys.antt =====
-- For which key a waiter waits, and what it is answered: agentctl/src/controller.rs.
use digdir_agents.Base.{
  ltb, ◌==◌, ==→eq, Bool-cases, length, All, All-append, Result, err, ok, ℕ, zero, suc, ◌≡◌, refl,
  ◌⊎◌, inl, inr, Bool, true, false, Option, none, some, List, [], ◌∷◌, ◌++◌,
}
use digdir_agents.Agents.Errors.{Error}
use digdir_agents.ControlPlane.Failures.{ReconcileFailure}
use digdir_agents.ControlPlane.Scheduler.{
  max_concurrent_reconciles, Request, Entries, add_to, waiters_of, enqueue, enqueue_keys,
  enqueue_all, Scheduler, is_running, put_back, take_next, start_next, start_if, start_passes,
  start_pending, Event, requested, ticked, ended, take_pass, response_of, respond, end_pass, handle,
  run_events, run_controller,
}

abbrev pub Response : Type 0
Response = Result ReconcileFailure (Unit {0})

module _ (key_of : ℕ → ℕ) where
  -- Those who wait for a key have asked for it.
  abbrev pub AreOf : ℕ → List ℕ → Type 0
  AreOf key ws = All (λ w. key_of w ≡ key) ws

  abbrev pub AreUnder : Entries → Type 0
  AreUnder entries = All (λ entry. AreOf entry.0 entry.1) entries

  -- Each waiter asks for its key.
  abbrev pub AreRequests : List Request → Type 0
  AreRequests requests = All (λ r. AreOf r.key (waiters_of r.response)) requests

  abbrev pub IsAsked : Event → Type 0
  IsAsked (requested requests) = AreRequests requests
  IsAsked (ticked keys) = Unit
  IsAsked (ended key result) = Unit

  -- A pass for the waiter's key ended with the response.
  abbrev pub IsEnded : List Event → ℕ → Response → Type 0
  IsEnded [] w response = ⊥
  IsEnded (ended key result ∷ es) w response =
      ((key_of w ≡ key) × (response ≡ response_of result)) ⊎ IsEnded es w response
  IsEnded (requested requests ∷ es) w response = IsEnded es w response
  IsEnded (ticked keys ∷ es) w response = IsEnded es w response

  AreUnder-add_to :
      (key : ℕ) (ws : List ℕ) (entries : Entries)
      → AreOf key ws
      → AreUnder entries
      → AreUnder (add_to key ws entries)
  unfolding add_to
  AreUnder-add_to key ws [] h u = (h, tt)
  AreUnder-add_to key ws ((k, vs) ∷ entries) h (first, rest) = elim (Bool-cases (key == k)) [
    | inl same ↦
        rw same (All-append (λ w. key_of w ≡ k) vs ws first (rw (==→eq key k same) at h), rest)
    | inr other ↦ elim (Bool-cases (ltb key k)) [
      | inl before ↦ rw (other, before) (h, (first, rest))
      | inr behind ↦ rw (other, behind) (first, AreUnder-add_to key ws entries h rest)
    ]
  ]

  AreUnder-enqueue :
      (requests : List Request) (entries : Entries)
      → AreRequests requests
      → AreUnder entries
      → AreUnder (enqueue requests entries)
  unfolding enqueue
  AreUnder-enqueue [] entries h u = u
  AreUnder-enqueue (r ∷ requests) entries (first, rest) u =
      AreUnder-enqueue requests (add_to r.key (waiters_of r.response) entries) rest
        (AreUnder-add_to r.key (waiters_of r.response) entries first u)

  AreUnder-enqueue_keys :
      (keys : List ℕ) (entries : Entries) → AreUnder entries → AreUnder (enqueue_keys keys entries)
  unfolding enqueue_keys
  AreUnder-enqueue_keys [] entries u = u
  AreUnder-enqueue_keys (key ∷ keys) entries u =
      AreUnder-enqueue_keys keys (add_to key [] entries) (AreUnder-add_to key [] entries tt u)

  AreUnder-enqueue_all :
      (keys : Result Error (List ℕ)) (entries : Entries)
      → AreUnder entries
      → AreUnder (enqueue_all keys entries)
  AreUnder-enqueue_all (ok keys) entries u = AreUnder-enqueue_keys keys entries u
  AreUnder-enqueue_all (err e) entries u = u

  abbrev IsTaken : Option ((ℕ × List ℕ) × Entries) → Type 0
  IsTaken none = Unit
  IsTaken (some (entry, rest)) = AreOf entry.0 entry.1 × AreUnder rest

  IsTaken-put_back :
      (entry : ℕ × List ℕ) (taken : Option ((ℕ × List ℕ) × Entries))
      → AreOf entry.0 entry.1
      → IsTaken taken
      → IsTaken (put_back entry taken)
  IsTaken-put_back entry none h t = tt
  IsTaken-put_back entry (some (found, rest)) h (of, under) = (of, (h, under))

  take_next-IsTaken :
      (running : List ℕ) (entries : Entries)
      → AreUnder entries
      → IsTaken (take_next running entries)
  unfolding take_next
  take_next-IsTaken running [] u = tt
  take_next-IsTaken running (entry ∷ entries) (first, rest) =
      elim (Bool-cases (is_running running entry.0)) [
        | inl busy ↦ rw busy (
            IsTaken-put_back entry (take_next running entries) first
              (take_next-IsTaken running entries rest))
        | inr free ↦ rw free (first, rest)
      ]

  abbrev IsPass : ℕ → Option ((ℕ × List ℕ) × Entries) → Type 0
  IsPass key none = Unit
  IsPass key (some (entry, rest)) = AreOf key entry.1 × AreUnder rest

  IsPass-put_back :
      (key : ℕ) (entry : ℕ × List ℕ) (taken : Option ((ℕ × List ℕ) × Entries))
      → AreOf entry.0 entry.1
      → IsPass key taken
      → IsPass key (put_back entry taken)
  IsPass-put_back key entry none h t = tt
  IsPass-put_back key entry (some (found, rest)) h (of, under) = (of, (h, under))

  take_pass-IsPass :
      (key : ℕ) (entries : Entries) → AreUnder entries → IsPass key (take_pass key entries)
  unfolding take_pass
  take_pass-IsPass key [] u = tt
  take_pass-IsPass key ((k, ws) ∷ entries) (first, rest) = elim (Bool-cases (k == key)) [
    | inl hit ↦ rw hit (rw (==→eq k key hit) at first, rest)
    | inr miss ↦ rw miss (
        IsPass-put_back key (k, ws) (take_pass key entries) first
          (take_pass-IsPass key entries rest))
  ]

  module _ (IsAnswer : ℕ → Response → Type 0) where
    -- Who waits does so under its key, and the answers are as they should be.
    pub record IsKeyed (s : Scheduler) : Type 0 where
      pub pending_under : AreUnder s.pending
      pub passes_under : AreUnder s.passes
      pub answers : All (λ a. IsAnswer a.0 a.1) s.sent

    start_next-IsKeyed :
        (taken : Option ((ℕ × List ℕ) × Entries)) (s : Scheduler) (more : Scheduler → Scheduler)
        → ((s' : Scheduler) → IsKeyed s' → IsKeyed (more s'))
        → IsTaken taken
        → IsKeyed s
        → IsKeyed (start_next taken s more)
    start_next-IsKeyed none s more keeps t k = k
    start_next-IsKeyed (some (entry, rest)) s more keeps (of, under) k =
        keeps
          (record s { pending = rest; running = entry.0 ∷ s.running; passes = entry ∷ s.passes })
          (record {
            pending_under = under;
            passes_under = (of, k.passes_under);
            answers = k.answers;
          })

    start_if-IsKeyed :
        (b : Bool) (s : Scheduler) (more : Scheduler → Scheduler)
        → ((s' : Scheduler) → IsKeyed s' → IsKeyed (more s'))
        → IsKeyed s
        → IsKeyed (start_if b s more)
    start_if-IsKeyed false s more keeps k = k
    start_if-IsKeyed true s more keeps k =
        start_next-IsKeyed (take_next s.running s.pending) s more keeps
          (take_next-IsTaken s.running s.pending k.pending_under) k

    pub start_passes-IsKeyed : (n : ℕ) (s : Scheduler) → IsKeyed s → IsKeyed (start_passes n s)
    unfolding start_passes
    start_passes-IsKeyed zero s k = k
    start_passes-IsKeyed (suc n) s k =
        start_if-IsKeyed (ltb (length s.running) max_concurrent_reconciles) s
          (λ s'. start_passes n s') (start_passes-IsKeyed n) k

    respond-answers :
        (key : ℕ) (response : Response) (ws : List ℕ) (sent : List (ℕ × Response))
        → ((w : ℕ) → key_of w ≡ key → IsAnswer w response)
        → AreOf key ws
        → All (λ a. IsAnswer a.0 a.1) sent
        → All (λ a. IsAnswer a.0 a.1) (respond response ws ++ sent)
    respond-answers key response [] sent h of k = k
    respond-answers key response (w ∷ ws) sent h (first, rest) k =
        (h w first, respond-answers key response ws sent h rest k)

    handle-IsKeyed :
        (e : Event) (s : Scheduler)
        → IsAsked e
        → ((w : ℕ) (response : Response) → IsEnded (e ∷ []) w response → IsAnswer w response)
        → IsKeyed s
        → IsKeyed (handle e s)
    unfolding handle
    handle-IsKeyed (requested requests) s asks h k = record {
      pending_under = AreUnder-enqueue requests s.pending asks k.pending_under;
      passes_under = k.passes_under;
      answers = k.answers;
    }
    handle-IsKeyed (ticked keys) s asks h k = record {
      pending_under = AreUnder-enqueue_all keys s.pending k.pending_under;
      passes_under = k.passes_under;
      answers = k.answers;
    }
    handle-IsKeyed (ended key result) s asks h k =
        at_end (take_pass key s.passes) (take_pass-IsPass key s.passes k.passes_under)
      where
        at_end :
            (taken : Option ((ℕ × List ℕ) × Entries))
            → IsPass key taken
            → IsKeyed (end_pass taken result s)
        at_end none t = k
        at_end (some (entry, rest)) (of, under) = record {
          pending_under = k.pending_under;
          passes_under = under;
          answers =
              respond-answers key (response_of result) entry.1 s.sent
                (λ w is_key. h w (response_of result) (inl (is_key, refl))) of k.answers;
        }

    pub run_events-IsKeyed :
        (es : List Event) (s : Scheduler)
        → All IsAsked es
        → ((w : ℕ) (response : Response) → IsEnded es w response → IsAnswer w response)
        → IsKeyed s
        → IsKeyed (run_events es s)
    unfolding run_events start_pending
    run_events-IsKeyed [] s asks h k = k
    run_events-IsKeyed (e ∷ es) s (first, rest) h k =
        run_events-IsKeyed es (start_pending (handle e s)) rest
          (λ w response is_ended. h w response (later w response e is_ended))
          (start_passes-IsKeyed max_concurrent_reconciles (handle e s) (
            handle-IsKeyed e s first
              (λ w response is_ended. h w response (now w response e is_ended)) k))
      where
        later :
            (w : ℕ) (response : Response) (x : Event)
            → IsEnded es w response
            → IsEnded (x ∷ es) w response
        later w response (requested requests) i = i
        later w response (ticked keys) i = i
        later w response (ended key result) i = inr i

        now :
            (w : ℕ) (response : Response) (x : Event)
            → IsEnded (x ∷ []) w response
            → IsEnded (x ∷ es) w response
        now w response (requested requests) i = absurd i
        now w response (ticked keys) i = absurd i
        now w response (ended key result) (inl i) = inl i
        now w response (ended key result) (inr i) = absurd i

  pub run_controller-IsKeyed :
      (keys : Result Error (List ℕ)) (es : List Event)
      → All IsAsked es
      → IsKeyed (IsEnded es) (run_controller keys es)
  unfolding run_controller start_pending
  run_controller-IsKeyed keys es asks =
      run_events-IsKeyed (IsEnded es) es (start_pending started) asks (λ w response i. i)
        (start_passes-IsKeyed (IsEnded es) max_concurrent_reconciles started (record {
          pending_under = AreUnder-enqueue_all keys [] tt;
          passes_under = tt;
          answers = tt;
        }))
    where
      started : Scheduler
      started = record { pending = enqueue_all keys []; running = []; passes = []; sent = [] }
