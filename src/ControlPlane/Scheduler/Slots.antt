-- ===== src/ControlPlane/Scheduler/Slots.antt =====
-- What runs at a time: agentctl/src/controller.rs.
use digdir_agents.Base.{
  ltb, ◌==◌, ==→eq, Bool-cases, length, All, Result, ℕ, zero, suc, ◌+◌, ◌≤◌, ◌<◌, ◌≡◌, refl, sym,
  ap, ◌∙◌, ◌⊎◌, inl, inr, true, false, Option, none, some, List, [], ◌∷◌, map, arith,
}
use digdir_agents.Agents.Errors.{Error}
use digdir_agents.ControlPlane.Scheduler.{
  max_concurrent_reconciles, Entries, Scheduler, is_running, put_back, take_next, start_next,
  start_passes, start_pending, Event, requested, ticked, ended, take_pass, remove_key, end_pass,
  handle, run_events, run_controller,
}

abbrev pub IsOnce : List ℕ → Type 0
IsOnce [] = Unit
IsOnce (k ∷ running) = (is_running running k ≡ false) × IsOnce running

abbrev pub keys_of : Entries → List ℕ
keys_of entries = map (λ entry. entry.0) entries

-- The passes in flight: one for each running key, and no more than are allowed at once.
pub record IsSound (s : Scheduler) : Type 0 where
  pub passing : s.running ≡ keys_of s.passes
  pub once : IsOnce s.running
  pub bounded : length s.running ≤ max_concurrent_reconciles

-- No slot is left free while a key that is not running is pending.
abbrev pub IsBusy : Scheduler → Type 0
IsBusy s =
    (length s.running ≡ max_concurrent_reconciles)
    ⊎ All (λ entry. is_running s.running entry.0 ≡ true) s.pending

-- The key that is started does not run yet, and without one every pending key runs.
abbrev IsFresh : List ℕ → Entries → Option ((ℕ × List ℕ) × Entries) → Type 0
IsFresh running pending none = All (λ entry. is_running running entry.0 ≡ true) pending
IsFresh running pending (some (entry, rest)) = is_running running entry.0 ≡ false

IsFresh-put_back :
    (running : List ℕ) (pending : Entries) (entry : ℕ × List ℕ)
    (taken : Option ((ℕ × List ℕ) × Entries))
    → is_running running entry.0 ≡ true
    → IsFresh running pending taken
    → IsFresh running (entry ∷ pending) (put_back entry taken)
IsFresh-put_back running pending entry none busy h = (busy, h)
IsFresh-put_back running pending entry (some (found, rest)) busy h = h

take_next-IsFresh :
    (running : List ℕ) (pending : Entries) → IsFresh running pending (take_next running pending)
unfolding take_next
take_next-IsFresh running [] = tt
take_next-IsFresh running (entry ∷ pending) = elim (Bool-cases (is_running running entry.0)) [
  | inl busy ↦ rw busy (
      IsFresh-put_back running pending entry (take_next running pending) busy
        (take_next-IsFresh running pending))
  | inr free ↦ rw free free
]

-- Both, with so many starts to go.
pub record IsStarted (s : Scheduler) : Type 0 where
  pub sound : IsSound s
  pub busy : IsBusy s

start_next-IsStarted :
    (taken : Option ((ℕ × List ℕ) × Entries)) (n : ℕ) (s : Scheduler) (more : Scheduler → Scheduler)
    → ((s' : Scheduler)
        → IsSound s'
        → max_concurrent_reconciles ≤ n + length s'.running
        → IsStarted (more s'))
    → IsSound s
    → length s.running < max_concurrent_reconciles
    → max_concurrent_reconciles ≤ suc n + length s.running
    → IsFresh s.running s.pending taken
    → IsStarted (start_next taken s more)
start_next-IsStarted none n s more rest h less enough fresh = record { sound = h; busy = inr fresh }
start_next-IsStarted (some (entry, left)) n s more rest h less enough fresh =
    rest (record s { pending = left; running = entry.0 ∷ s.running; passes = entry ∷ s.passes })
      (record {
        passing = ap (λ ks. entry.0 ∷ ks) h.passing;
        once = (fresh, h.once);
        bounded = omega (arith, less);
      })
      (omega (arith, enough))

start_passes-IsStarted :
    (n : ℕ) (s : Scheduler)
    → IsSound s
    → max_concurrent_reconciles ≤ n + length s.running
    → IsStarted (start_passes n s)
unfolding start_passes
start_passes-IsStarted zero s h enough = record {
  sound = h;
  busy = inl (omega (arith, enough, h.bounded));
}
start_passes-IsStarted (suc n) s h enough =
    elim (Bool-cases (ltb (length s.running) max_concurrent_reconciles)) [
      | inl free ↦ rw free (
          start_next-IsStarted (take_next s.running s.pending) n s (λ s'. start_passes n s')
            (start_passes-IsStarted n) h (below (length s.running) max_concurrent_reconciles free)
            enough (take_next-IsFresh s.running s.pending))
      | inr full ↦ rw full (record {
        sound = h;
        busy = inl (reached (length s.running) max_concurrent_reconciles h.bounded full);
      })
    ]
  where
    below : (a b : ℕ) → ltb a b ≡ true → a < b
    below a b e = ground arith

    reached : (a b : ℕ) → a ≤ b → ltb a b ≡ false → a ≡ b
    reached a b k e = ground arith

-- A key that is removed was running once.
gone :
    (key k : ℕ) (running : List ℕ)
    → is_running running k ≡ false
    → is_running (remove_key key running) k ≡ false
unfolding remove_key
gone key k [] h = refl
gone key k (r ∷ running) h = elim (Bool-cases (r == k)) [
  | inl hit ↦ absurd (cc (rw hit at h))
  | inr miss ↦ elim (Bool-cases (r == key)) [
    | inl same ↦ rw same (rw miss at h)
    | inr other ↦ rw (other, miss) (gone key k running (rw miss at h))
  ]
]

remove_key-IsOnce : (key : ℕ) (running : List ℕ) → IsOnce running → IsOnce (remove_key key running)
unfolding remove_key
remove_key-IsOnce key [] h = tt
remove_key-IsOnce key (r ∷ running) (alone, rest) = elim (Bool-cases (r == key)) [
  | inl hit ↦ rw hit rest
  | inr miss ↦ rw miss (gone key r running alone, remove_key-IsOnce key running rest)
]

length-remove_key : (key : ℕ) (running : List ℕ) → length (remove_key key running) ≤ length running
unfolding remove_key
length-remove_key key [] = omega arith
length-remove_key key (r ∷ running) = elim (Bool-cases (r == key)) [
  | inl hit ↦ rw hit (omega arith)
  | inr miss ↦ rw miss (omega (arith, length-remove_key key running))
]

abbrev IsTaken : ℕ → Entries → Option ((ℕ × List ℕ) × Entries) → Type 0
IsTaken key passes none = Unit
IsTaken key passes (some (entry, rest)) =
    (entry.0 ≡ key) × (keys_of rest ≡ remove_key key (keys_of passes))

IsTaken-put_back :
    (key : ℕ) (passes : Entries) (entry : ℕ × List ℕ) (taken : Option ((ℕ × List ℕ) × Entries))
    → (entry.0 == key) ≡ false
    → IsTaken key passes taken
    → IsTaken key (entry ∷ passes) (put_back entry taken)
unfolding remove_key
IsTaken-put_back key passes entry none miss h = tt
IsTaken-put_back key passes entry (some (found, rest)) miss (same, h) =
    (same, rw miss (ap (λ ks. entry.0 ∷ ks) h))

take_pass-IsTaken : (key : ℕ) (passes : Entries) → IsTaken key passes (take_pass key passes)
unfolding take_pass remove_key
take_pass-IsTaken key [] = tt
take_pass-IsTaken key (entry ∷ passes) = elim (Bool-cases (entry.0 == key)) [
  | inl hit ↦ rw hit (==→eq entry.0 key hit, rw hit refl)
  | inr miss ↦
      rw miss (
        IsTaken-put_back key passes entry (take_pass key passes) miss
          (take_pass-IsTaken key passes))
]

handle-IsSound : (e : Event) (s : Scheduler) → IsSound s → IsSound (handle e s)
unfolding handle
handle-IsSound (requested requests) s h = record {
  passing = h.passing;
  once = h.once;
  bounded = h.bounded;
}
handle-IsSound (ticked keys) s h = record {
  passing = h.passing;
  once = h.once;
  bounded = h.bounded;
}
handle-IsSound (ended key result) s h =
    at_end (take_pass key s.passes) (take_pass-IsTaken key s.passes)
  where
    at_end :
        (taken : Option ((ℕ × List ℕ) × Entries))
        → IsTaken key s.passes taken
        → IsSound (end_pass taken result s)
    at_end none k = h
    at_end (some (entry, rest)) (same, k) = record {
      passing =
          ap (λ ks. remove_key entry.0 ks) h.passing
          ∙ ap (λ i. remove_key i (keys_of s.passes)) same
          ∙ sym k;
      once = remove_key-IsOnce entry.0 s.running h.once;
      bounded = omega (arith, length-remove_key entry.0 s.running, h.bounded);
    }

start_pending-IsStarted : (s : Scheduler) → IsSound s → IsStarted (start_pending s)
unfolding start_pending
start_pending-IsStarted s h = start_passes-IsStarted max_concurrent_reconciles s h (omega arith)

run_events-IsStarted : (es : List Event) (s : Scheduler) → IsStarted s → IsStarted (run_events es s)
unfolding run_events
run_events-IsStarted [] s h = h
run_events-IsStarted (e ∷ es) s h =
    run_events-IsStarted es (start_pending (handle e s))
      (start_pending-IsStarted (handle e s) (handle-IsSound e s h.sound))

-- Whatever the controller is woken by, one pass at most runs for a key and sixteen at most run at once, and
-- whenever it waits, either sixteen run or every pending key is of a pass that runs: no pending key is
-- held up while there is a free slot for it.
pub run_controller-IsStarted :
    (keys : Result Error (List ℕ)) (es : List Event) → IsStarted (run_controller keys es)
unfolding run_controller
run_controller-IsStarted keys es =
    run_events-IsStarted es _
      (start_pending-IsStarted _ (record { passing = refl; once = tt; bounded = omega arith }))
