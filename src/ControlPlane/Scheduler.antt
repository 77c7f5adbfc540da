-- ===== src/ControlPlane/Scheduler.antt =====
-- The scheduling of reconciliations: the controller of agentctl/src/controller.rs. A key is a number, a
-- waiter the number of its channel, an ordered map the list of its entries, and an event what one turn of
-- the loop wakes up for.
pub mod Rounds
pub mod Slots
pub mod Keys
pub mod Answers
use digdir_agents.Base.{
  ltb, ◌==◌, if◌then◌else◌, length, any, Result, err, ok, ℕ, zero, suc, Bool, true, false, Option,
  none, some, List, [], ◌∷◌, ◌++◌, map,
}
use digdir_agents.Agents.Errors.{Error}
use digdir_agents.ControlPlane.Failures.{ReconcileFailure, classify}

abbrev pub max_concurrent_reconciles : ℕ
max_concurrent_reconciles = 16

pub record Request : Type 0 where
  pub key : ℕ
  pub response : Option ℕ

-- Keys with those who wait for them.
abbrev pub Entries : Type 0
Entries = List (ℕ × List ℕ)

-- `entry(key).or_default()`, and the waiters that are pushed there.
unfoldable pub add_to : ℕ → List ℕ → Entries → Entries
add_to key waiters [] = (key, waiters) ∷ []
add_to key waiters ((k, ws) ∷ entries) =
    let later = add_to key waiters entries in
    if key == k
    then (k, ws ++ waiters) ∷ entries
    else if ltb key k
    then (key, waiters) ∷ (k, ws) ∷ entries
    else (k, ws) ∷ later

abbrev pub waiters_of : Option ℕ → List ℕ
waiters_of none = []
waiters_of (some waiter) = waiter ∷ []

-- `enqueue`, of each request that was received.
unfoldable pub enqueue : List Request → Entries → Entries
enqueue [] pending = pending
enqueue (r ∷ requests) pending = enqueue requests (add_to r.key (waiters_of r.response) pending)

-- The loop of `enqueue_all`.
unfoldable pub enqueue_keys : List ℕ → Entries → Entries
enqueue_keys [] pending = pending
enqueue_keys (key ∷ keys) pending = enqueue_keys keys (add_to key [] pending)

-- `enqueue_all`, with what `list_keys` returned.
abbrev pub enqueue_all : Result Error (List ℕ) → Entries → Entries
enqueue_all (ok keys) pending = enqueue_keys keys pending
enqueue_all (err e) pending = pending

-- What the loop keeps, the responses that it has sent among it.
pub record Scheduler : Type 0 where
  pub pending : Entries
  pub running : List ℕ
  pub passes : Entries
  pub sent : List (ℕ × Result ReconcileFailure (Unit {0}))

abbrev pub is_running : List ℕ → ℕ → Bool
is_running running key = any (λ k. k == key) running

abbrev pub put_back : ℕ × List ℕ → Option ((ℕ × List ℕ) × Entries) → Option ((ℕ × List ℕ) × Entries)
put_back entry none = none
put_back entry (some (found, rest)) = some (found, entry ∷ rest)

-- The first key that is not running, taken out of the map.
unfoldable pub take_next : List ℕ → Entries → Option ((ℕ × List ℕ) × Entries)
take_next running [] = none
take_next running (entry ∷ entries) =
    let later = put_back entry (take_next running entries) in
    if is_running running entry.0 then later else some (entry, entries)

abbrev pub start_next :
    Option ((ℕ × List ℕ) × Entries) → Scheduler → (Scheduler → Scheduler) → Scheduler
start_next none s more = s
start_next (some (entry, rest)) s more =
    more (record s { pending = rest; running = entry.0 ∷ s.running; passes = entry ∷ s.passes })

abbrev pub start_if : Bool → Scheduler → (Scheduler → Scheduler) → Scheduler
start_if true s more = start_next (take_next s.running s.pending) s more
start_if false s more = s

-- The loop of `start_pending`, so many times at most.
unfoldable pub start_passes : ℕ → Scheduler → Scheduler
start_passes zero s = s
start_passes (suc n) s =
    start_if (ltb (length s.running) max_concurrent_reconciles) s (λ s'. start_passes n s')

-- `start_pending`: each time round the loop another key runs.
unfoldable pub start_pending : Scheduler → Scheduler
start_pending s = start_passes max_concurrent_reconciles s

pub data Event : Type 0 where
  -- The request that was received, with those that `try_recv` finds behind it.
  requested : List Request → Event
  -- The ticker, with what the keys' source answers.
  ticked : Result Error (List ℕ) → Event
  -- A pass that ended.
  ended : (key : ℕ) (result : Result Error (Unit {0})) → Event

unfoldable pub take_pass : ℕ → Entries → Option ((ℕ × List ℕ) × Entries)
take_pass key [] = none
take_pass key (entry ∷ entries) =
    let later = put_back entry (take_pass key entries) in
    if entry.0 == key then some (entry, entries) else later

-- `BTreeSet::remove`.
unfoldable pub remove_key : ℕ → List ℕ → List ℕ
remove_key key [] = []
remove_key key (k ∷ running) =
    let later = remove_key key running in if k == key then running else k ∷ later

abbrev pub response_of : Result Error (Unit {0}) → Result ReconcileFailure (Unit {0})
response_of (ok done) = ok tt
response_of (err e) = err (classify e)

abbrev pub respond :
    Result ReconcileFailure (Unit {0}) → List ℕ → List (ℕ × Result ReconcileFailure (Unit {0}))
respond response waiters = map (λ waiter. (waiter, response)) waiters

-- The set of futures yields no pass that it does not hold.
abbrev pub end_pass :
    Option ((ℕ × List ℕ) × Entries) → Result Error (Unit {0}) → Scheduler → Scheduler
end_pass none result s = s
end_pass (some (entry, rest)) result s = record s {
  running = remove_key entry.0 s.running;
  passes = rest;
  sent = respond (response_of result) entry.1 ++ s.sent;
}

-- The arms of the loop's `select!`.
unfoldable pub handle : Event → Scheduler → Scheduler
handle (requested requests) s = record s { pending = enqueue requests s.pending }
handle (ticked keys) s = record s { pending = enqueue_all keys s.pending }
handle (ended key result) s = end_pass (take_pass key s.passes) result s

-- `run`: the loop starts what is pending before it waits.
unfoldable pub run_events : List Event → Scheduler → Scheduler
run_events [] s = s
run_events (e ∷ es) s = run_events es (start_pending (handle e s))

unfoldable pub run_controller : Result Error (List ℕ) → List Event → Scheduler
run_controller keys es =
    run_events es (
      start_pending
        (record { pending = enqueue_all keys []; running = []; passes = []; sent = [] }))
