-- ===== src/Sessions/Completion/Settled.antt =====
-- When the wait for completion ends well: agentctl/src/sessions/service.rs.
use digdir_agents.Base.{
  ltb, Bool-cases, All, Str, Result, err, ok, ℕ, ◌≤◌, ◌<◌, ◌≡◌, refl, ap, ◌↔◌, ◌⊎◌, inl, inr, Bool,
  true, false, none, some, List, [], ◌∷◌, ◌++◌, map, arith,
}
use digdir_agents.Agents.Errors.{Error}
use digdir_agents.Sessions.Activity.{Activity}
use digdir_agents.Sessions.Model.{Session}
use digdir_agents.Sessions.Completion.{
  same_activity, Poll, polled, Awaited, larger, is_settled, settle_poll, wait_polls,
  wait_for_completion,
}

-- A poll that goes on, and that found fewer turns if the harness was not waiting.
abbrev pub IsOlder : ℕ → Poll → Type 0
IsOlder turns (err e) = true ≡ false
IsOlder turns (ok (true, a)) = Unit
IsOlder turns (ok (false, a)) = a.turns < turns

-- Two polls in a row found the harness waiting with one activity, of more turns than there were before
-- and than any earlier poll found while the harness was not waiting; and no earlier poll failed.
pub record IsCompleted (before : ℕ) (polls : List Poll) : Type 0 where
  pub front : List Poll
  pub first : Activity
  pub second : Activity
  pub back : List Poll
  pub split : polls ≡ front ++ ok (true, first) ∷ ok (true, second) ∷ back
  pub same : same_activity first second ≡ true
  pub more : before < first.turns
  pub newer : All (IsOlder first.turns) front

-- The next poll completes a wait whose last poll found the harness waiting.
abbrev Settles : Awaited → List Poll → Type 0
Settles w polls =
    (b : Activity) × (back : List Poll) × (polls ≡ ok (true, b) ∷ back)
    × (is_settled w.settling b ≡ true)

IsCompleted-cons :
    (before before' : ℕ) (poll : Poll) (polls : List Poll) (c : IsCompleted before' polls)
    → before ≤ before'
    → IsOlder c.first.turns poll
    → IsCompleted before (poll ∷ polls)
IsCompleted-cons before before' poll polls c h older = record {
  front = poll ∷ c.front;
  first = c.first;
  second = c.second;
  back = c.back;
  split = ap (λ rest. poll ∷ rest) c.split;
  same = c.same;
  more = omega (arith, c.more);
  newer = (older, c.newer);
}

same_activity-turns : (a b : Activity) → same_activity a b ≡ true → a.turns ≡ b.turns
same_activity-turns a b h = ground arith

-- A wait after a poll that is not counted.
abbrev passed : Awaited → Activity → Awaited
passed w a = record { completed_before = larger w.completed_before a.turns; settling = none }

busy_poll : (a : Activity) (w : Awaited) → settle_poll false a w ≡ some (passed w a)
unfolding settle_poll
busy_poll a w = elim (Bool-cases (ltb w.completed_before a.turns)) [
  | inl counted ↦ rw counted refl
  | inr old ↦ rw old refl
]

old_poll :
    (waiting : Bool) (a : Activity) (w : Awaited)
    → ltb w.completed_before a.turns ≡ false
    → settle_poll waiting a w ≡ some (passed w a)
unfolding settle_poll
old_poll waiting a w old = rw old refl

first_poll :
    (a : Activity) (w : Awaited)
    → ltb w.completed_before a.turns ≡ true
    → is_settled w.settling a ≡ false
    → settle_poll true a w ≡ some (record w { settling = some a })
unfolding settle_poll
first_poll a w counted unsettled = rw (counted, unsettled) refl

last_poll :
    (a : Activity) (w : Awaited)
    → ltb w.completed_before a.turns ≡ true
    → is_settled w.settling a ≡ true
    → settle_poll true a w ≡ none
unfolding settle_poll
last_poll a w counted settled = rw (counted, settled) refl

is_counted : (a b : ℕ) → a < b → ltb a b ≡ true
is_counted a b h = ground arith

larger_least : (w : Awaited) (a : Activity) → w.completed_before ≤ larger w.completed_before a.turns
larger_least w a = ground arith

larger_lower : (a b n : ℕ) → larger a b < n → (a < n) × (b < n)
larger_lower a b n h = ground arith

larger_upper : (a b n : ℕ) → a < n → b < n → larger a b < n
larger_upper a b n h k = ground arith

not_counted : (before n turns : ℕ) → ltb before n ≡ false → before < turns → n < turns
not_counted before n turns h k = ground arith

sound :
    (polls : List Poll) (w : Awaited)
    → wait_polls w polls ≡ some (ok tt)
    → Settles w polls ⊎ IsCompleted w.completed_before polls
unfolding wait_polls
sound [] w h = absurd (cc h)
sound (err e ∷ polls) w h = absurd (cc h)
sound (ok (false, a) ∷ polls) w h = elim (sound polls (passed w a) (rw (busy_poll a w) at h)) [
  | inl (b, back, e, settled) ↦ absurd (cc settled)
  | inr c ↦
      let (higher, older) = larger_lower w.completed_before a.turns c.first.turns c.more in
      inr (IsCompleted-cons w.completed_before _ _ polls c (larger_least w a) older)
]
sound (ok (true, a) ∷ polls) w h = elim (Bool-cases (ltb w.completed_before a.turns)) [
  | inr old ↦ elim (sound polls (passed w a) (rw (old_poll true a w old) at h)) [
    | inl (b, back, e, settled) ↦ absurd (cc settled)
    | inr c ↦ inr (IsCompleted-cons w.completed_before _ _ polls c (larger_least w a) tt)
  ]
  | inl counted ↦ elim (Bool-cases (is_settled w.settling a)) [
    | inl settled ↦ inl (a, polls, refl, settled)
    | inr unsettled ↦
        elim (sound polls (record w { settling = some a })
          (rw (first_poll a w counted unsettled) at h)) [
            | inl (b, back, e, settled) ↦ inr (record {
              front = [];
              first = a;
              second = b;
              back = back;
              split = ap (λ rest. ok (true, a) ∷ rest) e;
              same = settled;
              more = ground arith;
              newer = tt;
            })
            | inr c ↦
                inr (
                  IsCompleted-cons w.completed_before w.completed_before _ polls c (omega arith) tt)
          ]
  ]
]

complete :
    (front : List Poll) (a b : Activity) (back : List Poll) (w : Awaited)
    → same_activity a b ≡ true
    → w.completed_before < a.turns
    → All (IsOlder a.turns) front
    → wait_polls w (front ++ ok (true, a) ∷ ok (true, b) ∷ back) ≡ some (ok tt)
unfolding wait_polls
complete [] a b back w same more newer = elim (Bool-cases (is_settled w.settling a)) [
  | inl settled ↦ rw (last_poll a w (is_counted w.completed_before a.turns more) settled) refl
  | inr unsettled ↦
      let counted = is_counted w.completed_before a.turns more in
      let again =
        is_counted w.completed_before b.turns (omega (arith, same_activity-turns a b same)) in
      rw (first_poll a w counted unsettled, last_poll b (record w { settling = some a }) again same)
        refl
]
complete (err e ∷ front) a b back w same more newer = absurd (cc (newer.0))
complete (ok (true, c) ∷ front) a b back w same more newer =
    elim (Bool-cases (ltb w.completed_before c.turns)) [
      | inr old ↦
          let under = not_counted w.completed_before c.turns a.turns old more in
          rw (old_poll true c w old) (
            complete front a b back (passed w c) same
              (larger_upper w.completed_before c.turns a.turns more under) newer.1)
      | inl counted ↦ elim (Bool-cases (is_settled w.settling c)) [
        | inl settled ↦ rw (last_poll c w counted settled) refl
        | inr unsettled ↦
            rw (first_poll c w counted unsettled)
              (complete front a b back (record w { settling = some c }) same more newer.1)
      ]
    ]
complete (ok (false, c) ∷ front) a b back w same more newer = rw (busy_poll c w) (
    complete front a b back (passed w c) same
      (larger_upper w.completed_before c.turns a.turns more newer.0) newer.1)

-- The wait for a submitted prompt succeeds exactly when two polls in a row find the harness waiting with
-- one and the same activity, whose completed turns are more than before the prompt and more than any
-- earlier poll found while the harness was not waiting, and no earlier poll finds that the session
-- failed, was stopped or was archived, or fails itself.
pub wait_for_completion_lem :
    (name : Str) (before : ℕ) (answers : List (Result Error Session))
    → (wait_for_completion name before answers ≡ some (ok tt))
      ↔ IsCompleted before (map (polled name) answers)
unfolding wait_for_completion
wait_for_completion_lem name before answers = (only_if, if_completed)
  where
    start : Awaited
    start = record { completed_before = before; settling = none }

    only_if :
        wait_polls start (map (polled name) answers) ≡ some (ok tt)
        → IsCompleted before (map (polled name) answers)
    only_if h = elim (sound (map (polled name) answers) start h) [
      | inl (b, back, e, settled) ↦ absurd (cc settled)
      | inr c ↦ c
    ]

    if_completed :
        IsCompleted before (map (polled name) answers)
        → wait_polls start (map (polled name) answers) ≡ some (ok tt)
    if_completed c =
        rw (c.split) (complete c.front c.first c.second c.back start c.same c.more c.newer)
