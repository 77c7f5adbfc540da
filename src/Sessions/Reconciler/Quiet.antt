-- ===== src/Sessions/Reconciler/Quiet.antt =====
-- Steps that start no harness: agentctl/src/sessions/reconciler.rs.
use digdir_agents.Base.{
  if◌then◌else◌, Result, err, ok, ℕ, ◌+◌, ◌≡◌, refl, ◌∙◌, Bool, true, false, List, [], ◌∷◌, arith,
}
use digdir_agents.Agents.Errors.{Error}
use digdir_agents.Sessions.Effects.{
  RuntimeCall, World, Step, and_then, ◌>>=◌, ◌>>◌, lift, attempt, read, write, with_env, ask,
}
use digdir_agents.Persistence.Rows.{Db, Call}

-- The calls of one kind among those that were made.
abbrev pub count_calls : (RuntimeCall → Bool) → List RuntimeCall → ℕ
count_calls p [] = 0
count_calls p (c ∷ cs) = (if p c then 1 else 0) + count_calls p cs

-- A step that makes no call of the kind.
pub data IsQuiet {R A : Type 0} (p : RuntimeCall → Bool) (m : Step R A) : Type 0 where
  quiet : ((w : World R) → count_calls p (m w).1.calls ≡ count_calls p w.calls) → IsQuiet p m

pub quiet_calls :
    {R A : Type 0} {p : RuntimeCall → Bool} {m : Step R A} (w : World R)
    → IsQuiet p m
    → count_calls p (m w).1.calls ≡ count_calls p w.calls
quiet_calls w (quiet h) = h w

module _ {R : Type 0} (p : RuntimeCall → Bool) where
  and_then-calls :
      {A B : Type 0} (r : Result Error A × World R) (f : A → Step R B)
      → ((a : A) → IsQuiet p (f a))
      → count_calls p (and_then r f).1.calls ≡ count_calls p r.1.calls
  unfolding and_then
  and_then-calls (err e, w) f h = refl
  and_then-calls (ok a, w) f h = quiet_calls w (h a)

  pub bind-IsQuiet :
      {A B : Type 0} (m : Step R A) (f : A → Step R B)
      → IsQuiet p m
      → ((a : A) → IsQuiet p (f a))
      → IsQuiet p (m >>= f)
  unfolding ◌>>=◌
  bind-IsQuiet m f h k = quiet (λ w. and_then-calls (m w) f k ∙ quiet_calls w h)

  -- Behind a step, what is quiet adds no call.
  pub bind-calls :
      {A B : Type 0} (m : Step R A) (f : A → Step R B)
      → ((a : A) → IsQuiet p (f a))
      → (w : World R) → count_calls p ((m >>= f) w).1.calls ≡ count_calls p (m w).1.calls
  unfolding ◌>>=◌
  bind-calls m f k w = and_then-calls (m w) f k

  pub then-IsQuiet :
      {B : Type 0} (m : Step R (Unit {0})) (k : Step R B)
      → IsQuiet p m
      → IsQuiet p k
      → IsQuiet p (m >> k)
  unfolding ◌>>◌
  then-IsQuiet m k h j = bind-IsQuiet m (λ _. k) h (λ _. j)

  pub lift-IsQuiet : {A : Type 0} (r : Result Error A) → IsQuiet p (lift {R = R} r)
  unfolding lift
  lift-IsQuiet r = quiet (λ w. refl)

  pub attempt-IsQuiet : {A : Type 0} (m : Step R A) → IsQuiet p m → IsQuiet p (attempt m)
  unfolding attempt
  attempt-IsQuiet m h = quiet (λ w. quiet_calls w h)

  pub read-IsQuiet : {A : Type 0} (query : Db → Result Error A) → IsQuiet p (read {R = R} query)
  unfolding read
  read-IsQuiet query = quiet (λ w. refl)

  pub write-IsQuiet : {A : Type 0} (call : Call A) → IsQuiet p (write {R = R} call)
  unfolding write
  write-IsQuiet call = quiet (λ w. refl)

  pub with_env-IsQuiet : {A : Type 0} (f : R → A) → IsQuiet p (with_env f)
  unfolding with_env
  with_env-IsQuiet f = quiet (λ w. refl)

  pub ask-IsQuiet :
      {A : Type 0} (call : RuntimeCall) (f : Db × R → Result Error A × Db × R)
      → p call ≡ false
      → IsQuiet p (ask call f)
  unfolding ask
  ask-IsQuiet call f h = quiet (λ w. rw h (omega arith))

  pub if-IsQuiet :
      {A : Type 0} (b : Bool) (m k : Step R A)
      → IsQuiet p m
      → IsQuiet p k
      → IsQuiet p (if b then m else k)
  if-IsQuiet true m k h j = h
  if-IsQuiet false m k h j = j

pub ruleset quiet_steps = (
  bind-IsQuiet, then-IsQuiet, lift-IsQuiet, attempt-IsQuiet, read-IsQuiet, write-IsQuiet,
  with_env-IsQuiet, ask-IsQuiet, if-IsQuiet,
)
