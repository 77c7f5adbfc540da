-- ===== src/Sessions/Effects.antt =====
-- What a pass of the session reconciler calls: agentctl/src/sessions/runtime/mod.rs and
-- agentctl/src/sessions/sandboxes.rs. The session runtime and the sandbox service are an interface. Their
-- calls are given the database too: other tasks run while they are awaited, and may change it.
use digdir_agents.Base.{Str, Result, err, ok, ℕ, String, Bool, Option, List, ◌∷◌}
use digdir_agents.Agents.Errors.{Error}
use digdir_agents.Agents.Model.{AgentRecord}
use digdir_agents.Service.{SandboxState}
use digdir_agents.Sessions.Model.{Session}
use digdir_agents.Persistence.Rows.{Db, Call}

-- `Observation`.
pub data Observation : Type 0 where
  missing : Observation
  alive : (attached : Bool) (idle_seconds : ℕ) → Observation

-- What is read of a `SandboxHandle`: of its snapshot, the id, the state and the platform's system.
pub record SandboxHandle : Type 0 where
  pub id : ℕ
  pub state : SandboxState
  pub os : String

-- The calls of `SessionRuntime` that a pass makes, and `AgentSandboxes::open`; the clock, and the UUIDs
-- that are drawn for a launch and for a report.
pub record SessionRuntime (R : Type 0) : Type 0 where
  pub open_sandbox : AgentRecord → Db × R → Result Error SandboxHandle × Db × R
  pub observe : Session → SandboxHandle → Db × R → Result Error Observation × Db × R
  pub start :
      Session
      → SandboxHandle
      → (agent : AgentRecord) → (token : ℕ) → (resume initial_prompt : Option Str) → Db × R
      → Result Error (Unit {0}) × Db × R
  pub stop : Session → SandboxHandle → Db × R → Result Error (Unit {0}) × Db × R
  pub input_ready : Session → SandboxHandle → Db × R → Result Error Bool × Db × R
  pub now : R → ℕ
  pub uuid : R → ℕ

-- What the runtime was asked to do.
pub data RuntimeCall : Type 0 where
  opened observed_call ready_call stopped_call : RuntimeCall
  started_call : (token : ℕ) (resume initial_prompt : Option Str) → RuntimeCall

-- The database, the runtime's world, and the calls so far, the latest first.
pub record World (R : Type 0) : Type 0 where
  pub db : Db
  pub env : R
  pub calls : List RuntimeCall

-- A step: it changes the world, whether it fails or not.
abbrev pub Step : Type 0 → Type 0 → Type 0
Step R A = World R → Result Error A × World R

unfoldable pub and_then :
    {R A B : Type 0} → Result Error A × World R → (A → Step R B) → Result Error B × World R
and_then (err e, w) next = (err e, w)
and_then (ok a, w) next = next a w

infixl 5 ◌>>=◌ ◌>>◌
unfoldable pub ◌>>=◌ : {R A B : Type 0} → Step R A → (A → Step R B) → Step R B
(step >>= next) w = and_then (step w) next

unfoldable pub ◌>>◌ : {R B : Type 0} → Step R (Unit {0}) → Step R B → Step R B
step >> next = step >>= λ _. next

unfoldable pub lift : {R A : Type 0} → Result Error A → Step R A
lift r w = (r, w)

-- The result of a step as a value, for a `match` on it.
unfoldable pub attempt : {R A : Type 0} → Step R A → Step R (Result Error A)
attempt step w = let (r, w') = step w in (ok r, w')

-- The database's calls.
unfoldable pub read : {R A : Type 0} → (Db → Result Error A) → Step R A
read query w = (query w.db, w)

unfoldable pub write : {R A : Type 0} → Call A → Step R A
write call w = let (r, db) = call w.db in (r, record w { db = db })

unfoldable pub with_env : {R A : Type 0} → (R → A) → Step R A
with_env f w = (ok (f w.env), w)

-- A call of the runtime.
unfoldable pub ask : {R A : Type 0} → RuntimeCall → (Db × R → Result Error A × Db × R) → Step R A
ask call f w =
    let (r, db, env) = f (w.db, w.env) in (r, record { db = db; env = env; calls = call ∷ w.calls })
