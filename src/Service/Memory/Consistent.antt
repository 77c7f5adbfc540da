-- ===== src/Service/Memory/Consistent.antt =====
-- The two indexes of the in-memory provider agree, whatever operations run: sandbox/core/src/memory.rs.
use digdir_agents.Base.{
  ==→eq, Bool-cases, Option-cases, Str, same_text, IsEquality, get, insert, get-insert_here,
  get-insert_other, Result, err, ok, ◌≡◌, refl, sym, ap, ◌∙◌, inl, inr, some, arith,
}
use digdir_agents.Service.{SandboxState, stopped, running, same_mode, is_stopped}
use digdir_agents.Service.Errors.{Error}
use digdir_agents.Service.Model.{SandboxId, SandboxResources, Environment, Sandbox}
use digdir_agents.Service.Effects.{Effect, and_then, ◌>>=◌}
use digdir_agents.Service.Memory.{
  same_id, BackendState, sandbox_at, change_found, change_sandbox, with_resources,
  update_resources_memory, with_environment, update_environment_memory, with_state, set_state,
  stop_memory,
}

pub same_id-IsEquality : IsEquality same_id
same_id-IsEquality = ((λ a b e. ==→eq a b e), λ a. ground arith)

-- Every name leads to a sandbox that bears it, and every sandbox bears its id and is found by its
-- name.
pub record IsConsistent (st : BackendState) : Type 0 where
  pub named :
      (name : Str) (id : SandboxId)
      → get same_text name st.by_name ≡ some id
      → (b : Sandbox) × (sandbox_at id st ≡ some b) × (b.name ≡ name)
  pub identified :
      (id : SandboxId) (b : Sandbox)
      → sandbox_at id st ≡ some b
      → (b.id ≡ id) × (get same_text b.name st.by_name ≡ some id)

-- A state as consistent as another, when only the other parts differ.
pub same_indexes :
    (st st' : BackendState)
    → st'.by_id ≡ st.by_id
    → st'.by_name ≡ st.by_name
    → IsConsistent st
    → IsConsistent st'
same_indexes st st' e f c = record {
  named = λ name id h. rw e (c.named name id (rw f at h));
  identified = λ id b h. rw f (c.identified id b (rw e at h));
}

-- What keeps a sandbox's place: its id and its name.
abbrev pub Keeps : (Sandbox → Result Error Sandbox) → Type 0
Keeps change = (b b' : Sandbox) → change b ≡ ok b' → (b'.id ≡ b.id) × (b'.name ≡ b.name)

pub some-injective : {A : Type 0} {a b : A} → some a ≡ some b → a ≡ b
some-injective h = cc

pub ok-injective : {A : Type 0} {a b : A} → ◌≡◌ {A = Result Error A} (ok a) (ok b) → a ≡ b
ok-injective h = cc

-- One sandbox changed in its place.
replaced :
    (st : BackendState) (id : SandboxId) (b b' : Sandbox)
    → IsConsistent st
    → sandbox_at id st ≡ some b
    → b'.id ≡ b.id
    → b'.name ≡ b.name
    → IsConsistent (record st { by_id = insert same_id id b' st.by_id })
replaced st id b b' c e same_number same_name = record {
  named = λ name j h.
      let (d, ed, nd) = c.named name j h in
      elim (Bool-cases (same_id j id)) [
        | inl here ↦
            let p = ==→eq j id here in
            let q = some-injective (sym e ∙ (rw p at ed)) in
            (
              b',
              get-insert_here same_id same_id-IsEquality j id b' st.by_id here,
              same_name ∙ ap (λ x. x.name) q ∙ nd,
            )
        | inr other ↦
            (d, get-insert_other same_id same_id-IsEquality j id b' st.by_id other ∙ ed, nd)
      ];
  identified = λ j d h. elim (Bool-cases (same_id j id)) [
    | inl here ↦
        let p = ==→eq j id here in
        let q =
          some-injective
            (sym (get-insert_here same_id same_id-IsEquality j id b' st.by_id here) ∙ h) in
        let (number, name) = c.identified id b e in
        rw (← q, p, same_number, same_name) (number, name)
    | inr other ↦
        c.identified j d
          (sym (get-insert_other same_id same_id-IsEquality j id b' st.by_id other) ∙ h)
  ];
}

-- What an operation leaves consistent.
abbrev pub Preserves : {A : Type 0} → Effect BackendState A → Type 0
Preserves call = (st : BackendState) → IsConsistent st → IsConsistent (call st).1

pub change_sandbox-Preserves :
    (id : SandboxId) (change : Sandbox → Result Error Sandbox)
    → Keeps change
    → Preserves (change_sandbox id change)
unfolding change_sandbox
change_sandbox-Preserves id change keeps st c = elim (Option-cases (sandbox_at id st)) [
  | inl none_here ↦ rw none_here c
  | inr (b, e) ↦ rw e (changed b e (change b) refl)
]
  where
    changed :
        (b : Sandbox)
        → sandbox_at id st ≡ some b
        → (r : Result Error Sandbox) → change b ≡ r
        → IsConsistent (change_found (some b) id change st).1
    changed b e (err x) h = rw (h, change_found) c
    changed b e (ok b') h =
        rw (h, change_found) (replaced st id b b' c e (keeps b b' h).0 (keeps b b' h).1)

-- A chain of operations that keep the state consistent.
pub chain-Preserves :
    {A B : Type 0} (first : Effect BackendState A) (next : A → Effect BackendState B)
    → Preserves first
    → ((a : A) → Preserves (next a))
    → Preserves (first >>= next)
chain-Preserves {A = A} {B = B} first next h k st c = go (first st) (h st c)
  where
    go : (r : Result Error A × BackendState) → IsConsistent r.1 → IsConsistent (and_then r next).1
    go (ok a, w) c' = k a w c'
    go (err e, w) c' = c'

with_state-Keeps : (state : SandboxState) → Keeps (λ b. ok (with_state state b))
with_state-Keeps stopped b b' h =
    (ap (λ x. x.id) (sym (ok-injective h)), ap (λ x. x.name) (sym (ok-injective h)))
with_state-Keeps running b b' h =
    (ap (λ x. x.id) (sym (ok-injective h)), ap (λ x. x.name) (sym (ok-injective h)))

pub set_state-Preserves : (id : SandboxId) (state : SandboxState) → Preserves (set_state id state)
unfolding set_state
set_state-Preserves id state =
    chain-Preserves (change_sandbox id (λ b. ok (with_state state b))) _
      (change_sandbox-Preserves id _ (with_state-Keeps state)) (λ b st c. c)

pub stop_memory-Preserves : (id : SandboxId) → Preserves (stop_memory id)
unfolding stop_memory
stop_memory-Preserves id =
    chain-Preserves (set_state id stopped) _ (set_state-Preserves id stopped)
      (λ _ st c. same_indexes st _ refl refl c)

with_resources-Keeps : (resources : SandboxResources) → Keeps (with_resources resources)
with_resources-Keeps resources b b' h =
    elim (Bool-cases (same_mode b.resources.root_filesystem.mode resources.root_filesystem.mode)) [
      | inl e ↦ let q = sym (ok-injective (rw e at h)) in (ap (λ x. x.id) q, ap (λ x. x.name) q)
      | inr e ↦ cc (rw e at h)
    ]

with_environment-Keeps : (environment : Environment) → Keeps (with_environment environment)
with_environment-Keeps environment b b' h = elim (Bool-cases (is_stopped b.state)) [
  | inl e ↦ let q = sym (ok-injective (rw e at h)) in (ap (λ x. x.id) q, ap (λ x. x.name) q)
  | inr e ↦ cc (rw e at h)
]

pub update_resources_memory-Preserves :
    (id : SandboxId) (resources : SandboxResources)
    → Preserves (update_resources_memory id resources)
unfolding update_resources_memory
update_resources_memory-Preserves id resources =
    change_sandbox-Preserves id _ (with_resources-Keeps resources)

pub update_environment_memory-Preserves :
    (id : SandboxId) (environment : Environment)
    → Preserves (update_environment_memory id environment)
unfolding update_environment_memory
update_environment_memory-Preserves id environment =
    change_sandbox-Preserves id _ (with_environment-Keeps environment)
