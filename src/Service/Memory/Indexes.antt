-- ===== src/Service/Memory/Indexes.antt =====
-- Creating and deleting keep the indexes of the in-memory provider in agreement:
-- sandbox/core/src/memory.rs.
use digdir_agents.Base.{
  Bool-cases, Option-cases, Str, same_text, same_text-IsEquality, get, get-insert, get-insert_here,
  get-remove_here, get-remove_other, get-insert_other, ◌≡◌, refl, sym, ap, ◌∙◌, ◌≢◌, inl, inr,
  false, Option, none, some, List,
}
use digdir_agents.Service.Model.{SandboxId, Sandbox, CreateSandboxRequest}
use digdir_agents.Service.Memory.{
  same_id, BackendState, sandbox_at, inspect_memory, created_sandbox, create_unless, create_memory,
  removed, delete_memory,
}
use digdir_agents.Service.Memory.Consistent.{
  same_id-IsEquality, IsConsistent, some-injective, Preserves,
}

-- Names and ids that read differently are different.
text_differs :
    (s t : Str) (v w : Option SandboxId) (m : List (Str × SandboxId))
    → get same_text s m ≡ v
    → get same_text t m ≡ w
    → v ≢ w
    → same_text s t ≡ false
text_differs s t v w m e f n = elim (Bool-cases (same_text s t)) [
  | inl same ↦
      absurd (n (sym e ∙ ap (λ x. get same_text x m) (same_text-IsEquality.0 s t same) ∙ f))
  | inr differs ↦ differs
]

id_differs :
    (i j : SandboxId) (v w : Option Sandbox) (m : List (SandboxId × Sandbox))
    → get same_id i m ≡ v
    → get same_id j m ≡ w
    → v ≢ w
    → same_id i j ≡ false
id_differs i j v w m e f n = elim (Bool-cases (same_id i j)) [
  | inl same ↦ absurd (n (sym e ∙ ap (λ x. get same_id x m) (same_id-IsEquality.0 i j same) ∙ f))
  | inr differs ↦ differs
]

abbrev with_created : CreateSandboxRequest → BackendState → BackendState
with_created request st = (create_unless none request st).1

created-IsConsistent :
    (request : CreateSandboxRequest) (st : BackendState)
    → sandbox_at request.id st ≡ none
    → get same_text request.name st.by_name ≡ none
    → IsConsistent st
    → IsConsistent (with_created request st)
created-IsConsistent request st fresh free c = record {
  named = λ n j h. elim (Bool-cases (same_text n request.name)) [
    | inl here ↦
        let q = some-injective (
          sym (
            get-insert_here same_text same_text-IsEquality n request.name request.id st.by_name
              here)
          ∙ h) in
        (
          created_sandbox request,
          get-insert_here same_id same_id-IsEquality j request.id _ st.by_id
              (rw (← q) (same_id-IsEquality.1 request.id)),
          sym (same_text-IsEquality.0 n request.name here),
        )
    | inr other ↦
        let (d, ed, nd) = c.named n j (
          sym (
            get-insert_other same_text same_text-IsEquality n request.name request.id st.by_name
              other)
          ∙ h) in
        let differs = id_differs j request.id (some d) none st.by_id ed fresh (λ e. cc) in
        (d, get-insert_other same_id same_id-IsEquality j request.id _ st.by_id differs ∙ ed, nd)
  ];
  identified = λ j d h. elim (Bool-cases (same_id j request.id)) [
    | inl here ↦
        let q =
          some-injective
            (sym (get-insert_here same_id same_id-IsEquality j request.id _ st.by_id here) ∙ h) in
        rw (← q, same_id-IsEquality.0 j request.id here)
          (refl, get-insert same_text same_text-IsEquality request.name request.id st.by_name)
    | inr other ↦
        let (number, name) =
          c.identified j d
            (sym (get-insert_other same_id same_id-IsEquality j request.id _ st.by_id other) ∙ h) in
        let differs =
          text_differs d.name request.name (some j) none st.by_name name free (λ e. cc) in
        (
          number,
          get-insert_other same_text same_text-IsEquality d.name request.name request.id st.by_name
                differs
              ∙ name,
        )
  ];
}

-- Creating under an id that no sandbox has.
pub create_memory-IsConsistent :
    (request : CreateSandboxRequest) (st : BackendState)
    → sandbox_at request.id st ≡ none
    → IsConsistent st
    → IsConsistent (create_memory request st).1
unfolding create_memory inspect_memory
create_memory-IsConsistent request st fresh c =
    elim (Option-cases (get same_text request.name st.by_name)) [
      | inr (id, e) ↦ rw e c
      | inl free ↦ rw free (created-IsConsistent request st fresh free c)
    ]

some_differs : (j id : SandboxId) → same_id j id ≡ false → some j ≢ some id
some_differs j id h e =
    cc (h, sym (same_id-IsEquality.1 id), ap (λ x. same_id x id) (some-injective e))

-- A sandbox of another name stands at another id.
elsewhere :
    (id j : SandboxId) (b d : Sandbox) (n : Str) (st : BackendState)
    → sandbox_at id st ≡ some b
    → sandbox_at j st ≡ some d
    → d.name ≡ n
    → same_text n b.name ≡ false
    → same_id j id ≡ false
elsewhere id j b d n st e ed nd other = id_differs j id (some d) (some b) st.by_id ed e (λ q.
    let named = sym nd ∙ ap (λ x. x.name) (some-injective q) in
    cc (other, same_text-IsEquality.1 b.name, ap (λ x. same_text x b.name) named))

pub deleted-IsConsistent :
    (id : SandboxId) (b : Sandbox) (st : BackendState)
    → sandbox_at id st ≡ some b
    → IsConsistent st
    → IsConsistent (removed id b st)
deleted-IsConsistent id b st e c = record {
  named = λ n j h. elim (Bool-cases (same_text n b.name)) [
    | inl here ↦
        absurd
          (cc (sym (get-remove_here same_text same_text-IsEquality n b.name st.by_name here) ∙ h))
    | inr other ↦
        let (d, ed, nd) =
          c.named n j
            (sym (get-remove_other same_text same_text-IsEquality n b.name st.by_name other) ∙ h) in
        let differs = elsewhere id j b d n st e ed nd other in
        (d, get-remove_other same_id same_id-IsEquality j id st.by_id differs ∙ ed, nd)
  ];
  identified = λ j d h. elim (Bool-cases (same_id j id)) [
    | inl here ↦
        absurd (cc (sym (get-remove_here same_id same_id-IsEquality j id st.by_id here) ∙ h))
    | inr other ↦
        let (number, name) =
          c.identified j d
            (sym (get-remove_other same_id same_id-IsEquality j id st.by_id other) ∙ h) in
        let differs =
          text_differs d.name b.name (some j) (some id) st.by_name name (c.identified id b e).1
            (some_differs j id other) in
        (
          number,
          get-remove_other same_text same_text-IsEquality d.name b.name st.by_name differs ∙ name,
        )
  ];
}

pub delete_memory-Preserves : (id : SandboxId) → Preserves (delete_memory id)
unfolding delete_memory
delete_memory-Preserves id st c = elim (Option-cases (sandbox_at id st)) [
  | inl none_here ↦ rw none_here c
  | inr (b, e) ↦ rw e (deleted-IsConsistent id b st e c)
]
