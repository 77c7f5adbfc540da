-- ===== src/Agents/Validation/Defaults.antt =====
-- Which installation a session gets: agentctl/src/manifest.rs.
use digdir_agents.Base.{
  Bool-cases, All, ok, ◌≡◌, refl, sym, ◌≢◌, inl, inr, Option, some, List, [], ◌∷◌, map, arith,
}
use digdir_agents.Agents.Harness.{Harness, same_harness}
use digdir_agents.Agents.Model.{
  HarnessSpec, find_first, spec_harness, the_default, default_harness, Agent,
}
use digdir_agents.Agents.Validation.{validate_agent}
use digdir_agents.Agents.Validation.Distinct.{Distinct}
use digdir_agents.Agents.Validation.Installed.{same_harness-IsEquality}
use digdir_agents.Agents.Validation.Harnesses.{count_defaults, HasDefault}
use digdir_agents.Agents.Validation.Manifests.{validate_agent-IsManifest}

abbrev find_kind : Harness → List HarnessSpec → Option HarnessSpec
find_kind kind hs = find_first (λ h. same_harness h.kind kind) hs

-- An installation of another kind in front does not hide any.
behind :
    (x : HarnessSpec) (ys hs : List HarnessSpec)
    → All (λ kind. kind ≢ x.kind) (map (λ h. h.kind) hs)
    → All (λ h. find_kind h.kind ys ≡ some h) hs
    → All (λ h. find_kind h.kind (x ∷ ys) ≡ some h) hs
behind x ys [] apart found = tt
behind x ys (h ∷ hs) apart found = (
  elim (Bool-cases (same_harness x.kind h.kind)) [
    | inl e ↦ absurd (apart.0 (sym (same_harness-IsEquality.0 x.kind h.kind e)))
    | inr e ↦ rw (e, found.0) refl
  ],
  behind x ys hs apart.1 found.1,
)

each_found :
    (hs : List HarnessSpec)
    → Distinct (map (λ h. h.kind) hs)
    → All (λ h. find_kind h.kind hs ≡ some h) hs
each_found [] d = tt
each_found (h ∷ hs) d =
    (rw (same_harness-IsEquality.1 h.kind) refl, behind h hs hs d.0 (each_found hs d.1))

default_found :
    (hs : List HarnessSpec)
    → count_defaults hs ≢ 0
    → (h : HarnessSpec) × (find_first (λ h. h.default) hs ≡ some h)
unfolding count_defaults
default_found [] some_default = absurd (some_default refl)
default_found (h ∷ hs) some_default = elim (Bool-cases h.default) [
  | inl e ↦ (h, rw e refl)
  | inr e ↦
      let (d, found) = default_found hs (λ z. some_default (ground (arith, e, z))) in
      (d, rw (e, found) refl)
]

the_default_found :
    (hs : List HarnessSpec)
    → hs ≢ []
    → HasDefault hs
    → (h : HarnessSpec) × (the_default hs ≡ some h)
the_default_found [] filled d = absurd (filled refl)
the_default_found (h ∷ []) filled d = (h, refl)
the_default_found (h ∷ k ∷ hs) filled (inl one) = absurd (omega (arith, one))
the_default_found (h ∷ k ∷ hs) filled (inr one) =
    default_found (h ∷ k ∷ hs) (λ none'. omega (arith, one, none'))

-- An accepted manifest has an installation for a session that asks for no harness, and each of its
-- installations is the one that its kind is looked up as.
pub validate_agent-default_harness :
    (agent : Agent)
    → validate_agent agent ≡ ok tt
    → ((h : HarnessSpec) × (default_harness agent.spec ≡ some h))
      × All (λ h. spec_harness h.kind agent.spec ≡ some h) agent.spec.harnesses
unfolding default_harness spec_harness
validate_agent-default_harness agent e =
    let harnesses = ((validate_agent-IsManifest agent).0 e).spec.harnesses in
    (
      the_default_found agent.spec.harnesses harnesses.installed harnesses.default_one,
      each_found agent.spec.harnesses harnesses.kinds,
    )
