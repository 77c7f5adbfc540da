-- ===== src/Service/Memory/Ensured.antt =====
-- Each part of ensuring a sandbox of the in-memory provider, without a network backend:
-- sandbox/core/src/{service,memory}.rs.
use digdir_agents.Base.{Bool-cases, Str, get-insert, String, ◌≡◌, refl, inl, inr, true, List, ◌∷◌}
use digdir_agents.Service.{stopped, running, same_mode}
use digdir_agents.Progress.{sandbox_start, inspect, Outcome, completed, reused}
use digdir_agents.Service.Errors.{Platform}
use digdir_agents.Service.Images.{ResolveRequest}
use digdir_agents.Service.Model.{
  SandboxId, SandboxResources, same_resources, Environment, same_environment, Sandbox,
}
use digdir_agents.Service.Effects.{
  Report, phase_began, phase_over, step_began, step_completed, World,
}
use digdir_agents.Service.Interfaces.{SandboxService}
use digdir_agents.Service.Ensure.{
  ensure_running, stop_for_update, update_environment, ensure_environment, update_resources,
  ensure_resources,
}
use digdir_agents.Service.Sameness.{same_environment-Sound, same_resources-Sound}
use digdir_agents.Service.Memory.{same_id, BackendState, with_state}
use digdir_agents.Service.Memory.Provider.{memory_service}
use digdir_agents.Service.Memory.Consistent.{same_id-IsEquality}
use digdir_agents.Service.Memory.Lifecycle.{
  stopped_in, stop_memory-found, set_state-running, tests_running, tests_stopped, no_network,
}
use digdir_agents.Service.Memory.Owned.{
  IsOwned, Ends, put_at, put-IsOwned, stopped-IsOwned, inspect_memory-found,
  update_environment_memory-found, update_resources_memory-found, State-cases,
}

abbrev started_reports : Outcome → List Report → List Report
started_reports outcome reports =
    phase_over inspect completed
    ∷ phase_began inspect
    ∷ phase_over sandbox_start outcome
    ∷ phase_began sandbox_start
    ∷ reports

abbrev step_reports : String → List Report → List Report
step_reports name reports = step_completed name ∷ step_began name ∷ reports

module _ (supported : List Platform) (digest : ResolveRequest → Str)
    (draw : BackendState → SandboxId) where
  abbrev s : SandboxService BackendState
  s = memory_service supported digest draw

  pub ensure_running-Ends :
      (name : Str) (b : Sandbox) (w : World BackendState)
      → IsOwned name b w.components
      → Ends
          (ensure_running s b w)
          (λ a. a)
          name
          (λ a. (a.state ≡ running) × (a.environment ≡ b.environment) × (a.resources ≡ b.resources))
  unfolding ensure_running
  ensure_running-Ends name b w o = elim (State-cases b.state) [
    | inl stops ↦
        let b' = with_state running b in
        let at = get-insert same_id same_id-IsEquality b.id b' w.components.by_id in
        (
          b',
          record w {
            components = put_at b.id b' w.components;
            reports = started_reports completed w.reports;
          },
          rw
              (
                no_network b.network o.detached,
                (tests_stopped stops).0,
                set_state-running b.id b w.components o.stands,
                inspect_memory-found b.id b' (put_at b.id b' w.components) at,
              )
              refl,
          put-IsOwned name b b' w.components o refl refl refl,
          (refl, refl, refl),
        )
    | inr runs ↦ (
      b,
      record w { reports = started_reports reused w.reports },
      rw
          (
            no_network b.network o.detached,
            (tests_running runs).0,
            inspect_memory-found b.id b w.components o.stands,
          )
          refl,
      o,
      (runs, refl, refl),
    )
  ]

  pub ensure_resources-Ends :
      (name : Str) (b : Sandbox) (resources : SandboxResources) (w : World BackendState)
      → IsOwned name b w.components
      → same_mode b.resources.root_filesystem.mode resources.root_filesystem.mode ≡ true
      → Ends
          (ensure_resources s b resources w)
          (λ a. a.0)
          name
          (λ a. (a.resources ≡ resources) × (a.environment ≡ b.environment))
  unfolding ensure_resources update_resources
  ensure_resources-Ends name b resources w o mode =
      elim (Bool-cases (same_resources b.resources resources)) [
        | inl same ↦ (
          (b, reused),
          w,
          rw same refl,
          o,
          (same_resources-Sound b.resources resources same, refl),
        )
        | inr differ ↦ (
          (record b { resources = resources }, completed),
          record w {
            components = put_at b.id (record b { resources = resources }) w.components;
            reports = step_reports "Update sandbox resources" w.reports;
          },
          rw (differ, update_resources_memory-found b.id b resources w.components o.stands mode)
              refl,
          put-IsOwned name b (record b { resources = resources }) w.components o refl refl refl,
          (refl, refl),
        )
      ]

  pub ensure_environment-Ends :
      (name : Str) (b : Sandbox) (environment : Environment) (w : World BackendState)
      → IsOwned name b w.components
      → Ends
          (ensure_environment s b environment w)
          (λ a. a.0)
          name
          (λ a. (a.environment ≡ environment) × (a.resources ≡ b.resources))
  unfolding ensure_environment update_environment stop_for_update
  ensure_environment-Ends name b environment w o =
      elim (Bool-cases (same_environment b.environment environment)) [
        | inl same ↦ (
          (b, reused),
          w,
          rw same refl,
          o,
          (same_environment-Sound b.environment environment same, refl),
        )
        | inr differ ↦ elim (State-cases b.state) [
          | inl stops ↦ (
            (record b { environment = environment }, completed),
            record w {
              components = put_at b.id (record b { environment = environment }) w.components;
              reports = step_reports "Update sandbox environment" w.reports;
            },
            rw
                (
                  differ,
                  (tests_stopped stops).1,
                  update_environment_memory-found b.id b environment w.components o.stands stops,
                )
                refl,
            put-IsOwned name b (record b { environment = environment }) w.components o refl refl
                refl,
            (refl, refl),
          )
          | inr runs ↦
              let st' = stopped_in b.id b w.components in
              let b' = with_state stopped b in
              let at = get-insert same_id same_id-IsEquality b.id b' w.components.by_id in
              (
                (record b' { environment = environment }, completed),
                record w {
                  components = put_at b.id (record b' { environment = environment }) st';
                  reports = step_reports "Update sandbox environment" w.reports;
                },
                rw
                    (
                      differ,
                      (tests_running runs).1,
                      stop_memory-found b.id b w.components o.stands,
                      no_network b.network o.detached,
                      update_environment_memory-found b.id b' environment st' at refl,
                    )
                    refl,
                put-IsOwned name b' (record b' { environment = environment }) st'
                    (stopped-IsOwned name b w.components o) refl refl refl,
                (refl, refl),
              )
        ]
      ]
