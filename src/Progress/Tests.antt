-- ===== src/Progress/Tests.antt =====
-- A build that is watched by an observer: tests of the model of
-- sandbox/core/src/progress/fold.rs, and its theorems at this input.
use digdir_agents.Base.{leb, filter_by, ℕ, ◌+◌, ◌*◌, ◌≡◌, refl, none, some, List, [], ◌∷◌, map}
use digdir_agents.Text.{
  utf8_len, text_len, lead_byte, feed, finish, decode, from_utf8_lossy, is_whitespace, trim_start,
  trim_end,
}
use digdir_agents.Progress.{
  Phase, reused, ProgressUnit, stdout, phase_started, step_started, step_output, step_ended,
}
use digdir_agents.Progress.Output.{
  Key, entry, without, first_sequence, make_room, push_text, push, append_byte, append_bytes,
  append, flush_key, flush_keys, flush,
}
use digdir_agents.Progress.Output.Flush.{IsListing}
use digdir_agents.Progress.State.{succeeded, Progress, new}
use digdir_agents.Progress.Steps.{find_step, end_step, start_step}
use digdir_agents.Progress.Fold.{succeed, start_phase, apply}
use digdir_agents.Progress.Fold.Accounting.{accounted_phases}
use digdir_agents.Progress.Fold.Order.{Rising}
use digdir_agents.Progress.Run.{
  Events, phases_started, run_from, run, run-IsValid, run-IsOrdered, steps_started, run-succeed,
}
use digdir_agents.Progress.Cursor.{start, rewound, first_unseen, updates}
use digdir_agents.Progress.Cursor.Output.{lines_of, covered, updates_output}
use digdir_agents.Progress.Cursor.Order.{marks}
use digdir_agents.Progress.Cursor.InOrder.{updates_in_order}
use digdir_agents.Progress.Fold.Names.{finished_names}
use digdir_agents.Progress.Fold.Bounds

abbrev in_order : List Key → List Key
in_order ks = ks

in_order-IsListing : IsListing in_order
in_order-IsListing k ks h = h

abbrev building : Phase
building = record { id = "imagePrepare"; label = "Prepare sandbox image" }

-- "ok", a newline and "part".
abbrev some_bytes : List ℕ
some_bytes = b'o' ∷ b'k' ∷ 0x0a ∷ b'p' ∷ b'a' ∷ b'r' ∷ b't' ∷ []

abbrev build : Events
build =
    (1000000, phase_started building)
    ∷ (2000000, step_started 7 "Build" (some ProgressUnit.bytes) none)
    ∷ (3000000, step_output 7 stdout some_bytes)
    ∷ (4000000, step_started 8 "Export" none none)
    ∷ (5000000, step_ended 7 reused 3000000)
    ∷ []

abbrev built : Progress
built = run in_order build

run-IsValid_example : Bounds.IsValid (run in_order build)
run-IsValid_example = run-IsValid in_order build

run-succeed_example :
    (finished_names (succeed in_order 9000000 (run in_order build)).finished ≡ phases_started build)
    × (accounted_phases (succeed in_order 9000000 (run in_order build)).finished
        ≡ steps_started in_order build new)
    × ((succeed in_order 9000000 (run in_order build)).current ≡ none)
    × ((succeed in_order 9000000 (run in_order build)).output.partial ≡ [])
    × ((succeed in_order 9000000 (run in_order build)).status ≡ succeeded)
run-succeed_example = run-succeed in_order build 9000000 in_order-IsListing

updates_output_example :
    (lines_of (updates start built).1
      ≡ filter_by
          (λ l.
            leb
              (first_unseen (rewound start built).output (first_sequence built.output))
              l.sequence)
          built.output.lines)
    × (covered (updates start built).1 + (rewound start built).output ≡ built.output.next_sequence)
    × ((updates start built).0.output ≡ built.output.next_sequence)
updates_output_example = updates_output start built (run-IsValid in_order build).output.numbered

updates_in_order_example : Rising 0 (marks (updates start built).1) (2 * built.output.next_sequence)
updates_in_order_example =
    updates_in_order start built (run-IsValid in_order build).output.numbered
      (run-IsOrdered in_order build)

-- The line that the newline ended is there, and the end of the step has ended the other one.
built_lines :
    map (λ l. l.text) built.output.lines
    ≡ (b'o' ∷ b'k' ∷ []) ∷ (b'p' ∷ b'a' ∷ b'r' ∷ b't' ∷ []) ∷ []
unfolding run run_from apply start_phase start_step end_step flush flush_keys flush_key entry
    without append append_bytes append_byte push push_text make_room find_step from_utf8_lossy
    decode feed lead_byte finish trim_start trim_end is_whitespace text_len utf8_len
    mathlib.Core.Option.bind
built_lines = refl
