-- ===== src/Agents/Harness.antt =====
-- Harnesses, and the model that one is launched with: agentctl/src/harness/mod.rs. A model and an effort
-- level are texts.
use digdir_agents.Base.{
  leb, ◌==◌, if◌then◌else◌, length, any, Str, same_text, ℕ, ◌+◌, ◌*◌, String, Bool, true, false,
  not, ◌&&◌, Option, none, some, [], ◌∷◌,
}

pub data Harness : Type 0 where
  claude_code codex pi : Harness

-- The derived `PartialEq`.
abbrev pub same_harness : Harness → Harness → Bool
same_harness claude_code claude_code = true
same_harness codex codex = true
same_harness pi pi = true
same_harness _ _ = false

pub data HarnessAuthMode : Type 0 where
  mediated unmediated : HarnessAuthMode

-- The derived `PartialEq`.
abbrev pub same_auth : HarnessAuthMode → HarnessAuthMode → Bool
same_auth mediated mediated = true
same_auth unmediated unmediated = true
same_auth _ _ = false

-- `Harness::auth_mode`.
unfoldable pub auth_mode : Harness → HarnessAuthMode
auth_mode claude_code = mediated
auth_mode codex = mediated
auth_mode pi = unmediated

pub record ModelSelection : Type 0 where
  pub model : Option Str
  pub effort : Option Str

abbrev or_default : Option Str → Option Str → Option Str
or_default (some value) _ = some value
or_default none default = default

-- `ModelSelection::or`.
unfoldable pub or_defaults : ModelSelection → ModelSelection → ModelSelection
or_defaults selection defaults = record {
  model = or_default selection.model defaults.model;
  effort = or_default selection.effort defaults.effort;
}

-- How a recorded field differs from a requested one: it was left to the harness, or is another.
pub data SelectionConflict : Type 0 where
  leaves_default : (field : String) (requested : Str) → SelectionConflict
  already_uses : (field : String) (recorded requested : Str) → SelectionConflict

abbrev pub field_conflict : String → Option Str → Option Str → Option SelectionConflict
field_conflict field _ none = none
field_conflict field none (some requested) = some (leaves_default field requested)
field_conflict field (some recorded) (some requested) =
    if same_text requested recorded then none else some (already_uses field recorded requested)

abbrev pub first_conflict :
    Option SelectionConflict → Option SelectionConflict → Option SelectionConflict
first_conflict (some conflict) _ = some conflict
first_conflict none other = other

-- `ModelSelection::conflict_with`.
unfoldable pub conflict_with : ModelSelection → ModelSelection → Option SelectionConflict
conflict_with recorded requested =
    first_conflict (field_conflict "model" recorded.model requested.model)
      (field_conflict "effort" recorded.effort requested.effort)

abbrev max_initial_prompt_argument_bytes : ℕ
max_initial_prompt_argument_bytes = 64 * 1024

-- The apostrophe.
abbrev quote : ℕ
quote = 39

-- How many bytes `p` holds of.
abbrev pub count_bytes : (ℕ → Bool) → Str → ℕ
count_bytes p [] = 0
count_bytes p (b ∷ bytes) = (if p b then 1 else 0) + count_bytes p bytes

-- `validate_initial_prompt`: whether a prompt is accepted. Its lengths are far from the largest `usize`.
unfoldable pub is_initial_prompt : Str → Bool
is_initial_prompt prompt =
    not (any (λ b. b == 0) prompt)
    && leb (length prompt + count_bytes (λ b. b == quote) prompt * 3 + 2)
        max_initial_prompt_argument_bytes
