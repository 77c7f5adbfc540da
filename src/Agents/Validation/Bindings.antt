-- ===== src/Agents/Validation/Bindings.antt =====
-- What the loops over the secrets and the access accept: agentctl/src/manifest.rs.
use digdir_agents.Base.{
  tests, All, every, any, Str, same_text, same_text-IsEquality, list_is_empty, ok, ℕ, suc, ◌≡◌,
  refl, ◌≢◌, ◌↔◌, Bool, true, false, not, ◌&&◌, ◌||◌, some, List, [], ◌∷◌, map, arith,
}
use digdir_agents.Service.Platform.{has_text, empty_when_present}
use digdir_agents.Service.Portable.{IsVariableName}
use digdir_agents.Agents.Model.{HarnessSpec}
use digdir_agents.Agents.Manifest.{
  EnvironmentSpec, environment_source, SecretSpec, secret_source, inert_value,
  valid_environment_variable, valid_host_pattern, conflicts_with_managed_secret,
}
use digdir_agents.Agents.Validation.{valid_when_present, validate_bindings, validate_secrets}
use digdir_agents.Agents.Validation.Distinct.{Distinct, Fresh, Fresh-Distinct, Unseen-nothing}
use digdir_agents.Agents.Validation.Spelled.{
  not_empty, every-All, valid_environment_variable-IsVariableName,
}
use digdir_agents.Agents.Validation.Hosts.{IsHostPattern, valid_host_pattern-IsHostPattern}
use digdir_agents.Agents.Validation.Mounts.{passed}
use digdir_agents.Agents.Validation.Variables.{
  IsSource, valid_when_present-IsSource, none_of, names_of,
}
use digdir_agents.Agents.Validation.Installed.{filled_when_present}

-- A portable name and source that no installed harness has a use for, a placeholder that is not empty, and
-- at least one host.
pub record IsBinding (hs : List HarnessSpec) (s : SecretSpec) : Type 0 where
  pub named_well : IsVariableName s.environment
  pub sourced : IsSource s.source
  pub shown : s.placeholder ≢ some []
  pub unmanaged :
      All (λ h. conflicts_with_managed_secret h.kind s.environment s.placeholder ≡ false) hs
  pub somewhere : s.allowed_hosts ≢ []
  pub hosts : All IsHostPattern s.allowed_hosts

-- What the second check of a binding tests.
record Tested (hs : List HarnessSpec) (environments placeholders : List Str) (s : SecretSpec)
    : Type 0 where
  name : valid_environment_variable s.environment ≡ true
  source : valid_when_present s.source ≡ true
  placeholder : not (empty_when_present s.placeholder) ≡ true
  free : not (any (λ h. conflicts_with_managed_secret h.kind s.environment s.placeholder) hs) ≡ true
  somewhere : not (list_is_empty s.allowed_hosts) ≡ true
  new_name : not (has_text s.environment environments) ≡ true
  new_placeholder : not (has_text (inert_value s) placeholders) ≡ true
  hosts : every valid_host_pattern s.allowed_hosts ≡ true

and8_parts :
    (a b c d e f g h : Bool)
    → (a && b && c && d && e && f && g && h) ≡ true
    → (a ≡ true)
      × (b ≡ true)
      × (c ≡ true)
      × (d ≡ true)
      × (e ≡ true)
      × (f ≡ true)
      × (g ≡ true)
      × (h ≡ true)
and8_parts true true true true true true true true e =
    (refl, refl, refl, refl, refl, refl, refl, refl)
and8_parts _ _ _ _ _ _ _ _ e = ground (arith, e)

Tested-IsBinding :
    (hs : List HarnessSpec) (environments placeholders : List Str) (s : SecretSpec)
    → Tested hs environments placeholders s
    → IsBinding hs s
Tested-IsBinding hs environments placeholders s t = record {
  named_well = (valid_environment_variable-IsVariableName s.environment).0 t.name;
  sourced = (valid_when_present-IsSource s.source).0 t.source;
  shown = (filled_when_present s.placeholder).0 t.placeholder;
  unmanaged =
      (none_of (λ h. conflicts_with_managed_secret h.kind s.environment s.placeholder) hs).0 t.free;
  somewhere = (not_empty s.allowed_hosts).0 t.somewhere;
  hosts =
      (every-All valid_host_pattern IsHostPattern valid_host_pattern-IsHostPattern
          s.allowed_hosts).0
        t.hosts;
}

abbrev pub environments_of : List SecretSpec → List Str
environments_of ss = map (λ s. s.environment) ss

-- What the loop accepts behind those seen before.
record Bound (hs : List HarnessSpec) (known seen shown : List Str) (ss : List SecretSpec)
    : Type 0 where
  each : All (IsBinding hs) ss
  names : Fresh same_text seen (environments_of ss)
  placeholders : Fresh same_text shown (map inert_value ss)
  sources : All (λ s. has_text (secret_source s) known ≡ false) ss

module _ (hs : List HarnessSpec) (known : List Str) where
  bindings_read :
      (index : ℕ) (environments placeholders : List Str) (ss : List SecretSpec)
      → validate_bindings hs known index environments placeholders ss ≡ ok tt
      → Bound hs known environments placeholders ss
  unfolding validate_bindings
  bindings_read index environments placeholders [] e = record {
    each = tt;
    names = tt;
    placeholders = tt;
    sources = tt;
  }
  bindings_read index environments placeholders (s ∷ ss) e =
      let (apart, e1) =
        passed (not (has_text s.environment environments || has_text (secret_source s) known)) _ _
          e in
      let (tests, e2) = passed _ _ _ e1 in
      let (a, b, c, d, f, g, h, i) = and8_parts _ _ _ _ _ _ _ _ tests in
      let t : Tested hs environments placeholders s = record {
        name = a;
        source = b;
        placeholder = c;
        free = d;
        somewhere = f;
        new_name = g;
        new_placeholder = h;
        hosts = i;
      } in
      let rest =
        bindings_read (suc index) (s.environment ∷ environments) (inert_value s ∷ placeholders) ss
          e2 in
      record {
        each = (Tested-IsBinding hs environments placeholders s t, rest.each);
        names = (unfold has_text in ground (arith, t.new_name), rest.names);
        placeholders = (unfold has_text in ground (arith, t.new_placeholder), rest.placeholders);
        sources = (ground (arith, apart), rest.sources);
      }

  bindings_accepted :
      (index : ℕ) (environments placeholders : List Str) (ss : List SecretSpec)
      → Bound hs known environments placeholders ss
      → validate_bindings hs known index environments placeholders ss ≡ ok tt
  unfolding validate_bindings
  bindings_accepted index environments placeholders [] b = refl
  bindings_accepted index environments placeholders (s ∷ ss) b =
      let i = b.each.0 in
      let new_name : has_text s.environment environments ≡ false = unfold has_text in b.names.0 in
      let new_placeholder : has_text (inert_value s) placeholders ≡ false =
        unfold has_text in b.placeholders.0 in
      rw
        (
          new_name,
          b.sources.0,
          (valid_environment_variable-IsVariableName s.environment).1 i.named_well,
          (valid_when_present-IsSource s.source).1 i.sourced,
          (filled_when_present s.placeholder).1 i.shown,
          (none_of (λ h. conflicts_with_managed_secret h.kind s.environment s.placeholder) hs).1
              i.unmanaged,
          (not_empty s.allowed_hosts).1 i.somewhere,
          new_placeholder,
          (every-All valid_host_pattern IsHostPattern valid_host_pattern-IsHostPattern
                s.allowed_hosts).1
              i.hosts,
        )
        (bindings_accepted (suc index) (s.environment ∷ environments) (inert_value s ∷ placeholders)
          ss
          (record {
            each = b.each.1;
            names = b.names.1;
            placeholders = b.placeholders.1;
            sources = b.sources.1;
          }))

-- Bindings of different names and placeholders, of which none has a name or a source of the environment's.
pub record AreBindings (hs : List HarnessSpec) (vs : List EnvironmentSpec) (ss : List SecretSpec)
    : Type 0 where
  pub each : All (IsBinding hs) ss
  pub names : Distinct (environments_of ss)
  pub apart : All (λ name. has_text name (names_of vs) ≡ false) (environments_of ss)
  pub placeholders : Distinct (map inert_value ss)
  pub sources : All (λ s. has_text (secret_source s) (map environment_source vs) ≡ false) ss

pub validate_secrets-lem :
    (hs : List HarnessSpec) (vs : List EnvironmentSpec) (ss : List SecretSpec)
    → (validate_secrets hs vs ss ≡ ok tt) ↔ AreBindings hs vs ss
unfolding validate_secrets has_text
validate_secrets-lem hs vs ss =
    let known = map environment_source vs in
    let (names, names_back) =
      Fresh-Distinct same_text same_text-IsEquality (names_of vs) (environments_of ss) in
    let (shown, shown_back) =
      Fresh-Distinct same_text same_text-IsEquality [] (map inert_value ss) in
    (
      (λ e.
          let b = bindings_read hs known 0 (names_of vs) [] ss e in
          record {
            each = b.each;
            names = (names b.names).0;
            apart = (names b.names).1;
            placeholders = (shown b.placeholders).0;
            sources = b.sources;
          }),
      λ a. bindings_accepted hs known 0 (names_of vs) [] ss (record {
        each = a.each;
        names = names_back (a.names, a.apart);
        placeholders = shown_back (a.placeholders, Unseen-nothing same_text (map inert_value ss));
        sources = a.sources;
      }),
    )
