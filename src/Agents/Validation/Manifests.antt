-- ===== src/Agents/Validation/Manifests.antt =====
-- Which manifests are accepted: agentctl/src/manifest.rs.
use digdir_agents.Base.{
  codes, length, same_text, same_text-IsEquality, list_is_empty, Result, err, ok, map_err,
  >>=-eq-ok, ◌≤◌, ◌≡◌, refl, ◌≢◌, ◌↔◌, Bool, true, false, not, some, [],
}
use digdir_agents.Name.{validate_name}
use digdir_agents.Name.Label.{IsLabel, validate_name-IsLabel}
use digdir_agents.Service.Images.{
  ImageSource, build, reference, is_blank, blank_when_present, validate_source,
}
use digdir_agents.Service.Platform.{has_text, empty_when_present}
use digdir_agents.Agents.Model.{Agent}
use digdir_agents.Agents.Manifest.{
  PlatformManifestSpec, validate_platform_spec, validate_sandbox_spec,
}
use digdir_agents.Agents.Validation.{api_version_text, kind_text, validate_agent}
use digdir_agents.Agents.Validation.Spelled.{not_empty}
use digdir_agents.Agents.Validation.Mounts.{passed, ensured_last}
use digdir_agents.Agents.Validation.WellFormed.{IsWellFormed, spec_read, spec_accepted}
use digdir_agents.Agents.Validation.Installed.{filled_when_present}

-- A source of an image: a directory and a file in it to build from, or a reference.
abbrev pub IsImage : ImageSource → Type 0
IsImage (build context dockerfile target) =
    (context ≢ []) × (dockerfile ≢ []) × (blank_when_present target ≡ false)
IsImage (reference name) = is_blank name ≡ false

-- A system, and nothing else that is empty.
pub record IsPlatform (p : PlatformManifestSpec) : Type 0 where
  pub os : p.os ≢ []
  pub architecture : p.architecture ≢ some []
  pub variant : p.variant ≢ some []
  pub os_version : p.os_version ≢ some []
  pub os_features : has_text [] p.os_features ≡ false

-- What a manifest must be.
pub record IsManifest (agent : Agent) : Type 0 where
  pub api_version : agent.api_version ≡ codes "agents.platform/v1alpha1"
  pub kind : agent.kind ≡ codes "Agent"
  pub name : IsLabel agent.metadata.name
  pub name_short : length agent.metadata.name ≤ 63
  pub image : IsImage agent.spec.sandbox.image
  pub platform : IsPlatform agent.spec.sandbox.platform
  pub spec : IsWellFormed agent.spec

negated : (b : Bool) → (not b ≡ true) ↔ (b ≡ false)
negated true = ((λ e. cc), λ e. cc)
negated false = ((λ _. refl), λ _. refl)

source-IsImage : (image : ImageSource) → (validate_source image ≡ ok tt) ↔ IsImage image
unfolding validate_source
source-IsImage (build context dockerfile target) =
    let (context', context_back) = not_empty context in
    let (dockerfile', dockerfile_back) = not_empty dockerfile in
    let (target', target_back) = negated (blank_when_present target) in
    (
      (λ e.
          let (a, e1) = passed (not (list_is_empty context)) _ _ e in
          let (b, e2) = passed (not (list_is_empty dockerfile)) _ _ e1 in
          (context' a, dockerfile' b, target' (ensured_last _ _ e2))),
      λ i. rw (context_back i.0, dockerfile_back i.1, i.2) refl,
    )
source-IsImage (reference name) =
    ((λ e. (negated (is_blank name)).0 (ensured_last _ _ e)), λ i. rw i refl)

platform_lem : (p : PlatformManifestSpec) → (validate_platform_spec p ≡ ok tt) ↔ IsPlatform p
unfolding validate_platform_spec
platform_lem p = (
  (λ e.
      let (a, e1) = passed (not (list_is_empty p.os)) _ _ e in
      let (b, e2) = passed (not (empty_when_present p.architecture)) _ _ e1 in
      let (c, e3) = passed (not (empty_when_present p.variant)) _ _ e2 in
      let (d, e4) = passed (not (empty_when_present p.os_version)) _ _ e3 in
      record {
        os = (not_empty p.os).0 a;
        architecture = (filled_when_present p.architecture).0 b;
        variant = (filled_when_present p.variant).0 c;
        os_version = (filled_when_present p.os_version).0 d;
        os_features = (negated (has_text [] p.os_features)).0 (ensured_last _ _ e4);
      }),
  λ i.
      rw
        (
          (not_empty p.os).1 i.os,
          (filled_when_present p.architecture).1 i.architecture,
          (filled_when_present p.variant).1 i.variant,
          (filled_when_present p.os_version).1 i.os_version,
          i.os_features,
        )
        refl,
)

mapped : {E F : Type 0} (f : E → F) (r : Result E (Unit {0})) → map_err f r ≡ ok tt → r ≡ ok tt
mapped f (err e) h = cc
mapped f (ok v) h = refl

agent_read : (agent : Agent) → validate_agent agent ≡ ok tt → IsManifest agent
unfolding validate_agent validate_sandbox_spec
agent_read agent e =
    let sandbox_spec = agent.spec.sandbox in
    let (version, e1) = passed (same_text agent.api_version api_version_text) _ _ e in
    let (kind', e2) = passed (same_text agent.kind kind_text) _ _ e1 in
    let (_, named, e3) = >>=-eq-ok (map_err _ (validate_name agent.metadata.name)) _ e2 in
    let (_, sandboxed, e4) = >>=-eq-ok (map_err _ (validate_sandbox_spec sandbox_spec)) _ e3 in
    let (_, image', platform') =
      >>=-eq-ok (validate_source sandbox_spec.image) _
        (mapped _ (validate_sandbox_spec sandbox_spec) sandboxed) in
    let (label, short) =
      (validate_name-IsLabel agent.metadata.name).0
        (mapped _ (validate_name agent.metadata.name) named) in
    record {
      api_version = same_text-IsEquality.0 _ _ version;
      kind = same_text-IsEquality.0 _ _ kind';
      name = label;
      name_short = short;
      image = (source-IsImage sandbox_spec.image).0 image';
      platform = (platform_lem sandbox_spec.platform).0 platform';
      spec = spec_read agent.spec e4;
    }

agent_accepted : (agent : Agent) → IsManifest agent → validate_agent agent ≡ ok tt
unfolding validate_agent validate_sandbox_spec
agent_accepted agent m =
    rw
      (
        m.api_version,
        m.kind,
        same_text-IsEquality.1 api_version_text,
        same_text-IsEquality.1 kind_text,
        (validate_name-IsLabel agent.metadata.name).1 (m.name, m.name_short),
        (source-IsImage agent.spec.sandbox.image).1 m.image,
        (platform_lem agent.spec.sandbox.platform).1 m.platform,
      )
      (spec_accepted agent.spec m.spec)

-- A manifest is accepted exactly when all of this holds. Its API version and its kind are the ones that
-- there are, and its name is a DNS label of at most 63 bytes. Its image is built from a context and a
-- file that are not empty, for a target, if one is given, that is not blank, or has a reference that is
-- not blank; its platform has a system, and no other part of the platform that is given is empty. Each
-- bind mount has a source, and each mount's target is a path in the sandbox that is valid and its own.
-- The home and each instruction have a source. Each skill has a valid name of its own. There is at least
-- one harness; each has a version that is not empty if one is given and the delivery of credentials that
-- its kind asks for, and is optional, or has a login other than the default one, only where these are
-- mediated; their kinds differ, and one alone is the default if there are several. Each
-- variable has a portable name of its
-- own that no installed harness manages, and a portable source if one is given; the names that Git's
-- commits are signed with are both there or both not. Each secret has a portable name, and a portable
-- source if one is given; it conflicts with no secret that an installed harness manages; its
-- placeholder is not empty if given; it has at least one allowed host, all of them host patterns; the
-- secrets' names differ, and so do the values that they show in the sandbox; no name is a variable's, and
-- none is read from what a variable is read from, which is the source, or the name where no source is
-- given. No access is listed twice. Each denied host is a host pattern.
pub validate_agent-IsManifest : (agent : Agent) → (validate_agent agent ≡ ok tt) ↔ IsManifest agent
validate_agent-IsManifest agent = (agent_read agent, agent_accepted agent)
