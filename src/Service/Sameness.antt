-- ===== src/Service/Sameness.antt =====
-- The derived comparisons of sandbox/core/src hold of equal values only, with paths that have the same
-- components.
use digdir_agents.Base.{
  ◌==◌, ==→eq, list_eq, option_eq, Str, same_text, and_parts, and3_parts, list_eq→eq, list_eq_refl,
  option_eq-IsEquality, same_text-IsEquality, ◌≡◌, refl, Bool, true, false, ◌&&◌, List, [], ◌∷◌,
  arith,
}
use digdir_agents.Service.{
  RootFilesystemMode, layered, direct, backend_init, image_process, same_mode, same_init,
}
use digdir_agents.Service.Images.{ImageSource, build, reference, same_source}
use digdir_agents.Service.Model.{
  Mount, volume_at, bind_at, tmpfs_at, same_bool, same_mount, SandboxResources, same_resources,
  Environment, same_variable, same_environment,
}
use digdir_agents.Text.Paths.{path_components, same_path}

-- What a comparison that holds says.
abbrev pub Sound : {A : Type 0} → (A → A → Bool) → Type 0
Sound {A = A} same = (a b : A) → same a b ≡ true → a ≡ b

pub same_mode-Sound : Sound same_mode
unfolding same_mode
same_mode-Sound layered layered h = refl
same_mode-Sound direct direct h = refl
same_mode-Sound layered direct h = cc
same_mode-Sound direct layered h = cc

pub same_init-Sound : Sound same_init
unfolding same_init
same_init-Sound backend_init backend_init h = refl
same_init-Sound image_process image_process h = refl
same_init-Sound backend_init image_process h = cc
same_init-Sound image_process backend_init h = cc

same_bool-Sound : Sound same_bool
same_bool-Sound true true h = refl
same_bool-Sound false false h = refl
same_bool-Sound true false h = cc
same_bool-Sound false true h = cc

pub same_environment-Sound : Sound same_environment
unfolding same_environment
same_environment-Sound = list_eq→eq same_variable (λ v w h.
    let (name, value) = and_parts (same_text v.0 w.0) (same_text v.1 w.1) h in
    λ i. (same_text-IsEquality.0 v.0 w.0 name i, same_text-IsEquality.0 v.1 w.1 value i))

pub same_resources-Sound : Sound same_resources
unfolding same_resources
same_resources-Sound r q h =
    let f = r.root_filesystem in
    let g = q.root_filesystem in
    let (sizes, nested) =
      and_parts
        ((r.cpu == q.cpu)
          && (r.memory == q.memory)
          && ((f.capacity == g.capacity) && same_mode f.mode g.mode))
        (same_bool r.nested q.nested) h in
    let (cpu, memory, root) =
      and3_parts (r.cpu == q.cpu) (r.memory == q.memory)
        ((f.capacity == g.capacity) && same_mode f.mode g.mode) sizes in
    let (capacity, mode) = and_parts (f.capacity == g.capacity) (same_mode f.mode g.mode) root in
    let cpu_is = ==→eq _ _ cpu in
    let memory_is = ==→eq _ _ memory in
    let capacity_is = ==→eq _ _ capacity in
    let mode_is = same_mode-Sound r.root_filesystem.mode q.root_filesystem.mode mode in
    let nested_is = same_bool-Sound r.nested q.nested nested in
    λ i. record {
      cpu = cpu_is i;
      memory = memory_is i;
      root_filesystem = record { capacity = capacity_is i; mode = mode_is i };
      nested = nested_is i;
    }

-- Paths with the same components.
abbrev pub IsSamePath : Str → Str → Type 0
IsSamePath p q = path_components p ≡ path_components q

-- Sources that build the same target from the same file of the same directory, or have the same reference.
abbrev pub IsSameSource : ImageSource → ImageSource → Type 0
IsSameSource (build c d t) (build c' d' t') = IsSamePath c c' × IsSamePath d d' × (t ≡ t')
IsSameSource (reference r) (reference r') = r ≡ r'
IsSameSource _ _ = ⊥

-- Mounts of the same kind that agree in all their fields, the path on the host by its components.
abbrev pub IsSameMount : Mount → Mount → Type 0
IsSameMount (volume_at a t r) (volume_at a' t' r') = (a ≡ a') × (t ≡ t') × (r ≡ r')
IsSameMount (bind_at s t r) (bind_at s' t' r') = IsSamePath s s' × (t ≡ t') × (r ≡ r')
IsSameMount (tmpfs_at t c) (tmpfs_at t' c') = (t ≡ t') × (c ≡ c')
IsSameMount _ _ = ⊥

abbrev pub IsSameMounts : List Mount → List Mount → Type 0
IsSameMounts [] [] = Unit
IsSameMounts (m ∷ ms) (n ∷ ns) = IsSameMount m n × IsSameMounts ms ns
IsSameMounts _ _ = ⊥

same_path-IsSamePath : (p q : Str) → same_path p q ≡ true → IsSamePath p q
unfolding same_path
same_path-IsSamePath p q h =
    list_eq→eq same_text same_text-IsEquality.0 (path_components p) (path_components q) h

pub same_source-IsSameSource : (a b : ImageSource) → same_source a b ≡ true → IsSameSource a b
unfolding same_source
same_source-IsSameSource (build c d t) (build c' d' t') h =
    let (context, dockerfile, target) =
      and3_parts (same_path c c') (same_path d d') (option_eq same_text t t') h in
    (
      same_path-IsSamePath c c' context,
      same_path-IsSamePath d d' dockerfile,
      (option_eq-IsEquality same_text-IsEquality).0 t t' target,
    )
same_source-IsSameSource (reference r) (reference r') h = same_text-IsEquality.0 r r' h
same_source-IsSameSource (build c d t) (reference r') h = absurd (cc h)
same_source-IsSameSource (reference r) (build c' d' t') h = absurd (cc h)

same_mount-IsSameMount : (a b : Mount) → same_mount a b ≡ true → IsSameMount a b
unfolding same_mount
same_mount-IsSameMount (volume_at a t r) (volume_at a' t' r') h =
    let (id, target, read_only) = and3_parts (a == a') (same_text t t') (same_bool r r') h in
    (==→eq a a' id, same_text-IsEquality.0 t t' target, same_bool-Sound r r' read_only)
same_mount-IsSameMount (bind_at s t r) (bind_at s' t' r') h =
    let (source, target, read_only) =
      and3_parts (same_path s s') (same_text t t') (same_bool r r') h in
    (
      same_path-IsSamePath s s' source,
      same_text-IsEquality.0 t t' target,
      same_bool-Sound r r' read_only,
    )
same_mount-IsSameMount (tmpfs_at t c) (tmpfs_at t' c') h =
    let (target, capacity) = and_parts (same_text t t') (c == c') h in
    (same_text-IsEquality.0 t t' target, ==→eq c c' capacity)
same_mount-IsSameMount (volume_at a t r) (bind_at s' t' r') h = absurd (cc h)
same_mount-IsSameMount (volume_at a t r) (tmpfs_at t' c') h = absurd (cc h)
same_mount-IsSameMount (bind_at s t r) (volume_at a' t' r') h = absurd (cc h)
same_mount-IsSameMount (bind_at s t r) (tmpfs_at t' c') h = absurd (cc h)
same_mount-IsSameMount (tmpfs_at t c) (volume_at a' t' r') h = absurd (cc h)
same_mount-IsSameMount (tmpfs_at t c) (bind_at s' t' r') h = absurd (cc h)

pub list_eq-IsSameMounts :
    (ms ns : List Mount) → list_eq same_mount ms ns ≡ true → IsSameMounts ms ns
list_eq-IsSameMounts [] [] h = tt
list_eq-IsSameMounts (m ∷ ms) (n ∷ ns) h =
    let (first, rest) = and_parts (same_mount m n) (list_eq same_mount ms ns) h in
    (same_mount-IsSameMount m n first, list_eq-IsSameMounts ms ns rest)
list_eq-IsSameMounts [] (n ∷ ns) h = absurd (cc h)
list_eq-IsSameMounts (m ∷ ms) [] h = absurd (cc h)

same_mode_refl : (m : RootFilesystemMode) → same_mode m m ≡ true
unfolding same_mode
same_mode_refl layered = refl
same_mode_refl direct = refl

same_bool_refl : (b : Bool) → same_bool b b ≡ true
same_bool_refl true = refl
same_bool_refl false = refl

pub same_resources_refl : (r : SandboxResources) → same_resources r r ≡ true
unfolding same_resources
same_resources_refl r =
    rw (same_mode_refl r.root_filesystem.mode, same_bool_refl r.nested) (ground arith)

pub same_environment_refl : (e : Environment) → same_environment e e ≡ true
unfolding same_environment
same_environment_refl =
    list_eq_refl same_variable
      (λ v. rw (same_text-IsEquality.1 v.0, same_text-IsEquality.1 v.1) refl)
