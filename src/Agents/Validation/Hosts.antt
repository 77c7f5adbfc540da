-- ===== src/Agents/Validation/Hosts.antt =====
-- The hosts and patterns that a manifest may name: agentctl/src/manifest.rs.
use digdir_agents.Base.{
  ◌==◌, Option-cases, All, every, any, Str, and_parts, and3_parts, list_is_empty, ℕ, ◌≡◌, refl, sym,
  ◌≢◌, ◌↔◌, ◌⊎◌, inl, inr, Bool, true, false, not, ◌||◌, none, some, List, [], ◌∷◌, ◌++◌, arith,
}
use digdir_agents.Text.Splits.{
  split_on, joined_by, Without, split_some, joined_by-split_on, split_on-joined_by,
}
use digdir_agents.Authorization.{strip_wildcard}
use digdir_agents.Agents.Logins.{is_ascii_alphanumeric}
use digdir_agents.Agents.Manifest.{is_host_label, valid_host_pattern}
use digdir_agents.Service.Request.{value_or, is_ascii_alphabetic, is_decimal}
use digdir_agents.Agents.Validation.Spelled.{not_empty, every-All}

abbrev pub is_label_byte : ℕ → Bool
is_label_byte b = is_ascii_alphanumeric b || (b == b'-')

-- Letters, digits and hyphens, at least one.
abbrev pub IsHostLabel : Str → Type 0
IsHostLabel label = (label ≢ []) × All (λ b. is_label_byte b ≡ true) label

-- Labels with a dot between each two.
abbrev pub IsDotted : Str → Type 0
IsDotted host =
    (labels : List Str) × (labels ≢ [])
    × (◌≡◌ {A = Str} (b'.' ∷ host) (joined_by b'.' labels))
    × All IsHostLabel labels

-- A host, or a star and a dot before one.
abbrev pub IsHostPattern : Str → Type 0
IsHostPattern host =
    IsDotted host ⊎ ((suffix : Str) × (host ≡ b'*' ∷ b'.' ∷ suffix) × IsDotted suffix)

is_host_label-IsHostLabel : (label : Str) → (is_host_label label ≡ true) ↔ IsHostLabel label
is_host_label-IsHostLabel label =
    let (filled, filled_back) = not_empty label in
    let (bytes, bytes_back) =
      every-All is_label_byte (λ b. is_label_byte b ≡ true) (λ b. ((λ e. e), λ e. e)) label in
    (
      (λ e.
          let parts = and_parts (not (list_is_empty label)) (every is_label_byte label) e in
          (filled parts.0, bytes parts.1)),
      λ h. rw (filled_back h.0, bytes_back h.1) refl,
    )

host_read : (host : Str) → every is_host_label (split_on b'.' host) ≡ true → IsDotted host
host_read host each = (
  split_on b'.' host,
  split_some b'.' host,
  sym (joined_by-split_on b'.' host),
  (every-All is_host_label IsHostLabel is_host_label-IsHostLabel (split_on b'.' host)).0 each,
)

abbrev is_separator : ℕ → Bool
is_separator b = (b == b'/') || (b == b':') || (b == 92)

label_byte : (b : ℕ) → is_label_byte b ≡ true → (is_separator b ≡ false) × (b ≢ b'.') × (b ≢ b'*')
unfolding is_ascii_alphanumeric is_ascii_alphabetic is_decimal
label_byte b h = (ground (arith, h), (λ e. ground (arith, h, e)), λ e. ground (arith, h, e))

label-Without : (label : Str) → All (λ b. is_label_byte b ≡ true) label → Without b'.' label
label-Without [] h = tt
label-Without (b ∷ bs) h = ((label_byte b h.0).1, label-Without bs h.1)

labels-Without : (labels : List Str) → All IsHostLabel labels → All (Without b'.') labels
labels-Without [] h = tt
labels-Without (label ∷ labels) h = (label-Without label h.0.1, labels-Without labels h.1)

no_separator :
    (label rest : Str)
    → All (λ b. is_label_byte b ≡ true) label
    → any is_separator rest ≡ false
    → any is_separator (label ++ rest) ≡ false
no_separator [] rest h k = k
no_separator (b ∷ bs) rest h k = rw ((label_byte b h.0).0, no_separator bs rest h.1 k) refl

no_separators :
    (labels : List Str) → All IsHostLabel labels → any is_separator (joined_by b'.' labels) ≡ false
no_separators [] h = refl
no_separators (label ∷ labels) h =
    no_separator label (joined_by b'.' labels) h.0.1 (no_separators labels h.1)

strip_star : (b : ℕ) (bs : Str) → b ≢ b'*' → strip_wildcard (b ∷ bs) ≡ none
unfolding strip_wildcard
strip_star b [] h = refl
strip_star b (c ∷ cs) h = ground (arith, h)

starred : (host suffix : Str) → strip_wildcard host ≡ some suffix → host ≡ b'*' ∷ b'.' ∷ suffix
unfolding strip_wildcard
starred [] suffix h = absurd (cc h)
starred (a ∷ []) suffix h = absurd (cc h)
starred (a ∷ b ∷ bs) suffix h = ground (arith, h)

star_stripped : (suffix : Str) → strip_wildcard (b'*' ∷ b'.' ∷ suffix) ≡ some suffix
unfolding strip_wildcard
star_stripped suffix = refl

-- What a dotted host is accepted by.
record Dotted (host : Str) : Type 0 where
  filled : list_is_empty host ≡ false
  plain : any is_separator host ≡ false
  unstarred : strip_wildcard host ≡ none
  labelled : every is_host_label (split_on b'.' host) ≡ true

host_accepted :
    (labels : List Str)
    → labels ≢ []
    → All IsHostLabel labels
    → (host : Str) → ◌≡◌ {A = Str} (b'.' ∷ host) (joined_by b'.' labels)
    → Dotted host
host_accepted [] some_label h host e = absurd (some_label refl)
host_accepted ([] ∷ labels) some_label h host e = absurd (h.0.0 refl)
host_accepted ((b ∷ bs) ∷ labels) some_label h host e =
    let is_host : host ≡ b ∷ (bs ++ joined_by b'.' labels) = cc in
    let split = split_on-joined_by b'.' (b ∷ bs) labels (labels-Without ((b ∷ bs) ∷ labels) h) in
    let each =
      (every-All is_host_label IsHostLabel is_host_label-IsHostLabel ((b ∷ bs) ∷ labels)).1 h in
    rw is_host (record {
      filled = refl;
      plain = no_separators ((b ∷ bs) ∷ labels) h;
      unstarred = strip_star b (bs ++ joined_by b'.' labels) (label_byte b h.0.1.0).2;
      labelled = rw split each;
    })

dotted : (host : Str) → IsDotted host → Dotted host
dotted host h = host_accepted h.0 h.1 h.3 host h.2

pattern_read : (host : Str) → valid_host_pattern host ≡ true → IsHostPattern host
unfolding valid_host_pattern
pattern_read host h =
    let (_, _, each) =
      and3_parts (not (list_is_empty host)) (not (any is_separator host))
        (every is_host_label (split_on b'.' (value_or host (strip_wildcard host)))) h in
    elim (Option-cases (strip_wildcard host)) [
      | inl e ↦ inl (host_read host (rw e at each))
      | inr (suffix, e) ↦ inr (suffix, starred host suffix e, host_read suffix (rw e at each))
    ]

pattern_valid : (host : Str) → IsHostPattern host → valid_host_pattern host ≡ true
unfolding valid_host_pattern
pattern_valid host (inl h) =
    let d = dotted host h in rw (d.filled, d.plain, d.unstarred, d.labelled) refl
pattern_valid host (inr (suffix, e, h)) =
    let d = dotted suffix h in rw (e, d.plain, star_stripped suffix, d.labelled) refl

-- A host pattern is accepted exactly when it is a host, or one behind a star and a dot, whose labels are
-- letters, digits and hyphens.
pub valid_host_pattern-IsHostPattern :
    (host : Str) → (valid_host_pattern host ≡ true) ↔ IsHostPattern host
valid_host_pattern-IsHostPattern host = (pattern_read host, pattern_valid host)
