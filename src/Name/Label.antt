-- ===== src/Name/Label.antt =====
-- The accepted names are the DNS-1123 labels: sandbox/core/src/name.rs.
use digdir_agents.Base.{
  ◌==◌, length, All, ok, ℕ, ◌≤◌, ◌≡◌, refl, ap, ◌∙◌, ◌↔◌, ◌⊎◌, inl, inr, true, ◌||◌, List, [], ◌∷◌,
  ◌++◌, arith,
}
use digdir_agents.Name.{
  max_sandbox_name_bytes, is_alphanumeric, accepts, all_bytes, last_of, validate_name,
}

-- A letter or digit, or two of them with letters, digits and hyphens between.
pub data IsLabel : List ℕ → Type 0 where
  single : (b : ℕ) → is_alphanumeric b ≡ true → IsLabel (b ∷ [])
  longer :
      (b : ℕ) (between : List ℕ) (last : ℕ)
      → is_alphanumeric b ≡ true
      → All (λ c. accepts c ≡ true) between
      → is_alphanumeric last ≡ true
      → IsLabel (b ∷ (between ++ last ∷ []))

-- A list with a last item.
split_last :
    (b : ℕ) (bs : List ℕ) → (bs ≡ []) ⊎ ((between : List ℕ) × (bs ≡ between ++ last_of b bs ∷ []))
unfolding last_of
split_last b [] = inl refl
split_last b (c ∷ cs) = elim (split_last c cs) [
  | inl e ↦ inr ([], rw (e, last_of))
  | inr (between, e) ↦ inr (c ∷ between, ap (◌∷◌ c) e)
]

last_of-append : (b : ℕ) (xs : List ℕ) (d : ℕ) → last_of b (xs ++ d ∷ []) ≡ d
unfolding last_of
last_of-append b [] d = refl
last_of-append b (x ∷ xs) d = last_of-append x xs d

all_bytes-append :
    (xs : List ℕ) (d : ℕ)
    → all_bytes (λ c. is_alphanumeric c || (c == b'-')) (xs ++ d ∷ []) ≡ true
    → All (λ c. accepts c ≡ true) xs
unfolding all_bytes accepts is_alphanumeric
all_bytes-append [] d h = tt
all_bytes-append (x ∷ xs) d h = (ground arith, all_bytes-append xs d (ground arith))

all_bytes_join :
    (xs : List ℕ) (d : ℕ)
    → All (λ c. accepts c ≡ true) xs
    → is_alphanumeric d ≡ true
    → all_bytes (λ c. is_alphanumeric c || (c == b'-')) (xs ++ d ∷ []) ≡ true
unfolding all_bytes accepts is_alphanumeric
all_bytes_join [] d h k = ground arith
all_bytes_join (x ∷ xs) d h k = ground (arith, all_bytes_join xs d h.1 k)

-- What `validate` tests, as facts.
record Passes (b : ℕ) (bs : List ℕ) : Type 0 where
  first : is_alphanumeric b ≡ true
  last : is_alphanumeric (last_of b bs) ≡ true
  every : all_bytes (λ c. is_alphanumeric c || (c == b'-')) bs ≡ true
  short : length (b ∷ bs) ≤ max_sandbox_name_bytes

validate_name-Passes : (b : ℕ) (bs : List ℕ) → validate_name (b ∷ bs) ≡ ok tt → Passes b bs
unfolding validate_name all_bytes
validate_name-Passes b bs h = ground arith

Passes-validate_name : (b : ℕ) (bs : List ℕ) → Passes b bs → validate_name (b ∷ bs) ≡ ok tt
unfolding validate_name all_bytes
Passes-validate_name b bs h = ground arith

labelled :
    (b : ℕ) (bs : List ℕ)
    → Passes b bs
    → (bs ≡ []) ⊎ ((between : List ℕ) × (bs ≡ between ++ last_of b bs ∷ []))
    → IsLabel (b ∷ bs)
labelled b bs p (inl e) = rw e (single b p.first)
labelled b bs p (inr (between, e)) = rw e (
    longer b between (last_of b bs) p.first
      (all_bytes-append between (last_of b bs) (rw e at p.every)) p.last)

accepted :
    (name : List ℕ)
    → validate_name name ≡ ok tt
    → IsLabel name × (length name ≤ max_sandbox_name_bytes)
unfolding validate_name
accepted [] h = cc
accepted (b ∷ bs) h =
    let p = validate_name-Passes b bs h in (labelled b bs p (split_last b bs), p.short)

passing :
    (name : List ℕ)
    → IsLabel name
    → length name ≤ max_sandbox_name_bytes
    → validate_name name ≡ ok tt
unfolding last_of all_bytes
passing _ (single b f) l =
    Passes-validate_name b [] (record { first = f; last = f; every = refl; short = l })
passing _ (longer b between d f m e) l = Passes-validate_name b (between ++ d ∷ []) (record {
  first = f;
  last = ap is_alphanumeric (last_of-append b between d) ∙ e;
  every = all_bytes_join between d m e;
  short = l;
})

-- A name is accepted exactly when it is a DNS-1123 label of at most 63 bytes.
pub validate_name-IsLabel :
    (name : List ℕ)
    → (validate_name name ≡ ok tt) ↔ (IsLabel name × (length name ≤ max_sandbox_name_bytes))
validate_name-IsLabel name = (accepted name, λ h. passing name h.0 h.1)
