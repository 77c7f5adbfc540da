-- ===== src/Text/Splits.antt =====
-- Text as the standard library splits it at a byte, where agentctl/src/manifest.rs reads paths and host
-- patterns.
use digdir_agents.Base.{
  ◌==◌, if◌then◌else◌, ==→eq, Bool-cases, All, Str, ℕ, ◌≡◌, refl, ap, ◌≢◌, inl, inr, List, [], ◌∷◌,
  ◌++◌, arith,
}

abbrev pub push_byte : ℕ → List Str → List Str
push_byte b [] = (b ∷ []) ∷ []
push_byte b (part ∷ parts) = (b ∷ part) ∷ parts

-- `str::split`, at a byte.
unfoldable pub split_on : ℕ → Str → List Str
split_on s [] = [] ∷ []
split_on s (b ∷ bs) = let parts = split_on s bs in if b == s then [] ∷ parts else push_byte b parts

-- Each part behind the byte.
abbrev pub joined_by : ℕ → List Str → Str
joined_by s [] = []
joined_by s (part ∷ parts) = s ∷ (part ++ joined_by s parts)

abbrev pub Without : ℕ → Str → Type 0
Without s part = All (λ b. b ≢ s) part

pub split_some : (s : ℕ) (text : Str) → split_on s text ≢ []
unfolding split_on
split_some s [] = cc
split_some s (b ∷ bs) = elim (Bool-cases (b == s)) [
  | inl e ↦ rw e (cc)
  | inr e ↦ rw e (pushed (split_on s bs))
]
  where
    pushed : (parts : List Str) → push_byte b parts ≢ []
    pushed [] = cc
    pushed (part ∷ parts) = cc

joined_by-push_byte :
    (s b : ℕ) (parts : List Str) (text : Str)
    → joined_by s parts ≡ s ∷ text
    → joined_by s (push_byte b parts) ≡ s ∷ b ∷ text
joined_by-push_byte s b [] text h = absurd (cc h)
joined_by-push_byte s b (part ∷ parts) text h =
    ap (λ t. s ∷ b ∷ t) (behind (part ++ joined_by s parts) text h)
  where
    behind : (u v : Str) → s ∷ u ≡ s ∷ v → u ≡ v
    behind u v e = cc

-- What is split is what its parts are joined to.
pub joined_by-split_on : (s : ℕ) (text : Str) → joined_by s (split_on s text) ≡ s ∷ text
unfolding split_on
joined_by-split_on s [] = refl
joined_by-split_on s (b ∷ bs) = elim (Bool-cases (b == s)) [
  | inl e ↦ rw (e, joined_by-split_on s bs, ==→eq b s e) refl
  | inr e ↦ rw e (joined_by-push_byte s b (split_on s bs) bs (joined_by-split_on s bs))
]

pub split_on-Without : (s : ℕ) (text : Str) → All (Without s) (split_on s text)
unfolding split_on
split_on-Without s [] = (tt, tt)
split_on-Without s (b ∷ bs) = elim (Bool-cases (b == s)) [
  | inl e ↦ rw e (tt, split_on-Without s bs)
  | inr e ↦ rw e (pushed (λ same. ground (arith, e, same)) (split_on s bs) (split_on-Without s bs))
]
  where
    pushed :
        b ≢ s → (parts : List Str) → All (Without s) parts → All (Without s) (push_byte b parts)
    pushed other [] h = ((other, tt), tt)
    pushed other (part ∷ parts) h = ((other, h.0), h.1)

-- Parts without the byte are split as they were joined.
pub split_on-joined_by :
    (s : ℕ) (part : Str) (parts : List Str)
    → All (Without s) (part ∷ parts)
    → split_on s (part ++ joined_by s parts) ≡ part ∷ parts
unfolding split_on
split_on-joined_by s [] [] h = refl
split_on-joined_by s [] (next ∷ parts) h = rw (split_on-joined_by s next parts h.1) (ground arith)
split_on-joined_by s (b ∷ part) parts h =
    rw (split_on-joined_by s part parts (h.0.1, h.1)) (ground (arith, h.0.0))
