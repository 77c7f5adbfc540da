-- ===== src/Agents/Validation/Distinct.antt =====
-- Loops that keep a set of what they have seen: agentctl/src/manifest.rs.
use digdir_agents.Base.{
  Bool-cases, All, any, IsEquality, ◌≡◌, refl, ◌≢◌, ◌↔◌, inl, inr, Bool, false, List, [], ◌∷◌,
  arith,
}

-- No two items are equal.
abbrev pub Distinct {ℓ} : {A : Type ℓ} → List A → Type ℓ
Distinct [] = Unit
Distinct (a ∷ xs) = All (λ x. x ≢ a) xs × Distinct xs

module _ {A : Type 0} (same : A → A → Bool) where
  -- Each item is new to a loop that has seen some.
  abbrev pub Fresh : List A → List A → Type 0
  Fresh seen [] = Unit {0}
  Fresh seen (a ∷ xs) = (any (same a) seen ≡ false) × Fresh (a ∷ seen) xs

  -- None of the items is among those seen.
  abbrev pub Unseen : List A → List A → Type 0
  Unseen seen xs = All (λ x. any (same x) seen ≡ false) xs

  module _ (h : IsEquality same) where
    apart : (a : A) (seen xs : List A) → Unseen (a ∷ seen) xs → All (λ x. x ≢ a) xs × Unseen seen xs
    apart a seen [] u = (tt, tt)
    apart a seen (x ∷ xs) u =
        let (others, unseen) = apart a seen xs u.1 in
        (((λ e. cc (u.0, e, h.1 a)), others), (ground (arith, u.0), unseen))

    joined_apart :
        (a : A) (seen xs : List A) → All (λ x. x ≢ a) xs → Unseen seen xs → Unseen (a ∷ seen) xs
    joined_apart a seen [] others unseen = tt
    joined_apart a seen (x ∷ xs) others unseen = (
      elim (Bool-cases (same x a)) [
        | inl e ↦ absurd (others.0 (h.0 x a e))
        | inr e ↦ rw (e, unseen.0) refl
      ],
      joined_apart a seen xs others.1 unseen.1,
    )

    new_parts : (seen xs : List A) → Fresh seen xs → Distinct xs × Unseen seen xs
    new_parts seen [] f = (tt, tt)
    new_parts seen (a ∷ xs) f =
        let (rest, unseen) = new_parts (a ∷ seen) xs f.1 in
        let (others, still) = apart a seen xs unseen in ((others, rest), (f.0, still))

    new_again : (seen xs : List A) → Distinct xs → Unseen seen xs → Fresh seen xs
    new_again seen [] d u = tt
    new_again seen (a ∷ xs) d u =
        (u.0, new_again (a ∷ seen) xs d.1 (joined_apart a seen xs d.0 u.1))

    pub Fresh-Distinct : (seen xs : List A) → Fresh seen xs ↔ (Distinct xs × Unseen seen xs)
    Fresh-Distinct seen xs = (new_parts seen xs, λ d. new_again seen xs d.0 d.1)

  pub Unseen-nothing : (xs : List A) → Unseen [] xs
  Unseen-nothing [] = tt
  Unseen-nothing (x ∷ xs) = (refl, Unseen-nothing xs)
