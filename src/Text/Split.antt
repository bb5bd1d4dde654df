-- ===== src/Text/Split.antt =====
-- `str::split` at the characters that a test accepts.
use certael_agent.Prelude.{
  ℕ, Bool, false, List, [], ◌∷◌, ◌++◌, ◌≡◌, refl, All, any, if◌then◌else◌, arith, Bool-cases, inl,
  inr,
}

-- The pieces between separators; a text with n separators has n + 1 pieces.
abbrev push_front : ℕ → List (List ℕ) → List (List ℕ)
push_front c [] = (c ∷ []) ∷ []
push_front c (p ∷ ps) = (c ∷ p) ∷ ps

unfoldable pub split : (ℕ → Bool) → List ℕ → List (List ℕ)
split sep [] = [] ∷ []
split sep (c ∷ s) = let rest = split sep s in if sep c then [] ∷ rest else push_front c rest

-- Joining pieces by one separator.
unfoldable pub join : ℕ → List (List ℕ) → List ℕ
join c [] = []
join c (p ∷ []) = p
join c (p ∷ q ∷ ps) = p ++ (c ∷ join c (q ∷ ps))

pub split_ne :
    (sep : ℕ → Bool) (s : List ℕ) → (p : List ℕ) × (ps : List (List ℕ)) × (split sep s ≡ p ∷ ps)
unfolding split
split_ne sep [] = ([], [], refl)
split_ne sep (c ∷ s) = elim (Bool-cases (sep c)) [
  | inl e ↦ ([], split sep s, ground arith)
  | inr e ↦ let (p, ps, h) = split_ne sep s in (c ∷ p, ps, ground (arith, h))
]

-- No piece holds a separator.
pub split_clean : (sep : ℕ → Bool) (s : List ℕ) → All (λ p. any sep p ≡ false) (split sep s)
unfolding split any
split_clean sep [] = (refl, tt)
split_clean sep (c ∷ s) = elim (Bool-cases (sep c)) [
  | inl e ↦ rw e (refl, split_clean sep s)
  | inr e ↦
      let (p, ps, h) = split_ne sep s in
      let ih : All (λ q. any sep q ≡ false) (p ∷ ps) = rw h at (split_clean sep s) in
      rw (e, h) (ground arith, ih.1)
]
