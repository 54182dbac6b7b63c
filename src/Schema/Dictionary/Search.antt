-- ===== src/Schema/Dictionary/Search.antt =====
-- The search for an index type that is wide enough (the loop of updateIndexType).
use otel_arrow_adapter.Base.{
  ℕ, zero, suc, ◌+◌, ◌-◌, ◌≤◌, ◌<◌, ◌≡◌, refl, ap, ◌∙◌, if◌then◌else◌, ltb, List, [], ◌∷◌, length,
  get_or, drop, arith,
}
use otel_arrow_adapter.Schema.Dictionary.{advance}

-- How many leading entries are below `card`.
pub skip : ℕ → List ℕ → ℕ
skip card [] = 0
skip card (max ∷ maxs) = let n = skip card maxs in if ltb max card then suc n else 0

pub advance-skip : (card : ℕ) (maxs : List ℕ) (i : ℕ) → advance card maxs i ≡ i + skip card maxs
unfolding advance skip
advance-skip card [] i = omega arith
advance-skip card (max ∷ maxs) i = ground (arith, advance-skip card maxs (suc i))

pub skip-le : (card : ℕ) (maxs : List ℕ) → skip card maxs ≤ length maxs
unfolding skip
skip-le card [] = omega arith
skip-le card (max ∷ maxs) = ground (arith, skip-le card maxs)

-- The entry where the search stops holds `card`.
pub skip_fits :
    (card : ℕ) (maxs : List ℕ)
    → skip card maxs < length maxs
    → card ≤ get_or maxs (skip card maxs) 0
unfolding skip
skip_fits card [] h = absurd (omega arith)
skip_fits card (max ∷ maxs) h = ground (arith, skip_fits card maxs)

-- Each entry that the search passes is too small.
pub skip_passed : (card : ℕ) (maxs : List ℕ) (k : ℕ) → k < skip card maxs → get_or maxs k 0 < card
unfolding skip
skip_passed card [] k h = absurd (omega arith)
skip_passed card (max ∷ maxs) zero h = ground arith
skip_passed card (max ∷ maxs) (suc k) h = ground (arith, skip_passed card maxs k)

module _ {ℓ} {A : Type ℓ} where
  pub length-drop : (n : ℕ) (xs : List A) → length (drop n xs) ≡ length xs - n
  length-drop zero xs = omega arith
  length-drop (suc n) [] = omega arith
  length-drop (suc n) (x ∷ xs) = omega (arith, length-drop n xs)

  pub get_or-drop : (n k : ℕ) (xs : List A) (d : A) → get_or (drop n xs) k d ≡ get_or xs (n + k) d
  get_or-drop zero k xs d = let e : k ≡ 0 + k = omega arith in ap (λ (j : ℕ). get_or xs j d) e
  get_or-drop (suc n) k [] d = refl
  get_or-drop (suc n) k (x ∷ xs) d =
      let e : suc (n + k) ≡ suc n + k = omega arith in
      get_or-drop n k xs d ∙ ap (λ (j : ℕ). get_or (x ∷ xs) j d) e
