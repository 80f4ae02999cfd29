-- ===== src/ExplainRecorded/Sample.antt =====
-- evenly_spaced of scripts/explain_recorded.py.
use paper_trading_agent.Base.{
  ℕ, zero, suc, ◌+◌, ◌*◌, ◌≤◌, ◌<◌, min, ◌≡◌, refl, subst, inl, inr, Bool-cases, some, List, [],
  ◌∷◌, leb, length, get_elem?, get_elem?_total, drop, arith,
}
use mathlib.Core.Option.{some-injective}
use paper_trading_agent.Numbers.Rounding.{round_half_even-lt, round_half_even-exact}
use paper_trading_agent.ExplainRecorded.{spaced_index, pick_from, evenly_spaced}

-- The elements of `xs` stand in `ys`, in this order, at different positions.
pub data Subsequence {ℓ} {A : Type ℓ} : List A → List A → Type ℓ where
  done : Subsequence [] []
  skip : {xs ys : List A} {y : A} → Subsequence xs ys → Subsequence xs (y ∷ ys)
  keep : {xs ys : List A} {y : A} → Subsequence xs ys → Subsequence (y ∷ xs) (y ∷ ys)

module _ {ℓ} {A : Type ℓ} where
  nothing : (ys : List A) → Subsequence [] ys
  nothing [] = done
  nothing (y ∷ ys) = skip (nothing ys)

  everything : (ys : List A) → Subsequence ys ys
  everything [] = done
  everything (y ∷ ys) = keep (everything ys)

  -- An element at or behind a position, before a choice from what follows it.
  at_or_behind :
      (ys xs : List A) (low i : ℕ) {x : A}
      → low ≤ i
      → get_elem? ys i ≡ some x
      → Subsequence xs (drop (suc i) ys)
      → Subsequence (x ∷ xs) (drop low ys)
  at_or_behind [] xs low i h e s = cc
  at_or_behind (y ∷ ys) xs zero zero h e s =
      subst (λ z. Subsequence (z ∷ xs) (y ∷ ys)) (some-injective _ _ e) (keep s)
  at_or_behind (y ∷ ys) xs zero (suc i) h e s = skip (at_or_behind ys xs zero i (omega arith) e s)
  at_or_behind (y ∷ ys) xs (suc low) zero h e s = absurd (omega arith)
  at_or_behind (y ∷ ys) xs (suc low) (suc i) h e s = at_or_behind ys xs low i (omega arith) e s

  module _ (rows : List A) (index : ℕ → ℕ) where
    pick_step :
        (i left : ℕ) {row : A} {picked : List A}
        → get_elem? rows (index i) ≡ some row
        → pick_from rows index (i + 1) left ≡ some picked
        → pick_from rows index i (suc left) ≡ some (row ∷ picked)
    unfolding pick_from
    pick_step i left found e = ground arith

    -- Rising positions, all of the list, pick a subsequence.
    pick_from-Subsequence :
        (i left low : ℕ)
        → ((j : ℕ) → j < i + left → (index j < index (j + 1)) × (index j < length rows))
        → low ≤ index i
        → (picked : List A) × (pick_from rows index i left ≡ some picked)
          × Subsequence picked (drop low rows)
          × (length picked ≡ left)
    unfolding pick_from
    pick_from-Subsequence i zero low rises h = ([], refl, nothing (drop low rows), refl)
    pick_from-Subsequence i (suc left) low rises h =
        let (row, found) = get_elem?_total rows (index i) (rises i (omega arith)).1 in
        let (picked, e, s, counted) =
          pick_from-Subsequence (i + 1) left (suc (index i)) (λ j k. rises j (omega arith))
            (rises i (omega arith)).0 in
        (
          row ∷ picked,
          pick_step i left found e,
          at_or_behind rows picked low (index i) h found s,
          omega (arith, counted),
        )

  spaced_index-rises :
      (rows : List A) (n j : ℕ)
      → n < length rows
      → j < n
      → (spaced_index (length rows) n j < spaced_index (length rows) n (j + 1))
        × (spaced_index (length rows) n j < length rows)
  spaced_index-rises rows n j h k =
      let count = length rows in
      (
        round_half_even-lt (j * count) n ((j + 1) * count) (omega arith) (grind arith),
        subst (λ m. spaced_index count n j < m) (round_half_even-exact count n (omega arith))
            (round_half_even-lt (j * count) n (count * n) (omega arith) (grind arith)),
      )

  -- The sample never asks for a row that is not there: it is `n` of the rows, or all if there are no
  -- more, at different positions and in the order of the rows.
  pub evenly_spaced_lem :
      (rows : List A) (n : ℕ)
      → (picked : List A) × (evenly_spaced rows n ≡ some picked)
        × Subsequence picked rows
        × (length picked ≡ min n (length rows))
  unfolding evenly_spaced
  evenly_spaced_lem rows n = elim (Bool-cases (leb (length rows) n)) [
    | inl all ↦ (rows, rw all refl, everything rows, ground arith)
    | inr some_left ↦
        (let (picked, e, s, counted) =
            pick_from-Subsequence rows (spaced_index (length rows) n) 0 n 0
              (λ j k. spaced_index-rises rows n j (ground arith) (omega arith)) (omega arith) in
          (picked, rw some_left e, s, ground arith))
  ]
