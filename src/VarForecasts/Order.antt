-- ===== src/VarForecasts/Order.antt =====
-- The order in which fill_realized_returns of app/agent/var_forecasts.py reads the forecasts.
use paper_trading_agent.Base.{
  ℕ, ◌≡◌, refl, subst, inl, inr, Bool, true, false, [], ◌∷◌, if◌then◌else◌, leb, Bool-cases, Text,
  same_text, same_text_iff, same_text_refl, arith,
}
use paper_trading_agent.Numbers.Sorting.{IsOrder}
use paper_trading_agent.Explainer.{text_le}
use paper_trading_agent.VarForecasts.Realized.{forecast_before}

text_le_total : (a b : Text) → text_le a b ≡ false → text_le b a ≡ true
unfolding text_le
text_le_total [] b h = cc
text_le_total (x ∷ a) [] h = refl
text_le_total (x ∷ a) (y ∷ b) h = ground (arith, text_le_total a b)

text_le_antisym : (a b : Text) → text_le a b ≡ true → text_le b a ≡ true → same_text a b ≡ true
unfolding text_le same_text
text_le_antisym [] [] h k = refl
text_le_antisym [] (y ∷ b) h k = cc
text_le_antisym (x ∷ a) [] h k = cc
text_le_antisym (x ∷ a) (y ∷ b) h k = ground (arith, text_le_antisym a b)

text_le_trans : (a b c : Text) → text_le a b ≡ true → text_le b c ≡ true → text_le a c ≡ true
unfolding text_le
text_le_trans [] b c h k = refl
text_le_trans (x ∷ a) [] c h k = cc
text_le_trans (x ∷ a) (y ∷ b) [] h k = cc
text_le_trans (x ∷ a) (y ∷ b) (z ∷ c) h k = ground (arith, text_le_trans a b c)

-- forecast_before on the columns.
abbrev columns_before : Text → Text → ℕ → ℕ → Bool
columns_before s t i j = if same_text s t then leb i j else text_le s t

columns-own :
    (s u : Text) (i j k : ℕ)
    → columns_before s s i j ≡ true
    → columns_before s u j k ≡ true
    → columns_before s u i k ≡ true
columns-own s u i j k h g = ground (arith, same_text_refl s)

columns-to :
    (s t : Text) (i j k : ℕ)
    → columns_before s t i j ≡ true
    → columns_before t t j k ≡ true
    → columns_before s t i k ≡ true
columns-to s t i j k h g = ground (arith, same_text_refl t)

differ : (s t : Text) → same_text s t ≡ false → text_le s t ≡ true → text_le t s ≡ true → ⊥
differ s t d h k = let same = text_le_antisym s t h k in cc

columns-back :
    (s t : Text) (i j k : ℕ)
    → same_text s t ≡ false
    → columns_before s t i j ≡ true
    → columns_before t s j k ≡ true
    → columns_before s s i k ≡ true
columns-back s t i j k d h g =
    absurd (differ s t d (ground arith) (ground (arith, same_text_iff s t, same_text_iff t s)))

columns_before_trans :
    (s t u : Text) (i j k : ℕ)
    → columns_before s t i j ≡ true
    → columns_before t u j k ≡ true
    → columns_before s u i k ≡ true
columns_before_trans s t u i j k h g = elim (Bool-cases (same_text s t)) [
  | inl e ↦
      (let P : Text → Type 0 = λ x.
          columns_before s x i j ≡ true
          → columns_before x u j k ≡ true
          → columns_before s u i k ≡ true in
        subst P ((same_text_iff s t).0 e) (columns-own s u i j k) h g)
  | inr e ↦ elim (Bool-cases (same_text t u)) [
    | inl f ↦
        (let P : Text → Type 0 =
            λ x. columns_before t x j k ≡ true → columns_before s x i k ≡ true in
          subst P ((same_text_iff t u).0 f) (columns-to s t i j k h) g)
    | inr f ↦ elim (Bool-cases (same_text s u)) [
      | inl b ↦
          (let P : Text → Type 0 =
              λ x. columns_before t x j k ≡ true → columns_before s x i k ≡ true in
            subst P ((same_text_iff s u).0 b) (columns-back s t i j k e h) g)
      | inr b ↦ ground (arith, text_le_trans s t u)
    ]
  ]
]

columns_before_total :
    (s t : Text) (i j : ℕ) → columns_before s t i j ≡ false → columns_before t s j i ≡ true
columns_before_total s t i j h =
    ground (arith, text_le_total s t, same_text_iff s t, same_text_iff t s)

pub forecast_before-IsOrder : IsOrder forecast_before
forecast_before-IsOrder = record {
  trans = λ a b c. columns_before_trans a.symbol b.symbol c.symbol a.as_of b.as_of c.as_of;
  total = λ a b. columns_before_total a.symbol b.symbol a.as_of b.as_of;
}
