-- ===== src/RiskManager/Node/Flags.antt =====
-- The node of app/agent/risk_manager.py: its trade, its flags, and the exceptions that it may raise.
use paper_trading_agent.Base.{
  ℕ, ◌-◌, ◌≤◌, ◌<◌, ◌≡◌, refl, ◌⊎◌, inl, inr, Bool, true, false, not, ◌&&◌, Option, none, some,
  List, [], ◌∷◌, ◌++◌, ltb, pos, count_if, All, All-append, All-weaken, length, same_text,
  same_text_refl, Bool-cases, Option-cases, Result-cases, OnEnd, OnEnd->>=, arith,
}
use paper_trading_agent.Base.Dict.{set_item, All-set_item, count_if-set_item}
use paper_trading_agent.Numbers.Ratio.{Ratio}
use paper_trading_agent.State.{Symbol, TentativeDecision}
use paper_trading_agent.DataSources.{PriceBar}
use paper_trading_agent.Positions.{Position, current_qty}
use paper_trading_agent.RiskMath.Correlation.{
  zero_division, Closes, Correlation, Matrix, correlation_window, aligned_returns,
  correlation_matrix, any_short, exceeds,
}
use paper_trading_agent.RiskMath.Correlation.Aligned.{
  shared_days, Aligned, aligned_returns-Aligned, Aligned-All, Aligned-count,
}
use paper_trading_agent.RiskMath.Correlation.Pairs.{IsApart, correlation_matrix_total}
use paper_trading_agent.RiskManager.{v1_rules, Flag, high_correlation, apply_budget}
use paper_trading_agent.RiskManager.Figures.{node_figures}
use paper_trading_agent.RiskManager.Node.{
  correlation_flag, var_lookback_days, correlation_lookback_days, Correlations, PricedOutput,
  RiskReply, others_held, flag_other, flag_pair, flag_pairs, entries_of, ny_closes, add_closes,
  flag_others, priced_ruling, risk_manager,
}

module _ (symbol : Symbol) where
  abbrev pub is_held : Symbol → Position → Bool
  is_held s p = same_text p.symbol s && ltb 0 p.quantity

  -- Another symbol, of which some position holds shares.
  abbrev pub HeldOther : List Position → Symbol → Type 0
  HeldOther positions s = (same_text s symbol ≡ false) × (0 < count_if (is_held s) positions)

  -- A flag of a correlation, with another held symbol.
  abbrev pub IsCorrelated : List Position → Flag → Type 0
  IsCorrelated positions (high_correlation other) = HeldOther positions other
  IsCorrelated positions _ = ⊥

  others_held-HeldOther :
      (positions : List Position) → All (HeldOther positions) (others_held symbol positions)
  unfolding others_held
  others_held-HeldOther [] = tt
  others_held-HeldOther (p ∷ ps) =
      let later : All (HeldOther (p ∷ ps)) (others_held symbol ps) =
        All-weaken (others_held symbol ps) (λ s h. (h.0, omega (arith, h.1)))
          (others_held-HeldOther ps) in
      elim (Bool-cases (not (same_text p.symbol symbol) && ltb 0 p.quantity)) [
        | inl e ↦ rw e ((ground arith, ground (arith, same_text_refl p.symbol)), later)
        | inr e ↦ rw e later
      ]

  module _ (positions : List Position) where
    abbrev Known : Symbol → Type 0
    Known s = (same_text s symbol ≡ true) ⊎ HeldOther positions s

    flag_other-IsCorrelated :
        (other : Symbol) (rho : Correlation) (found : Correlations × List Flag)
        → HeldOther positions other
        → All (IsCorrelated positions) found.1
        → All (IsCorrelated positions) (flag_other other rho found).1
    unfolding flag_other
    flag_other-IsCorrelated other rho found h k =
        All-append (IsCorrelated positions) found.1 _ k
          (elim (Bool-cases (exceeds correlation_flag rho)) [
            | inl e ↦ rw e (h, tt)
            | inr e ↦ rw e tt
          ])

    other_of : (s : Symbol) → Known s → same_text s symbol ≡ false → HeldOther positions s
    other_of s (inl this) other = cc
    other_of s (inr h) other = h

    flag_pair-IsCorrelated :
        (pair : Symbol × Symbol) (rho : Option Correlation) (found : Correlations × List Flag)
        → IsApart symbol Known (pair, rho)
        → All (IsCorrelated positions) found.1
        → All (IsCorrelated positions) (flag_pair symbol pair rho found).1
    unfolding flag_pair
    flag_pair-IsCorrelated pair none found h k = k
    flag_pair-IsCorrelated (a, b) (some rho) found (ha, hb, apart) k =
        elim (Bool-cases (same_text a symbol)) [
          | inl e ↦
              rw e (flag_other-IsCorrelated b rho found (other_of b hb (ground (arith, apart))) k)
          | inr e ↦ rw e (elim (Bool-cases (same_text b symbol)) [
            | inl e' ↦ rw e' (flag_other-IsCorrelated a rho found (other_of a ha e) k)
            | inr e' ↦ rw e' k
          ])
        ]

    flag_pairs-IsCorrelated :
        (matrix : Matrix) (found : Correlations × List Flag)
        → All (IsApart symbol Known) matrix
        → All (IsCorrelated positions) found.1
        → All (IsCorrelated positions) (flag_pairs symbol matrix found).1
    unfolding flag_pairs
    flag_pairs-IsCorrelated [] found h k = k
    flag_pairs-IsCorrelated ((pair, rho) ∷ rest) found (h, hs) k =
        flag_pairs-IsCorrelated rest (flag_pair symbol pair rho found) hs
          (flag_pair-IsCorrelated pair rho found h k)

    module _ (ny_day : ℕ → ℕ) (bars_of : Symbol → ℕ → List PriceBar) where
      -- The mappings of the symbol and of others that are held.
      abbrev IsListed : List (Symbol × Closes) → Type 0
      IsListed entries =
          All (λ (e : Symbol × Closes). Known e.0) entries
          × (count_if (λ (e : Symbol × Closes). same_text e.0 symbol) entries ≤ 1)

      add_closes-IsListed :
          (others : List Symbol) (entries : List (Symbol × Closes))
          → All (HeldOther positions) others
          → IsListed entries
          → IsListed (add_closes ny_day bars_of entries others)
      unfolding add_closes
      add_closes-IsListed [] entries h k = k
      add_closes-IsListed (other ∷ others) entries (h, hs) (known, once) =
          let closes = ny_closes ny_day (bars_of other correlation_lookback_days) in
          add_closes-IsListed others (set_item same_text other closes entries) hs (
            All-set_item same_text Known other closes entries (inr h) known,
            omega (
              arith,
              once,
              count_if-set_item same_text (λ s. same_text s symbol) other closes entries h.0,
            ),
          )

      abbrev all_closes : List Symbol → List PriceBar → List (Symbol × Closes)
      all_closes others bars =
          add_closes ny_day bars_of ((symbol, ny_closes ny_day bars) ∷ []) others

      matrix-IsApart :
          (n : ℕ) (series : List (Symbol × List Ratio))
          → All (λ (r : Symbol × List Ratio). Known r.0 × (length r.1 ≡ n)) series
          → count_if (λ (r : Symbol × List Ratio). same_text r.0 symbol) series ≤ 1
          → OnEnd
              (λ x. x ≡ zero_division)
              (λ m. All (IsApart symbol Known) (entries_of m))
              (correlation_matrix correlation_window series)
      unfolding correlation_matrix any_short
      matrix-IsApart n [] h once = tt
      matrix-IsApart n (r ∷ rest) (h, hs) once =
          elim (Bool-cases (any_short correlation_window (r ∷ rest))) [
            | inl short ↦ rw short tt
            | inr long ↦
                (let (matrix, e, k) =
                    correlation_matrix_total symbol Known correlation_window n (omega arith)
                      (ground (arith, h.1)) (r ∷ rest) long (h, hs) once in
                  rw e k)
          ]

      flag_others-IsCorrelated :
          (bars : List PriceBar) (others : List Symbol)
          → All (HeldOther positions) others
          → OnEnd
              (λ x. x ≡ zero_division)
              (λ r. All (IsCorrelated positions) r.1)
              (flag_others ny_day bars_of symbol bars others)
      unfolding flag_others
      flag_others-IsCorrelated bars [] h = tt
      flag_others-IsCorrelated bars (other ∷ others) h =
          let entries = all_closes (other ∷ others) bars in
          let first : IsListed ((symbol, ny_closes ny_day bars) ∷ []) =
            ((inl (same_text_refl symbol), tt), rw (same_text_refl symbol) (omega arith)) in
          let listed = add_closes-IsListed (other ∷ others) _ h first in
          let days = shared_days entries in
          OnEnd->>= (λ x. x ≡ zero_division) (Aligned days entries)
            (λ r. All (IsCorrelated positions) r.1) (aligned_returns entries) _
            (aligned_returns-Aligned entries)
            λ series a.
              OnEnd->>= (λ x. x ≡ zero_division) (λ m. All (IsApart symbol Known) (entries_of m))
                (λ r. All (IsCorrelated positions) r.1)
                (correlation_matrix correlation_window series) _
                (matrix-IsApart (length days - 1) series
                  (Aligned-All days Known entries series a listed.0)
                  (omega (
                    arith,
                    listed.1,
                    Aligned-count days (λ s. same_text s symbol) entries series a,
                  )))
                λ m k. flag_pairs-IsCorrelated (entries_of m) ([], []) k tt

-- The trade is the budget's, on the V1 rules' ruling, from the quantity held and the VaR of the bars; the
-- flags are the budget's, then those of correlations.
abbrev pub IsGated :
    (ny_day : ℕ → ℕ) (bars : List PriceBar)
    → List Position
    → Symbol
    → TentativeDecision
    → ℕ
    → RiskReply
    → Type 0
IsGated ny_day bars positions symbol t held reply =
    (priced : PricedOutput) × (extra : List Flag) × (node_figures ny_day bars ≡ some priced.figures)
    × (reply.raw_output.priced ≡ some priced)
    × (let gated = apply_budget priced.figures.var_95 (pos held) (v1_rules t (pos held)) in
        (reply.final ≡ gated.final)
        × (priced.var_max_qty ≡ gated.var_max)
        × (priced.risk_flags ≡ gated.flags ++ extra))
    × All (IsCorrelated symbol positions) extra

-- With a price source the node fails only by a ZeroDivisionError. Otherwise its trade is the VaR budget's
-- say on the V1 rules' ruling, whatever the correlations are, and its flags are the budget's followed by
-- correlations with other symbols, each of which is held.
pub risk_manager_lem :
    (ny_day : ℕ → ℕ) (bars_of : Symbol → ℕ → List PriceBar)
    (list_positions : Option Symbol → List Position) (symbol : Symbol) (t : TentativeDecision)
    → OnEnd
        (λ x. x ≡ zero_division)
        (IsGated ny_day
          (bars_of symbol var_lookback_days)
          (list_positions none)
          symbol
          t
          (current_qty (list_positions (some symbol))))
        (risk_manager ny_day bars_of list_positions symbol t)
unfolding risk_manager priced_ruling
risk_manager_lem ny_day bars_of list_positions symbol t =
    let positions = list_positions none in
    let bars = bars_of symbol var_lookback_days in
    let others = others_held symbol positions in
    let ended =
      flag_others-IsCorrelated symbol positions ny_day bars_of bars others
        (others_held-HeldOther symbol positions) in
    elim (Option-cases (node_figures ny_day bars)) [
      | inl missing ↦ rw missing refl
      | inr (figures, known) ↦
          rw known (elim (Result-cases (flag_others ny_day bars_of symbol bars others)) [
            | inl (correlated, e) ↦
                rw e ((_, correlated.1, known, refl, (refl, refl, refl), rw e at ended))
            | inr (raised, e) ↦ rw e (rw e at ended)
          ])
    ]
