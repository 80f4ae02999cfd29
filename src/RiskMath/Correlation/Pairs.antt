-- ===== src/RiskMath/Correlation/Pairs.antt =====
-- correlation_matrix of app/agent/risk_math.py: the pairs of a matrix of series of one length.
use paper_trading_agent.Base.{
  ℕ, ◌-◌, ◌≤◌, ◌≡◌, refl, ◌⊎◌, Bool, false, not, ◌&&◌, ◌||◌, Option, some, List, [], ◌∷◌, ◌++◌, ltb,
  ◌==◌, length, last_n, count_if, All, All-append, same_text, ok, length-drop, arith,
}
use paper_trading_agent.Numbers.Ratio.{Ratio}
use paper_trading_agent.Numbers.Sorting.{sorted, All-sorted, count_if-sorted}
use paper_trading_agent.State.{Symbol}
use paper_trading_agent.RiskMath.{mean_R}
use paper_trading_agent.RiskMath.Correlation.{
  Correlation, Matrix, pearson, correlation, pairs_with, all_pairs, any_short, by_symbol,
  correlation_matrix,
}

pearson_total :
    (x y : Ratio) (xs ys : List Ratio)
    → (rho : Option Correlation) × (pearson (x ∷ xs) (y ∷ ys) ≡ ok rho)
unfolding pearson mean_R
pearson_total x y xs ys = (_, refl)

-- Series of one length, which is at least 2, have a correlation or are constant.
pub correlation_total :
    (a b : List Ratio)
    → length a ≡ length b
    → 2 ≤ length a
    → (rho : Option Correlation) × (correlation a b ≡ ok rho)
unfolding correlation
correlation_total [] b same long = absurd (omega arith)
correlation_total (x ∷ xs) [] same long = absurd (omega (arith, same))
correlation_total (x ∷ xs) (y ∷ ys) same long =
    let test : (not (length (x ∷ xs) == length (y ∷ ys)) || ltb (length (x ∷ xs)) 2) ≡ false =
      ground (arith, same, long) in
    let (rho, e) = pearson_total x y xs ys in (rho, rw test e)

module _ (symbol : Symbol) (P : Symbol → Type 0) where
  abbrev pub is_this : Symbol × List Ratio → Bool
  is_this e = same_text e.0 symbol

  -- A pair of symbols with P, not both of them this one.
  abbrev pub IsApart : (Symbol × Symbol) × Option Correlation → Type 0
  IsApart entry =
      P entry.0.0
      × P entry.0.1
      × ((same_text entry.0.0 symbol && same_text entry.0.1 symbol) ≡ false)

  module _ (window n : ℕ) (some_window : 2 ≤ window) (enough : window ≤ n) where
    -- An entry of a symbol with P and of n returns.
    abbrev pub IsEntry : Symbol × List Ratio → Type 0
    IsEntry e = P e.0 × (length e.1 ≡ n)

    pairs_with_total :
        (first : Symbol × List Ratio) (rest : List (Symbol × List Ratio))
        → IsEntry first
        → All IsEntry rest
        → (is_this first ≡ false) ⊎ (count_if is_this rest ≡ 0)
        → (row : Matrix) × (pairs_with window first rest ≡ ok row) × All IsApart row
    unfolding pairs_with
    pairs_with_total first [] f h apart = ([], refl, tt)
    pairs_with_total first (second ∷ rest) f (h, hs) apart =
        let (rho, e) =
          correlation_total (last_n window first.1) (last_n window second.1)
            (omega (
              arith,
              f.1,
              h.1,
              length-drop (length first.1 - window) first.1,
              length-drop (length second.1 - window) second.1,
            ))
            (omega (arith, f.1, length-drop (length first.1 - window) first.1)) in
        let (row, e', ks) = pairs_with_total first rest f hs (ground (arith, apart)) in
        (
          ((first.0, second.0), rho) ∷ row,
          rw e (rw e' refl),
          ((f.0, h.0, ground (arith, apart)), ks),
        )

    all_pairs_total :
        (entries : List (Symbol × List Ratio))
        → All IsEntry entries
        → count_if is_this entries ≤ 1
        → (matrix : Matrix) × (all_pairs window entries ≡ ok matrix) × All IsApart matrix
    unfolding all_pairs
    all_pairs_total [] h once = ([], refl, tt)
    all_pairs_total (first ∷ rest) (h, hs) once =
        let (row, e, k) = pairs_with_total first rest h hs (ground (arith, once)) in
        let (others, e', ks) = all_pairs_total rest hs (ground (arith, once)) in
        (row ++ others, rw e (rw e' refl), All-append IsApart row others k ks)

    -- Series of one length, not shorter than the window, make a matrix.
    pub correlation_matrix_total :
        (entries : List (Symbol × List Ratio))
        → any_short window entries ≡ false
        → All IsEntry entries
        → count_if is_this entries ≤ 1
        → (matrix : Matrix) × (correlation_matrix window entries ≡ ok (some matrix))
          × All IsApart matrix
    unfolding correlation_matrix
    correlation_matrix_total entries long h once =
        let (matrix, e, k) =
          all_pairs_total (sorted (by_symbol window) entries)
            (All-sorted (by_symbol window) IsEntry entries h)
            (omega (arith, once, count_if-sorted (by_symbol window) is_this entries)) in
        (matrix, rw long (rw e refl), k)
