-- ===== src/EvaluateVar/Window.antt =====
-- historical_var of app/agent/risk_math.py on the last of the bars, as app/agent/risk_manager.py has them.
use paper_trading_agent.Base.{
  ℕ, zero, suc, ◌-◌, ◌≤◌, ◌<◌, ◌≡◌, refl, ap, sym, ◌∙◌, subst, none, some, List, [], ◌∷◌, ◌++◌,
  length, take, drop, last_n, length-append, length-drop, min, sub_ℕ, All, arith,
}
use mathlib.Core.List.{map-append}
use mathlib.Core.Option.{some-injective}
use paper_trading_agent.Numbers.Ratio.{Ratio}
use paper_trading_agent.RiskMath.{
  confidence, var_window, simple_return, simple_returns, historical_var, window_losses,
}
use paper_trading_agent.RiskManager.Figures.{closes_of, NodeFigures, figures_of, node_figures}
use paper_trading_agent.DataSources.{PriceBar}
use paper_trading_agent.RiskMath.Returns.{
  last_n-append, Priced, simple_returns_total, simple_returns-append, take-length,
}
use paper_trading_agent.RiskManager.Figures.Bars.{Priced-append, length-closes, node_figures_known}

-- The VaR reads the last window only.
historical_var-append :
    (rs ss : List Ratio)
    → var_window ≤ length rs
    → historical_var (ss ++ rs) confidence var_window ≡ historical_var rs confidence var_window
unfolding historical_var window_losses
historical_var-append rs ss h =
    let more = length-append ss rs in rw (last_n-append var_window ss rs h) (ground (arith, more))

pub historical_var_short :
    (rs : List Ratio) → length rs < var_window → historical_var rs confidence var_window ≡ none
unfolding historical_var
historical_var_short rs h = ground arith

take-drop {ℓ} : {A : Type ℓ} (n : ℕ) (xs : List A) → take n xs ++ drop n xs ≡ xs
take-drop zero xs = refl
take-drop (suc n) [] = refl
take-drop (suc n) (x ∷ xs) = ap (λ ys. x ∷ ys) (take-drop n xs)

-- A list ends with its last elements.
last_n-split {ℓ} :
    {A : Type ℓ} (n : ℕ) (xs : List A)
    → (older : List A) × (xs ≡ older ++ last_n n xs) × (length (last_n n xs) ≡ min n (length xs))
last_n-split n xs = (
  take (length xs - n) xs,
  sym (take-drop (length xs - n) xs),
  omega (arith, length-drop (length xs - n) xs),
)

pub simple_return_total :
    (before close : ℕ) → 0 < before → (r : Ratio) × (simple_return before close ≡ some r)
unfolding simple_return
simple_return_total zero close h = absurd (omega arith)
simple_return_total (suc p) close h = (record { num = sub_ℕ close (suc p); den_pred = p }, refl)

pub first_behind {κ} :
    (P : PriceBar → Type κ) (before : List PriceBar) (b : PriceBar) (rest : List PriceBar)
    → All P (before ++ b ∷ rest)
    → P b
first_behind P [] b rest (h, hs) = h
first_behind P (c ∷ before) b rest (h, hs) = first_behind P before b rest hs

pub closes_before :
    (bars before rest : List PriceBar)
    → bars ≡ before ++ rest
    → take (length before) (closes_of bars) ≡ closes_of before
closes_before bars before rest split =
    ap (λ bs. take (length before) (closes_of bs)) split
    ∙ ap (take (length before)) (map-append (λ (b : PriceBar). b.close) before rest)
    ∙ ap (λ n. take n (closes_of before ++ closes_of rest)) (sym (length-closes before))
    ∙ take-length (closes_of before) (closes_of rest)

module _ (ny_day : ℕ → ℕ) where
  -- The node's VaR of the last bars is that of all.
  node_var :
      (older seen : List PriceBar) (var : Ratio) {rs : List Ratio}
      → Priced (closes_of (older ++ seen))
      → simple_returns (closes_of (older ++ seen)) ≡ some rs
      → historical_var rs confidence var_window ≡ some var
      → var_window < length seen
      → (f : NodeFigures) × (node_figures ny_day seen ≡ some f) × (f.var_95 ≡ some var)
  node_var older [] var priced e known many = absurd (omega arith)
  node_var older (bar ∷ bars) var {rs} priced e known many =
      let (old_priced, seen_priced) = Priced-append older (bar ∷ bars) priced in
      let (rs', e', counted) = simple_returns_total bar.close (closes_of bars) seen_priced in
      let (ss, e'', _) =
        simple_returns-append (closes_of older) bar.close (closes_of bars) old_priced e' in
      let same : rs ≡ ss ++ rs' = some-injective _ _ (
        sym e
        ∙ ap simple_returns (map-append (λ (b : PriceBar). b.close) older (bar ∷ bars))
        ∙ e'') in
      (
        figures_of ny_day (bar ∷ bars) rs',
        node_figures_known ny_day (bar ∷ bars) e',
        sym (historical_var-append rs' ss (omega (arith, counted, length-closes bars)))
            ∙ ap (λ r. historical_var r confidence var_window) (sym same)
            ∙ known,
      )

  -- So it is that of any number of the last bars above the window.
  pub node_var_last :
      (bars : List PriceBar) (n : ℕ) (var : Ratio) {rs : List Ratio}
      → Priced (closes_of bars)
      → simple_returns (closes_of bars) ≡ some rs
      → historical_var rs confidence var_window ≡ some var
      → var_window < length bars
      → var_window < n
      → (f : NodeFigures) × (node_figures ny_day (last_n n bars) ≡ some f) × (f.var_95 ≡ some var)
  node_var_last bars n var {rs} priced e known many long =
      let (older, split, counted) = last_n-split n bars in
      node_var older (last_n n bars) var (subst (λ bs. Priced (closes_of bs)) split priced)
        (ap (λ bs. simple_returns (closes_of bs)) (sym split) ∙ e) known
        (omega (arith, counted, many, long))
