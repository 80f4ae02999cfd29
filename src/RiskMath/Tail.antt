-- ===== src/RiskMath/Tail.antt =====
-- What the tail figures of app/agent/risk_math.py mean: the rank of historical VaR among the losses, and the
-- days that tail_losses names.
use mathlib.Core.List.{zip}
use paper_trading_agent.Base.{
  ℕ, ◌-◌, ◌*◌, ◌≤◌, ◌<◌, ◌≡◌, refl, ap, ◌∙◌, Bool, not, some, List, [], ◌∷◌, map, length, get_elem?,
  get_elem?_total, take, last_n, map-take, count_if, length-map, length-drop, arith,
}
use paper_trading_agent.Numbers.Ratio.{
  Ratio, neg_R, leb_R, leb_R-neg, larger_first, larger_first-IsOrder,
}
use paper_trading_agent.Numbers.Sorting.{
  IsSorted, sorted, map-sorted, length-sorted, count_if-sorted, sorted-IsSorted, le-count_before,
  count_strictly_before-le,
}
use paper_trading_agent.RiskMath.{
  tail_count, window_losses, historical_var, tail_losses, worse_return, label_first,
}

-- The losses among which the figures are ranked, in the order of the days.
abbrev pub losses_in : List Ratio → ℕ → List Ratio
losses_in returns window = map neg_R (last_n window returns)

mul_bound : (n m : ℕ) → m ≤ 10_000 → n * m ≤ n * 10_000
mul_bound n m h = grind arith

pub tail_count_bounds : (n conf : ℕ) → 1 ≤ n → (1 ≤ tail_count n conf) × (tail_count n conf ≤ n)
unfolding tail_count
tail_count_bounds n conf h = omega (arith, mul_bound n (10_000 - conf) (omega arith))

pub length-window_losses :
    (returns : List Ratio) (window : ℕ)
    → window ≤ length returns
    → length (window_losses returns window) ≡ window
unfolding window_losses
length-window_losses returns window h = omega (
  arith,
  length-sorted larger_first (losses_in returns window),
  length-map neg_R (last_n window returns),
  length-drop (length returns - window) returns,
)

count_if-window_losses :
    (p : Ratio → Bool) (returns : List Ratio) (window : ℕ)
    → count_if p (window_losses returns window) ≡ count_if p (losses_in returns window)
unfolding window_losses
count_if-window_losses p returns window = count_if-sorted larger_first p (losses_in returns window)

window_losses-IsSorted :
    (returns : List Ratio) (window : ℕ) → IsSorted larger_first (window_losses returns window)
unfolding window_losses
window_losses-IsSorted returns window =
    sorted-IsSorted larger_first larger_first-IsOrder (losses_in returns window)

historical_var-eq :
    (returns : List Ratio) (conf window : ℕ)
    → window ≤ length returns
    → historical_var returns conf window
      ≡ get_elem? (window_losses returns window) (tail_count window conf - 1)
unfolding historical_var
historical_var-eq returns conf window h = ground arith

-- With a full window of returns, historical VaR exists and is the k-th largest loss of that window,
-- for k the tail count: at least k losses of the window are as large, and fewer than k are larger.
pub historical_var_rank :
    (returns : List Ratio) (conf window : ℕ)
    → 1 ≤ window
    → window ≤ length returns
    → (var : Ratio) × (historical_var returns conf window ≡ some var)
      × (tail_count window conf ≤ count_if (λ l. leb_R var l) (losses_in returns window))
      × (count_if (λ l. not (leb_R l var)) (losses_in returns window) < tail_count window conf)
historical_var_rank returns conf window h full =
    let losses = window_losses returns window in
    let k = tail_count window conf in
    let bounds = tail_count_bounds window conf h in
    let (var, at) : (v : Ratio) × (get_elem? losses (k - 1) ≡ some v) =
      get_elem?_total losses (k - 1) (omega (arith, length-window_losses returns window full)) in
    let sort = window_losses-IsSorted returns window in
    (
      var,
      historical_var-eq returns conf window full ∙ at,
      omega (
        arith,
        le-count_before larger_first larger_first-IsOrder losses (k - 1) var sort at,
        count_if-window_losses (λ l. leb_R var l) returns window,
      ),
      omega (
        arith,
        count_strictly_before-le larger_first larger_first-IsOrder losses (k - 1) var sort at,
        count_if-window_losses (λ l. not (leb_R l var)) returns window,
      ),
    )

module _ {Label : Type 0} where
  abbrev loss_of : Ratio × Label → Ratio
  loss_of p = neg_R p.0

  abbrev pub loss_on : Label × Ratio → Ratio
  loss_on d = neg_R d.1

  map-loss_on : (ps : List (Ratio × Label)) → map loss_on (map label_first ps) ≡ map loss_of ps
  map-loss_on [] = refl
  map-loss_on (p ∷ ps) = ap (λ ls. loss_of p ∷ ls) (map-loss_on ps)

  map-loss_of-zip :
      (rs : List Ratio) (ls : List Label)
      → length ls ≡ length rs
      → map loss_of (zip rs ls) ≡ map neg_R rs
  unfolding zip
  map-loss_of-zip [] ls h = refl
  map-loss_of-zip (r ∷ rs) [] h = absurd (omega arith)
  map-loss_of-zip (r ∷ rs) (l ∷ ls) h =
      ap (λ ys. neg_R r ∷ ys) (map-loss_of-zip rs ls (omega arith))

  keeps_order : (p q : Ratio × Label) → larger_first (loss_of p) (loss_of q) ≡ worse_return p q
  keeps_order p q = leb_R-neg p.0 q.0

  -- Given a full window and one label for each return, the losses on the labelled days, in the order
  -- given, are exactly the k largest losses that historical_var and historical_cvar are read from.
  pub tail_losses_are_the_tail :
      (returns : List Ratio) (labels : List Label) (conf window : ℕ)
      → window ≤ length returns
      → length labels ≡ length returns
      → (days : List (Label × Ratio)) × (tail_losses returns labels conf window ≡ some days)
        × (map loss_on days ≡ take (tail_count window conf) (window_losses returns window))
  unfolding tail_losses window_losses
  tail_losses_are_the_tail returns labels conf window h e =
      let pairs = zip (last_n window returns) (last_n window labels) in
      let k = tail_count window conf in
      let lengths : length (last_n window labels) ≡ length (last_n window returns) = omega (
        arith,
        length-drop (length labels - window) labels,
        length-drop (length returns - window) returns,
      ) in
      (
        map label_first (take k (sorted worse_return pairs)),
        ground arith,
        map-loss_on (take k (sorted worse_return pairs))
            ∙ map-take loss_of k (sorted worse_return pairs)
            ∙ ap (take k) (
                map-sorted worse_return larger_first loss_of keeps_order pairs
                ∙ ap (sorted larger_first) (map-loss_of-zip _ _ lengths)),
      )
