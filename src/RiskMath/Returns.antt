-- ===== src/RiskMath/Returns.antt =====
-- app/agent/risk_math.py: returns of closes of which none is zero, and of two pieces of closes.
use paper_trading_agent.Base.{
  ℕ, zero, suc, ◌-◌, ◌≤◌, ◌<◌, ◌≡◌, refl, ap, some, List, [], ◌∷◌, ◌++◌, length, take, last_n,
  length-append, All, sub_ℕ, arith,
}
use paper_trading_agent.Numbers.Ratio.{Ratio}
use paper_trading_agent.RiskMath.{
  confidence, var_window, simple_return, simple_returns, tail_losses,
}

pub last_n-append {ℓ} :
    {A : Type ℓ} (n : ℕ) (xs ys : List A) → n ≤ length ys → last_n n (xs ++ ys) ≡ last_n n ys
last_n-append n [] ys h = refl
last_n-append n (x ∷ xs) ys h =
    let more : length (x ∷ xs ++ ys) - n ≡ suc (length (xs ++ ys) - n) =
      omega (arith, length-append xs ys) in
    rw more (last_n-append n xs ys h)

-- Prices, of which none is zero.
abbrev pub Priced : List ℕ → Type 0
Priced closes = All (λ c. 0 < c) closes

returns-step :
    (c d : ℕ) (cs : List ℕ) {rs : List Ratio}
    → 0 < c
    → simple_returns (d ∷ cs) ≡ some rs
    → (r : Ratio) × (simple_returns (c ∷ d ∷ cs) ≡ some (r ∷ rs))
unfolding simple_returns simple_return
returns-step zero d cs h e = absurd (omega arith)
returns-step (suc p) d cs h e = (record { num = sub_ℕ d (suc p); den_pred = p }, ground arith)

pub simple_returns_total :
    (c : ℕ) (cs : List ℕ)
    → Priced (c ∷ cs)
    → (rs : List Ratio) × (simple_returns (c ∷ cs) ≡ some rs) × (length rs ≡ length cs)
unfolding simple_returns
simple_returns_total c [] h = ([], refl, refl)
simple_returns_total c (d ∷ cs) (h, hs) =
    let (rs, e, counted) = simple_returns_total d cs hs in
    let (r, e') = returns-step c d cs h e in (r ∷ rs, e', omega (arith, counted))

-- The returns of two pieces, the second of which is not empty, end with those of the second.
pub simple_returns-append :
    (xs : List ℕ) (c : ℕ) (cs : List ℕ) {rs : List Ratio}
    → Priced xs
    → simple_returns (c ∷ cs) ≡ some rs
    → (ss : List Ratio) × (simple_returns (xs ++ c ∷ cs) ≡ some (ss ++ rs))
      × (length ss ≡ length xs)
simple_returns-append [] c cs h e = ([], e, refl)
simple_returns-append (x ∷ []) c cs (h, hs) e =
    let (r, e') = returns-step x c cs h e in (r ∷ [], e', refl)
simple_returns-append (x ∷ y ∷ xs) c cs (h, hs) e =
    let (ss, e', counted) = simple_returns-append (y ∷ xs) c cs hs e in
    let (r, e'') = returns-step x y (xs ++ c ∷ cs) h e' in (r ∷ ss, e'', omega (arith, counted))

-- The tail is that of the returns at the end, if these are enough.
pub tail_losses-append :
    (rs ss : List Ratio) (ks ls : List ℕ)
    → var_window ≤ length rs
    → length ks ≡ length rs
    → length ls ≡ length ss
    → tail_losses (ss ++ rs) (ls ++ ks) confidence var_window
      ≡ tail_losses rs ks confidence var_window
unfolding tail_losses
tail_losses-append rs ss ks ls h k l =
    let more = length-append ss rs in
    let labels = length-append ls ks in
    rw (last_n-append var_window ss rs h)
      (rw (last_n-append var_window ls ks (omega (arith, k))) (ground (arith, more, labels)))

pub take-length {ℓ} : {A : Type ℓ} (xs ys : List A) → take (length xs) (xs ++ ys) ≡ xs
take-length [] ys = refl
take-length (x ∷ xs) ys = ap (λ zs. x ∷ zs) (take-length xs ys)
