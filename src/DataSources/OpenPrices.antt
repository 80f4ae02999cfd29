-- ===== src/DataSources/OpenPrices.antt =====
-- OpenPriceBook of app/agent/data_sources.py: opening prices, with one fetch for each symbol.
-- Dates are counted like New York dates, `noon_utc` is 12:00 UTC of a date and `utc_day` the UTC date of an
-- instant, both from Python's datetime; `source` is the price source.
use paper_trading_agent.Base.{
  ℕ, ◌+◌, ◌-◌, ◌≡◌, refl, ap, sym, ◌∙◌, inl, inr, Option, none, some, List, [], ◌∷◌, if◌then◌else◌,
  ◌==◌, Bool-cases, Option-cases, Text, same_text, same_text_iff,
}
use mathlib.Core.Option.{some-injective}
use paper_trading_agent.DataSources.{PriceBar}

-- The openings of the bars by date; of two bars of one date the later in the list counts.
unfoldable pub opens_of : (ℕ → ℕ) → List PriceBar → ℕ → Option ℕ
opens_of ny_day [] day = none
opens_of ny_day (bar ∷ bars) day =
    let rest = opens_of ny_day bars day in
    elim rest [
      | some later ↦ some later
      | none ↦ if ny_day bar.timestamp == day then some bar.open_price else none
    ]

-- `_opens`, the openings of the symbols that were asked for.
abbrev pub Opens : Type 0
Opens = List (Text × (ℕ → Option ℕ))

abbrev pub cached : Text → Opens → Option (ℕ → Option ℕ)
cached symbol [] = none
cached symbol ((s, opens) ∷ rest) = if same_text symbol s then some opens else cached symbol rest

module _ (source : Text → ℕ → ℕ → List PriceBar) (ny_day : ℕ → ℕ) (noon_utc : ℕ → ℕ)
    (utc_day : ℕ → ℕ) (window_start window_end : ℕ) where
  -- The fetch: bars of the whole window, as of noon of the day after it.
  unfoldable pub fetch_opens : Text → ℕ → Option ℕ
  unfolding opens_of
  fetch_opens symbol =
      let as_of = noon_utc (window_end + 1) in
      opens_of ny_day (source symbol as_of (utc_day as_of - window_start + 7))

  -- OpenPriceBook.open_on: the price, and the cache after it.
  unfoldable pub open_on : Text → ℕ → Opens → Option ℕ × Opens
  unfolding fetch_opens
  open_on symbol day opens = elim (cached symbol opens) [
    | some prices ↦ (prices day, opens)
    | none ↦ (fetch_opens symbol day, (symbol, fetch_opens symbol) ∷ opens)
  ]

  -- The prices that a sequence of questions gets.
  unfoldable pub open_all : List (Text × ℕ) → Opens → List (Option ℕ)
  open_all [] opens = []
  open_all ((symbol, day) ∷ asked) opens =
      let (price, opens') = open_on symbol day opens in price ∷ open_all asked opens'

  -- The same with a fetch for each question.
  unfoldable pub open_uncached : List (Text × ℕ) → List (Option ℕ)
  open_uncached [] = []
  open_uncached ((symbol, day) ∷ asked) = fetch_opens symbol day ∷ open_uncached asked

  -- The cache holds what a fetch would give.
  abbrev IsFetched : Opens → Type 0
  IsFetched [] = Unit
  IsFetched ((symbol, prices) ∷ rest) = (prices ≡ fetch_opens symbol) × IsFetched rest

  cached-IsFetched :
      (symbol : Text) (opens : Opens) (prices : ℕ → Option ℕ)
      → IsFetched opens
      → cached symbol opens ≡ some prices
      → prices ≡ fetch_opens symbol
  cached-IsFetched symbol [] prices h e = cc
  cached-IsFetched symbol ((s, old) ∷ rest) prices (h, hs) e =
      elim (Bool-cases (same_text symbol s)) [
        | inl same ↦
            (let hit : cached symbol ((s, old) ∷ rest) ≡ some old = rw same refl in
              some-injective _ _ (sym e ∙ hit)
              ∙ h
              ∙ ap fetch_opens (sym ((same_text_iff symbol s).0 same)))
        | inr other ↦
            (let miss : cached symbol ((s, old) ∷ rest) ≡ cached symbol rest = rw other refl in
              cached-IsFetched symbol rest prices hs (sym miss ∙ e))
      ]

  open_on-hit :
      (symbol : Text) (day : ℕ) (opens : Opens) (prices : ℕ → Option ℕ)
      → cached symbol opens ≡ some prices
      → open_on symbol day opens ≡ (prices day, opens)
  unfolding open_on
  open_on-hit symbol day opens prices hit = rw (hit, open_on) refl

  open_on-miss :
      (symbol : Text) (day : ℕ) (opens : Opens)
      → cached symbol opens ≡ none
      → open_on symbol day opens ≡ (fetch_opens symbol day, (symbol, fetch_opens symbol) ∷ opens)
  unfolding open_on
  open_on-miss symbol day opens miss = rw (miss, open_on) refl

  -- One question: the price that a fetch would give, and a cache in order.
  open_on-IsFetched :
      (symbol : Text) (day : ℕ) (opens : Opens)
      → IsFetched opens
      → ((open_on symbol day opens).0 ≡ fetch_opens symbol day)
        × IsFetched (open_on symbol day opens).1
  open_on-IsFetched symbol day opens h = elim (Option-cases (cached symbol opens)) [
    | inl miss ↦ rw (open_on-miss symbol day opens miss) (refl, (refl, h))
    | inr (prices, hit) ↦
        rw (open_on-hit symbol day opens prices hit)
          (ap (λ f. f day) (cached-IsFetched symbol opens prices h hit), h)
  ]

  open_all-from :
      (asked : List (Text × ℕ)) (opens : Opens)
      → IsFetched opens
      → open_all asked opens ≡ open_uncached asked
  unfolding open_all open_uncached
  open_all-from [] opens h = refl
  open_all-from ((symbol, day) ∷ asked) opens h =
      let (price, in_order) = open_on-IsFetched symbol day opens h in
      cc (price, open_all-from asked (open_on symbol day opens).1 in_order)

  -- A new book answers every sequence of questions as if it fetched the bars for each of them.
  pub open_all_lem : (asked : List (Text × ℕ)) → open_all asked [] ≡ open_uncached asked
  open_all_lem asked = open_all-from asked [] tt
