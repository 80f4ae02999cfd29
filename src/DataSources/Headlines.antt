-- ===== src/DataSources/Headlines.antt =====
-- Headlines of app/agent/data_sources.py: when a stored headline could first be read, and the query of
-- HistoricalHeadlineSource. Instants are seconds since some UTC midnight, and a UTC date is counted from
-- it. `ny_day` is the New York date of an instant and `ny_midnight` the instant at which a New York date
-- begins, both as PostgreSQL and Python's zoneinfo have them.
use paper_trading_agent.Base.{
  ℕ, ◌+◌, ◌-◌, ◌*◌, ◌/◌, ◌%◌, ◌≤◌, ◌<◌, ◌≡◌, ap, Bool, true, ◌&&◌, List, if◌then◌else◌, leb, ltb,
  ◌==◌, ℤ, Text, same_text, select, select-ext, All, All-selected, arith,
}
use paper_trading_agent.Numbers.Sorting.{sorted, All-sorted}

-- A row of historical_headlines.
pub record HeadlineRow : Type 0 where
  pub id : ℤ
  pub symbol : Text
  pub published_at : ℕ
  pub headline : Text
  pub source : Text

abbrev pub day_seconds : ℕ
day_seconds = 86_400

abbrev pub is_date_only : ℕ → Bool
is_date_only t = t % day_seconds == 0

abbrev pub published_later : HeadlineRow → HeadlineRow → Bool
published_later a b = leb b.published_at a.published_at

module _ (ny_day : ℕ → ℕ) (ny_midnight : ℕ → ℕ) where
  -- HEADLINE_AVAILABLE_AT
  unfoldable pub available_at : ℕ → ℕ
  available_at t = if is_date_only t then ny_midnight (t / day_seconds + 1) else t

  -- HEADLINE_DATE
  unfoldable pub headline_date : ℕ → ℕ
  headline_date t = if is_date_only t then t / day_seconds else ny_day t

  -- The WHERE clause.
  abbrev pub is_recent : Text → ℕ → ℕ → HeadlineRow → Bool
  is_recent symbol as_of lookback_days h =
      same_text h.symbol symbol
      && (ltb h.published_at as_of
          && (leb (as_of - day_seconds * (lookback_days + 2)) h.published_at
              && (ltb (available_at h.published_at) as_of
                  && leb (as_of - day_seconds * lookback_days) (available_at h.published_at))))

  unfoldable pub get_recent_headlines : Text → ℕ → ℕ → List HeadlineRow → List HeadlineRow
  get_recent_headlines symbol as_of lookback_days rows =
      sorted published_later (select (is_recent symbol as_of lookback_days) rows)

  -- A headline of the symbol that became available in the window.
  abbrev pub is_available : Text → ℕ → ℕ → HeadlineRow → Bool
  is_available symbol as_of lookback_days h =
      same_text h.symbol symbol
      && (ltb (available_at h.published_at) as_of
          && leb (as_of - day_seconds * lookback_days) (available_at h.published_at))

  -- New York is at most a day behind UTC and never ahead of it.
  abbrev pub IsBehindUtc : Type 0
  IsBehindUtc =
      (d : ℕ) → (day_seconds * d ≤ ny_midnight d) × (ny_midnight d ≤ day_seconds * (d + 1))

  -- A date that has ended in New York is an earlier one there.
  abbrev pub EndsBefore : Type 0
  EndsBefore = (d t : ℕ) → ny_midnight (d + 1) ≤ t → d < ny_day t

  -- What no decision at `as_of` may break: the headline was available, and if only its date is known,
  -- that date is over in New York.
  abbrev pub NoLookAhead : ℕ → HeadlineRow → Type 0
  NoLookAhead as_of h =
      (available_at h.published_at < as_of)
      × (is_date_only h.published_at ≡ true → h.published_at / day_seconds < ny_day as_of)

  module _ (behind : IsBehindUtc) where
    pub available_at_bounds :
        (t : ℕ) → (t ≤ available_at t) × (available_at t ≤ t + 2 * day_seconds)
    unfolding available_at
    available_at_bounds t = ground (arith, behind (t / day_seconds + 1))

    recent-available :
        (symbol : Text) (as_of lookback_days : ℕ) (h : HeadlineRow)
        → is_recent symbol as_of lookback_days h ≡ is_available symbol as_of lookback_days h
    recent-available symbol as_of lookback_days h =
        ground (arith, available_at_bounds h.published_at)

    module _ (ends_before : EndsBefore) where
      recent-NoLookAhead :
          (symbol : Text) (as_of lookback_days : ℕ) (h : HeadlineRow)
          → is_recent symbol as_of lookback_days h ≡ true
          → NoLookAhead as_of h
      unfolding available_at
      recent-NoLookAhead symbol as_of lookback_days h recent =
          (ground arith, λ dated. ground (arith, ends_before (h.published_at / day_seconds) as_of))

      -- Where New York is at most a day behind UTC and never ahead, and a date that ended there is an
      -- earlier one, the query returns, the latest publication first, exactly the headlines of the
      -- symbol that became available before the decision and within the window: the bounds on the
      -- publication time drop none of them. No headline is of the decision's own New York date, if only
      -- its date is known.
      pub get_recent_headlines_lem :
          (symbol : Text) (as_of lookback_days : ℕ) (rows : List HeadlineRow)
          → (get_recent_headlines symbol as_of lookback_days rows
              ≡ sorted published_later (select (is_available symbol as_of lookback_days) rows))
            × All (NoLookAhead as_of) (get_recent_headlines symbol as_of lookback_days rows)
      unfolding get_recent_headlines
      get_recent_headlines_lem symbol as_of lookback_days rows = (
        ap (sorted published_later)
            (select-ext _ _ rows (recent-available symbol as_of lookback_days)),
        All-sorted published_later (NoLookAhead as_of) _ (
            All-selected (NoLookAhead as_of) (is_recent symbol as_of lookback_days) rows
              (recent-NoLookAhead symbol as_of lookback_days)),
      )
