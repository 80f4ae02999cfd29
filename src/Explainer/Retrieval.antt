-- ===== src/Explainer/Retrieval.antt =====
-- HeadlineRetriever of app/agent/explainer.py: the headlines around a driver day, and their trace step.
-- `ts_rank` is PostgreSQL's score of a headline for a query, in whole units, and `score_text` how JSON
-- writes it; `iso` is the ISO text of a date and `iso_time` that of an instant.
use paper_trading_agent.Base.{
  ℕ, suc, ◌+◌, ◌-◌, ◌*◌, Bool, ◌&&◌, ◌||◌, Option, none, some, List, [], ◌∷◌, ◌++◌, map,
  if◌then◌else◌, leb, ltb, ◌==◌, pos, leb_ℤ, Text, codes, lower_char, same_text, select, take,
}
use paper_trading_agent.Numbers.Sorting.{sorted}
use paper_trading_agent.DataSources.Headlines.{
  HeadlineRow, day_seconds, available_at, headline_date,
}
use paper_trading_agent.Trace.Json.{
  Value, null, int, float, text, arr, obj, Items, nil, cons, Fields, end, field,
}
use paper_trading_agent.Trace.{retrieval, TraceRecorder, record_step}

abbrev pub headlines_per_day : ℕ
headlines_per_day = 8

-- COMPANY_TERMS.get(symbol, [symbol.lower()])
abbrev pub company_terms : Text → List Text
company_terms symbol =
    if same_text symbol (codes "AAPL")
    then codes "apple" ∷ codes "aapl" ∷ codes "iphone" ∷ []
    else map lower_char symbol ∷ []

abbrev pub fts_terms : List Text
fts_terms =
    codes "earnings"
    ∷ codes "revenue"
    ∷ codes "guidance"
    ∷ codes "forecast"
    ∷ codes "fed"
    ∷ codes "inflation"
    ∷ codes "cpi"
    ∷ codes "rates"
    ∷ codes "recession"
    ∷ codes "selloff"
    ∷ codes "plunge"
    ∷ codes "tumble"
    ∷ codes "slump"
    ∷ codes "drop"
    ∷ codes "falls"
    ∷ codes "downgrade"
    ∷ codes "lawsuit"
    ∷ codes "antitrust"
    ∷ codes "china"
    ∷ codes "supply"
    ∷ codes "tariff"
    ∷ codes "layoffs"
    ∷ codes "nasdaq"
    ∷ []

-- `" OR ".join(terms)`
abbrev pub or_joined : List Text → Text
or_joined [] = []
or_joined (t ∷ []) = t
or_joined (t ∷ u ∷ ts) = t ++ codes " OR " ++ or_joined (u ∷ ts)

pub data RetrievalMethod : Type 0 where
  fts recent : RetrievalMethod

abbrev pub method_text : RetrievalMethod → Text
method_text fts = codes "fts"
method_text recent = codes "recent"

-- Terms of the retriever's own, where they are not empty, or the symbol's.
abbrev pub terms_for : Option (List Text) → Text → List Text
terms_for (some (t ∷ ts)) symbol = (t ∷ ts) ++ fts_terms
terms_for _ symbol = company_terms symbol ++ fts_terms

abbrev pub query_for : RetrievalMethod → Option (List Text) → Text → Option Text
query_for fts own symbol = some (or_joined (terms_for own symbol))
query_for recent own symbol = none

-- published_at DESC, id
abbrev pub newer : HeadlineRow → HeadlineRow → Bool
newer a b = ltb b.published_at a.published_at || a.published_at == b.published_at && leb_ℤ a.id b.id

-- `str()` of an optional text in JSON.
abbrev pub text_or_null : Option Text → Value
text_or_null none = null
text_or_null (some s) = text s

module _ (ny_day : ℕ → ℕ) (ny_midnight : ℕ → ℕ) (ts_rank : Text → Text → ℕ) (score_text : ℕ → Text)
    (iso : ℕ → Text) (iso_time : ℕ → Text) where
  -- ORDER BY
  abbrev pub comes_before : Option Text → HeadlineRow → HeadlineRow → Bool
  comes_before none a b = newer a b
  comes_before (some q) a b =
      ltb (ts_rank q b.headline) (ts_rank q a.headline)
      || ts_rank q a.headline == ts_rank q b.headline && newer a b

  -- WHERE: dated the day before or the day, and available before the decision.
  abbrev pub is_around : Text → ℕ → ℕ → HeadlineRow → Bool
  is_around symbol day as_of h =
      same_text h.symbol symbol
      && (leb (day_seconds * (day - 2)) h.published_at
          && (ltb h.published_at (day_seconds * (day + 2))
              && (leb (day - 1) (headline_date ny_day ny_midnight h.published_at)
                  && (leb (headline_date ny_day ny_midnight h.published_at) day
                      && ltb (available_at ny_day ny_midnight h.published_at) as_of))))

  unfoldable pub search_headlines :
      RetrievalMethod → Option (List Text) → Text → ℕ → ℕ → ℕ → List HeadlineRow → List HeadlineRow
  search_headlines method own symbol day as_of limit rows = take limit (
      sorted (comes_before (query_for method own symbol))
        (select (is_around symbol day as_of) rows))

  abbrev pub score_value : Option Text → HeadlineRow → Value
  score_value none h = null
  score_value (some q) h = float (score_text (ts_rank q h.headline))

  -- The results with their ranks.
  unfoldable pub result_items : Option Text → ℕ → List HeadlineRow → Items
  result_items query rank [] = nil
  result_items query rank (h ∷ hs) =
      cons
        (obj (
          field (codes "rank") (int (pos rank)) (
            field (codes "id") (int h.id) (
              field (codes "published_at") (text (iso_time h.published_at)) (
                field (codes "headline") (text h.headline)
                  (field (codes "score") (score_value query h) end))))))
        (result_items query (suc rank) hs)

  abbrev pub retrieval_input : RetrievalMethod → Option Text → Text → ℕ → ℕ → ℕ → Fields
  retrieval_input method query symbol day as_of limit = field (codes "symbol") (text symbol) (
      field (codes "day") (text (iso day)) (
        field (codes "dates") (arr (cons (text (iso (day - 1))) (cons (text (iso day)) nil))) (
          field (codes "as_of") (text (iso_time as_of)) (
            field (codes "method") (text (method_text method)) (
              field (codes "query") (text_or_null query)
                (field (codes "limit") (int (pos limit)) end))))))

  -- HeadlineRetriever.around, with the active recorder and the clock.
  unfoldable pub around :
      RetrievalMethod
      → Option (List Text)
      → Text
      → ℕ
      → ℕ
      → List HeadlineRow
      → ℕ
      → Option TraceRecorder
      → List HeadlineRow × Option TraceRecorder
  unfolding search_headlines result_items
  around method own symbol day as_of rows now active =
      let query = query_for method own symbol in
      let found = search_headlines method own symbol day as_of headlines_per_day rows in
      (
        found,
        (record_step (codes "explainer") retrieval
            (retrieval_input method query symbol day as_of headlines_per_day)
            (field (codes "results") (arr (result_items query 1 found)) end) now active).0,
      )
