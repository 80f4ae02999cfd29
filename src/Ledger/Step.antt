-- ===== src/Ledger/Step.antt =====
-- One round of the selling loop of the trade recorders: what closing or shrinking a lot does to the open
-- lots, the ids, the realized profit, and all other portfolios.
use paper_trading_agent.Base.{
  ℕ, ◌≤◌, ◌<◌, min, ◌≡◌, refl, ap, ◌∙◌, subst, inl, inr, Bool, true, false, ◌&&◌, Option, none,
  some, List, [], ◌∷◌, ◌++◌, ◌==◌, if◌then◌else◌, ℤ, pos, ◌+ℤ◌, ◌-ℤ◌, scale, int_laws, same_parts,
  same_text, same_text_iff, same_text_refl, ok, select, select-append, All-append, All-select,
  select_miss, Option-cases, not, arith,
}
use mathlib.Core.List.{append-nil}
use native.Mathlib.Decide.{dec_le}
use paper_trading_agent.State.{Symbol}
use paper_trading_agent.Outcomes.{
  Row, Outcomes, opened, is_open, same_book, is_open_lot, update_where, insert_row,
}
use paper_trading_agent.Outcomes.Updates.{
  OpenedBy, OpenedBy-update, IdsRise, IdsRise-append, IdsRise-update, select-update_first,
  select-update_other, selected_passes, sum_by, sum_by-append, sum_by-update_first,
}
use paper_trading_agent.Ledger.{open_row, close_row, shrink_row, sold_part, close_lot}
use paper_trading_agent.Ledger.Fifo.{closed_not_selected}

pub same_book_iff : (a b : Option ℕ) → same_book a b ≡ true → a ≡ b
same_book_iff none none h = refl
same_book_iff none (some b) h = cc
same_book_iff (some a) none h = cc
same_book_iff (some a) (some b) h = ground arith

pub same_book_refl : (a : Option ℕ) → same_book a a ≡ true
same_book_refl none = refl
same_book_refl (some a) = ground arith

-- The rows of one portfolio and symbol.
abbrev pub is_owned : Option ℕ → Symbol → Row → Bool
is_owned book symbol r = same_book r.backtest_id book && same_text r.symbol symbol

-- What an open lot of a portfolio's symbol says of itself.
pub open_lot_fields :
    (book : Option ℕ) (symbol : Symbol) (r : Row)
    → is_open_lot book symbol r ≡ true
    → (r.backtest_id ≡ book) × (r.symbol ≡ symbol) × (r.status ≡ opened)
open_lot_fields book symbol r h = (
  same_book_iff r.backtest_id book (ground arith),
  (same_text_iff r.symbol symbol).0 (ground arith),
  ground arith,
)

-- The profit that a row has realized, where it is a closed row of this portfolio and symbol.
abbrev pub gain_of : Option ℕ → Symbol → Row → ℤ
gain_of book symbol r =
    if is_owned book symbol r && not (is_open r.status)
    then elim r.realized_pnl [ none ↦ pos 0 | some x ↦ x ]
    else pos 0

unfoldable pub realized : Option ℕ → Symbol → List Row → ℤ
realized book symbol rows = sum_by (gain_of book symbol) rows

gain_of_open :
    (book : Option ℕ) (symbol : Symbol) (r : Row)
    → r.status ≡ opened
    → gain_of book symbol r ≡ pos 0
gain_of_open book symbol r h = ground arith

gain_of_closed :
    (book : Option ℕ) (symbol : Symbol) (r : Row) (exit : ℤ) (as_of : ℕ) (gain : ℤ)
    → r.backtest_id ≡ book
    → r.symbol ≡ symbol
    → gain_of book symbol (close_row exit as_of gain r) ≡ gain
gain_of_closed book symbol r exit as_of gain hb hs =
    ground (arith, same_book_refl book, same_text_refl symbol)

sum_by_one : (g : Row → ℤ) (r : Row) → sum_by g (r ∷ []) ≡ g r
unfolding sum_by
sum_by_one g r = omega int_laws

-- An inserted row that is not selected changes no selection.
pub select_unsold :
    (p : Row → Bool) (rows : List Row) (r : Row)
    → p r ≡ false
    → select p (rows ++ r ∷ []) ≡ select p rows
select_unsold p rows r h =
    select-append p rows (r ∷ [])
    ∙ ap (λ xs. select p rows ++ xs) (select_miss p r [] h)
    ∙ append-nil _

-- A row that belongs to another portfolio or symbol.
pub other_owner :
    (book book' : Option ℕ) (symbol symbol' : Symbol) (r : Row)
    → r.backtest_id ≡ book
    → r.symbol ≡ symbol
    → (same_book book book' && same_text symbol symbol') ≡ false
    → is_open_lot book' symbol' r ≡ false
other_owner book book' symbol symbol' r hb hs d = rw (hb, hs) (ground arith)

module _ (store : ℤ → Option ℤ) (book : Option ℕ) (decision : ℕ) (symbol : Symbol) (price : ℤ)
    (as_of : ℕ) where
  abbrev mine : List Row → List Row
  mine = select (is_open_lot book symbol)

  -- Selling a whole lot closes its row.
  close_lot_whole :
      (lot : Row) (n : ℕ) (t : Outcomes) {t' : Outcomes}
      → n ≡ lot.quantity
      → close_lot store book decision symbol price as_of lot n t ≡ ok t'
      → (exit : ℤ) × (gain : ℤ) × (store price ≡ some exit)
        × (store (scale (price -ℤ lot.entry_price) n) ≡ some gain)
        × (record t { rows = update_where lot.id (close_row exit as_of gain) t.rows } ≡ t')
  unfolding close_lot
  close_lot_whole lot n t h e =
      let pnl = scale (price -ℤ lot.entry_price) n in
      elim (Option-cases (store price)) [
        | inl e₁ ↦ absurd (ground arith)
        | inr (exit, e₁) ↦ elim (Option-cases (store pnl)) [
          | inl e₂ ↦ absurd (ground arith)
          | inr (gain, e₂) ↦ (exit, gain, e₁, e₂, ground arith)
        ]
      ]

  -- Selling a part shrinks the row, and a closed row for the part is added.
  close_lot_part :
      (lot : Row) (n : ℕ) (t : Outcomes) {t' : Outcomes}
      → n < lot.quantity
      → close_lot store book decision symbol price as_of lot n t ≡ ok t'
      → (entry : ℤ) × (exit : ℤ) × (gain : ℤ) × (store (scale (price -ℤ lot.entry_price) n)
          ≡ some gain)
        × (insert_row
              (sold_part book decision symbol lot n entry exit as_of gain)
              (record t { rows = update_where lot.id (shrink_row n) t.rows })
            ≡ t')
  unfolding close_lot
  close_lot_part lot n t h e =
      let pnl = scale (price -ℤ lot.entry_price) n in
      elim (Option-cases (store lot.entry_price)) [
        | inl e₀ ↦ absurd (ground arith)
        | inr (entry, e₀) ↦ elim (Option-cases (store price)) [
          | inl e₁ ↦ absurd (ground arith)
          | inr (exit, e₁) ↦ elim (Option-cases (store pnl)) [
            | inl e₂ ↦ absurd (ground arith)
            | inr (gain, e₂) ↦ (entry, exit, gain, e₂, ground arith)
          ]
        ]
      ]

  -- What one round has done, for a lot of which `n` shares were to be sold.
  pub record Round (lot : Row) (lots : List Row) (n : ℕ) (t t' : Outcomes) : Type 0 where
    pub left :
        select (is_open_lot book symbol) t'.rows
        ≡ (if n == lot.quantity then lots else shrink_row n lot ∷ lots)
    pub ids : IdsRise 0 t'.next_id t'.rows
    pub gain : ℤ
    pub gain_stored : store (scale (price -ℤ lot.entry_price) n) ≡ some gain
    pub gained : realized book symbol t'.rows ≡ realized book symbol t.rows +ℤ gain
    pub no_later : (time : ℕ) → OpenedBy time t.rows → OpenedBy time t'.rows
    pub others :
        (book' : Option ℕ) (symbol' : Symbol)
        → (same_book book book' && same_text symbol symbol') ≡ false
        → select (is_open_lot book' symbol') t'.rows ≡ select (is_open_lot book' symbol') t.rows

  Round-whole :
      (lot : Row) (lots : List Row) (n : ℕ) (t : Outcomes) {t' : Outcomes}
      → IdsRise 0 t.next_id t.rows
      → mine t.rows ≡ lot ∷ lots
      → n ≡ lot.quantity
      → close_lot store book decision symbol price as_of lot n t ≡ ok t'
      → Round lot lots n t t'
  unfolding realized
  Round-whole lot lots n t {t'} ids at h e =
      let (exit, gain, _, stored, done) = close_lot_whole lot n t h e in
      let f = close_row exit as_of gain in
      let passes = selected_passes (is_open_lot book symbol) t.rows at in
      let (hb, hs, ho) = open_lot_fields book symbol lot passes in
      let whole : (n == lot.quantity) ≡ true = ground arith in
      subst (λ x. Round lot lots n t x) done
        (record {
          left =
              select-update_first (is_open_lot book symbol) f 0 t.next_id t.rows ids at
              ∙ rw (closed_not_selected book symbol exit as_of gain lot, whole) refl;
          ids = IdsRise-update lot.id f 0 t.next_id t.rows (λ r. refl) ids;
          gain = gain;
          gain_stored = stored;
          gained = omega (
            int_laws,
            same_parts (
                sum_by-update_first (gain_of book symbol) (is_open_lot book symbol) f 0 t.next_id
                  t.rows ids at),
            same_parts (gain_of_open book symbol lot ho),
            same_parts (gain_of_closed book symbol lot exit as_of gain hb hs),
          );
          no_later = λ time past. OpenedBy-update time lot.id f t.rows (λ r. refl) past;
          others = λ book' symbol' d.
              select-update_other (is_open_lot book symbol) (is_open_lot book' symbol') f 0
                t.next_id t.rows ids at (other_owner book book' symbol symbol' lot hb hs d)
                (closed_not_selected book' symbol' exit as_of gain lot);
        })

  Round-part :
      (lot : Row) (lots : List Row) (n : ℕ) (t : Outcomes) {t' : Outcomes}
      → IdsRise 0 t.next_id t.rows
      → mine t.rows ≡ lot ∷ lots
      → n < lot.quantity
      → close_lot store book decision symbol price as_of lot n t ≡ ok t'
      → Round lot lots n t t'
  unfolding realized
  Round-part lot lots n t {t'} ids at h e =
      let (entry, exit, gain, stored, done) = close_lot_part lot n t h e in
      let f = shrink_row n in
      let passes = selected_passes (is_open_lot book symbol) t.rows at in
      let (hb, hs, ho) = open_lot_fields book symbol lot passes in
      let fresh = open_row book decision symbol n entry lot.opened_at t.next_id in
      let sold = sold_part book decision symbol lot n entry exit as_of gain t.next_id in
      let part : (n == lot.quantity) ≡ false = ground arith in
      let rest = update_where lot.id f t.rows in
      subst (λ x. Round lot lots n t x) done
        (record {
          left =
              select_unsold (is_open_lot book symbol) rest sold
                (closed_not_selected book symbol exit as_of gain fresh)
              ∙ select-update_first (is_open_lot book symbol) f 0 t.next_id t.rows ids at
              ∙ rw (passes, part) refl;
          ids =
              IdsRise-append 0 t.next_id rest sold refl
                (IdsRise-update lot.id f 0 t.next_id t.rows (λ r. refl) ids);
          gain = gain;
          gain_stored = stored;
          gained = omega (
            int_laws,
            same_parts (
                sum_by-update_first (gain_of book symbol) (is_open_lot book symbol) f 0 t.next_id
                  t.rows ids at),
            same_parts (sum_by-append (gain_of book symbol) rest (sold ∷ [])),
            same_parts (sum_by_one (gain_of book symbol) sold),
            same_parts (gain_of_open book symbol lot ho),
            same_parts (gain_of_open book symbol (f lot) ho),
            same_parts (gain_of_closed book symbol fresh exit as_of gain refl refl),
          );
          no_later = λ time past.
              All-append (λ (r : Row). r.opened_at ≤ time) rest (sold ∷ [])
                (OpenedBy-update time lot.id f t.rows (λ r. refl) past)
                (
                  (subst (OpenedBy time) at (All-select _ (is_open_lot book symbol) t.rows past)).0,
                  tt,
                );
          others = λ book' symbol' d.
              select_unsold (is_open_lot book' symbol') rest sold
                (closed_not_selected book' symbol' exit as_of gain fresh)
              ∙ select-update_other (is_open_lot book symbol) (is_open_lot book' symbol') f 0
                  t.next_id t.rows ids at (other_owner book book' symbol symbol' lot hb hs d)
                  (other_owner book book' symbol symbol' lot hb hs d);
        })

  -- One round of the loop, with open lots `lot ∷ lots` and `remaining` shares still to sell.
  pub close_lot-Round :
      (lot : Row) (lots : List Row) (remaining : ℕ) (t : Outcomes) {t' : Outcomes}
      → IdsRise 0 t.next_id t.rows
      → mine t.rows ≡ lot ∷ lots
      → close_lot store book decision symbol price as_of lot (min remaining lot.quantity) t ≡ ok t'
      → Round lot lots (min remaining lot.quantity) t t'
  close_lot-Round lot lots remaining t ids at e = elim (dec_le lot.quantity remaining) [
    | yes h ↦ Round-whole lot lots _ t ids at (omega arith) e
    | no h ↦ Round-part lot lots _ t ids at (omega arith) e
  ]
