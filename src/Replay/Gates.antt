-- ===== src/Replay/Gates.antt =====
-- A day of scripts/replay_risk_rules.py without alternative rules, against app/agent/risk_manager.py.
use paper_trading_agent.Base.{
  ℕ, zero, suc, ◌+◌, ◌-◌, ◌≤◌, min, ◌≡◌, refl, ap, ◌∙◌, inl, inr, Bool, false, Option, none, some,
  Option-cases, ℤ, pos, negsuc, ◌+ℤ◌, ◌-ℤ◌, ◌≤ℤ◌, int_laws, arith,
}
use paper_trading_agent.State.{Action, buy, sell, hold, TentativeDecision}
use paper_trading_agent.VarForecasts.{position_after}
use paper_trading_agent.RiskManager.{max_position_qty, Ruling, v1_rules, limit_buy}
use paper_trading_agent.Replay.{
  TapeRow, Rules, Replay, held_qty, track_peak, budget_cap, forced_exit, blocked_by_spacing,
  propose_buy, propose_sell, propose, replay_day,
}
use paper_trading_agent.Replay.Limit.{held_qty-purchase, held_qty-propose_sell}

-- No alternative rule, with the VaR budget or without it.
abbrev pub plain : ℕ → Bool → Rules
plain slippage_bps var_budget = record {
  slippage_bps = slippage_bps;
  max_drawdown_pct = none;
  stop_loss_pct = none;
  trailing_stop_pct = none;
  min_days_between_buys = none;
  var_budget = var_budget;
}

-- The risk manager's final trade, for a limit from the VaR figure if there is one.
abbrev pub final_ruling : Option ℕ → TentativeDecision → ℤ → Ruling
final_ruling none t held = v1_rules t held
final_ruling (some allowed) t held = (limit_buy allowed held (v1_rules t held)).final

abbrev pub proposal : TapeRow → TentativeDecision
proposal row = record { action = row.proposed_action; quantity = row.proposed_qty }

blocked_by_spacing-none : (today : ℕ) (last : Option ℕ) → blocked_by_spacing today last none ≡ false
unfolding blocked_by_spacing
blocked_by_spacing-none today none = refl
blocked_by_spacing-none today (some last) = refl

-- The shares held after a purchase of `q`, up to the cap.
abbrev bought : Option ℕ → ℕ → ℕ → ℕ
bought none held q = held + min q (max_position_qty - held)
bought (some limit) held q = held + min q (min max_position_qty limit - held)

module _ (slippage_bps : ℕ) (var_budget : Bool) (row : TapeRow) where
  abbrev plain_rules : Rules
  plain_rules = plain slippage_bps var_budget

  abbrev day_cap : Option ℕ
  day_cap = budget_cap var_budget row.var_max_qty

  propose_buy-plain :
      (q : ℕ) (r : Replay)
      → held_qty (propose_buy plain_rules row q r).lots ≡ bought day_cap (held_qty r.lots) q
  unfolding propose_buy
  propose_buy-plain q r =
      let free = blocked_by_spacing-none row.day r.last_buy_day in
      elim (Option-cases day_cap) [
        | inl none_set ↦
            ground (arith, free, held_qty-purchase plain_rules row q max_position_qty r)
        | inr (limit, set) ↦
            ground (arith, free, held_qty-purchase plain_rules row q (min max_position_qty limit) r)
      ]

  forced_exit-plain : (price : ℕ) (r : Replay) → forced_exit plain_rules price r ≡ r
  unfolding forced_exit
  forced_exit-plain price r = ground arith

bought-position :
    (cap : Option ℕ) (held q : ℕ)
    → held ≤ max_position_qty
    → let final = final_ruling cap (record { action = buy; quantity = pos q }) (pos held) in
      pos (bought cap held q) ≡ position_after (pos held) final.action final.quantity
unfolding v1_rules limit_buy position_after ◌+ℤ◌ ◌-ℤ◌
bought-position none held q h = ground arith
bought-position (some limit) held q h = ground arith

sold-position :
    (cap : Option ℕ) (held q : ℕ)
    → let final = final_ruling cap (record { action = sell; quantity = pos q }) (pos held) in
      pos (held - q) ≡ position_after (pos held) final.action final.quantity
unfolding v1_rules limit_buy position_after ◌+ℤ◌ ◌-ℤ◌
sold-position none held q = ground arith
sold-position (some limit) held q = ground arith

held-position :
    (cap : Option ℕ) (quantity : ℤ) (held : ℕ)
    → let final = final_ruling cap (record { action = hold; quantity = quantity }) (pos held) in
      pos held ≡ position_after (pos held) final.action final.quantity
unfolding v1_rules limit_buy position_after
held-position none quantity held = ground arith
held-position (some limit) quantity held = ground arith

propose-hold :
    (rules : Rules) (row : TapeRow) (r : Replay)
    → row.proposed_action ≡ hold
    → propose rules row r ≡ r
unfolding propose
propose-hold rules row r a = rw a refl

propose-zero :
    (rules : Rules) (row : TapeRow) (r : Replay)
    → row.proposed_qty ≡ pos 0
    → propose rules row r ≡ r
unfolding propose
propose-zero rules row r b = ground arith

propose-buy_eq :
    (rules : Rules) (row : TapeRow) (q : ℕ) (r : Replay)
    → row.proposed_action ≡ buy
    → row.proposed_qty ≡ pos (suc q)
    → propose rules row r ≡ propose_buy rules row (suc q) r
unfolding propose
propose-buy_eq rules row q r a b = ground arith

propose-sell_eq :
    (rules : Rules) (row : TapeRow) (q : ℕ) (r : Replay)
    → row.proposed_action ≡ sell
    → row.proposed_qty ≡ pos (suc q)
    → propose rules row r ≡ propose_sell rules row (suc q) r
unfolding propose
propose-sell_eq rules row q r a b = ground arith

bought_zero : (cap : Option ℕ) (held : ℕ) → held ≡ bought cap held 0
bought_zero none held = omega arith
bought_zero (some limit) held = omega arith

held-propose_buy :
    (slippage_bps : ℕ) (var_budget : Bool) (row : TapeRow) (q : ℕ) (r : Replay)
    → row.proposed_action ≡ buy
    → row.proposed_qty ≡ pos q
    → held_qty (propose (plain slippage_bps var_budget) row r).lots
      ≡ bought (budget_cap var_budget row.var_max_qty) (held_qty r.lots) q
held-propose_buy slippage_bps var_budget row zero r a b =
    ap (λ x. held_qty x.lots) (propose-zero (plain slippage_bps var_budget) row r b)
    ∙ bought_zero (budget_cap var_budget row.var_max_qty) (held_qty r.lots)
held-propose_buy slippage_bps var_budget row (suc q) r a b =
    ap (λ x. held_qty x.lots) (propose-buy_eq (plain slippage_bps var_budget) row q r a b)
    ∙ propose_buy-plain slippage_bps var_budget row (suc q) r

held-propose_sell :
    (slippage_bps : ℕ) (var_budget : Bool) (row : TapeRow) (q : ℕ) (r : Replay)
    → row.proposed_action ≡ sell
    → row.proposed_qty ≡ pos q
    → held_qty (propose (plain slippage_bps var_budget) row r).lots ≡ held_qty r.lots - q
held-propose_sell slippage_bps var_budget row zero r a b =
    ap (λ x. held_qty x.lots) (propose-zero (plain slippage_bps var_budget) row r b) ∙ omega arith
held-propose_sell slippage_bps var_budget row (suc q) r a b =
    ap (λ x. held_qty x.lots) (propose-sell_eq (plain slippage_bps var_budget) row q r a b)
    ∙ held_qty-propose_sell (plain slippage_bps var_budget) row (suc q) r

propose-position :
    (slippage_bps : ℕ) (var_budget : Bool) (row : TapeRow) (r : Replay) (action : Action)
    (quantity : ℤ)
    → row.proposed_action ≡ action
    → row.proposed_qty ≡ quantity
    → pos 0 ≤ℤ quantity
    → held_qty r.lots ≤ max_position_qty
    → let final =
        final_ruling
          (budget_cap var_budget row.var_max_qty)
          (record { action = action; quantity = quantity })
          (pos (held_qty r.lots)) in
      pos (held_qty (propose (plain slippage_bps var_budget) row r).lots)
      ≡ position_after (pos (held_qty r.lots)) final.action final.quantity
unfolding propose
propose-position slippage_bps var_budget row r hold quantity a b h k =
    ap (λ x. pos (held_qty x.lots)) (propose-hold (plain slippage_bps var_budget) row r a)
    ∙ (held-position (budget_cap var_budget row.var_max_qty) quantity (held_qty r.lots))
propose-position slippage_bps var_budget row r buy (pos q) a b h k =
    ap pos (held-propose_buy slippage_bps var_budget row q r a b)
    ∙ bought-position (budget_cap var_budget row.var_max_qty) (held_qty r.lots) q k
propose-position slippage_bps var_budget row r sell (pos q) a b h k =
    ap pos (held-propose_sell slippage_bps var_budget row q r a b)
    ∙ sold-position (budget_cap var_budget row.var_max_qty) (held_qty r.lots) q
propose-position slippage_bps var_budget row r buy (negsuc q) a b h k = absurd (omega int_laws)
propose-position slippage_bps var_budget row r sell (negsuc q) a b h k = absurd (omega int_laws)

-- Without alternative rules, a day of the replay changes the shares held as the risk manager's final
-- trade on the same proposal would, for a quantity that is not negative and a position within the limit.
pub replay_day_position :
    (slippage_bps : ℕ) (var_budget : Bool) (row : TapeRow) (r : Replay)
    → pos 0 ≤ℤ row.proposed_qty
    → held_qty r.lots ≤ max_position_qty
    → let final =
        final_ruling
          (budget_cap var_budget row.var_max_qty)
          (proposal row)
          (pos (held_qty r.lots)) in
      pos (held_qty (replay_day (plain slippage_bps var_budget) row r).lots)
      ≡ position_after (pos (held_qty r.lots)) final.action final.quantity
unfolding replay_day
replay_day_position slippage_bps var_budget row r h k =
    let rules = plain slippage_bps var_budget in
    let tracked = track_peak row.price r in
    ap (λ x. pos (held_qty (propose rules row x).lots))
      (forced_exit-plain slippage_bps var_budget row row.price tracked)
    ∙ propose-position slippage_bps var_budget row tracked row.proposed_action row.proposed_qty refl
        refl h k
