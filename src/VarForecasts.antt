-- ===== src/VarForecasts.antt =====
-- app/agent/var_forecasts.py: the position that a recorded forecast is about.
pub mod Recording
pub mod Realized
pub mod Order
pub mod Filling
mod Tests
use paper_trading_agent.Base.{ℤ, ◌+ℤ◌, ◌-ℤ◌}
use paper_trading_agent.State.{Action, buy, sell, hold}

unfoldable pub position_after : ℤ → Action → ℤ → ℤ
position_after held buy q = held +ℤ q
position_after held sell q = held -ℤ q
position_after held hold q = held
