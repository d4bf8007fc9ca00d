-- ===== src/Limits.antt =====
-- src/atlas/risk/limits.py: the account's loss limits. The texts of the reasons are left out; `none` is
-- the exception of a division by zero.
pub mod Precedence
use atlas_ai_trading.Decimal.{Decimal, decimal, div, max_of, nought, ◌⊖◌, ◌≼◌}
use atlas_ai_trading.Ledger.{open_symbols}
use atlas_ai_trading.Prelude.{Bool, List, Option, and_then, any, if◌then◌else◌, none, not, some}
use atlas_ai_trading.Prelude.Int.{pos}
use atlas_ai_trading.Prelude.Text.{Text, text_eq, upper}
use atlas_ai_trading.World.{KillSwitchTrigger, daily_loss_limit, max_account_dd}

pub record PortfolioLimits : Type 0 where
  pub daily_loss_limit : Decimal
  pub max_account_drawdown : Decimal

-- The defaults of `PortfolioLimits`.
abbrev pub default_limits : PortfolioLimits
default_limits = record {
  daily_loss_limit = decimal (pos 5) 2;
  max_account_drawdown = decimal (pos 20) 2;
}

-- `AccountState`; its date only goes into the text of a reason.
pub record AccountState : Type 0 where
  pub equity : Decimal
  pub peak_equity : Decimal
  pub day_start_equity : Decimal
  pub free_cash : Decimal
  pub deployed : Decimal
  pub open_symbols : List Text
  pub valuation_complete : Bool
  pub unpriced_symbols : List Text

-- The fraction that is lost of a reference value.
unfoldable pub loss_from : Decimal → Decimal → Option Decimal
loss_from reference equity =
    if reference ≼ nought
    then some nought
    else and_then (div (reference ⊖ equity) reference) (λ d. some (max_of nought d))

unfoldable pub drawdown_from_peak : AccountState → Option Decimal
drawdown_from_peak a = loss_from a.peak_equity a.equity

unfoldable pub daily_loss : AccountState → Option Decimal
daily_loss a = loss_from a.day_start_equity a.equity

-- Drawdown is checked first.
unfoldable pub check_portfolio_limits :
    AccountState → PortfolioLimits → Option (Option KillSwitchTrigger)
check_portfolio_limits a bounds = and_then (drawdown_from_peak a) λ drawdown.
    if bounds.max_account_drawdown ≼ drawdown
    then some (some max_account_dd)
    else and_then (daily_loss a)
        λ loss. some (if bounds.daily_loss_limit ≼ loss then some daily_loss_limit else none)

unfoldable pub can_open_symbol : AccountState → Text → Bool
can_open_symbol a symbol = not (any (λ s. text_eq s (upper symbol)) a.open_symbols)
