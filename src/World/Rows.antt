-- ===== src/World/Rows.antt =====
-- The enumerations of src/atlas/models.py and the rows that the methods read and write. Identifiers
-- made by `uuid4` are opaque and only compared: they are natural numbers.
use atlas_ai_trading.Prelude.{ℕ, Bool, Option, List, true, false}
use atlas_ai_trading.Prelude.Text.{Text}
use atlas_ai_trading.Decimal.{Decimal}

pub data ExchangeEnv : Type 0 where
  testnet live : ExchangeEnv

pub data OrderSide : Type 0 where
  buy sell : OrderSide

pub data PositionSide : Type 0 where
  long short : PositionSide

pub data StrategyStatus : Type 0 where
  candidate verified incubating promoted live_status suspended retired rejected : StrategyStatus

pub data KillSwitchState : Type 0 where
  disarmed armed : KillSwitchState

pub data KillSwitchTrigger : Type 0 where
  manual daily_loss_limit max_account_dd reconciliation_failure : KillSwitchTrigger
  data_staleness api_error_rate state_disagreement state_unreadable : KillSwitchTrigger

pub data OrderRole : Type 0 where
  entry stop target : OrderRole

-- `request.role is OrderRole.ENTRY`, and the other roles.
abbrev pub same_role : OrderRole → OrderRole → Bool
same_role entry entry = true
same_role stop stop = true
same_role target target = true
same_role _ _ = false

-- `KillSwitchRecord`
pub record KillSwitchRecord : Type 0 where
  pub state : KillSwitchState
  pub trigger : Option KillSwitchTrigger
  pub reason : Text
  pub actor : Text
  pub at : ℕ

-- What `_read_file` and `_read_db` may find.
pub data FileStore : Type 0 where
  file_absent file_unreadable file_corrupt : FileStore
  file_holds : KillSwitchRecord → FileStore

pub data RowStore : Type 0 where
  row_error row_absent row_malformed : RowStore
  row_holds : KillSwitchRecord → RowStore

-- How one call of `_write_both` ends: the database may refuse, or the file after the commit.
pub data WriteFault : Type 0 where
  database_fault file_fault : WriteFault

pub data AuditEventType : Type 0 where
  kill_switch_armed kill_switch_disarmed strategy_status_changed strategy_retired : AuditEventType
  promotion_approved order_intent order_result fill_recorded reconciliation : AuditEventType
  risk_rejection tick_decision system : AuditEventType

-- `DecisionOutcome` of src/atlas/runtime/decisions.py: why a symbol did or did not lead to an entry.
pub data DecisionOutcome : Type 0 where
  entered no_strategy spec_missing no_market_data data_invalid data_stale : DecisionOutcome
  no_signal position_already_open filters_not_available risk_rejected : DecisionOutcome
  order_rejected decision_halted entries_suspended : DecisionOutcome

-- What the events say, as far as the code computes it; fixed key names and messages are left out.
pub data Payload : Type 0 where
  kill_reason : Option KillSwitchTrigger → Text → Payload
  order_named : Text → Payload
  result_of : Text → (accepted : Bool) → Payload
  fill_of : Text → ℕ → Payload
  reconciled : ℕ → List Text → List Text → Payload
  ingested : Text → ℕ → ℕ → ℕ → Payload
  position_named : ℕ → Payload
  strategy_named : ℕ → Payload
  recovery : Bool → Bool → List Text → ℕ → List Text → Payload
  unpriced : List Text → Payload
  declined : ℕ → Text → Payload
  decided : Text → DecisionOutcome → Option ℕ → Payload
  ticked : Bool → Text → (placed declined : ℕ) → (retired : List ℕ) → Payload

pub record Entry : Type 0 where
  pub event_type : AuditEventType
  pub payload : Payload
  pub actor : Text
  pub at : ℕ

-- A row of `orders`.
pub record Order : Type 0 where
  pub id : ℕ
  pub client_order_id : Text
  pub strategy_id : ℕ
  pub exchange_order_id : Option Text
  pub symbol : Text
  pub side : OrderSide
  pub order_type : Text
  pub role : OrderRole
  pub quantity : Decimal
  pub price : Option Decimal
  pub status : Text
  pub exchange_env : ExchangeEnv
  pub position_id : Option ℕ
  pub created_at : ℕ
  pub updated_at : ℕ

-- A row of `fills`.
pub record FillRow : Type 0 where
  pub id : ℕ
  pub order_id : ℕ
  pub quantity : Decimal
  pub price : Decimal
  pub fee : Decimal
  pub fee_asset : Text
  pub filled_at : ℕ
  pub exchange_trade_id : ℕ

-- A row of `positions`, the `Position` of ledger.py.
pub record Position : Type 0 where
  pub id : ℕ
  pub strategy_id : ℕ
  pub symbol : Text
  pub side : PositionSide
  pub quantity : Decimal
  pub entry_price : Decimal
  pub stop_price : Decimal
  pub target_price : Decimal
  pub opened_at : ℕ
  pub closed_at : Option ℕ
  pub exit_price : Option Decimal
  pub realised_pnl : Option Decimal

-- A row of `strategies`; the spec that the hash names is immutable.
pub record Strategy : Type 0 where
  pub id : ℕ
  pub spec_hash : Text
  pub symbol : Text
  pub timeframe : Text
  pub status : StrategyStatus
  pub created_at : ℕ
  pub status_at : ℕ
  pub retired_at : Option ℕ
  pub retire_reason : Option Text

-- A row of `promotions`.
pub record Promotion : Type 0 where
  pub id : ℕ
  pub strategy_id : ℕ
  pub approved_by : Text
  pub approved_at : ℕ
  pub reasons : List Text
  pub initial_risk_multiplier : Decimal

-- The exceptions that the modelled methods raise.
pub data Error : Type 0 where
  kill_switch_armed_error invalid_record value_error integrity_error : Error
  os_error sqlite_error market_data_error atlas_error promotion_refused : Error
  order_rejection : (retryable : Bool) → (status : Option ℕ) → Error
  entry_did_not_fill unprotected_position attribute_error arithmetic_error key_error : Error
  exchange_info_error lookahead_error index_error configuration_error : Error

-- The fields of an order answer that the code reads: `OrderAck` with its `raw`.
pub record OrderAck : Type 0 where
  pub client_order_id : Text
  pub exchange_order_id : Text
  pub symbol : Text
  pub status : Text
  pub executed_qty : Decimal
  pub cummulative_quote_qty : Option Decimal

-- The fields of an order report as the exchange sends them, each of which may be missing.
pub record OrderReport : Type 0 where
  pub client_order_id : Option Text
  pub order_id : Option Text
  pub symbol : Option Text
  pub status : Option Text
  pub executed_qty : Option Decimal
  pub cummulative_quote_qty : Option Decimal

-- A JSON object that answers a signed POST, with the keys that the code reads: those of an order, and
-- those of an order list.
pub record Answer : Type 0 where
  pub report : OrderReport
  pub order_list_id : Option Text
  pub order_reports : List OrderReport
  pub orders : List OrderReport

-- How one signed POST ends: an object, another JSON value, or the exception of the transport.
pub data PostOutcome : Type 0 where
  answers : Answer → PostOutcome
  answers_otherwise : PostOutcome
  fails : Error → PostOutcome

-- A POST as the exchange sees it, and what another process may do while it is under way.
pub record Reply : Type 0 where
  pub outcome : PostOutcome
  pub armed_meanwhile : Option KillSwitchRecord

-- What was sent to the exchange.
pub data Sent : Type 0 where
  sent_order : Text → OrderRole → Sent
  sent_oco : Text → Sent
