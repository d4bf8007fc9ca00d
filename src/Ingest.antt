-- ===== src/Ingest.antt =====
-- src/atlas/execution/ingest.py: the exchange's trades become fills of the ledger, and a position is
-- closed when its protective order has filled. The exchange is an argument: what `my_trades` answers.
pub mod Accounting
pub mod Settled
pub mod Redelivery
pub mod Closing
use atlas_ai_trading.Brackets.{client_order_id}
use atlas_ai_trading.Decimal.{Decimal, nought, ◌≺◌}
use atlas_ai_trading.Ledger.{
  Fill, close_position, filled_quantity, has_order_id, is_open, ledger_actor, order_row, position,
  record_fill,
}
use atlas_ai_trading.Prelude.{
  Bool, List, Option, [], and_then, any, false, if◌then◌else◌, keep, length, max, none, or_default,
  some, true, ℕ, ◌&&◌, ◌++◌, ◌+◌, ◌∷◌,
}
use atlas_ai_trading.Prelude.Text.{Text, text_eq, upper}
use atlas_ai_trading.World.{
  Action, Error, FillRow, Order, OrderRole, Position, Result, World, attribute_error, catch, entry,
  gets, ingested, log, os_error, position_named, pure, raise, reconciliation, stop, target,
  value_error, ◌>>=◌, ◌>>◌,
}

-- A field that may be left out.
pub data Commission : Type 0 where
  no_commission malformed_commission : Commission
  commission_of : Decimal → Commission

-- The time of a trade: that it names, none that `datetime` reads (missing, no number, or a year beyond
-- 9999), or one beyond the range of the platform, for which `fromtimestamp` raises `OSError`.
pub data TradeTime : Type 0 where
  at_time : ℕ → TradeTime
  unreadable_time beyond_platform : TradeTime

-- One trade as the exchange sends it; a field that is missing, or that does not parse, is `none`. A
-- quantity or a price is a number: `NaN` is not modelled.
pub record Trade : Type 0 where
  pub client_order_id : Option Text
  pub id : Option ℕ
  pub qty : Option Decimal
  pub price : Option Decimal
  pub commission : Commission
  pub commission_asset : Option Text
  pub time : TradeTime

-- An entry of the list that the exchange answers: an object, or a JSON value that has no `get`.
pub data Delivery : Type 0 where
  delivered : Trade → Delivery
  no_mapping : Delivery

-- `my_trades(symbol, from_id)`
abbrev pub Exchange : Type 0
Exchange = Text → Option ℕ → Result (List Delivery)

-- Why a trade was not recorded, and that a poll failed.
pub data Orphan : Type 0 where
  no_client_order_id unparseable_trade : Option ℕ → Orphan
  unknown_order : Text → Orphan
  poll_failed : Error → Orphan

pub record IngestReport : Type 0 where
  pub symbol : Text
  pub seen : ℕ
  pub recorded : ℕ
  pub duplicates : ℕ
  pub orphans : List Orphan
  pub closed_positions : List ℕ

-- The counters of the loop.
pub record Tally : Type 0 where
  pub recorded : ℕ
  pub duplicates : ℕ
  pub orphans : List Orphan
  pub closed_positions : List ℕ

abbrev pub no_trades : Tally
no_trades = record { recorded = 0; duplicates = 0; orphans = []; closed_positions = [] }

abbrev pub count_recorded : Tally → Tally
count_recorded t = record t { recorded = t.recorded + 1 }

abbrev pub count_duplicate : Tally → Tally
count_duplicate t = record t { duplicates = t.duplicates + 1 }

abbrev pub add_orphan : Orphan → Tally → Tally
add_orphan o t = record t { orphans = t.orphans ++ o ∷ [] }

abbrev pub add_closed : Option ℕ → Tally → Tally
add_closed none t = t
add_closed (some i) t = record t { closed_positions = t.closed_positions ++ i ∷ [] }

abbrev pub fee_of : Commission → Option Decimal
fee_of no_commission = some nought
fee_of malformed_commission = none
fee_of (commission_of fee) = some fee

-- What `_to_fill` comes to: a fill, an exception that `ingest` takes for an orphan, or another one.
pub data Parsed : Type 0 where
  parsed : Fill → Parsed
  unparsed : Parsed
  escapes : Error → Parsed

-- The time is read after the amounts, and the id after the time.
abbrev pub parsed_at : Trade → Text → (qty price fee : Decimal) → TradeTime → Option ℕ → Parsed
parsed_at x c qty price fee unreadable_time id = unparsed
parsed_at x c qty price fee beyond_platform id = escapes os_error
parsed_at x c qty price fee (at_time t) none = unparsed
parsed_at x c qty price fee (at_time t) (some id) = parsed (record {
  order_client_id = c;
  quantity = qty;
  price = price;
  fee = fee;
  fee_asset = or_default x.commission_asset [];
  filled_at = t;
  exchange_trade_id = id;
})

abbrev pub parsed_amounts : Trade → Text → (qty price fee : Option Decimal) → Parsed
parsed_amounts x c none price fee = unparsed
parsed_amounts x c (some q) none fee = unparsed
parsed_amounts x c (some q) (some p) none = unparsed
parsed_amounts x c (some q) (some p) (some f) = parsed_at x c q p f x.time x.id

-- `_to_fill`. The fee is 0 and its asset empty where they are missing.
unfoldable pub to_fill : Trade → Text → Parsed
to_fill x c = parsed_amounts x c x.qty x.price (fee_of x.commission)

abbrev is_of_symbol : List Order → Text → FillRow → Bool
is_of_symbol orders s f = any (λ o. has_order_id f.order_id o && text_eq o.symbol s) orders

-- `max(ids) if ids else None`
max_trade : List FillRow → Option ℕ
max_trade [] = none
max_trade (f ∷ fs) = elim (max_trade fs) [
  | none ↦ some f.exchange_trade_id
  | some m ↦ some (max f.exchange_trade_id m)
]

-- `_cursor`
unfoldable pub cursor : Text → World → Option ℕ
unfolding max_trade
cursor symbol w = max_trade (keep (is_of_symbol w.orders (upper symbol)) w.fills)

abbrev pub from_id : Option ℕ → Option ℕ
from_id none = none
from_id (some m) = some (m + 1)

-- The position that a fill of an order may close: that of a stop or a target, while it is open.
abbrev if_protective : OrderRole → Option ℕ → Option ℕ
if_protective entry i = none
if_protective stop i = i
if_protective target i = i

abbrev if_open : Position → Option Position
if_open p = if is_open p then some p else none

unfoldable pub protected_position : Text → World → Option Position
protected_position c w =
    and_then (order_row c w)
      λ o. and_then (if_protective o.role o.position_id) λ i. and_then (position i w) if_open

-- `_close_if_exit_filled`
unfoldable pub close_if_exit_filled : Text → Decimal → Action (Option ℕ)
close_if_exit_filled c price w = elim (protected_position c w) [
  | none ↦ pure none w
  | some p ↦
      if filled_quantity c w ≺ p.quantity
      then pure none w
      else (close_position p.id price
            >> log reconciliation (position_named p.id) ledger_actor
            >> pure (some p.id))
          w
]

-- `except ValueError`
abbrev is_value_error : Error → Bool
is_value_error value_error = true
is_value_error _ = false

abbrev pub except_value_error : {A : Type 0} → Action A → A → Action A
except_value_error m a = catch m (λ e. if is_value_error e then pure a else raise e)

abbrev pub close_after : Text → Decimal → Tally → Action Tally
close_after c price t =
    except_value_error (close_if_exit_filled c price >>= λ closed. pure (add_closed closed t))
      (add_orphan (unknown_order c) t)

-- One trade that parsed.
unfoldable pub ingest_fill : Text → Fill → Tally → Action Tally
ingest_fill c f t =
    except_value_error
      (record_fill f >>= λ fresh.
        if fresh then close_after c f.price (count_recorded t) else pure (count_duplicate t))
      (add_orphan (unknown_order c) t)

abbrev pub ingest_parsed : Text → Trade → Parsed → Tally → Action Tally
ingest_parsed c x unparsed t = pure (add_orphan (unparseable_trade x.id) t)
ingest_parsed c x (escapes e) t = raise e
ingest_parsed c x (parsed f) t = ingest_fill c f t

-- One round of the loop; a missing id of the client is an empty one.
abbrev pub ingest_named : Text → Trade → Tally → Action Tally
ingest_named [] x t = pure (add_orphan (no_client_order_id x.id) t)
ingest_named (a ∷ c) x t = ingest_parsed (a ∷ c) x (to_fill x (a ∷ c)) t

unfoldable pub ingest_trade : Delivery → Tally → Action Tally
unfolding to_fill
ingest_trade no_mapping t = raise attribute_error
ingest_trade (delivered x) t = ingest_named (or_default x.client_order_id []) x t

unfoldable pub ingest_trades : List Delivery → Tally → Action Tally
unfolding ingest_trade
ingest_trades [] t = pure t
ingest_trades (x ∷ xs) t = ingest_trade x t >>= λ t'. ingest_trades xs t'

abbrev pub report_of_tally : Text → ℕ → Tally → IngestReport
report_of_tally symbol seen t = record {
  symbol = upper symbol;
  seen = seen;
  recorded = t.recorded;
  duplicates = t.duplicates;
  orphans = t.orphans;
  closed_positions = t.closed_positions;
}

unfoldable pub ingest : Exchange → Text → Action IngestReport
unfolding ingest_trades cursor
ingest my_trades symbol = do
  after ← gets (λ w. from_id (cursor symbol w))
  trades ← λ w. (my_trades symbol after, w)
  t ← ingest_trades trades no_trades
  log reconciliation (ingested (upper symbol) (length trades) t.recorded t.duplicates) ledger_actor
  pure (report_of_tally symbol (length trades) t)

abbrev failed_poll : Text → Error → IngestReport
failed_poll symbol e = record {
  symbol = symbol;
  seen = 0;
  recorded = 0;
  duplicates = 0;
  orphans = poll_failed e ∷ [];
  closed_positions = [];
}

-- The failure of one symbol does not stop the others.
abbrev pub ingest_or_report : Exchange → Text → Action IngestReport
ingest_or_report my_trades symbol =
    catch (ingest my_trades symbol)
      λ e. log reconciliation (ingested symbol 0 0 0) ledger_actor >> pure (failed_poll symbol e)

unfoldable pub ingest_all : Exchange → List Text → Action (List IngestReport)
ingest_all my_trades [] = pure []
ingest_all my_trades (s ∷ ss) = ingest_or_report my_trades s >>= λ report.
    ingest_all my_trades ss >>= λ reports. pure (report ∷ reports)
