-- ===== src/Brackets/Success.antt =====
-- What `open_bracketed_position` leaves when it returns.
use atlas_ai_trading.Brackets.{Bracket, BracketResult, Levels, oco_request, opening_of}
use atlas_ai_trading.Brackets.Replies.{AcksLegs}
use atlas_ai_trading.Broker.{OcoAck, OcoRequest}
use atlas_ai_trading.Ledger.{new_position}
use atlas_ai_trading.Prelude.{List, ℕ, ◌∷◌, ◌≡◌}
use atlas_ai_trading.Prelude.Text.{Text}
use atlas_ai_trading.World.{OrderAck, Position, Reply, World}

-- The levels that a result names.
abbrev pub levels_in : BracketResult → Levels
levels_in res = record {
  entry_price = res.entry_price;
  stop_level = res.stop_price;
  target_level = res.target_price;
}

-- The position that a result names.
abbrev named_by : Bracket → ℕ → BracketResult → Position
named_by b now res = new_position (opening_of b res.entry_ack (levels_in res)) res.position_id now

module _ (hexdigest : Text → Text) where
  -- The result that the last step makes.
  abbrev result_of_exits : OrderAck → Levels → ℕ → OcoAck → BracketResult
  result_of_exits ack l i exits = record {
    entry_ack = ack;
    exit_orders = exits;
    position_id = i;
    entry_price = l.entry_price;
    stop_price = l.stop_level;
    target_price = l.target_level;
  }

  -- The exits of a result, in the order list that was sent.
  abbrev pub exits_of : Bracket → BracketResult → OcoRequest
  exits_of b res =
      oco_request hexdigest b res.entry_ack.executed_qty res.stop_price res.target_price

  -- The second reply of a state acknowledges the exits of a result.
  abbrev pub AnswersExits : Bracket → World → BracketResult → Type 0
  AnswersExits b w res =
      (first : Reply) × (second : Reply) × (rest : List Reply) × (w.replies ≡ first ∷ second ∷ rest)
      × AcksLegs (exits_of b res) second res.exit_orders
