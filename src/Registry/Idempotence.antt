-- ===== src/Registry/Idempotence.antt =====
-- Registering a spec, `StrategyRegistry.register`.
use atlas_ai_trading.Prelude.{arith, ◌≡◌}
use atlas_ai_trading.Prelude.Tables.{find-append}
use atlas_ai_trading.Prelude.Text.{text_eq_refl}
use atlas_ai_trading.Registry.{SpecKey, has_spec, insert_strategy, new_strategy, register}
use atlas_ai_trading.World.{World}

-- Registering a spec again gives the strategy that is there, and changes nothing.
pub register_idempotent :
    (k : SpecKey) (w : World) → let (r, w') = register k w in register k w' ≡ (r, w')
unfolding register insert_strategy
register_idempotent k w = ground (
  arith,
  find-append (has_spec k.content_hash) w.strategies (new_strategy k w.uuids w.clock),
  text_eq_refl k.content_hash,
)
