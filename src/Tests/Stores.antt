-- ===== src/Tests/Stores.antt =====
-- The kill switch and the audit log on concrete stores.
use native.Mathlib.Decide.{ℕ_discrete}
use atlas_ai_trading.Audit.{AuditRow, HashFunction, verified_events, verify_chain}
use atlas_ai_trading.Audit.Chain.{chain, events, verify_chain_iff}
use atlas_ai_trading.Audit.Tamper.{IsCollisionFree, same_end, truncation_undetected}
use atlas_ai_trading.KillSwitch.{arm, initialise, is_armed, is_valid_record, read_db, read_file}
use atlas_ai_trading.KillSwitch.Latch.{
  after_all, disarming, halt_is_latched, initialise_releases_corrupt, initialising,
}
use atlas_ai_trading.KillSwitch.Reads.{released_iff}
use atlas_ai_trading.Prelude.{List, [], false, refl, some, true, ℕ, ◌↔◌, ◌∷◌, ◌≡◌}
use atlas_ai_trading.Prelude.Text.{text}
use atlas_ai_trading.Tests.Fixtures.{calm, operator}
use atlas_ai_trading.World.{
  Entry, KillSwitchRecord, World, disarmed, file_corrupt, manual, row_malformed, strategy_named,
  system,
}

halt_is_latched_example :
    is_armed (
      after_all
        (disarming (text "please") operator false ∷ initialising operator ∷ [])
        (arm manual (text "stop") operator calm).1)
    ≡ true
unfolding is_valid_record arm
halt_is_latched_example =
    halt_is_latched manual (text "stop") operator
      (disarming (text "please") operator false ∷ initialising operator ∷ []) calm refl (λ e. cc)
      refl

released_iff_example : (is_armed calm ≡ false) ↔ (
    (f : KillSwitchRecord) × (d : KillSwitchRecord) × (read_file calm ≡ some f)
    × (read_db calm ≡ some d)
    × (f.state ≡ disarmed)
    × (d.state ≡ disarmed))
released_iff_example = released_iff calm

abbrev corrupt : World
corrupt = record calm { kill_file = file_corrupt; kill_row = row_malformed }

initialise_releases_corrupt_example :
    (is_armed corrupt ≡ true) × (is_armed (initialise operator corrupt).1 ≡ false)
unfolding is_valid_record
initialise_releases_corrupt_example =
    initialise_releases_corrupt operator corrupt refl refl refl refl

-- A hash without collisions: the history itself.
data Tree : Type 0 where
  leaf : Tree
  node : ℕ → Entry → Tree → Tree

Entry-discrete : Discrete Entry
Entry-discrete = hlevel ℕ_discrete

Tree-discrete : Discrete Tree
Tree-discrete = hlevel (ℕ_discrete, Entry-discrete)

abbrev tree_hash : HashFunction
tree_hash = record {
  Hash = Tree;
  hash_discrete = Tree-discrete;
  genesis_hash = leaf;
  compute_event_hash = node;
}

abbrev event : Entry
event = record { event_type = system; payload = strategy_named 7; actor = operator; at = 1 }

abbrev two_events : List Entry
two_events = event ∷ event ∷ []

verify_chain_iff_example :
    (verify_chain tree_hash (chain tree_hash two_events) ≡ verified_events 2)
    ↔ (chain tree_hash two_events ≡ chain tree_hash (events tree_hash (chain tree_hash two_events)))
verify_chain_iff_example = verify_chain_iff tree_hash (chain tree_hash two_events)

accepted : verify_chain tree_hash (chain tree_hash two_events) ≡ verified_events 2
accepted = (verify_chain_iff tree_hash (chain tree_hash two_events)).1 refl

node-injective : IsCollisionFree tree_hash
node-injective i d e p q h = (cc, cc)

same_end_example : chain tree_hash two_events ≡ chain tree_hash two_events
same_end_example =
    same_end tree_hash (chain tree_hash two_events) (chain tree_hash two_events) node-injective
      accepted accepted refl refl

abbrev first_row : AuditRow tree_hash
first_row = record { seq = 0; event = event; prev_hash = leaf; event_hash = node 0 event leaf }

abbrev second_row : AuditRow tree_hash
second_row = record {
  seq = 1;
  event = event;
  prev_hash = node 0 event leaf;
  event_hash = node 1 event (node 0 event leaf);
}

truncation_undetected_example : verify_chain tree_hash (first_row ∷ []) ≡ verified_events 1
truncation_undetected_example =
    truncation_undetected tree_hash (first_row ∷ []) (second_row ∷ []) 2 accepted
