-- ===== src/KillSwitch.antt =====
-- src/atlas/killswitch.py: the account halt, kept in a file and in the database.
pub mod Reads
pub mod Latch
use atlas_ai_trading.Prelude.{
  ℕ, Bool, true, false, Option, none, some, List, [], ◌∷◌, ◌++◌, ◌&&◌, leb, not, length,
  if◌then◌else◌,
}
use atlas_ai_trading.Prelude.Text.{Text, text, is_blank}
use atlas_ai_trading.World.{
  KillSwitchState, disarmed, armed, KillSwitchTrigger, state_unreadable, state_disagreement,
  KillSwitchRecord, FileStore, file_absent, file_unreadable, file_corrupt, file_holds, RowStore,
  row_error, row_absent, row_malformed, row_holds, WriteFault, database_fault, file_fault,
  kill_switch_armed, kill_switch_disarmed, kill_reason, Error, kill_switch_armed_error,
  invalid_record, os_error, sqlite_error, World, Result, ok, raised, Action, ◌>>=◌, ◌>>◌, Done,
  done, pure, raise, raise_if, gets, log,
}

abbrev pub same_state : KillSwitchState → KillSwitchState → Bool
same_state disarmed disarmed = true
same_state armed armed = true
same_state _ _ = false

-- `KillSwitchRecord.is_armed`
abbrev pub record_is_armed : KillSwitchRecord → Bool
record_is_armed r = same_state r.state armed

-- The field constraints of `KillSwitchRecord`: 1 to 500 characters of reason, 1 to 100 of actor.
unfoldable pub is_valid_record : Text → Text → Bool
is_valid_record reason actor =
    leb 1 (length reason)
    && leb (length reason) 500
    && leb 1 (length actor)
    && leb (length actor) 100

-- A record as pydantic builds it, from text that may fail its constraints.
abbrev validated : KillSwitchRecord → Option KillSwitchRecord
validated r = if is_valid_record r.reason r.actor then some r else none

abbrev from_file : FileStore → Option KillSwitchRecord
from_file (file_holds r) = validated r
from_file file_absent = none
from_file file_unreadable = none
from_file file_corrupt = none

abbrev from_row : RowStore → Option KillSwitchRecord
from_row (row_holds r) = validated r
from_row row_error = none
from_row row_absent = none
from_row row_malformed = none

unfoldable pub read_file : World → Option KillSwitchRecord
read_file w = from_file w.kill_file

unfoldable pub read_db : World → Option KillSwitchRecord
read_db w = from_row w.kill_row

-- The record that `read_state` makes up where the stores cannot be trusted.
abbrev system_actor : Text
system_actor = text "system"

abbrev halted : KillSwitchTrigger → Text → ℕ → KillSwitchRecord
halted t reason now = record {
  state = armed;
  trigger = some t;
  reason = reason;
  actor = system_actor;
  at = now;
}

abbrev state_name : KillSwitchState → Text
state_name armed = text "ARMED"
state_name disarmed = text "DISARMED"

-- The cases of `read_state`, on what the file and the database yield.
abbrev resolve : ℕ → Option KillSwitchRecord → Option KillSwitchRecord → KillSwitchRecord
resolve now none none =
    halted state_unreadable (text "kill-switch state is absent or unreadable in both stores") now
resolve now none (some _) =
    halted state_disagreement (text "kill-switch state missing or unreadable in the file store") now
resolve now (some _) none =
    halted state_disagreement (text "kill-switch state missing or unreadable in the database store")
      now
resolve now (some f) (some d) =
    if same_state f.state d.state
    then d
    else halted state_disagreement
        (text "kill-switch stores disagree: file="
          ++ state_name f.state
          ++ text ", database="
          ++ state_name d.state)
        now

unfoldable pub read_state : World → KillSwitchRecord
unfolding read_file read_db
read_state w = resolve w.clock (read_file w) (read_db w)

unfoldable pub is_armed : World → Bool
unfolding read_state
is_armed w = record_is_armed (read_state w)

-- The write to the database is the commit point; the file is replaced after it.
abbrev write_with : List (Option WriteFault) → KillSwitchRecord → Action Done
write_with [] r w = (ok tt, record w { kill_row = row_holds r; kill_file = file_holds r })
write_with (none ∷ later) r w =
    (ok tt, record w { kill_row = row_holds r; kill_file = file_holds r; write_faults = later })
write_with (some database_fault ∷ later) r w =
    (raised sqlite_error, record w { write_faults = later })
write_with (some file_fault ∷ later) r w =
    (raised os_error, record w { kill_row = row_holds r; write_faults = later })

write_both : KillSwitchRecord → Action Done
write_both r w = write_with w.write_faults r w

-- `KillSwitchRecord(…)`, which refuses a reason or an actor of the wrong length.
new_record : KillSwitchState → Option KillSwitchTrigger → Text → Text → Action KillSwitchRecord
new_record state trigger reason actor = do
  raise_if (not (is_valid_record reason actor)) invalid_record
  now ← gets (λ w. w.clock)
  pure (record { state = state; trigger = trigger; reason = reason; actor = actor; at = now })

unfoldable pub arm : KillSwitchTrigger → Text → Text → Action KillSwitchRecord
unfolding new_record write_both
arm trigger reason actor = do
  r ← new_record armed (some trigger) reason actor
  write_both r
  log kill_switch_armed (kill_reason (some trigger) reason) actor
  pure r

unfoldable pub disarm : Text → Text → (human_confirmed : Bool) → Action KillSwitchRecord
unfolding new_record write_both
disarm reason actor human_confirmed = do
  raise_if (not human_confirmed) kill_switch_armed_error
  raise_if (is_blank reason) kill_switch_armed_error
  r ← new_record disarmed none reason actor
  write_both r
  log kill_switch_disarmed (kill_reason none reason) actor
  pure r

-- The body of `initialise` where neither store holds state.
release : Text → Action KillSwitchRecord
unfolding new_record write_both
release actor = do
  r ← new_record disarmed none (text "initialised") actor
  write_both r
  log kill_switch_disarmed (kill_reason none (text "initialised")) actor
  pure r

abbrev initialise_on :
    Option KillSwitchRecord
    → Option KillSwitchRecord
    → Action KillSwitchRecord
    → Action KillSwitchRecord
    → Action KillSwitchRecord
initialise_on none none fresh held = fresh
initialise_on (some _) _ fresh held = held
initialise_on none (some _) fresh held = held

unfoldable pub initialise : Text → Action KillSwitchRecord
unfolding release read_file read_db read_state
initialise actor w = initialise_on (read_file w) (read_db w) (release actor) (gets read_state) w

-- The gate of an order that opens exposure, and that of a protective order, which never blocks.
unfoldable pub check_can_enter : Action Done
unfolding is_armed
check_can_enter = do is_halted ← gets is_armed; raise_if is_halted kill_switch_armed_error

unfoldable pub check_can_place_protective : Action Done
check_can_place_protective = done
