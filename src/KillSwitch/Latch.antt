-- ===== src/KillSwitch/Latch.antt =====
-- Arming, disarming and initialising the kill switch, one after the other and with faulty writes.
use atlas_ai_trading.KillSwitch.{
  arm, disarm, initialise, is_armed, is_valid_record, read_db, read_file, record_is_armed, resolve,
}
use atlas_ai_trading.Prelude.{
  Bool, List, Option, [], any, arith, false, inl, none, not, refl, some, true, ℕ, ◌||◌, ◌∷◌, ◌≡◌,
  ◌≢◌, ◌⊎◌,
}
use atlas_ai_trading.Prelude.Text.{Text, is_blank, text}
use atlas_ai_trading.World.{
  KillSwitchRecord, KillSwitchTrigger, World, WriteFault, file_corrupt, file_fault, invalid_record,
  kill_switch_armed_error, os_error, raised, row_malformed, sqlite_error,
}

-- A store that is readable and says ARMED.
abbrev pub says_armed : Option KillSwitchRecord → Bool
says_armed none = false
says_armed (some r) = record_is_armed r

abbrev pub says_disarmed : Option KillSwitchRecord → Bool
says_disarmed none = false
says_disarmed (some r) = not (record_is_armed r)

abbrev pub IsLatched : World → Type 0
IsLatched w = (says_armed (read_file w) || says_armed (read_db w)) ≡ true

latched_halts :
    (now : ℕ) (f d : Option KillSwitchRecord)
    → (says_armed f || says_armed d) ≡ true
    → record_is_armed (resolve now f d) ≡ true
latched_halts now none none h = cc
latched_halts now none (some y) h = refl
latched_halts now (some x) none h = refl
latched_halts now (some x) (some y) h = ground arith

pub is_armed_of_latched : (w : World) → IsLatched w → is_armed w ≡ true
unfolding is_armed
is_armed_of_latched w h = latched_halts w.clock (read_file w) (read_db w) h

-- After an arming that the database took, the database says ARMED.
arm-latches :
    (t : KillSwitchTrigger) (reason actor : Text) (w : World)
    → is_valid_record reason actor ≡ true
    → (arm t reason actor w).0 ≢ raised sqlite_error
    → IsLatched (arm t reason actor w).1
unfolding arm read_file read_db
arm-latches t reason actor w v h = ground arith

-- Arming with a reason and an actor within their bounds leaves the switch armed, also where the file
-- could not be written after the database was; only a refused database write can leave it released.
pub arm-halts :
    (t : KillSwitchTrigger) (reason actor : Text) (w : World)
    → is_valid_record reason actor ≡ true
    → (arm t reason actor w).0 ≢ raised sqlite_error
    → is_armed (arm t reason actor w).1 ≡ true
arm-halts t reason actor w v h = is_armed_of_latched _ (arm-latches t reason actor w v h)

-- A reason or an actor out of its bounds makes `arm` raise before it writes: nothing is armed.
pub arm-invalid :
    (t : KillSwitchTrigger) (reason actor : Text) (w : World)
    → is_valid_record reason actor ≡ false
    → arm t reason actor w ≡ (raised invalid_record, w)
unfolding arm
arm-invalid t reason actor w v = rw v

-- Without a person's confirmation `disarm` raises and changes nothing; nor does a blank reason do.
pub disarm_refused :
    (reason actor : Text) (confirmed : Bool) (w : World)
    → (confirmed ≡ false) ⊎ (is_blank reason ≡ true)
    → disarm reason actor confirmed w ≡ (raised kill_switch_armed_error, w)
unfolding disarm
disarm_refused reason actor confirmed w h = ground arith

pub data Command : Type 0 where
  arming : KillSwitchTrigger → Text → Text → Command
  disarming : Text → Text → Bool → Command
  initialising : Text → Command

-- One call of the kill switch by some process; what it raises goes to that process.
abbrev pub after : Command → World → World
after (arming t reason actor) w = (arm t reason actor w).1
after (disarming reason actor confirmed) w = (disarm reason actor confirmed w).1
after (initialising actor) w = (initialise actor w).1

abbrev pub after_all : List Command → World → World
after_all [] w = w
after_all (c ∷ cs) w = after_all cs (after c w)

-- A person's confirmation, with a reason.
abbrev pub is_confirmed : Command → Bool
is_confirmed (disarming reason actor confirmed) = confirmed
is_confirmed (arming t reason actor) = false
is_confirmed (initialising actor) = false

arm-keeps :
    (t : KillSwitchTrigger) (reason actor : Text) (w : World)
    → IsLatched w
    → IsLatched (arm t reason actor w).1
unfolding arm read_file read_db
arm-keeps t reason actor w h = ground arith

initialise-keeps : (actor : Text) (w : World) → IsLatched w → IsLatched (initialise actor w).1
unfolding initialise
initialise-keeps actor w h = ground arith

after-keeps :
    (c : Command) (w : World) → is_confirmed c ≡ false → IsLatched w → IsLatched (after c w)
after-keeps (arming t reason actor) w n h = arm-keeps t reason actor w h
after-keeps (initialising actor) w n h = initialise-keeps actor w h
after-keeps (disarming reason actor confirmed) w n h =
    rw (after, disarm_refused reason actor confirmed w (inl n)) h

after_all-keeps :
    (cs : List Command) (w : World)
    → any is_confirmed cs ≡ false
    → IsLatched w
    → IsLatched (after_all cs w)
after_all-keeps [] w n h = h
after_all-keeps (c ∷ cs) w n h =
    after_all-keeps cs (after c w) (ground arith) (after-keeps c w (ground arith) h)

-- After an arming that the database took, the switch is armed after any further calls of the kill
-- switch among which there is no confirmed disarming, whatever faults their writes meet: neither
-- `initialise`, nor a failing write, nor a new arming releases it.
pub halt_is_latched :
    (t : KillSwitchTrigger) (reason actor : Text) (cs : List Command) (w : World)
    → is_valid_record reason actor ≡ true
    → (arm t reason actor w).0 ≢ raised sqlite_error
    → any is_confirmed cs ≡ false
    → is_armed (after_all cs (arm t reason actor w).1) ≡ true
halt_is_latched t reason actor cs w v h n =
    is_armed_of_latched _ (after_all-keeps cs _ n (arm-latches t reason actor w v h))

halts_of_half_written :
    (now : ℕ) (f d : Option KillSwitchRecord)
    → says_disarmed f ≡ false
    → record_is_armed (resolve now f d) ≡ true
halts_of_half_written now none none h = refl
halts_of_half_written now none (some y) h = refl
halts_of_half_written now (some x) none h = refl
halts_of_half_written now (some x) (some y) h = ground arith

-- A disarming whose file write fails after the database commit raises, and the two stores disagree:
-- where the file was not itself a readable DISARMED record, the switch is still armed.
pub disarm_half_written :
    (reason actor : Text) (later : List (Option WriteFault)) (w : World)
    → w.write_faults ≡ some file_fault ∷ later
    → is_blank reason ≡ false
    → is_valid_record reason actor ≡ true
    → says_disarmed (read_file w) ≡ false
    → let (r, w') = disarm reason actor true w in (r ≡ raised os_error) × (is_armed w' ≡ true)
unfolding disarm is_armed
disarm_half_written reason actor later w e b v h =
    (ground arith, halts_of_half_written _ _ _ (ground arith))

-- `initialise` releases a system whose two stores hold state that cannot be read: it tells "never
-- initialised" from "unreadable" in neither store, and asks nobody.
pub initialise_releases_corrupt :
    (actor : Text) (w : World)
    → w.kill_file ≡ file_corrupt
    → w.kill_row ≡ row_malformed
    → w.write_faults ≡ []
    → is_valid_record (text "initialised") actor ≡ true
    → (is_armed w ≡ true) × (is_armed (initialise actor w).1 ≡ false)
unfolding initialise is_armed
initialise_releases_corrupt actor w f d n v = (rw (f, d), ground arith)
