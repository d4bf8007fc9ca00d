-- ===== src/KillSwitch/Reads.antt =====
-- What the two stores of the kill switch are read as, and how its operations change that.
use atlas_ai_trading.KillSwitch.{
  check_can_enter, is_armed, read_db, read_file, record_is_armed, resolve,
}
use atlas_ai_trading.Prelude.{
  Option, Option-cases, arith, false, if◌then◌else◌, inl, inr, none, refl, some, true, ℕ, ◌↔◌, ◌≡◌,
}
use atlas_ai_trading.World.{
  KillSwitchRecord, World, armed, disarmed, kill_switch_armed_error, ok, raised,
}

-- What `resolve` makes of two readings that do not arm.
resolve_released :
    (now : ℕ) (f d : Option KillSwitchRecord)
    → record_is_armed (resolve now f d) ≡ false
    → (x : KillSwitchRecord) × (y : KillSwitchRecord) × (f ≡ some x)
      × (d ≡ some y)
      × (x.state ≡ disarmed)
      × (y.state ≡ disarmed)
resolve_released now none none h = cc
resolve_released now none (some y) h = cc
resolve_released now (some x) none h = cc
resolve_released now (some x) (some y) h = (x, y, refl, refl, ground arith, ground arith)

resolve_of_released :
    (now : ℕ) (f d : Option KillSwitchRecord) (x y : KillSwitchRecord)
    → f ≡ some x
    → d ≡ some y
    → x.state ≡ disarmed
    → y.state ≡ disarmed
    → record_is_armed (resolve now f d) ≡ false
resolve_of_released now f d x y ef ed sx sy = rw (ef, ed) (ground arith)

-- Trading is released only if both stores are readable and both say DISARMED; every other pair of
-- stores (either one absent, unreadable, corrupt or out of its constraints, or the two at odds) is
-- read as ARMED.
pub released_iff :
    (w : World)
    → (is_armed w ≡ false) ↔ (
        (f : KillSwitchRecord) × (d : KillSwitchRecord) × (read_file w ≡ some f)
        × (read_db w ≡ some d)
        × (f.state ≡ disarmed)
        × (d.state ≡ disarmed))
unfolding is_armed
released_iff w = (
  resolve_released w.clock (read_file w) (read_db w),
  λ h. resolve_of_released w.clock (read_file w) (read_db w) h.0 h.1 h.2 h.3 h.4 h.5,
)

-- A store that is readable and says ARMED is enough to halt.
pub is_armed_of_db :
    (w : World) {d : KillSwitchRecord} → read_db w ≡ some d → d.state ≡ armed → is_armed w ≡ true
unfolding is_armed
is_armed_of_db w h s = elim (Option-cases (read_file w)) [
  | inl e ↦ ground arith
  | inr (f, e) ↦ ground arith
]

-- The entry gate refuses exactly when the switch is armed, and changes nothing.
pub check_can_enter_lem :
    (w : World)
    → check_can_enter w ≡ (if is_armed w then (raised kill_switch_armed_error, w) else (ok tt, w))
unfolding check_can_enter
check_can_enter_lem w = ground arith
