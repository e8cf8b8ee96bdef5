-- ===== src/Control/Hysteresis.antt =====
-- include/lcr/control/binary_hysteresis.hpp, `BinaryHysteresis`. The thresholds are the template's
-- parameters, and the streak counters are `uint32_t`.
pub mod Laws
pub mod Runs
use wirekrak.Common.{
  ℕ, ◌+◌, ◌%◌, ◌^◌, ◌<◌, ◌≤◌, Bool, true, false, List, [], ◌∷◌, leb, if◌then◌else◌,
}

pub data State : Type 0 where
  inactive active : State

pub data Transition : Type 0 where
  unchanged activated deactivated : Transition

pub record Hysteresis : Type 0 where
  pub state : State
  pub activate_streak : ℕ
  pub deactivate_streak : ℕ

-- `++` on a `uint32_t`.
abbrev pub increment : ℕ → ℕ
increment n = (n + 1) % 2 ^ 32

unfoldable pub initial : Hysteresis
initial = record { state = inactive; activate_streak = 0; deactivate_streak = 0 }

unfoldable pub is_active : Hysteresis → Bool
is_active h = elim h.state [ active ↦ true | inactive ↦ false ]

unfoldable pub is_inactive : Hysteresis → Bool
is_inactive h = elim h.state [ inactive ↦ true | active ↦ false ]

unfoldable pub reset : Hysteresis → Hysteresis
reset h = record { state = inactive; activate_streak = 0; deactivate_streak = 0 }

module _ (activate_threshold deactivate_threshold : ℕ) where
  unfoldable pub on_active_signal : Hysteresis → Hysteresis × Transition
  on_active_signal h = elim h.state [
    | inactive ↦
        let streak = increment h.activate_streak in
        if leb activate_threshold streak
        then (record { state = active; activate_streak = 0; deactivate_streak = 0 }, activated)
        else (
          record { state = inactive; activate_streak = streak; deactivate_streak = 0 },
          unchanged,
        )
    | active ↦ (record { state = active; activate_streak = 0; deactivate_streak = 0 }, unchanged)
  ]

  unfoldable pub on_inactive_signal : Hysteresis → Hysteresis × Transition
  on_inactive_signal h = elim h.state [
    | active ↦
        let streak = increment h.deactivate_streak in
        if leb deactivate_threshold streak
        then (record { state = inactive; activate_streak = 0; deactivate_streak = 0 }, deactivated)
        else (record { state = active; activate_streak = 0; deactivate_streak = streak }, unchanged)
    | inactive ↦
        (record { state = inactive; activate_streak = 0; deactivate_streak = 0 }, unchanged)
  ]

  -- One observed signal: true where the active condition was seen.
  unfoldable pub signal : Bool → Hysteresis → Hysteresis × Transition
  signal true h = on_active_signal h
  signal false h = on_inactive_signal h

  -- The machine after a sequence of signals, oldest first.
  unfoldable pub feed : List Bool → Hysteresis → Hysteresis
  feed [] h = h
  feed (b ∷ bs) h = feed bs (signal b h).0

  -- The transitions that it emits on the way.
  unfoldable pub emitted : List Bool → Hysteresis → List Transition
  emitted [] h = []
  emitted (b ∷ bs) h = let (h', t) = signal b h in t ∷ emitted bs h'
