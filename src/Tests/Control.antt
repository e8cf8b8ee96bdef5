-- ===== src/Tests/Control.antt =====
-- The control primitives of include/lcr/control at concrete inputs.
use wirekrak.Common.{◌≡◌, refl, Bool, true, false, List, [], ◌∷◌, arith}
use wirekrak.Control.Hysteresis.{
  Hysteresis, inactive, active, initial, feed, emitted, unchanged, activated, on_active_signal,
  on_inactive_signal, signal,
}
use wirekrak.Control.Hysteresis.Laws.{Thresholds, IsValid, feed-IsValid}
use wirekrak.Control.Consecutive.{StateCounter, FrameCounter}

abbrev bursts : List Bool
bursts = true ∷ true ∷ false ∷ true ∷ true ∷ true ∷ false ∷ []

abbrev counting : Hysteresis
counting = record { state = inactive; activate_streak = 1; deactivate_streak = 0 }

abbrev opened : Hysteresis
opened = record { state = active; activate_streak = 0; deactivate_streak = 1 }

emitted-bursts :
    emitted 3 2 bursts initial
    ≡ unchanged ∷ unchanged ∷ unchanged ∷ unchanged ∷ unchanged ∷ activated ∷ unchanged ∷ []
unfolding emitted signal on_active_signal on_inactive_signal initial
emitted-bursts = refl

thresholds : Thresholds 3 2
thresholds = omega arith

counting-IsValid : IsValid 3 2 counting
counting-IsValid = ground arith

opened-IsValid : IsValid 3 2 opened
opened-IsValid = ground arith

feed-IsValid_example : IsValid 3 2 (feed 3 2 bursts counting)
feed-IsValid_example = feed-IsValid thresholds bursts counting counting-IsValid

abbrev unused : StateCounter
unused = record { active = true; consecutive = 0 }

abbrev unmarked : FrameCounter
unmarked = record { active_this_frame = false; frames = 0 }
