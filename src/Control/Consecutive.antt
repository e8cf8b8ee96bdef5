-- ===== src/Control/Consecutive.antt =====
-- include/lcr/control/consecutive_state.hpp: `ConsecutiveStateCounter` and
-- `FrameConsecutiveStateCounter`. Counts are `uint32_t` and wrap.
pub mod Laws
use wirekrak.Common.{ℕ, ◌+◌, ◌%◌, ◌^◌, Bool, true, false, List, [], ◌∷◌, ltb, if◌then◌else◌}

-- `++` on a `uint32_t`.
abbrev increment : ℕ → ℕ
increment n = (n + 1) % 2 ^ 32

pub record StateCounter : Type 0 where
  pub active : Bool
  pub consecutive : ℕ

unfoldable pub set_active : Bool → StateCounter → StateCounter
set_active value c = record c { active = value }

unfoldable pub next_frame : StateCounter → StateCounter
next_frame c =
    if c.active
    then record c { consecutive = increment c.consecutive }
    else record c { consecutive = 0 }

unfoldable pub reset : StateCounter → StateCounter
reset c = record { active = false; consecutive = 0 }

pub record FrameCounter : Type 0 where
  pub active_this_frame : Bool
  pub frames : ℕ

unfoldable pub mark_active : FrameCounter → FrameCounter
mark_active c = record c { active_this_frame = true }

unfoldable pub end_frame : FrameCounter → FrameCounter
end_frame c = record {
  active_this_frame = false;
  frames = if c.active_this_frame then increment c.frames else 0;
}

unfoldable pub is_active : FrameCounter → Bool
is_active c = ltb 0 c.frames

unfoldable pub reset_frames : FrameCounter → FrameCounter
reset_frames c = record { active_this_frame = false; frames = 0 }

-- A client's call in a frame.
pub data Op : Type 0 where
  mark frame : Op

unfoldable pub step : Op → FrameCounter → FrameCounter
unfolding mark_active end_frame
step mark c = mark_active c
step frame c = end_frame c

unfoldable pub run : List Op → FrameCounter → FrameCounter
unfolding step
run [] c = c
run (op ∷ ops) c = run ops (step op c)
