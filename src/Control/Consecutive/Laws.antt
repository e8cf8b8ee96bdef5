-- ===== src/Control/Consecutive/Laws.antt =====
-- What the counters of consecutive_state.hpp count.
use wirekrak.Common.{
  ℕ, zero, suc, ◌^◌, ◌<◌, ◌≡◌, refl, ap, Bool, true, false, List, [], ◌∷◌, ◌++◌, map, length,
  replicate, arith, ltb,
}
use wirekrak.Control.Consecutive.{
  StateCounter, set_active, next_frame, FrameCounter, mark, frame, step, run, mark_active,
  end_frame,
}

-- The length of the run of active frames at the head of a history, newest first.
abbrev pub trailing : List Bool → ℕ
trailing [] = 0
trailing (true ∷ bs) = suc (trailing bs)
trailing (false ∷ bs) = 0

-- One frame for each observation, newest first.
pub observe : List Bool → StateCounter → StateCounter
observe [] c = c
observe (b ∷ bs) c = next_frame (set_active b (observe bs c))

-- One frame for each number, newest first, in which that many activities are marked.
pub play : List ℕ → FrameCounter → FrameCounter
play [] c = c
play (n ∷ ns) c = run (replicate n mark ++ frame ∷ []) (play ns c)

trailing-le-length : (bs : List Bool) → trailing bs < suc (length bs)
trailing-le-length [] = omega arith
trailing-le-length (true ∷ bs) = omega (arith, trailing-le-length bs)
trailing-le-length (false ∷ bs) = omega arith

length-map : (ns : List ℕ) → length (map (ltb 0) ns) ≡ length ns
length-map [] = refl
length-map (n ∷ ns) = ap suc (length-map ns)

module _ (c : StateCounter) (zeroed : c.consecutive ≡ 0) where
  -- From a zero count, after fewer than `2 ^ 32` frames, the counter holds the number of frames
  -- since the last one in which the state was inactive.
  pub observe-trailing :
      (bs : List Bool) → length bs < 2 ^ 32 → (observe bs c).consecutive ≡ trailing bs
  unfolding observe next_frame set_active
  observe-trailing [] h = zeroed
  observe-trailing (true ∷ bs) h =
      omega (arith, observe-trailing bs (omega arith), trailing-le-length bs)
  observe-trailing (false ∷ bs) h = refl

run-marks :
    (n : ℕ) (c : FrameCounter)
    → run (replicate n mark ++ frame ∷ []) c
      ≡ end_frame
          (record c { active_this_frame = elim n [ zero ↦ c.active_this_frame | suc k ↦ true ] })
unfolding run step mark_active
run-marks zero c = refl
run-marks (suc zero) c = refl
run-marks (suc (suc n)) c = run-marks (suc n) (mark_active c)

module _ (c : FrameCounter) (zeroed : c.frames ≡ 0) (unmarked : c.active_this_frame ≡ false) where
  -- From a fresh counter, after fewer than `2 ^ 32` frames with any number of marks in each, no
  -- mark is left over, and the counter holds the number of frames since the last one without a
  -- mark: several marks in a frame count as one.
  pub play-trailing :
      (ns : List ℕ)
      → length ns < 2 ^ 32
      → ((play ns c).frames ≡ trailing (map (ltb 0) ns)) × ((play ns c).active_this_frame ≡ false)
  unfolding play end_frame
  play-trailing [] h = (zeroed, unmarked)
  play-trailing (zero ∷ ns) h =
      rw (run-marks zero (play ns c)) (ground (arith, play-trailing ns (omega arith)))
  play-trailing (suc n ∷ ns) h = rw (run-marks (suc n) (play ns c)) (
      ground
        (arith, play-trailing ns (omega arith), trailing-le-length (map (ltb 0) ns), length-map ns))
