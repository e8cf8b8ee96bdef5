-- ===== src/Control/Hysteresis/Runs.antt =====
-- What `BinaryHysteresis` does over a sequence of signals.
use wirekrak.Common.{
  ℕ, zero, suc, ◌+◌, ◌<◌, ◌≤◌, ◌≡◌, refl, ◌⊎◌, inr, Bool, true, false, List, [], ◌∷◌, ◌++◌, arith,
  bit, replicate,
}
use wirekrak.Control.Hysteresis.{
  inactive, active, Transition, unchanged, activated, deactivated, Hysteresis, is_active,
  on_active_signal, on_inactive_signal, signal, feed, emitted,
}
use wirekrak.Control.Hysteresis.Laws.{IsValid, Thresholds, signal-IsValid, feed-IsValid}

pub activations : List Transition → ℕ
activations [] = 0
activations (activated ∷ ts) = suc (activations ts)
activations (unchanged ∷ ts) = activations ts
activations (deactivated ∷ ts) = activations ts

pub deactivations : List Transition → ℕ
deactivations [] = 0
deactivations (deactivated ∷ ts) = suc (deactivations ts)
deactivations (unchanged ∷ ts) = deactivations ts
deactivations (activated ∷ ts) = deactivations ts

-- Every run of `b` in the signals is shorter than `n`, where `k` signals `b` went before.
abbrev pub RunsBelow : Bool → ℕ → ℕ → List Bool → Type 0
RunsBelow b n k [] = Unit
RunsBelow true n k (true ∷ bs) = (suc k < n) × RunsBelow true n (suc k) bs
RunsBelow true n k (false ∷ bs) = RunsBelow true n 0 bs
RunsBelow false n k (false ∷ bs) = (suc k < n) × RunsBelow false n (suc k) bs
RunsBelow false n k (true ∷ bs) = RunsBelow false n 0 bs

module _ (activate deactivate : ℕ) where
  signal_balance :
      (b : Bool) (h : Hysteresis) (ts : List Transition)
      → let (h', t) = signal activate deactivate b h in
        (activations (t ∷ ts) + deactivations ts + bit (is_active h)
          ≡ deactivations (t ∷ ts) + activations ts + bit (is_active h'))
  unfolding signal on_active_signal on_inactive_signal is_active activations deactivations
  signal_balance true h ts = ground arith
  signal_balance false h ts = ground arith

  -- Activations and deactivations alternate: their numbers over any sequence of signals differ by
  -- the change of the state.
  pub activations-deactivations :
      (bs : List Bool) (h : Hysteresis)
      → activations (emitted activate deactivate bs h) + bit (is_active h)
        ≡ deactivations (emitted activate deactivate bs h)
          + bit (is_active (feed activate deactivate bs h))
  unfolding feed emitted
  activations-deactivations [] h = unfold activations deactivations in refl
  activations-deactivations (b ∷ bs) h =
      let s = signal activate deactivate b h in
      omega (
        arith,
        signal_balance b h (emitted activate deactivate bs s.0),
        activations-deactivations bs s.0,
      )

module _ {activate deactivate : ℕ} (t : Thresholds activate deactivate) where
  active_run :
      (n : ℕ) (h : Hysteresis)
      → IsValid activate deactivate h
      → (h.state ≡ active) ⊎ (activate ≤ n + h.activate_streak)
      → is_active (feed activate deactivate (replicate n true) h) ≡ true
  unfolding feed
  active_run zero h v e = unfold is_active in ground arith
  active_run (suc n) h v e =
      active_run n (signal activate deactivate true h).0 (signal-IsValid t true h v)
        (unfold signal on_active_signal in ground arith)

  inactive_run :
      (n : ℕ) (h : Hysteresis)
      → IsValid activate deactivate h
      → (h.state ≡ inactive) ⊎ (deactivate ≤ n + h.deactivate_streak)
      → is_active (feed activate deactivate (replicate n false) h) ≡ false
  unfolding feed
  inactive_run zero h v e = unfold is_active in ground arith
  inactive_run (suc n) h v e =
      inactive_run n (signal activate deactivate false h).0 (signal-IsValid t false h v)
        (unfold signal on_inactive_signal in ground arith)

feed-append :
    (a d : ℕ) (bs cs : List Bool) (h : Hysteresis)
    → feed a d (bs ++ cs) h ≡ feed a d cs (feed a d bs h)
unfolding feed
feed-append a d [] cs h = refl
feed-append a d (b ∷ bs) cs h = feed-append a d bs cs (signal a d b h).0

module _ {activate deactivate : ℕ} (t : Thresholds activate deactivate) where
  -- Whatever signals a valid machine has seen, a full run of active signals leaves it active, and
  -- a full run of inactive signals leaves it inactive.
  pub feed-settles :
      (bs : List Bool) (h : Hysteresis)
      → IsValid activate deactivate h
      → (is_active (feed activate deactivate (bs ++ replicate activate true) h) ≡ true)
        × (is_active (feed activate deactivate (bs ++ replicate deactivate false) h) ≡ false)
  feed-settles bs h v =
      let w = feed-IsValid t bs h v in
      (
        rw feed-append
            (active_run t activate (feed activate deactivate bs h) w (inr (omega arith))),
        rw feed-append
            (inactive_run t deactivate (feed activate deactivate bs h) w (inr (omega arith))),
      )

  -- Oscillations are collapsed: while every run of active signals, counted on from the machine's
  -- streak, is below the activation threshold, a valid inactive machine stays inactive and reports
  -- no activation.
  pub feed-inactive :
      (bs : List Bool) (h : Hysteresis)
      → IsValid activate deactivate h
      → h.state ≡ inactive
      → RunsBelow true activate h.activate_streak bs
      → (is_active (feed activate deactivate bs h) ≡ false)
        × (activations (emitted activate deactivate bs h) ≡ 0)
  unfolding feed emitted signal on_active_signal on_inactive_signal is_active activations
  feed-inactive [] h v e r = ground arith
  feed-inactive (true ∷ bs) h v e r =
      let s = on_active_signal activate deactivate h in
      ground (arith, signal-IsValid t true h v, feed-inactive bs s.0)
  feed-inactive (false ∷ bs) h v e r =
      let s = on_inactive_signal activate deactivate h in
      ground (arith, signal-IsValid t false h v, feed-inactive bs s.0)

  -- While every run of inactive signals, counted on from the machine's streak, is below the
  -- deactivation threshold, a valid active machine stays active and reports no deactivation.
  pub feed-active :
      (bs : List Bool) (h : Hysteresis)
      → IsValid activate deactivate h
      → h.state ≡ active
      → RunsBelow false deactivate h.deactivate_streak bs
      → (is_active (feed activate deactivate bs h) ≡ true)
        × (deactivations (emitted activate deactivate bs h) ≡ 0)
  unfolding feed emitted signal on_active_signal on_inactive_signal is_active deactivations
  feed-active [] h v e r = ground arith
  feed-active (true ∷ bs) h v e r =
      let s = on_active_signal activate deactivate h in
      ground (arith, signal-IsValid t true h v, feed-active bs s.0)
  feed-active (false ∷ bs) h v e r =
      let s = on_inactive_signal activate deactivate h in
      ground (arith, signal-IsValid t false h v, feed-active bs s.0)
