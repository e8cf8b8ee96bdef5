-- ===== src/Control/Hysteresis/Laws.antt =====
-- The invariant of `BinaryHysteresis`, and that each signal keeps it.
use wirekrak.Common.{ℕ, ◌^◌, ◌<◌, ◌≡◌, Bool, true, false, List, [], ◌∷◌, arith}
use wirekrak.Control.Hysteresis.{
  inactive, active, Hysteresis, initial, on_active_signal, on_inactive_signal, signal, feed,
}

-- The streak that the state does not count is zero, and the other is below its threshold.
pub record IsValid (activate deactivate : ℕ) (h : Hysteresis) : Type 0 where
  pub activate_below : h.activate_streak < activate
  pub deactivate_below : h.deactivate_streak < deactivate
  pub idle_inactive : h.state ≡ inactive → h.deactivate_streak ≡ 0
  pub idle_active : h.state ≡ active → h.activate_streak ≡ 0

-- The class asserts both bounds of both thresholds (`UINT32_MAX` is `2 ^ 32 - 1`).
pub record Thresholds (activate deactivate : ℕ) : Type 0 where
  pub activate_positive : 0 < activate
  pub activate_small : activate < 2 ^ 32
  pub deactivate_positive : 0 < deactivate
  pub deactivate_small : deactivate < 2 ^ 32

module _ {activate deactivate : ℕ} (t : Thresholds activate deactivate) where
  pub initial-IsValid : IsValid activate deactivate initial
  unfolding initial
  initial-IsValid = ground arith

  pub signal-IsValid :
      (b : Bool) (h : Hysteresis)
      → IsValid activate deactivate h
      → IsValid activate deactivate (signal activate deactivate b h).0
  unfolding signal on_active_signal on_inactive_signal
  signal-IsValid true h v = ground arith
  signal-IsValid false h v = ground arith

  pub feed-IsValid :
      (bs : List Bool) (h : Hysteresis)
      → IsValid activate deactivate h
      → IsValid activate deactivate (feed activate deactivate bs h)
  unfolding feed
  feed-IsValid [] h v = v
  feed-IsValid (b ∷ bs) h v =
      feed-IsValid bs (signal activate deactivate b h).0 (signal-IsValid b h v)
