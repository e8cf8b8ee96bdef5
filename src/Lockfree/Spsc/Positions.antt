-- ===== src/Lockfree/Spsc/Positions.antt =====
-- Positions round a ring while its ends move.
use wirekrak.Common.{
  ℕ, zero, suc, ◌<◌, ◌≤◌, ◌≡◌, ◌≢◌, refl, ap, true, false, List, [], ◌∷◌, ◌++◌, ◌==◌, get_or, set,
  get_or-set_ne, arith,
}
use mathlib.Core.Path.{ap₂}
use wirekrak.Local.Ring.Positions.{step, step_lem, distance, window}
use wirekrak.Lockfree.Spsc.{next_slot}

module _ (capacity i j : ℕ) (p : i < capacity) (q : j < capacity) where
  pub next_slot-lt : next_slot capacity i < capacity
  next_slot-lt = omega (arith, p)

  -- The place after `j` is not `i`: there is room for one more between them.
  pub room : (next_slot capacity j == i) ≡ false → suc (distance capacity i j) < capacity
  room e = ground (arith, e, p, q, step_lem capacity j q)

  pub no_room : (next_slot capacity j == i) ≡ true → suc (distance capacity i j) ≡ capacity
  no_room e = ground (arith, e, p, q, step_lem capacity j q)

  pub distance-next :
      suc (distance capacity i j) < capacity
      → distance capacity i (next_slot capacity j) ≡ suc (distance capacity i j)
  distance-next l = ground (arith, l, p, q, step_lem capacity j q)

  pub distance-after :
      0 < distance capacity i j
      → suc (distance capacity (next_slot capacity i) j) ≡ distance capacity i j
  distance-after l = ground (arith, l, p, q, step_lem capacity i p)

module _ {ℓ} {T : Type ℓ} (blank : T) (capacity : ℕ) where
  -- A write at the place that follows a window does not change it.
  pub window-set_outside :
      (x : T) (buffer : List T) (i j n : ℕ)
      → i < capacity
      → j < capacity
      → n ≤ distance capacity i j
      → window blank capacity (set buffer j x) i n ≡ window blank capacity buffer i n
  unfolding window
  window-set_outside x buffer i j zero p q d = refl
  window-set_outside x buffer i j (suc n) p q d =
      ap₂ ◌∷◌ (get_or-set_ne buffer x blank (different p q d)) (
        window-set_outside x buffer (step capacity i) j n (ground (arith, p)) q
          (ground (arith, p, q, d)))
    where
      different : i < capacity → j < capacity → suc n ≤ distance capacity i j → j ≢ i
      different p q d = ground (arith, p, q, d)

  -- A window that is longer by one ends with the element after it.
  pub window-suc :
      (buffer : List T) (i j n : ℕ)
      → i < capacity
      → j < capacity
      → distance capacity i j ≡ n
      → window blank capacity buffer i (suc n)
        ≡ window blank capacity buffer i n ++ get_or buffer j blank ∷ []
  unfolding window
  window-suc buffer i j zero p q d = ap (λ k. get_or buffer k blank ∷ []) (same p q d)
    where
      same : i < capacity → j < capacity → distance capacity i j ≡ 0 → i ≡ j
      same p q d = ground (arith, p, q, d)
  window-suc buffer i j (suc n) p q d =
      ap (λ xs. get_or buffer i blank ∷ xs)
        (window-suc buffer (step capacity i) j n (ground (arith, p)) q (ground (arith, p, q, d)))
