-- ===== src/Local/Ring/Positions.antt =====
-- Positions round a ring: stepping from the tail, and how many steps lead to the head.
use wirekrak.Common.{
  ℕ, zero, suc, ◌+◌, ◌-◌, ◌%◌, ◌<◌, ◌≡◌, ◌≢◌, refl, ap, List, [], ◌∷◌, ◌++◌, ◌==◌, leb,
  if◌then◌else◌, length, get_or, set, get_or-set_self, get_or-set_ne, arith,
}
use mathlib.Core.Path.{ap₂}
use native.Mathlib.Nat.{mod-eq_of_lt, mod_self}

-- A step by comparison in place of the remainder.
abbrev pub step : ℕ → ℕ → ℕ
step capacity i = if suc i == capacity then 0 else suc i

pub step_lem : (capacity i : ℕ) → i < capacity → (i + 1) % capacity ≡ step capacity i
step_lem capacity i l = ground (arith, mod-eq_of_lt {n = i + 1} {m = capacity}, mod_self capacity)

-- The number of elements between the tail and the head.
abbrev pub distance : ℕ → ℕ → ℕ → ℕ
distance capacity tail head = if leb tail head then head - tail else head + capacity - tail

module _ {ℓ} {T : Type ℓ} (blank : T) (capacity : ℕ) where
  -- The `n` elements from index `i` on.
  unfoldable pub window : List T → ℕ → ℕ → List T
  window buffer i zero = []
  window buffer i (suc n) = get_or buffer i blank ∷ window buffer (step capacity i) n

  pub length-window : (buffer : List T) (i n : ℕ) → length (window buffer i n) ≡ n
  unfolding window
  length-window buffer i zero = refl
  length-window buffer i (suc n) = ap suc (length-window buffer (step capacity i) n)

  -- Writing at the position past a window that does not fill the ring extends it.
  pub window-set :
      (x : T) (buffer : List T) (i j n : ℕ)
      → length buffer ≡ capacity
      → i < capacity
      → j < capacity
      → distance capacity i j ≡ n
      → window (set buffer j x) i (suc n) ≡ window buffer i n ++ x ∷ []
  unfolding window
  window-set x buffer i j zero l p q d = ground (
    arith,
    get_or-set_self buffer j x blank,
    ap (λ k. get_or (set buffer j x) k blank) (same p q d),
  )
    where
      same : i < capacity → j < capacity → distance capacity i j ≡ 0 → i ≡ j
      same p q d = ground arith
  window-set x buffer i j (suc n) l p q d =
      ap₂ ◌∷◌ (get_or-set_ne buffer x blank (apart d))
        (window-set x buffer (step capacity i) j n l (ground arith) q (ground arith))
    where
      apart : distance capacity i j ≡ suc n → j ≢ i
      apart d = ground arith
