-- ===== src/Flashstrike/IdMap/Probing.antt =====
-- The places that a key probes, and the loops over them.
use wirekrak.Common.{
  ℕ, zero, suc, ◌+◌, ◌-◌, ◌%◌, ◌≤◌, ◌<◌, ◌≡◌, ◌≢◌, refl, ap, true, ◌||◌, List, none, some, ◌==◌,
  ltb, if◌then◌else◌, arith, ◌⊎◌, inl, inr, Bool-cases, ==_iff,
}
use native.Mathlib.Nat.{mod-eq_of_lt, mod-lt, add-mod_right}
use wirekrak.Flashstrike.IdMap.{
  Entry, empty_key, tombstone_key, slot, entry, locate, find_free, hash_order_id,
}

pub slot-lt : (capacity ordid i : ℕ) → 0 < capacity → slot capacity ordid i < capacity
unfolding slot
slot-lt capacity ordid i p = mod-lt _ p

-- A remainder below twice the divisor.
pub wrap : (n c : ℕ) → n < c + c → n % c ≡ (if ltb n c then n else n - c)
wrap n c l =
    ground (
      arith,
      mod-eq_of_lt {n = n} {m = c},
      mod-eq_of_lt {n = n - c} {m = c},
      add-mod_right (n - c) c,
    )

wrap_injective : (h c i j : ℕ) → h < c → i < c → j < c → (h + i) % c ≡ (h + j) % c → i ≡ j
wrap_injective h c i j p q r e =
    ground (arith, e, wrap (h + i) c (omega arith), wrap (h + j) c (omega arith))

-- A key probes each place once.
pub slot_injective :
    (capacity ordid i j : ℕ)
    → i < capacity
    → j < capacity
    → slot capacity ordid i ≡ slot capacity ordid j
    → i ≡ j
unfolding slot
slot_injective capacity ordid i j p q e =
    wrap_injective _ capacity i j (mod-lt (hash_order_id ordid) (omega arith)) p q e

module _ (capacity ordid : ℕ) (table : List Entry) where
  -- The key at the `i`-th place that `ordid` probes.
  unfoldable pub probed : ℕ → ℕ
  probed i = (entry table (slot capacity ordid i)).key

  -- The loop stops at the first place with the key, where it passes no empty one before.
  pub locate-some :
      (fuel i j : ℕ)
      → i ≤ j
      → j < i + fuel
      → 0 < ordid
      → ((k : ℕ) → k < j → (probed k ≢ empty_key) × (probed k ≢ ordid))
      → probed j ≡ ordid
      → locate capacity ordid fuel i table ≡ some (slot capacity ordid j)
  unfolding locate probed
  locate-some zero i j p q z h e = absurd (omega arith)
  locate-some (suc fuel) i j p q z h e = elim (Bool-cases (i == j)) [
    | inl f ↦
        let same = (==_iff i j).0 f in
        ground (arith, e, ap (probed) same, ap (slot capacity ordid) same)
    | inr f ↦
        let (full, other) = h i (ground arith) in
        let rest = locate-some fuel (suc i) j (ground arith) (omega arith) z h e in
        ground (arith, full, other, rest)
  ]

  pub locate-none :
      (fuel i : ℕ)
      → ((j : ℕ) → i ≤ j → j < i + fuel → probed j ≢ ordid)
      → locate capacity ordid fuel i table ≡ none
  unfolding locate probed
  locate-none zero i h = refl
  locate-none (suc fuel) i h =
      let other = h i (omega arith) (omega arith) in
      let rest = locate-none fuel (suc i) (λ j p q. h j (omega arith) (omega arith)) in
      ground (arith, other, rest)

  -- The place that `insert` takes: empty or removed, and no place before it is empty.
  pub find_free-some :
      (fuel i idx : ℕ)
      → find_free capacity ordid fuel i table ≡ some idx
      → (j : ℕ) × (i ≤ j)
        × (j < i + fuel)
        × (idx ≡ slot capacity ordid j)
        × ((probed j ≡ empty_key) ⊎ (probed j ≡ tombstone_key))
        × ((k : ℕ) → i ≤ k → k < j → probed k ≢ empty_key)
  unfolding find_free probed
  find_free-some zero i idx e = absurd (ground arith)
  find_free-some (suc fuel) i idx e =
      elim (Bool-cases (probed i == empty_key || probed i == tombstone_key)) [
        | inl f ↦ (
          i,
          omega arith,
          omega arith,
          ground (arith, e),
          either f,
          λ k p q. absurd (omega arith),
        )
        | inr f ↦
            let (j, p, q, same, free, full) = find_free-some fuel (suc i) idx (ground (arith, e)) in
            (
              j,
              omega arith,
              omega arith,
              same,
              free,
              λ k r l. elim (Bool-cases (i == k)) [
                | inl g ↦ λ z. ground (arith, f, z, ap probed ((==_iff i k).0 g))
                | inr g ↦ full k (ground arith) l
              ],
            )
      ]
    where
      either :
          (probed i == empty_key || probed i == tombstone_key) ≡ true
          → (probed i ≡ empty_key) ⊎ (probed i ≡ tombstone_key)
      either f = elim (Bool-cases (probed i == empty_key)) [
        | inl g ↦ inl (ground (arith, g))
        | inr g ↦ inr (ground (arith, f, g))
      ]
