-- ===== src/Flashstrike/IdMap/Invariant.antt =====
-- The invariant of an order map, and where a key stands in it.
use wirekrak.Common.{
  ℕ, zero, suc, ◌<◌, ◌≡◌, ◌≢◌, refl, sym, ap, ◌∙◌, true, none, some, ◌==◌, is_some, length, arith,
  ◌⊎◌, inl, inr, Bool-cases, ==_iff,
}
use wirekrak.Flashstrike.IdMap.{OrderIdMap, empty_key, tombstone_key, slot, entry, locate, find}
use wirekrak.Flashstrike.IdMap.Probing.{probed, locate-some, locate-none}

-- What an identifier may be: neither of the two reserved keys.
abbrev pub IsId : ℕ → Type 0
IsId k = (0 < k) × (k < tombstone_key)

-- No key stands behind an empty place that it probes first, or at two places, or without an index.
pub record IsValid (m : OrderIdMap) : Type 0 where
  pub sized : length m.table ≡ m.capacity
  pub positive : 0 < m.capacity
  pub reached :
      (k i j : ℕ)
      → IsId k
      → i < j
      → j < m.capacity
      → probed m.capacity k m.table i ≡ empty_key
      → probed m.capacity k m.table j ≢ k
  pub unique :
      (k i j : ℕ)
      → IsId k
      → i < m.capacity
      → j < m.capacity
      → probed m.capacity k m.table i ≡ k
      → probed m.capacity k m.table j ≡ k
      → i ≡ j
  pub filled :
      (k j : ℕ)
      → IsId k
      → j < m.capacity
      → probed m.capacity k m.table j ≡ k
      → is_some (entry m.table (slot m.capacity k j)).val ≡ true

module _ (m : OrderIdMap) (k : ℕ) where
  -- The key stands at no place that it probes.
  abbrev pub Absent : Type 0
  Absent = (j : ℕ) → j < m.capacity → probed m.capacity k m.table j ≢ k

  search :
      (n : ℕ)
      → ((j : ℕ) × (j < n) × (probed m.capacity k m.table j ≡ k))
        ⊎ ((j : ℕ) → j < n → probed m.capacity k m.table j ≢ k)
  search zero = inr (λ j l. absurd (omega arith))
  search (suc n) = elim (search n) [
    | inl (j, l, e) ↦ inl (j, omega arith, e)
    | inr h ↦ elim (Bool-cases (probed m.capacity k m.table n == k)) [
      | inl e ↦ inl (n, omega arith, (==_iff _ _).0 e)
      | inr e ↦ inr (λ j l. elim (Bool-cases (j == n)) [
        | inl f ↦ λ g. ground (arith, e, g, ap (probed m.capacity k m.table) ((==_iff j n).0 f))
        | inr f ↦ h j (ground arith)
      ])
    ]
  ]

  -- The key stands at a place that it probes, or at none.
  pub placed : ((j : ℕ) × (j < m.capacity) × (probed m.capacity k m.table j ≡ k)) ⊎ Absent
  placed = search m.capacity

  pub locate-place :
      (j : ℕ)
      → IsValid m
      → IsId k
      → j < m.capacity
      → probed m.capacity k m.table j ≡ k
      → locate m.capacity k m.capacity 0 m.table ≡ some (slot m.capacity k j)
  locate-place j v id l e =
      locate-some m.capacity k m.table m.capacity 0 j (omega arith) (omega arith)
        (omega (arith, id))
        (λ i p. (
          λ f. v.reached k i j id p l f e,
          λ f. ground (arith, v.unique k i j id (omega arith) l f e),
        ))
        e

  pub find-place :
      (j : ℕ)
      → IsValid m
      → IsId k
      → j < m.capacity
      → probed m.capacity k m.table j ≡ k
      → find k m ≡ (entry m.table (slot m.capacity k j)).val
  unfolding find
  find-place j v id l e = rw (find, locate-place j v id l e) refl

  pub locate-Absent : Absent → locate m.capacity k m.capacity 0 m.table ≡ none
  locate-Absent a = locate-none m.capacity k m.table m.capacity 0 (λ j p q. a j (omega arith))

  pub find-Absent : Absent → find k m ≡ none
  unfolding find
  find-Absent a = rw (find, locate-Absent a) refl

  -- A key that is not found stands nowhere.
  pub find-none : IsValid m → IsId k → find k m ≡ none → Absent
  find-none v id e = elim placed [
    | inl (j, l, f) ↦
        absurd (ground (arith, ap is_some (sym (find-place j v id l f) ∙ e), v.filled k j id l f))
    | inr a ↦ a
  ]
