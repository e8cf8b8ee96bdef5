-- ===== src/Flashstrike/IdMap/Write.antt =====
-- A write to one place of the table keeps the invariant, and the places of the other keys.
use wirekrak.Common.{
  ℕ, ◌<◌, ◌≡◌, ◌≢◌, refl, sym, ap, ◌∙◌, Bool, true, false, List, ◌==◌, is_some, if◌then◌else◌,
  length, set, get_or-set_self, get_or-set_ne, length-set, arith, inl, inr, Bool-cases, ==_iff,
}
use wirekrak.Flashstrike.IdMap.{Entry, OrderIdMap, blank, empty_key, slot, entry, find}
use wirekrak.Flashstrike.IdMap.Probing.{slot_injective, probed}
use wirekrak.Flashstrike.IdMap.Invariant.{IsId, IsValid, Absent, placed, find-place, find-Absent}

pub entry-set :
    (table : List Entry) (idx i : ℕ) (e : Entry)
    → idx < length table
    → entry (set table idx e) i ≡ (if i == idx then e else entry table i)
unfolding entry
entry-set table idx i e l = elim (Bool-cases (i == idx)) [
  | inl f ↦ rw (f, (==_iff i idx).0 f) (get_or-set_self table idx e blank l)
  | inr f ↦ rw f (get_or-set_ne table e blank (λ g. ground arith))
]

-- A write of an entry to one place.
module _ (m : OrderIdMap) (idx : ℕ) (e : Entry) (used : ℕ) where
  unfoldable pub write : OrderIdMap
  write = record m { table = set m.table idx e; used = used }

  -- What the key of the entry needs, where it is an identifier.
  abbrev pub Fresh : ℕ → Type 0
  Fresh k =
      Absent m k
      × ((i j : ℕ)
          → i < j
          → j < m.capacity
          → slot m.capacity k j ≡ idx
          → probed m.capacity k m.table i ≢ empty_key)

  module _ (v : IsValid m) (l : idx < m.capacity) where
    pub entry-write : (i : ℕ) → entry write.table i ≡ (if i == idx then e else entry m.table i)
    unfolding write
    entry-write i = entry-set m.table idx i e (omega (arith, v.sized))

    pub entry-here : entry write.table idx ≡ e
    entry-here = rw (entry-write idx, (==_iff idx idx).1 refl) refl

    pub entry-elsewhere : (i : ℕ) → (i == idx) ≡ false → entry write.table i ≡ entry m.table i
    entry-elsewhere i s = rw (entry-write i, s) refl

    probed-write :
        (k j : ℕ)
        → probed m.capacity k write.table j
          ≡ (if slot m.capacity k j == idx then e.key else probed m.capacity k m.table j)
    unfolding probed
    probed-write k j =
        ap (λ x. x.key) (entry-write (slot m.capacity k j))
        ∙ either (slot m.capacity k j == idx) e (entry m.table (slot m.capacity k j))
      where
        either : (b : Bool) (x y : Entry) → (if b then x else y).key ≡ (if b then x.key else y.key)
        either true x y = refl
        either false x y = refl

    module _ (full : e.key ≢ empty_key)
        (fresh : IsId e.key → (is_some e.val ≡ true) × Fresh e.key) where
      freshness : (k : ℕ) → IsId k → e.key ≡ k → (is_some e.val ≡ true) × Fresh k
      freshness k id g = rw (← g) (fresh (rw g id))

      reached-write :
          (k i j : ℕ)
          → IsId k
          → i < j
          → j < m.capacity
          → probed m.capacity k write.table i ≡ empty_key
          → probed m.capacity k write.table j ≢ k
      reached-write k i j id p q f g = elim (Bool-cases (slot m.capacity k j == idx)) [
        | inl s ↦
            let (_, (_, before)) = freshness k id (ground (arith, probed-write k j)) in
            before i j p q ((==_iff _ _).0 s) (ground (arith, probed-write k i))
        | inr s ↦
            v.reached k i j id p q (ground (arith, probed-write k i))
              (ground (arith, probed-write k j))
      ]

      unique-write :
          (k i j : ℕ)
          → IsId k
          → i < m.capacity
          → j < m.capacity
          → probed m.capacity k write.table i ≡ k
          → probed m.capacity k write.table j ≡ k
          → i ≡ j
      unique-write k i j id p q f g = elim (Bool-cases (slot m.capacity k i == idx)) [
        | inl s ↦ elim (Bool-cases (slot m.capacity k j == idx)) [
          | inl t ↦ slot_injective m.capacity k i j p q ((==_iff _ _).0 s ∙ sym ((==_iff _ _).0 t))
          | inr t ↦
              let (_, (absent, _)) = freshness k id (ground (arith, probed-write k i)) in
              absurd (absent j q (ground (arith, probed-write k j)))
        ]
        | inr s ↦ elim (Bool-cases (slot m.capacity k j == idx)) [
          | inl t ↦
              let (_, (absent, _)) = freshness k id (ground (arith, probed-write k j)) in
              absurd (absent i p (ground (arith, probed-write k i)))
          | inr t ↦
              v.unique k i j id p q (ground (arith, probed-write k i))
                (ground (arith, probed-write k j))
        ]
      ]

      filled-write :
          (k j : ℕ)
          → IsId k
          → j < m.capacity
          → probed m.capacity k write.table j ≡ k
          → is_some (entry write.table (slot m.capacity k j)).val ≡ true
      filled-write k j id l f = elim (Bool-cases (slot m.capacity k j == idx)) [
        | inl s ↦
            let (some_val, _) = freshness k id (ground (arith, probed-write k j)) in
            rw (entry-write (slot m.capacity k j), s) some_val
        | inr s ↦
            rw (entry-write (slot m.capacity k j), s)
              (v.filled k j id l (ground (arith, probed-write k j)))
      ]

      pub write-IsValid : IsValid write
      unfolding write
      write-IsValid = record {
        sized = length-set m.table idx e ∙ v.sized;
        positive = v.positive;
        reached = reached-write;
        unique = unique-write;
        filled = filled-write;
      }

      key_at :
          (k j : ℕ)
          → probed m.capacity k m.table j ≡ k
          → slot m.capacity k j ≡ idx
          → (entry m.table idx).key ≡ k
      unfolding probed
      key_at k j f s = rw (← s) f

      -- A key that stands at the place neither before nor after the write is found as before.
      pub find-write :
          (k : ℕ) → IsId k → (entry m.table idx).key ≢ k → e.key ≢ k → find k write ≡ find k m
      unfolding write
      find-write k id before after = elim (placed m k) [
        | inl (j, p, f) ↦ elim (Bool-cases (slot m.capacity k j == idx)) [
          | inl s ↦ absurd (before (key_at k j f ((==_iff _ _).0 s)))
          | inr s ↦
              find-place write k j write-IsValid id p (ground (arith, probed-write k j))
              ∙ ap (λ (x : Entry). x.val) (entry-elsewhere (slot m.capacity k j) s)
              ∙ sym (find-place m k j v id p f)
        ]
        | inr a ↦
            find-Absent write k (λ j p f. elim (Bool-cases (slot m.capacity k j == idx)) [
              | inl s ↦ after (ground (arith, probed-write k j))
              | inr s ↦ a j p (ground (arith, probed-write k j))
            ])
            ∙ sym (find-Absent m k a)
      ]
