-- ===== src/Flashstrike/IdMap/Laws.antt =====
-- What inserting and removing an identifier do to the lookup of each identifier.
use wirekrak.Common.{
  if◌then◌else◌, ℕ, ◌+◌, ◌-◌, ◌%◌, ◌<◌, ◌^◌, ◌≡◌, ◌≢◌, refl, sym, ap, ◌∙◌, true, none, some, ◌==◌,
  is_some, arith, ◌⊎◌, inl, inr, Bool-cases, Option-cases, ==_iff,
}
use wirekrak.Flashstrike.IdMap.{
  Entry, OrderIdMap, empty_key, tombstone_key, slot, entry, find_free, find, insert_id, remove_id,
}
use wirekrak.Flashstrike.IdMap.Probing.{slot-lt, slot_injective, probed, find_free-some}
use wirekrak.Flashstrike.IdMap.Invariant.{
  IsId, IsValid, Absent, placed, find-place, find-Absent, find-none, locate-place, locate-Absent,
}
use wirekrak.Flashstrike.IdMap.Write.{
  Fresh, write, write-IsValid, find-write, entry-here, entry-elsewhere,
}

-- The entries that the operations write.
abbrev stored : ℕ → ℕ → Entry
stored k v = record { key = k; val = some v }

abbrev removed_entry : Entry
removed_entry = record { key = tombstone_key; val = none }

abbrev one_more : OrderIdMap → ℕ
one_more m = (m.used + 1) % 2 ^ 64

abbrev one_less : OrderIdMap → ℕ
one_less m = (m.used + 2 ^ 64 - 1) % 2 ^ 64

-- What becomes of the lookups where `k` is written, and where it is removed.
Inserted : ℕ → ℕ → OrderIdMap → OrderIdMap → Type 0
Inserted k v m m' =
    IsValid m' × (find k m' ≡ some v) × ((k' : ℕ) → IsId k' → k' ≢ k → find k' m' ≡ find k' m)

Removed : ℕ → OrderIdMap → OrderIdMap → Type 0
Removed k m m' =
    IsValid m' × (find k m' ≡ none) × ((k' : ℕ) → IsId k' → k' ≢ k → find k' m' ≡ find k' m)

-- A write of the entry at a place that the key probes.
module _ (k v idx : ℕ) (m : OrderIdMap) (id : IsId k) (valid : IsValid m) where
  inserted :
      (j : ℕ)
      → find k m ≡ none
      → j < m.capacity
      → idx ≡ slot m.capacity k j
      → (probed m.capacity k m.table j ≡ empty_key)
        ⊎ (probed m.capacity k m.table j ≡ tombstone_key)
      → ((i : ℕ) → i < j → probed m.capacity k m.table i ≢ empty_key)
      → Inserted k v m (write m idx (stored k v) (one_more m))
  unfolding Inserted write probed
  inserted j absent p same free before =
      let e = stored k v in
      let l : idx < m.capacity = rw same (slot-lt m.capacity k j valid.positive) in
      let full : k ≢ empty_key = λ f. omega (arith, f, id) in
      let at_idx = ap (λ i. (entry m.table i).key) same in
      let fresh : IsId k → (is_some e.val ≡ true) × Fresh m idx e (one_more m) k = λ _. (
        refl,
        (
          find-none m k valid id absent,
          λ i i' q r s. before i (omega (arith, slot_injective m.capacity k i' j r p (s ∙ same))),
        ),
      ) in
      let m' = write m idx e (one_more m) in
      let valid' = write-IsValid m idx e (one_more m) valid l full fresh in
      let there : entry m'.table (slot m.capacity k j) ≡ e =
        ap (entry m'.table) (sym same) ∙ entry-here m idx e (one_more m) valid l in
      (
        valid',
        find-place m' k j valid' id p (ap (λ (x : Entry). x.key) there)
            ∙ ap (λ (x : Entry). x.val) there,
        λ k' id' other.
            find-write m idx e (one_more m) valid l full fresh k' id'
              (λ f. elim free [
                | inl g ↦ omega (arith, at_idx, f, g, id')
                | inr g ↦ omega (arith, at_idx, f, g, id')
              ])
              (λ f. other (sym f)),
      )

insert_id-Inserted :
    (k v : ℕ) (m : OrderIdMap)
    → IsId k
    → IsValid m
    → find k m ≡ none
    → (insert_id k (some v) m).1 ≡ true
    → Inserted k v m (insert_id k (some v) m).0
unfolding insert_id write Inserted
insert_id-Inserted k v m id valid absent ok =
    elim (Option-cases (find_free m.capacity k m.capacity 0 m.table)) [
      | inl e ↦ absurd (ground (arith, ok, e))
      | inr (idx, e) ↦
          let (j, _, p, same, free, before) =
            find_free-some m.capacity k m.table m.capacity 0 idx e in
          rw (insert_id, e)
            (inserted k v idx m id valid j absent (omega (arith, p)) same free
              (λ i q. before i (omega arith) q))
    ]

-- An insertion of an identifier that is not in the map, where it succeeds, keeps the invariant; the
-- identifier is then found with its index, and every other one as before.
pub insert_id-find :
    (k v j : ℕ) (m : OrderIdMap)
    → IsId k
    → IsId j
    → IsValid m
    → find k m ≡ none
    → (insert_id k (some v) m).1 ≡ true
    → let m' = (insert_id k (some v) m).0 in
      IsValid m' × (find j m' ≡ (if j == k then some v else find j m))
unfolding Inserted
insert_id-find k v j m id id' valid absent ok =
    let (kept, found, others) = insert_id-Inserted k v m id valid absent ok in
    (
      kept,
      elim (Bool-cases (j == k)) [
        | inl e ↦ rw (e, (==_iff j k).0 e) found
        | inr e ↦ rw e (others j id' (λ f. ground (arith, e, f)))
      ],
    )

module _ (k idx : ℕ) (m : OrderIdMap) (id : IsId k) (valid : IsValid m) where
  erased :
      (j : ℕ)
      → j < m.capacity
      → probed m.capacity k m.table j ≡ k
      → idx ≡ slot m.capacity k j
      → Removed k m (write m idx removed_entry (one_less m))
  unfolding Removed write probed
  erased j p at same =
      let e = removed_entry in
      let l : idx < m.capacity = rw same (slot-lt m.capacity k j valid.positive) in
      let fresh : IsId tombstone_key
          → (is_some e.val ≡ true) × Fresh m idx e (one_less m) tombstone_key =
        λ i. absurd (omega (arith, i)) in
      let full : tombstone_key ≢ empty_key = λ f. omega (arith, f) in
      let m' = write m idx e (one_less m) in
      let valid' = write-IsValid m idx e (one_less m) valid l full fresh in
      let gone : Absent m' k = λ i q f. elim (Bool-cases (slot m.capacity k i == idx)) [
        | inl s ↦
            let here =
              ap (entry m'.table) ((==_iff _ _).0 s) ∙ entry-here m idx e (one_less m) valid l in
            omega (arith, ap (λ (x : Entry). x.key) here, f, id)
        | inr s ↦
            let elsewhere = entry-elsewhere m idx e (one_less m) valid l (slot m.capacity k i) s in
            let there = ap (λ (x : Entry). x.key) (sym elsewhere) ∙ f in
            let steps = valid.unique k i j id q p there at in
            ground (arith, s, same, ap (slot m.capacity k) steps)
      ] in
      (
        valid',
        find-Absent m' k gone,
        λ k' id' other.
            find-write m idx e (one_less m) valid l full fresh k' id'
              (λ f. other (sym f ∙ ap (λ i. (entry m.table i).key) same ∙ at))
              (λ f. omega (arith, f, id')),
      )

remove_id-Removed :
    (k : ℕ) (m : OrderIdMap)
    → IsId k
    → IsValid m
    → ((remove_id k m).1 ≡ is_some (find k m)) × Removed k m (remove_id k m).0
unfolding remove_id Removed write
remove_id-Removed k m id valid = elim (placed m k) [
  | inl (j, p, e) ↦
      let (kept, gone, others) = erased k _ m id valid j p e refl in
      let was = sym (ap is_some (find-place m k j valid id p e) ∙ valid.filled k j id p e) in
      rw (remove_id, locate-place m k j valid id p e) (was, (kept, gone, others))
  | inr a ↦
      rw (remove_id, locate-Absent m k a)
        (sym (ap is_some (find-Absent m k a)), (valid, find-Absent m k a, λ k' id' other. refl))
]

-- A removal of an identifier keeps the invariant and says whether the identifier was in the map; the
-- identifier is then not found, and every other one as before.
pub remove_id-find :
    (k j : ℕ) (m : OrderIdMap)
    → IsId k
    → IsId j
    → IsValid m
    → let (m', removed) = remove_id k m in
      (removed ≡ is_some (find k m))
      × IsValid m'
      × (find j m' ≡ (if j == k then none else find j m))
unfolding Removed
remove_id-find k j m id id' valid =
    let (was, (kept, gone, others)) = remove_id-Removed k m id valid in
    (
      was,
      kept,
      elim (Bool-cases (j == k)) [
        | inl e ↦ rw (e, (==_iff j k).0 e) gone
        | inr e ↦ rw e (others j id' (λ f. ground (arith, e, f)))
      ],
    )
