-- ===== src/Flashstrike/IdMap/Full.antt =====
-- New order maps, cleared ones, and full ones.
use wirekrak.Common.{
  ℕ, zero, suc, ◌+◌, ◌-◌, ◌*◌, ◌%◌, ◌≤◌, ◌<◌, ◌≡◌, ◌≢◌, refl, ap, ◌∙◌, false, List, [], ◌∷◌, Option,
  none, ◌==◌, ltb, if◌then◌else◌, length, get_or, replicate, map, arith, inl, inr, Bool-cases,
  Option-cases, ==_iff,
}
use native.Mathlib.Nat.{mod-eq_of_lt, mod-lt, add-mod_right}
use wirekrak.Flashstrike.IdMap.{
  Entry, OrderIdMap, blank, empty_key, tombstone_key, round_up, table_capacity, new_map, slot,
  entry, find_free, find, insert_id, clear_ids, hash_order_id,
}
use wirekrak.Flashstrike.IdMap.Probing.{probed}
use wirekrak.Flashstrike.IdMap.Invariant.{IsId, IsValid, find-Absent}

get_or-replicate : {A : Type 0} (n i : ℕ) (a : A) → get_or (replicate n a) i a ≡ a
get_or-replicate zero i a = refl
get_or-replicate (suc n) zero a = refl
get_or-replicate (suc n) (suc i) a = get_or-replicate n i a

get_or-map : {A : Type 0} (xs : List A) (i : ℕ) (a : A) → get_or (map (λ x. a) xs) i a ≡ a
get_or-map [] i a = refl
get_or-map (x ∷ xs) zero a = refl
get_or-map (x ∷ xs) (suc i) a = get_or-map xs i a

length-replicate : {A : Type 0} (n : ℕ) (a : A) → length (replicate n a) ≡ n
length-replicate zero a = refl
length-replicate (suc n) a = ap suc (length-replicate n a)

length-map : {A : Type 0} (xs : List A) (a : A) → length (map (λ x. a) xs) ≡ length xs
length-map [] a = refl
length-map (x ∷ xs) a = ap suc (length-map xs a)

-- A table all of whose entries are blank.
module _ (m : OrderIdMap) (sized : length m.table ≡ m.capacity) (positive : 0 < m.capacity)
    (all_blank : (i : ℕ) → entry m.table i ≡ blank) where
  probed-blank : (k i : ℕ) → probed m.capacity k m.table i ≡ empty_key
  unfolding probed
  probed-blank k i = ap (λ (e : Entry). e.key) (all_blank (slot m.capacity k i))

  blank-IsValid : IsValid m
  blank-IsValid = record {
    sized = sized;
    positive = positive;
    reached = λ k i j id p l e f. omega (arith, id, f, probed-blank k j);
    unique = λ k i j id p q e f. absurd (omega (arith, id, f, probed-blank k j));
    filled = λ k j id p e. absurd (omega (arith, id, e, probed-blank k j));
  }

  find-blank : (k : ℕ) → IsId k → find k m ≡ none
  find-blank k id = find-Absent m k (λ j p f. omega (arith, id, f, probed-blank k j))

round_up-positive : (fuel capacity wanted : ℕ) → 0 < capacity → 0 < round_up fuel capacity wanted
unfolding round_up
round_up-positive zero capacity wanted p = p
round_up-positive (suc fuel) capacity wanted p =
    let rest = round_up-positive fuel (capacity * 2) wanted (omega arith) in ground (arith, rest)

new_map-blank : (capacity i : ℕ) → entry (new_map capacity).table i ≡ blank
unfolding new_map entry
new_map-blank capacity i = get_or-replicate (table_capacity capacity) i blank

new_map-sized : (capacity : ℕ) → length (new_map capacity).table ≡ (new_map capacity).capacity
unfolding new_map
new_map-sized capacity = length-replicate (table_capacity capacity) blank

new_map-positive : (capacity : ℕ) → 0 < (new_map capacity).capacity
unfolding new_map table_capacity
new_map-positive capacity =
    round_up-positive 64 1 (if ltb (capacity * 2) 16 then 16 else capacity * 2) (omega arith)

pub new_map-IsValid : (capacity : ℕ) → IsValid (new_map capacity)
new_map-IsValid capacity =
    blank-IsValid (new_map capacity) (new_map-sized capacity) (new_map-positive capacity)
      (new_map-blank capacity)

pub find-new_map : (capacity k : ℕ) → IsId k → find k (new_map capacity) ≡ none
find-new_map capacity =
    find-blank (new_map capacity) (new_map-sized capacity) (new_map-positive capacity)
      (new_map-blank capacity)

-- A map that was cleared is valid, and finds no identifier.
pub find-clear_ids :
    (m : OrderIdMap)
    → IsValid m
    → IsValid (clear_ids m) × ((k : ℕ) → IsId k → find k (clear_ids m) ≡ none)
unfolding clear_ids entry
find-clear_ids m v =
    let sized = length-map m.table blank ∙ v.sized in
    let all_blank : (i : ℕ) → entry (clear_ids m).table i ≡ blank =
      λ i. get_or-map m.table i blank in
    (
      blank-IsValid (clear_ids m) sized v.positive all_blank,
      find-blank (clear_ids m) sized v.positive all_blank,
    )

-- Every place is probed by every key.
surjective : (h c s : ℕ) → h < c → s < c → (h + (s + c - h) % c) % c ≡ s
surjective h c s p q = elim (Bool-cases (ltb s h)) [
  | inl e ↦
      ap (λ n. (h + n) % c) (mod-eq_of_lt {n = s + c - h} {m = c} (ground arith))
      ∙ ap (λ n. n % c) {y = s + c} (ground arith)
      ∙ add-mod_right s c
      ∙ mod-eq_of_lt q
  | inr e ↦
      ap (λ n. (h + n % c) % c) {y = s - h + c} (ground arith)
      ∙ ap (λ n. (h + n) % c) (add-mod_right (s - h) c ∙ mod-eq_of_lt (omega arith))
      ∙ ap (λ n. n % c) {y = s} (ground arith)
      ∙ mod-eq_of_lt q
]

-- An entry that holds an identifier, or any key that is neither of the reserved two.
abbrev IsTaken : Entry → Type 0
IsTaken e = (e.key ≢ empty_key) × (e.key ≢ tombstone_key)

module _ (capacity ordid : ℕ) (table : List Entry) where
  find_free-none :
      (fuel i j : ℕ)
      → find_free capacity ordid fuel i table ≡ none
      → i ≤ j
      → j < i + fuel
      → IsTaken (entry table (slot capacity ordid j))
  unfolding find_free
  find_free-none zero i j e p q = absurd (omega arith)
  find_free-none (suc fuel) i j e p q = elim (Bool-cases (i == j)) [
    | inl f ↦
        let same = ap (λ k. (entry table (slot capacity ordid k)).key) ((==_iff i j).0 f) in
        (λ g. ground (arith, e, g, same), λ g. ground (arith, e, g, same))
    | inr f ↦ find_free-none fuel (suc i) j (ground (arith, e)) (ground arith) (omega arith)
  ]

-- An insertion fails only where every place of the table is taken, and then changes nothing.
pub insert_id-full :
    (k idx : ℕ) (v : Option ℕ) (m : OrderIdMap)
    → IsValid m
    → idx < m.capacity
    → (insert_id k v m).1 ≡ false
    → ((insert_id k v m).0 ≡ m)
      × ((entry m.table idx).key ≢ empty_key)
      × ((entry m.table idx).key ≢ tombstone_key)
unfolding insert_id slot
insert_id-full k idx v m valid l failed =
    elim (Option-cases (find_free m.capacity k m.capacity 0 m.table)) [
      | inl e ↦
          let h = hash_order_id k % m.capacity in
          let p = mod-lt (hash_order_id k) valid.positive in
          let j = (idx + m.capacity - h) % m.capacity in
          let at = surjective h m.capacity idx p l in
          let (used, kept) : IsTaken (entry m.table idx) = rw (← at) (
            find_free-none m.capacity k m.table m.capacity 0 j e (omega arith)
              (omega (arith, mod-lt (idx + m.capacity - h) valid.positive))) in
          rw (insert_id, e) (refl, used, kept)
      | inr (other, e) ↦ absurd (ground (arith, e, failed))
    ]
