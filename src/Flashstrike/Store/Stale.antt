-- ===== src/Flashstrike/Store/Stale.antt =====
-- The best price of a partition whose last order leaves.
use wirekrak.Common.{
  ℕ, ◌<◌, ◌≡◌, refl, sym, ap, ◌∙◌, Bool, true, false, Option, none, some, if◌then◌else◌, is_owner,
  length, length-set, get_or-set_self, arith, bind-some, outcome, some-injective, Bool-cases, inl,
  inr,
}
use wirekrak.Flashstrike.Types.{Side, bid, ask}
use wirekrak.Flashstrike.Partition.{
  Partition, PriceLevel, new_partition, level, clear_active, is_empty, recompute_best,
  lowest_active, highest_active,
}
use wirekrak.Flashstrike.PartitionPool.{get_partition}
use wirekrak.Flashstrike.Pool.{get_order}
use wirekrak.Flashstrike.Store.{View, offset_in_partition, put_partition, put_level}
use wirekrak.Flashstrike.Store.Linking.{remove_order_links, remove_level_links, unlink_order}
use wirekrak.Flashstrike.Store.Pricing.{unlink_order_and_update_partition}

best_price-elim :
    (o : Option ℕ) (k : ℕ) (pl : PriceLevel) (p : Partition)
    → (elim o as (λ _. Partition) [
      | none ↦ clear_active k (put_level k pl p)
      | some i ↦ put_level k pl p
    ]).best_price
      ≡ p.best_price
unfolding clear_active put_level
best_price-elim none k pl p = refl
best_price-elim (some i) k pl p = refl

-- Unlinking an order does not touch the best price of its partition.
unlink_order-best_price :
    (order_idx part : ℕ) (v v' : View) (active : Bool)
    → part < length v.parts.partitions
    → unlink_order order_idx part v ≡ some (v', active)
    → ((get_partition part v'.parts).best_price ≡ (get_partition part v.parts).best_price)
      × (length v'.parts.partitions ≡ length v.parts.partitions)
unfolding unlink_order get_partition put_partition
unlink_order-best_price order_idx part v v' active l e =
    let o = get_order order_idx v.pool in
    let k = offset_in_partition v.store o.price in
    let p = get_partition part v.parts in
    let (pl, _, e1) = bind-some (remove_level_links order_idx o (level k p)) _ (v', active) e in
    let p' = elim pl.head_idx as (λ _. Partition) [
      | none ↦ clear_active k (put_level k pl p)
      | some i ↦ put_level k pl p
    ] in
    let linked = put_partition part p' (record v { pool = remove_order_links order_idx v.pool }) in
    let (same, _) = outcome linked v' pl.active active e1 in
    (
      ap (λ (x : View). (get_partition part x.parts).best_price) same
          ∙ ap (λ (q : Partition). q.best_price)
              (get_or-set_self v.parts.partitions part p' (new_partition 0) l)
          ∙ best_price-elim pl.head_idx k pl p,
      ap (λ (x : View). length x.parts.partitions) same ∙ length-set v.parts.partitions part p',
    )

from_found :
    (found : Option ℕ) (p : Partition)
    → is_empty (elim found as (λ _. Partition) [
      | none ↦ record p { best_price = none; has_best = false }
      | some pl_idx ↦ record p { best_price = some (level pl_idx p).price; has_best = true }
    ])
      ≡ is_empty p
unfolding is_empty
from_found none p = refl
from_found (some pl_idx) p = refl

recompute_best-is_empty :
    (side : Side) (p : Partition) → is_empty (recompute_best side p) ≡ is_empty p
unfolding recompute_best is_empty
recompute_best-is_empty bid p = from_found (highest_active (length p.bitmap) p.bitmap) p
recompute_best-is_empty ask p = from_found (lowest_active 0 p.bitmap) p

module _ (side : Side) (part : ℕ) (v : View) (l : part < length v.parts.partitions) where
  -- The partition after the unlinking, and what becomes of it.
  p : Partition
  p = get_partition part v.parts

  updated : ℕ → Bool → View × Bool
  unfolding p
  updated price active =
      if active
      then (v, false)
      else if is_empty p
      then (v, true)
      else if is_owner price p.best_price
      then (put_partition part (recompute_best side p) v, true)
      else (v, false)

  updated-best_price :
      (price : ℕ) (active : Bool)
      → is_empty (get_partition part (updated price active).0.parts) ≡ true
      → (get_partition part (updated price active).0.parts).best_price ≡ p.best_price
  unfolding updated p put_partition get_partition
  updated-best_price price true e = refl
  updated-best_price price false e = elim (Bool-cases (is_empty p)) [
    | inl f ↦ rw f refl
    | inr f ↦ elim (Bool-cases (is_owner price p.best_price)) [
      | inl g ↦
          let r = put_partition part (recompute_best side p) v in
          let chosen : updated price false ≡ (r, true) = rw (updated, f, g) refl in
          let kept : get_partition part r.parts ≡ recompute_best side p =
            get_or-set_self v.parts.partitions part (recompute_best side p) (new_partition 0) l in
          let empty : is_empty p ≡ true =
            sym (recompute_best-is_empty side p)
            ∙ sym (ap is_empty kept)
            ∙ sym (ap (λ (x : View × Bool). is_empty (get_partition part x.0.parts)) chosen)
            ∙ e in
          absurd (ground (arith, f, empty))
      | inr g ↦ rw (f, g) refl
    ]
  ]

-- A partition that has no active level after an order of it was removed keeps the best price that it
-- had: the price of a level without orders.
pub unlink_order_and_update_partition-best_price :
    (side : Side) (order_idx part : ℕ) (v v' : View) (changed : Bool)
    → part < length v.parts.partitions
    → unlink_order_and_update_partition side order_idx part v ≡ some (v', changed)
    → is_empty (get_partition part v'.parts) ≡ true
    → (get_partition part v'.parts).best_price ≡ (get_partition part v.parts).best_price
unfolding unlink_order_and_update_partition updated p
unlink_order_and_update_partition-best_price side order_idx part v v' changed l e empty =
    let price = (get_order order_idx v.pool).price in
    let ((v1, active), e1, e2) = bind-some (unlink_order order_idx part v) _ (v', changed) e in
    let (best, size) = unlink_order-best_price order_idx part v v1 active l e1 in
    let l1 : part < length v1.parts.partitions = omega (arith, l, size) in
    let same = some-injective (updated side part v1 l1 price active) (v', changed) e2 in
    let view : (updated side part v1 l1 price active).0 ≡ v' = ap (λ (x : View × Bool). x.0) same in
    sym (ap (λ (x : View). (get_partition part x.parts).best_price) view)
    ∙ updated-best_price side part v1 l1 price active
        (ap (λ (x : View). is_empty (get_partition part x.parts)) view ∙ empty)
    ∙ best
