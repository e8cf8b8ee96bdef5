-- ===== src/Flashstrike/Store/Queue/Levels.antt =====
-- The queues of a store's levels under linking and unlinking.
use wirekrak.Common.{
  ℕ, ◌<◌, ◌≡◌, refl, sym, ap, ◌∙◌, subst, Bool, true, false, List, [], ◌∷◌, ◌++◌, Option, none,
  some, if◌then◌else◌, contains, length, get_or, get_or-set_self, bind-of_some,
}
use wirekrak.Flashstrike.Partition.{
  Partition, PriceLevel, new_partition, no_level, level, set_active, clear_active,
}
use wirekrak.Flashstrike.PartitionPool.{get_partition}
use wirekrak.Flashstrike.Pool.{get_order}
use wirekrak.Flashstrike.Store.{View, offset_in_partition, put_partition, put_level, level_at}
use wirekrak.Flashstrike.Store.Linking.{
  append_level, append_order, link_order, remove_level_links, remove_order_links, unlink_order,
}
use wirekrak.Flashstrike.Store.Queue.{IsQueue, has_orders}
use wirekrak.Flashstrike.Store.Queue.Link.{append_level-IsQueue}
use wirekrak.Flashstrike.Store.Queue.Unlink.{remove_level_links-IsQueue}

-- The level of an order in a partition is there.
unfoldable pub HasLevel : ℕ → ℕ → View → Type 0
HasLevel order_idx part v =
    (part < length v.parts.partitions)
    × (offset_in_partition v.store (get_order order_idx v.pool).price
        < length (get_partition part v.parts).levels)

-- The level that an order's price stands for in a partition.
unfoldable pub level_of : ℕ → ℕ → View → PriceLevel
unfolding level_at
level_of order_idx part v =
    level_at part (offset_in_partition v.store (get_order order_idx v.pool).price) v

levels-if : (b : Bool) (p : Partition) (k : ℕ) → (if b then p else set_active k p).levels ≡ p.levels
unfolding set_active
levels-if true p k = refl
levels-if false p k = refl

levels-elim :
    (o : Option ℕ) (p : Partition) (k : ℕ)
    → (elim o as (λ _. Partition) [ none ↦ clear_active k p | some i ↦ p ]).levels ≡ p.levels
unfolding clear_active
levels-elim none p k = refl
levels-elim (some i) p k = refl

-- A level of a partition that was written.
written :
    (part k : ℕ) (pl : PriceLevel) (p : Partition) (v : View)
    → part < length v.parts.partitions
    → k < length (get_partition part v.parts).levels
    → p.levels ≡ (put_level k pl (get_partition part v.parts)).levels
    → level_at part k (put_partition part p v) ≡ pl
unfolding level_at level put_partition get_partition put_level
written part k pl p v l l' e =
    ap (λ (q : Partition). get_or q.levels k no_level)
      (get_or-set_self v.parts.partitions part p (new_partition 0) l)
    ∙ ap (λ ls. get_or ls k no_level) e
    ∙ get_or-set_self (get_partition part v.parts).levels k pl no_level l'

-- Time priority: an order that is linked comes last in the queue of its level, behind the orders that
-- were there, and the level's quantity and activity are those of the queue.
pub link_order-IsQueue :
    (order_idx part : ℕ) (v : View) (is : List ℕ)
    → HasLevel order_idx part v
    → order_idx < length v.pool.orders
    → contains order_idx is ≡ false
    → IsQueue v.pool (level_of order_idx part v) is
    → let v' = link_order order_idx part v in
      IsQueue v'.pool
        (level_at part (offset_in_partition v.store (get_order order_idx v.pool).price) v')
        (is ++ (order_idx ∷ []))
unfolding HasLevel link_order level_of level_at put_partition level
link_order-IsQueue order_idx part v is (l, l') inside new q =
    let o = get_order order_idx v.pool in
    let k = offset_in_partition v.store o.price in
    let p = get_partition part v.parts in
    let pl = level k p in
    let pl' = append_level order_idx o.qty pl in
    let p' = put_level k pl' p in
    let pool' = append_order order_idx pl.tail_idx v.pool in
    subst (λ x. IsQueue pool' x (is ++ (order_idx ∷ [])))
      (sym (
        written part k pl' (if pl.active then p' else set_active k p') (record v { pool = pool' }) l
          l' (levels-if pl.active p' k)))
      (append_level-IsQueue v.pool pl is order_idx inside new q)

-- An order that is unlinked, wherever it stands, leaves the queue of its level and the others keep their
-- order. No assertion fails, and the result tells whether orders are left.
pub unlink_order-IsQueue :
    (order_idx part : ℕ) (v : View) (before after : List ℕ)
    → HasLevel order_idx part v
    → IsQueue v.pool (level_of order_idx part v) (before ++ (order_idx ∷ after))
    → (v' : View) × (active : Bool) × (unlink_order order_idx part v ≡ some (v', active))
      × IsQueue v'.pool
          (level_at part (offset_in_partition v.store (get_order order_idx v.pool).price) v')
          (before ++ after)
      × (active ≡ has_orders (before ++ after))
unfolding HasLevel unlink_order level_of level_at IsQueue put_partition get_order
unlink_order-IsQueue order_idx part v before after (l, l') q =
    let o = get_order order_idx v.pool in
    let k = offset_in_partition v.store o.price in
    let p = get_partition part v.parts in
    let (pl, e, q') = remove_level_links-IsQueue v.pool (level k p) before order_idx after q in
    let p' = put_level k pl p in
    let p'' = elim pl.head_idx as (λ _. Partition) [ none ↦ clear_active k p' | some i ↦ p' ] in
    let pool' = remove_order_links order_idx v.pool in
    let v' = put_partition part p'' (record v { pool = pool' }) in
    let (_, _, _, _, active) = q' in
    (
      v',
      pl.active,
      bind-of_some (remove_level_links order_idx o (level k p)) _ pl e,
      subst (λ x. IsQueue pool' x (before ++ after))
          (sym
            (written part k pl p'' (record v { pool = pool' }) l l' (levels-elim pl.head_idx p' k)))
          q',
      active,
    )
