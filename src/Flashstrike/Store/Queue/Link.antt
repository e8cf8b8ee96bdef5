-- ===== src/Flashstrike/Store/Queue/Link.antt =====
-- Linking an order into a level: it comes last.
use wirekrak.Common.{
  ℕ, ◌<◌, ◌≡◌, refl, sym, ap, ◌∙◌, subst, Bool, true, false, List, [], ◌∷◌, ◌++◌, Option, none,
  some, ◌==◌, if◌then◌else◌, is_owner, contains, length, length-set, All, arith,
}
use wirekrak.Flashstrike.Partition.{PriceLevel}
use wirekrak.Flashstrike.Pool.{Order, OrderPool, get_order, put_order}
use wirekrak.Flashstrike.Store.Linking.{add_quantity, append_order, append_level}
use wirekrak.Flashstrike.Store.Segment.{Seg, end_or, join, retarget, last-contains, is_new-other}
use wirekrak.Flashstrike.Store.Queue.{
  IsQueue, sum_qty, has_orders, get_order-put_order_self, get_order-put_order_ne,
  get_order-set_next, length-set_next,
}
use wirekrak.Flashstrike.Store.Queue.Distinct.{
  append-IsDistinct, All-append, All-contains, sum_qty-append, sum_qty-kept,
}

module _ (pool : OrderPool) (x : ℕ) (tail : Option ℕ) where
  -- The pool with the order's own links set.
  placed : OrderPool
  placed = put_order x (record (get_order x pool) { prev_idx = tail; next_idx = none }) pool

  pub length-append_order : length (append_order x tail pool).orders ≡ length pool.orders
  unfolding append_order put_order placed
  length-append_order =
      length-set_next tail (some x) placed
      ∙ length-set pool.orders x (record (get_order x pool) { prev_idx = tail; next_idx = none })

  module _ (i : ℕ) (l : i < length pool.orders) where
    read : get_order i (append_order x tail pool) ≡ (
        let o = get_order i placed in if is_owner i tail then record o { next_idx = some x } else o)
    unfolding append_order placed put_order
    read = get_order-set_next i tail (some x) placed (
        subst (λ n. i < n)
          (sym (
            length-set pool.orders x
              (record (get_order x pool) { prev_idx = tail; next_idx = none })))
          l)

    -- The order that is linked, where it is not the last one already.
    read_own :
        x ≡ i
        → is_owner i tail ≡ false
        → get_order i (append_order x tail pool)
          ≡ record (get_order i pool) { prev_idx = tail; next_idx = none }
    unfolding placed
    read_own e f =
        read
        ∙ ap (λ b. let o = get_order i placed in if b then record o { next_idx = some x } else o) f
        ∙ ap
            (λ k.
              get_order i
                (put_order k (record (get_order k pool) { prev_idx = tail; next_idx = none }) pool))
            e
        ∙ get_order-put_order_self i i pool
            (record (get_order i pool) { prev_idx = tail; next_idx = none }) l

    read_other :
        (x == i) ≡ false
        → get_order i (append_order x tail pool) ≡ (
            let o = get_order i pool in
            if is_owner i tail then record o { next_idx = some x } else o)
    unfolding placed
    read_other e =
        read
        ∙ ap (λ (o : Order). if is_owner i tail then record o { next_idx = some x } else o)
            (get_order-put_order_ne i x pool
              (record (get_order x pool) { prev_idx = tail; next_idx = none }) e)

-- What a write of the next order does to the fields.
fields :
    (b : Bool) (o : Order) (w : Option ℕ)
    → let o' = if b then record o { next_idx = w } else o in
      (o'.prev_idx ≡ o.prev_idx) × (o'.next_idx ≡ (if b then w else o.next_idx)) × (o'.qty ≡ o.qty)
fields true o w = (refl, refl, refl)
fields false o w = (refl, refl, refl)

first_of :
    (pool : OrderPool) (head : Option ℕ) (is : List ℕ) (tail : Option ℕ) (x : ℕ)
    → Seg pool none head is tail none
    → (elim head [ none ↦ some x | some h ↦ some h ]) ≡ end_or is (some x) head
unfolding Seg
first_of pool head [] tail x (h, t) = rw h refl
first_of pool head (i ∷ is) tail x (h, p, s) = rw h refl

append-has_orders : (is : List ℕ) (x : ℕ) → true ≡ has_orders (is ++ (x ∷ []))
append-has_orders [] x = refl
append-has_orders (i ∷ is) x = refl

module _ (pool : OrderPool) (pl : PriceLevel) (is : List ℕ) (x : ℕ) (l : x < length pool.orders)
    (n : contains x is ≡ false) where
  -- An order that is linked comes last in the queue of its level, behind the orders that were there: the
  -- level's quantity goes up by the order's, and it is active.
  pub append_level-IsQueue :
      IsQueue pool pl is
      → IsQueue
          (append_order x pl.tail_idx pool)
          (append_level x (get_order x pool).qty pl)
          (is ++ (x ∷ []))
  unfolding IsQueue append_level add_quantity Seg sum_qty
  append_level-IsQueue (d, ls, s, total, active) =
      let pool' = append_order x pl.tail_idx pool in
      let not_last = last-contains pool pl.head_idx is pl.tail_idx none x s n in
      let own = read_own pool x pl.tail_idx x l refl not_last in
      let other : (i : ℕ)
          → contains i is ≡ true
          → get_order i pool' ≡ (
              let o = get_order i pool in
              if is_owner i pl.tail_idx then record o { next_idx = some x } else o) =
        λ i e.
          read_other pool x pl.tail_idx i (All-contains (λ i. i < length pool.orders) is i ls e)
            (is_new-other x i is n e) in
      let kept : (i : ℕ) → _ =
        λ (i : ℕ). fields (is_owner i pl.tail_idx) (get_order i pool) (some x) in
      let sum = sum_qty-append pool' is (x ∷ []) in
      let same =
        sum_qty-kept pool pool' is (λ i e. ap (λ (o : Order). o.qty) (other i e) ∙ (kept i).2) in
      (
        append-IsDistinct is x d n,
        subst (λ n. All (λ i. i < n) (is ++ (x ∷ [])))
            (sym (length-append_order pool x pl.tail_idx))
            (All-append (λ i. i < length pool.orders) is x ls l),
        join pool' none (elim pl.head_idx [ none ↦ some x | some h ↦ some h ]) is (x ∷ [])
            pl.tail_idx (some x) (some x) none
            (subst (λ h. Seg pool' none h is pl.tail_idx (some x))
              (sym (first_of pool pl.head_idx is pl.tail_idx x s))
              (retarget pool pool' none pl.head_idx is pl.tail_idx none (some x) d s
                (λ i e. ap (λ (o : Order). o.prev_idx) (other i e) ∙ (kept i).0)
                (λ i e. ap (λ (o : Order). o.next_idx) (other i e) ∙ (kept i).1)))
            (refl, ap (λ (o : Order). o.prev_idx) own, (ap (λ (o : Order). o.next_idx) own, refl)),
        omega (arith, total, sum, same, ap (λ (o : Order). o.qty) own),
        append-has_orders is x,
      )
