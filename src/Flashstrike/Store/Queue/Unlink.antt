-- ===== src/Flashstrike/Store/Queue/Unlink.antt =====
-- Unlinking an order of a level: the others keep their order.
use wirekrak.Common.{
  ℕ, ◌-◌, ◌<◌, ◌≤◌, ◌≡◌, refl, sym, ap, ◌∙◌, subst, Bool-cases, inl, inr, Bool, true, false, List,
  [], ◌∷◌, ◌++◌, Option, none, some, if◌then◌else◌, is_owner, contains, contains-append, is_some,
  length, All, arith, bind-of_some,
}
use wirekrak.Flashstrike.Partition.{PriceLevel}
use wirekrak.Flashstrike.Pool.{Order, OrderPool, get_order}
use wirekrak.Flashstrike.Store.Linking.{
  set_next, subtract_quantity, remove_order_links, remove_level_links,
}
use wirekrak.Flashstrike.Store.Segment.{
  Seg, end_or, split, join, retarget, rebase, tail-contains, head-contains, last-contains,
}
use wirekrak.Flashstrike.Store.Queue.{
  IsQueue, sum_qty, has_orders, removed-lem, length-set_next, length-set_prev,
}
use wirekrak.Flashstrike.Store.Queue.Distinct.{
  AreParts, parts, All-parts, All-contains, sum_qty-append, sum_qty-kept,
}

module _ (pool : OrderPool) (x : ℕ) where
  first :
      (head : Option ℕ) (before : List ℕ) (m q : Option ℕ)
      → contains x before ≡ false
      → Seg pool none head before q m
      → m ≡ some x
      → (if is_owner x head then (get_order x pool).next_idx else head)
        ≡ end_or before (get_order x pool).next_idx head
  unfolding Seg is_owner contains
  first head [] m q n (h, t) e = rw (h, e) (ground arith)
  first head (b ∷ before) m q n (h, p, s) e = rw h (ground (arith, n))

  second :
      (after : List ℕ) (tail : Option ℕ)
      → contains x after ≡ false
      → Seg pool (some x) (get_order x pool).next_idx after tail none
      → (if is_owner x tail then (get_order x pool).prev_idx else tail)
        ≡ end_or after (get_order x pool).prev_idx tail
  unfolding Seg is_owner
  second [] tail n (h, t) = rw t (ground arith)
  second (a ∷ after) tail n s =
      ap (λ b. if b then (get_order x pool).prev_idx else tail)
        (tail-contains pool (some x) (get_order x pool).next_idx a after tail none x s n)

  pool' : OrderPool
  pool' = remove_order_links x pool

  leaving : Order
  leaving = get_order x pool

  remove_order_links-Seg :
      (head tail : Option ℕ) (before after : List ℕ)
      → AreParts before x after
      → All (λ i. i < length pool.orders) (before ++ after)
      → Seg pool none head (before ++ (x ∷ after)) tail none
      → Seg pool' none
          (end_or before leaving.next_idx head)
          (before ++ after)
          (end_or after leaving.prev_idx tail)
          none
  unfolding pool' leaving AreParts Seg
  remove_order_links-Seg head tail before after (d1, d2, n1, n2, d3, apart) l s =
      let (q, m, left, (h, p, right)) = split pool none head before (x ∷ after) tail none s in
      let left' = subst (λ q. Seg pool none head before q m) (sym p) left in
      let in_range = All-contains (λ i. i < length pool.orders) (before ++ after) in
      let both = λ (i : ℕ). contains-append i before after in
      let first : (i : ℕ) → contains i before ≡ true → i < length pool.orders =
        λ i e. in_range i l (ground (arith, e, both i)) in
      let second : (i : ℕ) → contains i after ≡ true → i < length pool.orders =
        λ i e. in_range i l (ground (arith, e, both i)) in
      join pool' none (end_or before leaving.next_idx head) before after leaving.prev_idx
        leaving.next_idx (end_or after leaving.prev_idx tail) none
        (retarget pool pool' none head before leaving.prev_idx m leaving.next_idx d1 left'
          (λ i e.
            (removed-lem x i pool (first i e)).0
            ∙ ap (λ b. if b then leaving.prev_idx else (get_order i pool).prev_idx)
                (head-contains pool (some x) leaving.next_idx after tail i right (apart i e)))
          (λ i e. (removed-lem x i pool (first i e)).1))
        (rebase pool pool' (some x) leaving.next_idx after tail none leaving.prev_idx d2 right
          (λ i e. (removed-lem x i pool (second i e)).0)
          (λ i e.
            (removed-lem x i pool (second i e)).1
            ∙ ap (λ b. if b then leaving.next_idx else (get_order i pool).next_idx)
                (last-contains pool head before leaving.prev_idx m i left'
                  (elim (Bool-cases (contains i before)) [
                    | inl f ↦ absurd (ground (arith, e, apart i f))
                    | inr f ↦ f
                  ]))))

  -- The ends of the level.
  ends :
      (head tail : Option ℕ) (before after : List ℕ)
      → AreParts before x after
      → Seg pool none head (before ++ (x ∷ after)) tail none
      → ((if is_owner x head then leaving.next_idx else head) ≡ end_or before leaving.next_idx head)
        × ((if is_owner x tail then leaving.prev_idx else tail)
            ≡ end_or after leaving.prev_idx tail)
  unfolding leaving AreParts Seg
  ends head tail before after (d1, d2, n1, n2, d3, apart) s =
      let (q, m, left, (h, p, right)) = split pool none head before (x ∷ after) tail none s in
      (first head before m q n1 left h, second after tail n2 right)

has_orders-Seg :
    (pool : OrderPool) (prev head : Option ℕ) (is : List ℕ) (tail : Option ℕ)
    → Seg pool prev head is tail none
    → is_some head ≡ has_orders is
unfolding Seg
has_orders-Seg pool prev head [] tail (h, t) = rw h refl
has_orders-Seg pool prev head (i ∷ is) tail (h, p, s) = rw h refl

has_orders-around :
    (before : List ℕ) (x : ℕ) (after : List ℕ) → has_orders (before ++ (x ∷ after)) ≡ true
has_orders-around [] x after = refl
has_orders-around (b ∷ before) x after = refl

-- The level stays active where it has a head.
activity :
    (head : Option ℕ) (b : Bool)
    → b ≡ true
    → (elim head [ none ↦ false | some i ↦ b ]) ≡ is_some head
activity none b e = refl
activity (some i) b e = e

enough :
    (qty : ℕ) (pl : PriceLevel)
    → qty ≤ pl.total_qty
    → subtract_quantity qty pl ≡ some (record pl { total_qty = pl.total_qty - qty })
unfolding subtract_quantity
enough qty pl l = ground (arith, l)

-- An order that is unlinked leaves the queue of its level, in which the others keep their order: the
-- level's quantity goes down by the order's, and it is active where orders are left.
pub remove_level_links-IsQueue :
    (pool : OrderPool) (pl : PriceLevel) (before : List ℕ) (x : ℕ) (after : List ℕ)
    → IsQueue pool pl (before ++ (x ∷ after))
    → (pl' : PriceLevel) × (remove_level_links x (get_order x pool) pl ≡ some pl')
      × IsQueue (remove_order_links x pool) pl' (before ++ after)
unfolding remove_level_links remove_order_links IsQueue AreParts sum_qty pool' leaving
remove_level_links-IsQueue pool pl before x after (d, l, s, total, active) =
    let o = get_order x pool in
    let pool1 = set_next o.prev_idx o.next_idx pool in
    let head = if is_owner x pl.head_idx then o.next_idx else pl.head_idx in
    let tail = if is_owner x pl.tail_idx then o.prev_idx else pl.tail_idx in
    let all = parts before x after d in
    let (d1, d2, n1, n2, d3, apart) = all in
    let (here, others) = All-parts (λ i. i < length pool.orders) before x after l in
    let size : length (remove_order_links x pool).orders ≡ length pool.orders =
      length-set_prev o.next_idx o.prev_idx pool1 ∙ length-set_next o.prev_idx o.next_idx pool in
    let (first_end, last_end) = ends pool x pl.head_idx pl.tail_idx before after all s in
    let linked : Seg (remove_order_links x pool) none head (before ++ after) tail none =
      subst (λ h. Seg (remove_order_links x pool) none h (before ++ after) tail none)
        (sym first_end)
        (subst
          (λ t.
            Seg (remove_order_links x pool) none (end_or before o.next_idx pl.head_idx)
              (before ++ after) t none)
          (sym last_end)
          (remove_order_links-Seg pool x pl.head_idx pl.tail_idx before after all others s)) in
    let sum = sum_qty-append pool before (x ∷ after) in
    let rest = sum_qty-append pool before after in
    let kept = sum_qty-kept pool (remove_order_links x pool) (before ++ after) (λ i e.
      (removed-lem x i pool
        (All-contains (λ i. i < length pool.orders) (before ++ after) i others e)).2) in
    (
      record pl {
        total_qty = pl.total_qty - o.qty;
        head_idx = head;
        tail_idx = tail;
        active = elim head [ none ↦ false | some i ↦ pl.active ];
      },
      bind-of_some (subtract_quantity o.qty pl) _ (record pl { total_qty = pl.total_qty - o.qty })
          (enough o.qty pl (omega (arith, total, sum))),
      (
        d3,
        subst (λ n. All (λ i. i < n) (before ++ after)) (sym size) others,
        linked,
        omega (arith, total, sum, rest, kept),
        activity head pl.active (active ∙ has_orders-around before x after)
            ∙ has_orders-Seg (remove_order_links x pool) none head (before ++ after) tail linked,
      ),
    )
