-- ===== src/Flashstrike/Store/Queue.antt =====
-- A price level as a queue of orders: what linking and unlinking an order do to it.
pub mod Distinct
pub mod Unlink
pub mod Link
pub mod Levels
use wirekrak.Common.{
  ℕ, ◌+◌, ◌-◌, ◌<◌, ◌≤◌, ◌≡◌, ◌≢◌, refl, sym, ap, ◌∙◌, Bool, true, false, not, ◌||◌, List, [], ◌∷◌,
  ◌++◌, Option, none, some, ◌==◌, ltb, if◌then◌else◌, is_owner, contains, contains-append, length,
  length-set, get_or, set, get_or-set_self, get_or-set_ne, All, arith, Bool-cases, inl, inr,
}
use wirekrak.Flashstrike.Partition.{PriceLevel}
use wirekrak.Flashstrike.Pool.{Order, OrderPool, no_order, get_order, put_order}
use wirekrak.Flashstrike.Store.Linking.{
  add_quantity, subtract_quantity, set_next, set_prev, append_order, append_level,
  remove_order_links, remove_level_links,
}
use wirekrak.Flashstrike.Store.Segment.{
  Seg, IsDistinct, end_or, split, join, retarget, rebase, tail-contains, is_new-other,
}

unfoldable pub sum_qty : OrderPool → List ℕ → ℕ
sum_qty pool [] = 0
sum_qty pool (i ∷ is) = (get_order i pool).qty + sum_qty pool is

abbrev pub has_orders : List ℕ → Bool
has_orders [] = false
has_orders (i ∷ is) = true

-- The level holds the orders `is`, the oldest first.
unfoldable pub IsQueue : OrderPool → PriceLevel → List ℕ → Type 0
IsQueue pool pl is =
    IsDistinct is
    × All (λ i. i < length pool.orders) is
    × Seg pool none pl.head_idx is pl.tail_idx none
    × (pl.total_qty ≡ sum_qty pool is)
    × (pl.active ≡ has_orders is)

-- Orders read after a write.
module _ (i j : ℕ) (pool : OrderPool) where
  pub get_order-put_order_self :
      (o : Order) → i < length pool.orders → get_order i (put_order i o pool) ≡ o
  unfolding get_order put_order
  get_order-put_order_self o l = get_or-set_self pool.orders i o no_order l

  pub get_order-put_order_ne :
      (o : Order) → (j == i) ≡ false → get_order i (put_order j o pool) ≡ get_order i pool
  unfolding get_order put_order
  get_order-put_order_ne o e = get_or-set_ne pool.orders o no_order (λ f. ground (arith, e, f))

update :
    (i k : ℕ) (pool : OrderPool) (f : Order → Order)
    → i < length pool.orders
    → get_order i (put_order k (f (get_order k pool)) pool)
      ≡ (if k == i then f (get_order i pool) else get_order i pool)
update i k pool f l = elim (Bool-cases (k == i)) [
  | inl e ↦
      let same : k ≡ i = ground (arith, e) in
      ap (λ k. get_order i (put_order k (f (get_order k pool)) pool)) same
      ∙ get_order-put_order_self i i pool (f (get_order i pool)) l
      ∙ sym (ap (λ b. if b then f (get_order i pool) else get_order i pool) e)
  | inr e ↦
      get_order-put_order_ne i k pool (f (get_order k pool)) e
      ∙ sym (ap (λ b. if b then f (get_order i pool) else get_order i pool) e)
]

-- What the links of an order are after a write of one of them.
pub get_order-set_next :
    (i : ℕ) (j w : Option ℕ) (pool : OrderPool)
    → i < length pool.orders
    → get_order i (set_next j w pool)
      ≡ (let o = get_order i pool in if is_owner i j then record o { next_idx = w } else o)
unfolding set_next is_owner
get_order-set_next i none w pool l = refl
get_order-set_next i (some k) w pool l = update i k pool (λ o. record o { next_idx = w }) l

pub get_order-set_prev :
    (i : ℕ) (j w : Option ℕ) (pool : OrderPool)
    → i < length pool.orders
    → get_order i (set_prev j w pool)
      ≡ (let o = get_order i pool in if is_owner i j then record o { prev_idx = w } else o)
unfolding set_prev is_owner
get_order-set_prev i none w pool l = refl
get_order-set_prev i (some k) w pool l = update i k pool (λ o. record o { prev_idx = w }) l

pub length-set_next :
    (j w : Option ℕ) (pool : OrderPool) → length (set_next j w pool).orders ≡ length pool.orders
unfolding set_next put_order
length-set_next none w pool = refl
length-set_next (some k) w pool =
    length-set pool.orders k (record (get_order k pool) { next_idx = w })

pub length-set_prev :
    (j w : Option ℕ) (pool : OrderPool) → length (set_prev j w pool).orders ≡ length pool.orders
unfolding set_prev put_order
length-set_prev none w pool = refl
length-set_prev (some k) w pool =
    length-set pool.orders k (record (get_order k pool) { prev_idx = w })

either :
    (b c : Bool) (o : Order) (v w : Option ℕ)
    → let o' = if b then record o { next_idx = w } else o in
      let o'' = if c then record o' { prev_idx = v } else o' in
      (o''.prev_idx ≡ (if c then v else o.prev_idx))
      × (o''.next_idx ≡ (if b then w else o.next_idx))
      × (o''.qty ≡ o.qty)
either true true o v w = (refl, refl, refl)
either true false o v w = (refl, refl, refl)
either false true o v w = (refl, refl, refl)
either false false o v w = (refl, refl, refl)

-- The orders of a level after an order leaves it.
module _ (x i : ℕ) (pool : OrderPool) (l : i < length pool.orders) where
  pub removed-lem :
      let o = get_order x pool in
      let r = get_order i (remove_order_links x pool) in
      (r.prev_idx ≡ (if is_owner i o.next_idx then o.prev_idx else (get_order i pool).prev_idx))
      × (r.next_idx ≡ (if is_owner i o.prev_idx then o.next_idx else (get_order i pool).next_idx))
      × (r.qty ≡ (get_order i pool).qty)
  unfolding remove_order_links
  removed-lem =
      let o = get_order x pool in
      let pool1 = set_next o.prev_idx o.next_idx pool in
      let l1 : i < length pool1.orders =
        omega (arith, l, length-set_next o.prev_idx o.next_idx pool) in
      let e1 = get_order-set_next i o.prev_idx o.next_idx pool l in
      let e2 = get_order-set_prev i o.next_idx o.prev_idx pool1 l1 in
      rw (e2, e1)
        (either (is_owner i o.prev_idx) (is_owner i o.next_idx) (get_order i pool) o.prev_idx
          o.next_idx)
