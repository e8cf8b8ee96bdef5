-- ===== src/Flashstrike/Pool/Laws.antt =====
-- A pool hands out and takes back orders as a stack of free indices does.
use wirekrak.Common.{
  ℕ, suc, ◌+◌, ◌-◌, ◌%◌, ◌^◌, ◌<◌, ◌≡◌, refl, sym, ap, ◌∙◌, false, List, [], ◌∷◌, Option, none,
  some, length, length-set, get_or, set, get_or-set_self, arith, contains, All,
}
use native.Mathlib.Nat.{mod-eq_of_lt}
use wirekrak.Flashstrike.Pool.{Order, OrderPool, no_order, get_order, allocate, release}
use wirekrak.Flashstrike.Pool.FreeList.{IsChain, set-IsChain, IsDistinct, pigeonhole}

-- The free orders of the pool, the one that is handed out next first.
pub record IsFree (p : OrderPool) (frees : List ℕ) : Type 0 where
  pub chain : IsChain p.orders p.free_head frees
  pub distinct : IsDistinct frees
  pub inside : All (λ i. i < length p.orders) frees
  pub counted : p.used_count + length frees ≡ length p.orders
  pub small : length p.orders < 2 ^ 64

unfoldable pub first : List ℕ → Option ℕ
first [] = none
first (i ∷ frees) = some i

unfoldable pub rest : List ℕ → List ℕ
rest [] = []
rest (i ∷ frees) = frees

fewer : {n m : ℕ} (frees : List ℕ) → n ≡ m → All (λ i. i < n) frees → All (λ i. i < m) frees
fewer frees e a = rw (← e) a

wrapped_up : (u n l : ℕ) → u + suc n ≡ l → l < 2 ^ 64 → (u + 1) % 2 ^ 64 + n ≡ l
wrapped_up u n l e b = ground (arith, mod-eq_of_lt {n = u + 1} {m = 2 ^ 64})

wrapped_down : (u n l : ℕ) → u + n ≡ l → n < l → l < 2 ^ 64 → (u + 2 ^ 64 - 1) % 2 ^ 64 + suc n ≡ l
wrapped_down u n l e q b = omega arith

pub allocate-lem :
    (p : OrderPool) (frees : List ℕ)
    → IsFree p frees
    → ((allocate p).1 ≡ first frees) × IsFree (allocate p).0 (rest frees)
unfolding allocate first rest IsChain
allocate-lem p [] f = rw (allocate, f.chain) (refl, f)
allocate-lem p (i ∷ frees) f =
    let (e, c) = f.chain in
    let (a, d) = f.distinct in
    let (l, ls) = f.inside in
    let o = get_order i p in
    let o' = record o { next_free = none; prev_idx = none; next_idx = none; qty = 0 } in
    rw (allocate, e)
      (
        refl,
        record {
          chain = set-IsChain p.orders o.next_free frees i o' a c;
          distinct = d;
          inside = fewer frees (sym (length-set p.orders i o')) ls;
          counted =
              wrapped_up p.used_count (length frees) _ (f.counted ∙ sym (length-set p.orders i o'))
                (omega (arith, f.small, length-set p.orders i o'));
          small = omega (arith, f.small, length-set p.orders i o');
        },
      )

pub release-lem :
    (p : OrderPool) (frees : List ℕ) (i : ℕ)
    → IsFree p frees
    → i < length p.orders
    → contains i frees ≡ false
    → IsFree (release i p) (i ∷ frees)
unfolding release IsChain
release-lem p frees i f l a =
    let o = record (get_order i p) { next_free = p.free_head } in
    let same = length-set p.orders i o in
    let room = pigeonhole (length p.orders) (i ∷ frees) (a, f.distinct) (l, f.inside) in
    let head : (get_or (set p.orders i o) i no_order).next_free ≡ p.free_head =
      ap (λ (x : Order). x.next_free) (get_or-set_self p.orders i o no_order l) in
    record {
      chain = (refl, rw head (set-IsChain p.orders p.free_head frees i o a f.chain));
      distinct = (a, f.distinct);
      inside = (rw same l, fewer frees (sym same) f.inside);
      counted =
          wrapped_down p.used_count (length frees) _ (f.counted ∙ sym same) (omega (arith, same))
            (omega (arith, f.small, same));
      small = omega (arith, f.small, same);
    }
