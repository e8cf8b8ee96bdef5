-- ===== src/Flashstrike/Pool/Runs.antt =====
-- A new pool, and what sequences of calls on it answer.
use wirekrak.Common.{
  ℕ, zero, suc, ◌+◌, ◌^◌, ◌<◌, ◌≤◌, ◌≡◌, refl, ap, ◌∙◌, false, ◌&&◌, List, [], ◌∷◌, Option, none,
  some, ◌==◌, ltb, leb, length, get_or, if◌then◌else◌, arith, contains, All, Option-cases, inl, inr,
  length-set,
}
use mathlib.Core.Path.{ap₂}
use wirekrak.Flashstrike.Pool.{OrderPool, no_order, link, new_pool, allocate, release}
use wirekrak.Flashstrike.Pool.FreeList.{IsChain, IsDistinct, upward}
use wirekrak.Flashstrike.Pool.Laws.{IsFree, first, rest, allocate-lem, release-lem}

length-link : (n i : ℕ) → length (link n i) ≡ suc n
unfolding link
length-link zero i = refl
length-link (suc n) i = ap suc (length-link n (i + 1))

next_free-link :
    (n i j : ℕ)
    → (get_or (link n i) j no_order).next_free
      ≡ (if ltb j n then some (i + j + 1) else if j == n then none else some 0)
unfolding link
next_free-link zero i zero = refl
next_free-link zero i (suc j) = ground arith
next_free-link (suc n) i zero = ground arith
next_free-link (suc n) i (suc j) = ground (arith, next_free-link n (i + 1) j)

link-IsChain : (n k i : ℕ) → i + k ≡ n → IsChain (link n 0) (some i) (upward k i)
unfolding IsChain upward
link-IsChain n zero i e = (refl, ground (arith, next_free-link n 0 i))
link-IsChain n (suc k) i e =
    let next : (get_or (link n 0) i no_order).next_free ≡ some (i + 1) =
      ground (arith, next_free-link n 0 i) in
    (refl, rw next (link-IsChain n k (i + 1) (omega arith)))

contains-upward : (a k i : ℕ) → contains a (upward k i) ≡ (leb i a && leb a (i + k))
unfolding contains upward
contains-upward a zero i = ground arith
contains-upward a (suc k) i = ground (arith, contains-upward a k (i + 1))

upward-IsDistinct : (k i : ℕ) → IsDistinct (upward k i)
unfolding upward contains
upward-IsDistinct zero i = (refl, tt)
upward-IsDistinct (suc k) i =
    (ground (arith, contains-upward i k (i + 1)), upward-IsDistinct k (i + 1))

upward-below : (k i n : ℕ) → i + k < n → All (λ j. j < n) (upward k i)
unfolding upward
upward-below zero i n l = (omega arith, tt)
upward-below (suc k) i n l = (omega arith, upward-below k (i + 1) n (omega arith))

length-upward : (k i : ℕ) → length (upward k i) ≡ suc k
unfolding upward
length-upward zero i = refl
length-upward (suc k) i = ap suc (length-upward k (i + 1))

new_pool-IsFree : (n : ℕ) → suc n < 2 ^ 64 → IsFree (new_pool n) (upward n 0)
unfolding new_pool
new_pool-IsFree n b = record {
  chain = link-IsChain n n 0 (omega arith);
  distinct = upward-IsDistinct n 0;
  inside = upward-below n 0 _ (omega (arith, length-link n 0));
  counted = omega (arith, length-upward n 0, length-link n 0);
  small = omega (arith, b, length-link n 0);
}

-- A call on a pool.
pub data Call : Type 0 where
  allocation : Call
  release_of : ℕ → Call

-- The calls on a pool, with the index that each allocation gives, and the pool after them.
unfoldable pub run : List Call → OrderPool → List (Option ℕ) × OrderPool
run [] p = ([], p)
run (allocation ∷ calls) p =
    let (p', order_idx) = allocate p in
    let (answers, p'') = run calls p' in (order_idx ∷ answers, p'')
run (release_of i ∷ calls) p = run calls (release i p)

-- The same on the stack of the free indices.
unfoldable pub answer : List Call → List ℕ → List (Option ℕ) × List ℕ
unfolding first rest
answer [] frees = ([], frees)
answer (allocation ∷ calls) frees =
    let (answers, frees') = answer calls (rest frees) in (first frees ∷ answers, frees')
answer (release_of i ∷ calls) frees = answer calls (i ∷ frees)

-- Only orders of the pool that are not free are released.
abbrev pub IsLegal : ℕ → List Call → List ℕ → Type 0
IsLegal capacity [] frees = Unit
IsLegal capacity (allocation ∷ calls) frees = IsLegal capacity calls (rest frees)
IsLegal capacity (release_of i ∷ calls) frees =
    (i < capacity) × (contains i frees ≡ false) × IsLegal capacity calls (i ∷ frees)

length-allocate : (p : OrderPool) → length (allocate p).0.orders ≡ length p.orders
unfolding allocate
length-allocate p = elim (Option-cases p.free_head) [
  | inl e ↦ rw (allocate, e) refl
  | inr (i, e) ↦ rw (allocate, e) (length-set p.orders i _)
]

length-release : (i : ℕ) (p : OrderPool) → length (release i p).orders ≡ length p.orders
unfolding release
length-release i p = length-set p.orders i _

-- The calls answer as the stack of the free indices does,
-- and the pool's list of free orders is that stack.
run-answer :
    (capacity : ℕ) (calls : List Call) (p : OrderPool) (frees : List ℕ)
    → IsFree p frees
    → length p.orders ≡ capacity
    → IsLegal capacity calls frees
    → ((run calls p).0 ≡ (answer calls frees).0) × IsFree (run calls p).1 (answer calls frees).1
unfolding run answer
run-answer capacity [] p frees f e legal = (refl, f)
run-answer capacity (allocation ∷ calls) p frees f e legal =
    let (given, f') = allocate-lem p frees f in
    let (same, f'') =
      run-answer capacity calls (allocate p).0 (rest frees) f' (length-allocate p ∙ e) legal in
    (ap₂ ◌∷◌ given same, f'')
run-answer capacity (release_of i ∷ calls) p frees f e (l, a, legal) =
    run-answer capacity calls (release i p) (i ∷ frees)
      (release-lem p frees i f (omega (arith, e, l)) a) (length-release i p ∙ e) legal

-- Legal calls on a new pool of `n` and one more orders, at most 2 ^ 31, answer as a stack of the free indices that
-- holds them upwards from 0, and the free orders afterwards are those on the stack, each once: no
-- order is handed out again before it is released.
pub new_pool-answer :
    (n : ℕ) (calls : List Call)
    → suc n ≤ 2 ^ 31
    → IsLegal (suc n) calls (upward n 0)
    → ((run calls (new_pool n)).0 ≡ (answer calls (upward n 0)).0)
      × IsFree (run calls (new_pool n)).1 (answer calls (upward n 0)).1
unfolding new_pool
new_pool-answer n calls b legal =
    run-answer (suc n) calls (new_pool n) (upward n 0) (new_pool-IsFree n (omega arith))
      (length-link n 0) legal
