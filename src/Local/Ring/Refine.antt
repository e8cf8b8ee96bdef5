-- ===== src/Local/Ring/Refine.antt =====
-- A ring is the bounded queue of the elements between its tail and its head, of which it holds one
-- fewer than its capacity.
use wirekrak.Common.{
  ℕ, suc, ◌+◌, ◌-◌, ◌*◌, ◌%◌, ◌^◌, ◌≡◌, refl, sym, ap, ◌∙◌, Bool, true, false, not, ◌&&◌, List, [],
  ◌∷◌, ◌++◌, ◌==◌, ltb, leb, if◌then◌else◌, length, get_or, set, length-set, arith, Option, none,
  some, Bool-cases, inl, inr,
}
use native.Mathlib.Nat.{mul-suc, mod-eq_of_lt, mul-add-mod_self_left}
use wirekrak.Local.Ring.{
  Ring, acquire_producer_slot, write_slot, commit_producer_slot, peek_consumer_slot,
  release_consumer_slot, size, clear, push, pop, next_index,
}
use wirekrak.Local.Ring.Positions.{step_lem, distance, window, length-window, window-set}

-- A call of a queue.
pub data Op {ℓ} (T : Type ℓ) : Type ℓ where
  put : T → Op T
  take : Op T

module _ {ℓ} {T : Type ℓ} where
  -- The queue that a ring of the capacity stands for, and the answers of its calls.
  unfoldable pub put_in : ℕ → T → List T → List T × Bool
  put_in capacity x xs =
      if ltb (suc (length xs)) capacity then (xs ++ x ∷ [], true) else (xs, false)

  unfoldable pub take_out : List T → List T × Option T
  take_out [] = ([], none)
  take_out (x ∷ xs) = (xs, some x)

  unfoldable pub answers : ℕ → List (Op T) → List T → List (Bool × Option T)
  unfolding put_in take_out
  answers capacity [] xs = []
  answers capacity (put x ∷ ops) xs =
      let (xs', ok) = put_in capacity x xs in (ok, none) ∷ answers capacity ops xs'
  answers capacity (take ∷ ops) xs =
      let (xs', out) = take_out xs in (true, out) ∷ answers capacity ops xs'

module _ {ℓ} {T : Type ℓ} (blank : T) (capacity : ℕ) where
  unfoldable pub is_valid : Ring T → Bool
  is_valid r = (length r.buffer == capacity) && ltb r.head capacity && ltb r.tail capacity

  unfoldable pub contents : Ring T → List T
  contents r = window blank capacity r.buffer r.tail (distance capacity r.tail r.head)

  pub length-contents : (r : Ring T) → length (contents r) ≡ distance capacity r.tail r.head
  unfolding contents
  length-contents r = length-window blank capacity r.buffer r.tail _

  -- The same calls on a ring, with their answers.
  unfoldable pub run : List (Op T) → Ring T → List (Bool × Option T)
  run [] r = []
  run (put x ∷ ops) r = let (r', ok) = push capacity x r in (ok, none) ∷ run ops r'
  run (take ∷ ops) r = let (r', out) = pop capacity blank r in (true, out) ∷ run ops r'

  push-is_valid : (x : T) (r : Ring T) → is_valid r ≡ true → is_valid (push capacity x r).0 ≡ true
  unfolding is_valid push
  push-is_valid x r v = ground (arith, length-set r.buffer r.head x)

  pop-is_valid : (r : Ring T) → is_valid r ≡ true → is_valid (pop capacity blank r).0 ≡ true
  unfolding is_valid pop
  pop-is_valid r v = ground arith

  -- The ring is full when one more element would take all its places.
  has_room :
      (r : Ring T)
      → is_valid r ≡ true
      → ltb (suc (length (contents r))) capacity ≡ not (next_index capacity r.head == r.tail)
  unfolding is_valid
  has_room r v = ground (arith, length-contents r, step_lem capacity r.head)

  pushed :
      (x : T) (r : Ring T)
      → is_valid r ≡ true
      → (next_index capacity r.head == r.tail) ≡ false
      → contents (record r { buffer = set r.buffer r.head x; head = next_index capacity r.head })
        ≡ contents r ++ x ∷ []
  unfolding is_valid contents
  pushed x r v e =
      ap (window blank capacity (set r.buffer r.head x) r.tail)
        (ground (arith, step_lem capacity r.head))
      ∙ window-set blank capacity x r.buffer r.tail r.head (distance capacity r.tail r.head)
          (ground arith) (ground arith) (ground arith) refl

  emptied : (r : Ring T) → is_valid r ≡ true → (r.tail == r.head) ≡ true → contents r ≡ []
  unfolding is_valid contents window
  emptied r v e = ap (window blank capacity r.buffer r.tail) {y = 0} (ground arith)

  popped :
      (r : Ring T)
      → is_valid r ≡ true
      → (r.tail == r.head) ≡ false
      → contents r
        ≡ get_or r.buffer r.tail blank ∷ contents (record r { tail = next_index capacity r.tail })
  unfolding is_valid contents window
  popped r v e =
      let rest = distance capacity (next_index capacity r.tail) r.head in
      ap (window blank capacity r.buffer r.tail) {y = suc rest}
        (ground (arith, step_lem capacity r.tail))
      ∙ ap (λ i. get_or r.buffer r.tail blank ∷ window blank capacity r.buffer i rest)
          (sym (step_lem capacity r.tail (ground arith)))

  push-contents :
      (x : T) (r : Ring T)
      → is_valid r ≡ true
      → let (r', ok) = push capacity x r in (contents r', ok) ≡ put_in capacity x (contents r)
  unfolding push put_in
  push-contents x r v = elim (Bool-cases (next_index capacity r.head == r.tail)) [
    | inl e ↦ rw (push, put_in, has_room r v, e) refl
    | inr e ↦ rw (push, put_in, has_room r v, e, pushed x r v e) refl
  ]

  pop-contents :
      (r : Ring T)
      → is_valid r ≡ true
      → let (r', out) = pop capacity blank r in (contents r', out) ≡ take_out (contents r)
  unfolding pop take_out
  pop-contents r v = elim (Bool-cases (r.tail == r.head)) [
    | inl e ↦ rw (e, pop, emptied r v e) refl
    | inr e ↦ rw (e, pop, popped r v e) refl
  ]

  -- On a valid ring every sequence of pushes and pops gives the answers of the bounded queue of
  -- its elements.
  pub run-answers :
      (ops : List (Op T)) (r : Ring T)
      → is_valid r ≡ true
      → run ops r ≡ answers capacity ops (contents r)
  unfolding run answers
  run-answers [] r v = refl
  run-answers (put x ∷ ops) r v = rw (← push-contents x r v) (
      ap (λ rest. ((push capacity x r).1, none) ∷ rest)
        (run-answers ops (push capacity x r).0 (push-is_valid x r v)))
  run-answers (take ∷ ops) r v = rw (← pop-contents r v) (
      ap (λ rest. (true, (pop capacity blank r).1) ∷ rest)
        (run-answers ops (pop capacity blank r).0 (pop-is_valid r v)))

  -- `size` is the number of elements, where the capacity divides the range of `size_t`.
  pub size-contents :
      (r : Ring T) (m : ℕ)
      → is_valid r ≡ true
      → capacity * suc m ≡ 2 ^ 64
      → size capacity r ≡ length (contents r)
  unfolding is_valid size
  size-contents r m v e = elim (Bool-cases (leb r.tail r.head)) [
    | inl l ↦
        ap (λ k. k % capacity) {y = r.head - r.tail} (ground (arith, mul-suc capacity m))
        ∙ mod-eq_of_lt {n = r.head - r.tail} {m = capacity} (ground arith)
        ∙ ground (arith, length-contents r)
    | inr l ↦
        ap (λ k. k % capacity) {y = capacity * m + (r.head + capacity - r.tail)}
          (ground (arith, mul-suc capacity m))
        ∙ mul-add-mod_self_left capacity m (r.head + capacity - r.tail)
        ∙ mod-eq_of_lt {n = r.head + capacity - r.tail} {m = capacity} (ground arith)
        ∙ ground (arith, length-contents r)
  ]

  -- `clear` empties the ring.
  clear-contents : (r : Ring T) → contents (clear capacity r) ≡ []
  unfolding contents clear window
  clear-contents r = refl

  -- A slot that is acquired, written and committed is a push.
  pub produce-push :
      (x : T) (r : Ring T)
      → push capacity x r ≡ (elim (acquire_producer_slot capacity r) [
        | none ↦ (r, false)
        | some i ↦ (commit_producer_slot capacity (write_slot capacity i x r), true)
      ])
  unfolding push acquire_producer_slot commit_producer_slot write_slot
  produce-push x r = ground arith

  -- A slot that is peeked, read and released is a pop.
  pub consume-pop :
      (r : Ring T)
      → pop capacity blank r ≡ (elim (peek_consumer_slot capacity r) [
        | none ↦ (r, none)
        | some i ↦ (release_consumer_slot capacity r, some (get_or r.buffer i blank))
      ])
  unfolding pop peek_consumer_slot release_consumer_slot
  consume-pop r = ground arith
