-- ===== src/Lockfree/Spsc/Alone.antt =====
-- The operations of a thread while the other stands still.
use wirekrak.Common.{
  ℕ, suc, ◌+◌, ◌-◌, ◌*◌, ◌%◌, ◌<◌, ◌≡◌, refl, sym, ap, ◌∙◌, Bool, true, false, not, ◌==◌, ltb, leb,
  Option, none, some, if◌then◌else◌, length, get_or, Bool-cases, inl, inr, arith,
}
use native.Mathlib.Nat.{mod-eq_of_lt, mul-add-mod_self_left}
use wirekrak.Local.Ring.Positions.{distance, length-window}
use wirekrak.Local.Ring.Refine.{put_in, take_out}
use wirekrak.Lockfree.Spsc.{
  Core, apart, next_slot, looks_full, looks_empty, load_tail, load_head, is_full, is_empty,
  free_for, has_free_slots, available_for, has_available, write, publish_head, publish_tail, push,
  pop,
}
use wirekrak.Lockfree.Spsc.Threads.{
  Producer, Consumer, writing, publishing, reading, releasing, produce_step, consume_step,
}
use wirekrak.Lockfree.Spsc.Positions.{room, no_room}
use wirekrak.Lockfree.Spsc.State.{IsValid, IsProducer, IsConsumer, AreValid, Answers, held}
use wirekrak.Lockfree.Spsc.Produce.{IsProduced, refused, produce_step-IsProduced}
use wirekrak.Lockfree.Spsc.Consume.{IsConsumed, held-empty, consume_step-IsConsumed}

-- The difference of two indices by the mask is the way from the one to the other.
apart-distance :
    (capacity i j : ℕ) → i < capacity → j < capacity → apart capacity j i ≡ distance capacity i j
apart-distance capacity i j p q = elim (Bool-cases (leb i j)) [
  | inl e ↦
      ap (λ k. k % capacity) {y = capacity * 1 + (j - i)} (ground (arith, e, p))
      ∙ mul-add-mod_self_left capacity 1 (j - i)
      ∙ mod-eq_of_lt {n = j - i} {m = capacity} (omega (arith, q))
      ∙ ground (arith, e)
  | inr e ↦
      mod-eq_of_lt {n = j + capacity - i} {m = capacity} (ground (arith, e, p)) ∙ ground (arith, e)
]

free-distance :
    (capacity i j : ℕ)
    → i < capacity
    → j < capacity
    → apart capacity i (j + 1) + suc (distance capacity i j) ≡ capacity
free-distance capacity i j p q = elim (Bool-cases (ltb j i)) [
  | inl e ↦
      ap (λ k. k % capacity + suc (distance capacity i j)) {y = capacity * 1 + (i - (j + 1))}
        (ground (arith, e, p, q))
      ∙ ap (λ k. k + suc (distance capacity i j))
          (mul-add-mod_self_left capacity 1 (i - (j + 1))
            ∙ mod-eq_of_lt {n = i - (j + 1)} {m = capacity} (omega (arith, p)))
      ∙ ground (arith, e, p, q)
  | inr e ↦
      ap (λ k. k + suc (distance capacity i j))
        (mod-eq_of_lt {n = i + capacity - (j + 1)} {m = capacity} (ground (arith, e, p, q)))
      ∙ ground (arith, e, p, q)
]

flip : (b : Bool) → (if b then false else true) ≡ not b
flip true = refl
flip false = refl

-- A test on what may be refreshed first.
refresh :
    {A : Type 0} (f : A → ℕ) (n : ℕ) (c c' : A)
    → (if ltb (f (if ltb (f c) n then c' else c)) n then false else true)
      ≡ (if ltb (f c) n then not (ltb (f c') n) else true)
refresh f n c c' = elim (Bool-cases (ltb (f c) n)) [
  | inl e ↦ rw e (flip (ltb (f c') n))
  | inr e ↦ rw (e, e) refl
]

module _ {T : Type 0} (blank : T) (capacity : ℕ) (c : Core T) (v : IsValid blank capacity c) where
  length-held : length (held blank capacity c) ≡ distance capacity c.tail c.head
  unfolding held
  length-held = length-window blank capacity c.buffer c.tail (distance capacity c.tail c.head)

  -- The tests of a thread that stands alone are exact, though they read the other side's index only
  -- where the copy does not do: whether `n` more elements fit, and whether `n` are there.
  pub has_free_slots-held :
      (n : ℕ)
      → ((has_free_slots capacity n c).1 ≡ ltb (length (held blank capacity c) + n) capacity)
        × ((has_available capacity n c).1 ≡ leb n (length (held blank capacity c)))
  unfolding has_free_slots has_available free_for available_for load_tail load_head IsValid
  has_free_slots-held n =
      let (l, h, t, hc, tc, lag, lag') = v in
      let far = free-distance capacity c.head_cache c.head hc h in
      let near = free-distance capacity c.tail c.head t h in
      let copied = apart-distance capacity c.tail c.tail_cache t tc in
      let there = apart-distance capacity c.tail c.head t h in
      (
        refresh (free_for capacity) n c (load_tail capacity c)
            ∙ ground (arith, far, near, lag, length-held),
        refresh (available_for capacity) n c (load_head capacity c)
            ∙ ground (arith, copied, there, lag', length-held),
      )

module _ {T : Type 0} (blank : T) (capacity : ℕ) where
  -- The two steps of a push that has room, and of a pop that has an element.
  write_and_publish :
      (x : T) (c : Core T)
      → AreValid blank capacity (writing x) Consumer.at_rest c
      → (held blank capacity (publish_head capacity (write capacity x c)), true)
        ≡ put_in capacity x (held blank capacity c)
  unfolding IsProduced Answers produce_step
  write_and_publish x c v =
      let (v', kept) = produce_step-IsProduced blank capacity x (writing x) Consumer.at_rest c v in
      let (_, put) =
        produce_step-IsProduced blank capacity x (publishing x) Consumer.at_rest
          (write capacity x c) v' in
      put ∙ ap (put_in capacity x) kept

  read_and_release :
      (c : Core T)
      → AreValid blank capacity Producer.at_rest reading c
      → (held blank capacity (publish_tail capacity c), some (get_or c.buffer c.tail blank))
        ≡ take_out (held blank capacity c)
  unfolding IsConsumed Answers consume_step
  read_and_release c v =
      let (v', _) = consume_step-IsConsumed blank capacity Producer.at_rest reading c v in
      (consume_step-IsConsumed blank capacity Producer.at_rest
        (releasing (get_or c.buffer c.tail blank)) c v').1

  module _ (c : Core T) (v : IsValid blank capacity c) where
    room_by_copy :
        looks_full capacity c ≡ false → suc (distance capacity c.head_cache c.head) < capacity
    unfolding looks_full IsValid
    room_by_copy e =
        let (l, h, t, hc, tc, lag, lag') = v in room capacity c.head_cache c.head hc h e

    some_by_copy : looks_empty capacity c ≡ false → 0 < distance capacity c.tail c.tail_cache
    unfolding looks_empty IsValid
    some_by_copy e = let (l, h, t, hc, tc, lag, lag') = v in ground (arith, e, t, tc)

    push-loaded :
        (x : T)
        → let c' = load_tail capacity c in
          let r : Core T × Bool =
            if looks_full capacity c'
            then (c', false)
            else (publish_head capacity (write capacity x c'), true) in
          (held blank capacity r.0, r.1) ≡ put_in capacity x (held blank capacity c)
    unfolding IsValid AreValid IsProducer IsConsumer IsProduced Answers produce_step looks_full
        load_tail
    push-loaded x =
        let (l, h, t, hc, tc, lag, lag') = v in
        elim (Bool-cases (next_slot capacity c.head == c.tail)) [
          | inl e ↦ rw e (
              refused blank capacity x (held blank capacity c) (
                ap suc
                  (length-window blank capacity c.buffer c.tail (distance capacity c.tail c.head))
                ∙ no_room capacity c.tail c.head t h e))
          | inr e ↦ rw e (
              write_and_publish x (load_tail capacity c)
                ((l, h, t, t, tc, omega arith, lag'), room capacity c.tail c.head t h e, tt))
        ]

    pop-loaded :
        let c' = load_head capacity c in
        let r : Core T × Option T =
          if looks_empty capacity c'
          then (c', none)
          else (publish_tail capacity c', some (get_or c'.buffer c'.tail blank)) in
        (held blank capacity r.0, r.1) ≡ take_out (held blank capacity c)
    unfolding IsValid AreValid IsProducer IsConsumer IsConsumed Answers looks_empty load_head
        take_out
    pop-loaded =
        let (l, h, t, hc, tc, lag, lag') = v in
        elim (Bool-cases (c.tail == c.head)) [
          | inl e ↦ rw e (
              ap (λ xs. (xs, none)) (held-empty blank capacity c e)
              ∙ sym (ap take_out (held-empty blank capacity c e)))
          | inr e ↦ rw e (
              read_and_release (load_head capacity c)
                ((l, h, t, hc, h, lag, omega arith), tt, ground (arith, e, t, h)))
        ]

    -- A push and a pop that run alone are those of the bounded queue of the elements between the indices,
    -- whatever the copies of the indices are.
    pub push-put_in :
        (x : T)
        → let (pushed, ok) = push capacity x c in
          let (popped, out) = pop capacity blank c in
          ((held blank capacity pushed, ok) ≡ put_in capacity x (held blank capacity c))
          × ((held blank capacity popped, out) ≡ take_out (held blank capacity c))
    unfolding push pop is_full is_empty IsValid AreValid IsProducer IsConsumer
    push-put_in x =
        let (l, h, t, hc, tc, lag, lag') = v in
        (
          elim (Bool-cases (looks_full capacity c)) [
            | inl e ↦ rw e (push-loaded x)
            | inr e ↦ rw e (write_and_publish x c (v, room_by_copy e, tt))
          ],
          elim (Bool-cases (looks_empty capacity c)) [
            | inl e ↦ rw e pop-loaded
            | inr e ↦ rw e (read_and_release c (v, tt, some_by_copy e))
          ],
        )
