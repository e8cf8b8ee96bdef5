-- ===== src/Lockfree/Spsc/Consume.antt =====
-- The steps of the consumer.
use wirekrak.Common.{
  ℕ, suc, ◌<◌, ◌≡◌, refl, sym, ap, ◌∙◌, Bool, true, false, List, [], ◌∷◌, none, ◌==◌, if◌then◌else◌,
  get_or, arith,
}
use wirekrak.Local.Ring.Positions.{distance, window, step_lem}
use wirekrak.Local.Ring.Refine.{take_out}
use wirekrak.Lockfree.Spsc.{Core, next_slot, load_head, looks_empty, publish_tail}
use wirekrak.Lockfree.Spsc.Threads.{
  Producer, Consumer, Event, silent, popped, reading, releasing, consume_step,
}
use wirekrak.Lockfree.Spsc.Positions.{next_slot-lt, distance-after}
use wirekrak.Lockfree.Spsc.State.{IsConsumer, held, Answers, AreValid}

module _ {T : Type 0} (blank : T) (capacity : ℕ) where
  -- A step of the consumer, beside a producer.
  unfoldable pub IsConsumed : Producer T → Core T → Core T × Consumer T × Event T → Type 0
  unfolding AreValid Answers held
  IsConsumed p c (c', q, e) =
      AreValid blank capacity p q c'
      × Answers blank capacity e (held blank capacity c) (held blank capacity c')

  if-IsConsumed :
      (b : Bool) (p : Producer T) (c : Core T) (x y : Core T × Consumer T × Event T)
      → (b ≡ true → IsConsumed p c x)
      → (b ≡ false → IsConsumed p c y)
      → IsConsumed p c (if b then x else y)
  if-IsConsumed true p c x y f g = f refl
  if-IsConsumed false p c x y f g = g refl

  begin :
      (b : Bool) (buffer : List T) (tail tail_cache : ℕ)
      → (b ≡ false → 0 < distance capacity tail tail_cache)
      → IsConsumer blank capacity (if b then Consumer.loading else reading) buffer tail tail_cache
  unfolding IsConsumer
  begin true buffer tail tail_cache f = tt
  begin false buffer tail tail_cache f = f refl

  pub held-empty : (c : Core T) → (c.tail == c.head) ≡ true → held blank capacity c ≡ []
  unfolding held window
  held-empty c e = ap (window blank capacity c.buffer c.tail) {y = 0} (ground (arith, e))

  held-first :
      (c : Core T)
      → c.head < capacity
      → c.tail < capacity
      → 0 < distance capacity c.tail c.head
      → held blank capacity c
        ≡ get_or c.buffer c.tail blank ∷ held blank capacity (publish_tail capacity c)
  unfolding held window publish_tail
  held-first c h t z =
      let rest = distance capacity (next_slot capacity c.tail) c.head in
      ap (window blank capacity c.buffer c.tail) {y = suc rest}
        (sym (distance-after capacity c.tail c.head t h z))
      ∙ ap (λ i. get_or c.buffer c.tail blank ∷ window blank capacity c.buffer i rest)
          (sym (step_lem capacity c.tail t))

  pub consume_step-IsConsumed :
      (p : Producer T) (q : Consumer T) (c : Core T)
      → AreValid blank capacity p q c
      → IsConsumed p c (consume_step capacity blank q c)
  unfolding IsConsumed consume_step looks_empty load_head publish_tail take_out
  consume_step-IsConsumed p Consumer.at_rest c ((l, h, t, hc, tc, lag, lag'), w, k) = (
    (
      (l, h, t, hc, tc, lag, lag'),
      w,
      begin (c.tail == c.tail_cache) c.buffer c.tail c.tail_cache (λ e. ground (arith, e, t, tc)),
    ),
    refl,
  )
  consume_step-IsConsumed p Consumer.loading c ((l, h, t, hc, tc, lag, lag'), w, k) =
      if-IsConsumed (c.tail == c.head) p c (load_head capacity c, Consumer.at_rest, popped none)
        (load_head capacity c, reading, silent)
        (λ e. (
          ((l, h, t, hc, h, lag, omega arith), w, tt),
          ap (λ xs. (xs, none)) (held-empty c e) ∙ sym (ap take_out (held-empty c e)),
        ))
        (λ e. (((l, h, t, hc, h, lag, omega arith), w, ground (arith, e, t, h)), refl))
  consume_step-IsConsumed p reading c ((l, h, t, hc, tc, lag, lag'), w, k) =
      (((l, h, t, hc, tc, lag, lag'), w, (k, refl)), refl)
  consume_step-IsConsumed p (releasing x) c ((l, h, t, hc, tc, lag, lag'), w, (k, same)) =
      let some_held : 0 < distance capacity c.tail c.head = omega (arith, k, lag') in
      let first =
        held-first c h t some_held
        ∙ ap (λ y. y ∷ held blank capacity (publish_tail capacity c)) same in
      let shorter = distance-after capacity c.tail c.head t h some_held in
      (
        (
          (
            l,
            h,
            next_slot-lt capacity c.tail c.tail t t,
            hc,
            tc,
            omega (arith, shorter, lag),
            omega (arith, shorter, distance-after capacity c.tail c.tail_cache t tc k, lag'),
          ),
          w,
          tt,
        ),
        sym (ap take_out first),
      )
