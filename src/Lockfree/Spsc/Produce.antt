-- ===== src/Lockfree/Spsc/Produce.antt =====
-- The steps of the producer.
use wirekrak.Common.{
  ℕ, suc, ◌<◌, ◌≡◌, refl, sym, ap, ◌∙◌, Bool, true, false, List, [], ◌∷◌, ◌++◌, ◌==◌, if◌then◌else◌,
  length, length-set, set, get_or-set_self, get_or-set_ne, ◌≢◌, arith,
}
use wirekrak.Local.Ring.Positions.{distance, window, length-window}
use wirekrak.Local.Ring.Refine.{put_in}
use wirekrak.Lockfree.Spsc.{Core, next_slot, load_tail, looks_full, write, publish_head}
use wirekrak.Lockfree.Spsc.Threads.{
  Producer, Consumer, Event, silent, pushed, writing, publishing, reading, releasing, produce_step,
}
use wirekrak.Lockfree.Spsc.Positions.{
  next_slot-lt, room, no_room, distance-next, window-set_outside, window-suc,
}
use wirekrak.Lockfree.Spsc.State.{IsProducer, IsConsumer, held, Answers, AreValid}

module _ {T : Type 0} (blank : T) (capacity : ℕ) where
  -- A step of the producer, beside a consumer.
  unfoldable pub IsProduced : Consumer T → Core T → Core T × Producer T × Event T → Type 0
  unfolding AreValid Answers held
  IsProduced q c (c', p, e) =
      AreValid blank capacity p q c'
      × Answers blank capacity e (held blank capacity c) (held blank capacity c')

  if-IsProduced :
      (b : Bool) (q : Consumer T) (c : Core T) (x y : Core T × Producer T × Event T)
      → (b ≡ true → IsProduced q c x)
      → (b ≡ false → IsProduced q c y)
      → IsProduced q c (if b then x else y)
  if-IsProduced true q c x y f g = f refl
  if-IsProduced false q c x y f g = g refl

  start :
      (b : Bool) (x : T) (buffer : List T) (head head_cache : ℕ)
      → (b ≡ false → suc (distance capacity head_cache head) < capacity)
      → IsProducer blank capacity
          (if b then Producer.loading x else writing x)
          buffer
          head
          head_cache
  unfolding IsProducer
  start true x buffer head head_cache f = tt
  start false x buffer head head_cache f = f refl

  -- A consumer does not see the write of the producer.
  beside_write :
      (q : Consumer T) (x : T) (buffer : List T) (head tail tail_cache : ℕ)
      → (0 < distance capacity tail tail_cache → head ≢ tail)
      → IsConsumer blank capacity q buffer tail tail_cache
      → IsConsumer blank capacity q (set buffer head x) tail tail_cache
  unfolding IsConsumer
  beside_write Consumer.at_rest x buffer head tail tail_cache f k = k
  beside_write Consumer.loading x buffer head tail tail_cache f k = k
  beside_write reading x buffer head tail tail_cache f k = k
  beside_write (releasing y) x buffer head tail tail_cache f (k, same) =
      (k, get_or-set_ne buffer x blank (f k) ∙ same)

  pub refused :
      (x : T) (xs : List T) → suc (length xs) ≡ capacity → (xs, false) ≡ put_in capacity x xs
  unfolding put_in
  refused x xs e =
      sym
        (ap (λ b. if b then (xs ++ x ∷ [], true) else (xs, false)) {y = false} (ground (arith, e)))

  accepted :
      (x : T) (xs : List T)
      → suc (length xs) < capacity
      → (xs ++ x ∷ [], true) ≡ put_in capacity x xs
  unfolding put_in
  accepted x xs e =
      sym (ap (λ b. if b then (xs ++ x ∷ [], true) else (xs, false)) {y = true} (ground (arith, e)))

  pub produce_step-IsProduced :
      (item : T) (p : Producer T) (q : Consumer T) (c : Core T)
      → AreValid blank capacity p q c
      → IsProduced q c (produce_step capacity item p c)
  unfolding IsProduced produce_step looks_full write load_tail publish_head
  produce_step-IsProduced item Producer.at_rest q c ((l, h, t, hc, tc, lag, lag'), w, k) = (
    (
      (l, h, t, hc, tc, lag, lag'),
      start (next_slot capacity c.head == c.head_cache) item c.buffer c.head c.head_cache
          (λ e. room capacity c.head_cache c.head hc h e),
      k,
    ),
    refl,
  )
  produce_step-IsProduced item (Producer.loading x) q c ((l, h, t, hc, tc, lag, lag'), w, k) =
      if-IsProduced (next_slot capacity c.head == c.tail) q c
        (load_tail capacity c, Producer.at_rest, pushed x false)
        (load_tail capacity c, writing x, silent)
        (λ e. (
          ((l, h, t, t, tc, omega arith, lag'), tt, k),
          refused x (held blank capacity c) (
              ap suc
                (length-window blank capacity c.buffer c.tail (distance capacity c.tail c.head))
              ∙ no_room capacity c.tail c.head t h e),
        ))
        (λ e. (((l, h, t, t, tc, omega arith, lag'), room capacity c.tail c.head t h e, k), refl))
  produce_step-IsProduced item (writing x) q c ((l, h, t, hc, tc, lag, lag'), w, k) = (
    (
      (length-set c.buffer c.head x ∙ l, h, t, hc, tc, lag, lag'),
      (w, get_or-set_self c.buffer c.head x blank (omega (arith, h, l))),
      beside_write q x c.buffer c.head c.tail c.tail_cache (λ z. ground (arith, z, lag', h, t)) k,
    ),
    window-set_outside blank capacity x c.buffer c.tail c.head (distance capacity c.tail c.head) t h
        (omega arith),
  )
  produce_step-IsProduced item (publishing x) q c ((l, h, t, hc, tc, lag, lag'), (w, same), k) =
      let d = distance capacity c.tail c.head in
      let near : suc d < capacity = omega (arith, w, lag) in
      let longer = distance-next capacity c.tail c.head t h near in
      (
        (
          (
            l,
            next_slot-lt capacity c.head c.head h h,
            t,
            hc,
            tc,
            omega (arith, longer, distance-next capacity c.head_cache c.head hc h w, lag),
            omega (arith, longer, lag'),
          ),
          tt,
          k,
        ),
        ap (λ ys. (ys, true))
              (ap (window blank capacity c.buffer c.tail) longer
                ∙ window-suc blank capacity c.buffer c.tail c.head d t h refl
                ∙ ap (λ y. held blank capacity c ++ y ∷ []) same)
            ∙ accepted x (held blank capacity c)
                (omega (arith, near, length-window blank capacity c.buffer c.tail d)),
      )
