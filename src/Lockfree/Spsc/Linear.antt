-- ===== src/Lockfree/Spsc/Linear.antt =====
-- The calls of the two threads answer as those of a bounded queue, one after the other.
use wirekrak.Common.{ℕ, ◌≡◌, ap, subst, Bool, List, [], ◌∷◌, Option}
use wirekrak.Local.Ring.Refine.{put_in, take_out}
use wirekrak.Lockfree.Spsc.Threads.{
  Machine, Turn, produce, consume, Event, silent, pushed, popped, produce_step, consume_step,
  take_turn, returns,
}
use wirekrak.Lockfree.Spsc.State.{held, Answers, AreValid}
use wirekrak.Lockfree.Spsc.Produce.{IsProduced, produce_step-IsProduced}
use wirekrak.Lockfree.Spsc.Consume.{IsConsumed, consume_step-IsConsumed}

module _ {T : Type 0} (blank : T) (capacity : ℕ) where
  -- The returns are those of a queue of at most one element less than the capacity, each call taking
  -- effect where it returns.
  unfoldable pub AreAnswers : List (Event T) → List T → Type 0
  unfolding put_in take_out
  AreAnswers [] xs = Unit
  AreAnswers (silent ∷ es) xs = AreAnswers es xs
  AreAnswers (pushed x ok ∷ es) xs =
      (ok ≡ (put_in capacity x xs).1) × AreAnswers es (put_in capacity x xs).0
  AreAnswers (popped out ∷ es) xs = (out ≡ (take_out xs).1) × AreAnswers es (take_out xs).0

  answered :
      (e : Event T) (es : List (Event T)) (xs xs' : List T)
      → Answers blank capacity e xs xs'
      → AreAnswers es xs'
      → AreAnswers (e ∷ es) xs
  unfolding Answers AreAnswers
  answered silent es xs xs' a r = subst (AreAnswers es) a r
  answered (pushed x ok) es xs xs' a r = (
    ap (λ (y : List T × Bool). y.1) a,
    subst (AreAnswers es) (ap (λ (y : List T × Bool). y.0) a) r,
  )
  answered (popped out) es xs xs' a r = (
    ap (λ (y : List T × Option T). y.1) a,
    subst (AreAnswers es) (ap (λ (y : List T × Option T). y.0) a) r,
  )

  -- Whatever the order in which the two threads run, the returns of their calls are those of a bounded
  -- queue of the elements between the indices.
  pub returns-AreAnswers :
      (turns : List (Turn T)) (m : Machine T)
      → AreValid blank capacity m.producer m.consumer m.core
      → AreAnswers (returns capacity blank turns m) (held blank capacity m.core)
  unfolding returns take_turn AreAnswers IsProduced IsConsumed
  returns-AreAnswers [] m v = tt
  returns-AreAnswers (produce item ∷ turns) m v =
      let (c, p, e) = produce_step capacity item m.producer m.core in
      let (v', a) = produce_step-IsProduced blank capacity item m.producer m.consumer m.core v in
      answered e (returns capacity blank turns (record m { core = c; producer = p }))
        (held blank capacity m.core) (held blank capacity c) a
        (returns-AreAnswers turns (record m { core = c; producer = p }) v')
  returns-AreAnswers (consume ∷ turns) m v =
      let (c, q, e) = consume_step capacity blank m.consumer m.core in
      let (v', a) = consume_step-IsConsumed blank capacity m.producer m.consumer m.core v in
      answered e (returns capacity blank turns (record m { core = c; consumer = q }))
        (held blank capacity m.core) (held blank capacity c) a
        (returns-AreAnswers turns (record m { core = c; consumer = q }) v')
