-- ===== src/Tests/Lockfree.antt =====
-- Tests and witnesses of the queues between threads.
use wirekrak.Common.{
  ℕ, ◌≡◌, refl, true, false, List, [], ◌∷◌, some, arith, ◌≤◌, ◌+◌, ltb, leb, length,
}
use wirekrak.Lockfree.Spsc.{
  new_core, looks_full, looks_empty, load_tail, load_head, write, publish_head, publish_tail,
}
use wirekrak.Lockfree.Spsc.{has_free_slots, has_available, push, pop}
use wirekrak.Lockfree.Spsc.Alone.{has_free_slots-held}
use wirekrak.Lockfree.Ring.{SpscRing}
use wirekrak.Lockfree.Ring.Slots
use wirekrak.Lockfree.Ring.Slots.{produce-push}
use wirekrak.Lockfree.Spsc.Threads.{
  Producer, Consumer, Machine, Turn, produce, consume, silent, pushed, popped, produce_step,
  consume_step, take_turn, returns,
}
use wirekrak.Lockfree.Spsc.State.{IsValid, IsProducer, IsConsumer, AreValid, held}
use wirekrak.Lockfree.Spsc.Linear.{AreAnswers, returns-AreAnswers}
use wirekrak.Lockfree.Spsc.WaitFree.{left_to_push, has_pushed, producer_turns, returns-has_pushed}

-- A ring of two places, of which one can be taken, with both threads at rest.
abbrev two_threads : Machine ℕ
two_threads = record {
  core = new_core 2 0;
  producer = Producer.at_rest;
  consumer = Consumer.at_rest;
}

-- A push of 5, a push of 6 that finds the ring full, and a pop, of which the consumer begins while the
-- first push is not yet published.
abbrev schedule : List (Turn ℕ)
schedule =
    produce 5
    ∷ produce 5
    ∷ consume
    ∷ produce 5
    ∷ produce 6
    ∷ consume
    ∷ produce 6
    ∷ consume
    ∷ consume
    ∷ []

schedule-returns :
    returns 2 0 schedule two_threads
    ≡ silent
      ∷ silent
      ∷ silent
      ∷ pushed 5 true
      ∷ silent
      ∷ silent
      ∷ pushed 6 false
      ∷ silent
      ∷ popped (some 5)
      ∷ []
unfolding returns take_turn produce_step consume_step new_core looks_full looks_empty load_tail
    load_head write publish_head publish_tail
schedule-returns = refl

at_rest-AreValid : AreValid 0 2 two_threads.producer two_threads.consumer two_threads.core
unfolding AreValid IsValid IsProducer IsConsumer new_core
at_rest-AreValid =
    ((refl, omega arith, omega arith, omega arith, omega arith, omega arith, omega arith), tt, tt)

returns-AreAnswers_example :
    AreAnswers 0 2 (returns 2 0 schedule two_threads) (held 0 2 two_threads.core)
returns-AreAnswers_example = returns-AreAnswers 0 2 schedule two_threads at_rest-AreValid

enough_turns : left_to_push 0 2 two_threads.producer ≤ producer_turns 0 2 schedule
unfolding left_to_push producer_turns
enough_turns = omega arith

returns-has_pushed_example : has_pushed 0 2 (returns 2 0 schedule two_threads) ≡ true
returns-has_pushed_example = returns-has_pushed 0 2 schedule two_threads enough_turns

has_free_slots-held_example :
    ((has_free_slots 2 1 two_threads.core).1 ≡ ltb (length (held 0 2 two_threads.core) + 1) 2)
    × ((has_available 2 1 two_threads.core).1 ≡ leb 1 (length (held 0 2 two_threads.core)))
unfolding AreValid
has_free_slots-held_example = has_free_slots-held 0 2 two_threads.core at_rest-AreValid.0 1

produce-push_example :
    let r : SpscRing ℕ = record {
      core = two_threads.core;
      producer_slot_acquired = false;
      consumer_slot_acquired = false;
    } in
    let (fuller, ok) = push 2 7 two_threads.core in
    let (emptier, out) = pop 2 0 two_threads.core in
    (Slots.produce 2 7 r ≡ some (record r { core = fuller }, ok))
    × (Slots.consume 2 0 r ≡ some (record r { core = emptier }, out))
produce-push_example = produce-push 2 0 7 two_threads.core
