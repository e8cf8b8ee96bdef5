-- ===== src/Lockfree/Spsc/Threads.antt =====
-- include/lcr/lockfree/spsc_queue.hpp, `push` and `pop` of two threads: the steps between which the
-- other thread may run, each with one access of an index of the other side or of the buffer. An
-- acquiring load sees all that was written before the releasing store it reads from, and a side's own
-- index is read with its step, as no other thread writes it.
use wirekrak.Common.{ℕ, Bool, true, false, List, [], ◌∷◌, Option, none, some, if◌then◌else◌, get_or}
use wirekrak.Lockfree.Spsc.{
  Core, load_tail, load_head, looks_full, looks_empty, write, publish_head, publish_tail,
}

-- Where the producer stands in `push`, with the item.
pub data Producer {ℓ} (T : Type ℓ) : Type ℓ where
  at_rest : Producer T
  loading : T → Producer T
  writing : T → Producer T
  publishing : T → Producer T

-- Where the consumer stands in `pop`.
pub data Consumer {ℓ} (T : Type ℓ) : Type ℓ where
  at_rest : Consumer T
  loading : Consumer T
  reading : Consumer T
  releasing : T → Consumer T

pub record Machine {ℓ} (T : Type ℓ) : Type ℓ where
  pub core : Core T
  pub producer : Producer T
  pub consumer : Consumer T

-- Which thread runs next. A thread at rest begins a call.
pub data Turn {ℓ} (T : Type ℓ) : Type ℓ where
  produce : T → Turn T
  consume : Turn T

-- The return of a call, where a step is one.
pub data Event {ℓ} (T : Type ℓ) : Type ℓ where
  silent : Event T
  pushed : T → Bool → Event T
  popped : Option T → Event T

module _ {ℓ} {T : Type ℓ} (capacity : ℕ) where
  -- A step of the producer, where `item` is that of the call that a producer at rest begins.
  unfoldable pub produce_step : T → Producer T → Core T → Core T × Producer T × Event T
  unfolding looks_full load_tail write publish_head
  produce_step item Producer.at_rest c =
      (c, if looks_full capacity c then Producer.loading item else writing item, silent)
  produce_step item (Producer.loading x) c =
      let c' = load_tail capacity c in
      if looks_full capacity c'
      then (c', Producer.at_rest, pushed x false)
      else (c', writing x, silent)
  produce_step item (writing x) c = (write capacity x c, publishing x, silent)
  produce_step item (publishing x) c = (publish_head capacity c, Producer.at_rest, pushed x true)

  unfoldable pub consume_step : T → Consumer T → Core T → Core T × Consumer T × Event T
  unfolding looks_empty load_head publish_tail
  consume_step blank Consumer.at_rest c =
      (c, if looks_empty capacity c then Consumer.loading else reading, silent)
  consume_step blank Consumer.loading c =
      let c' = load_head capacity c in
      if looks_empty capacity c' then (c', Consumer.at_rest, popped none) else (c', reading, silent)
  consume_step blank reading c = (c, releasing (get_or c.buffer c.tail blank), silent)
  consume_step blank (releasing x) c = (publish_tail capacity c, Consumer.at_rest, popped (some x))

  unfoldable pub take_turn : T → Turn T → Machine T → Machine T × Event T
  unfolding produce_step consume_step
  take_turn blank (produce item) m =
      let (c, p, e) = produce_step item m.producer m.core in
      (record m { core = c; producer = p }, e)
  take_turn blank consume m =
      let (c, q, e) = consume_step blank m.consumer m.core in
      (record m { core = c; consumer = q }, e)

  -- The returns of the calls, in the order of a schedule.
  unfoldable pub returns : T → List (Turn T) → Machine T → List (Event T)
  unfolding take_turn
  returns blank [] m = []
  returns blank (turn ∷ turns) m =
      let (m', e) = take_turn blank turn m in e ∷ returns blank turns m'
