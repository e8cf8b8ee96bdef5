-- ===== src/Lockfree/Spsc/State.antt =====
-- The states of the ring and of its two threads that can be reached, and the queue they stand for.
use wirekrak.Common.{ℕ, suc, ◌<◌, ◌≤◌, ◌≡◌, List, length, get_or}
use wirekrak.Local.Ring.Positions.{distance, window}
use wirekrak.Local.Ring.Refine.{put_in, take_out}
use wirekrak.Lockfree.Spsc.{Core}
use wirekrak.Lockfree.Spsc.Threads.{
  Producer, Consumer, Event, silent, pushed, popped, writing, publishing, reading, releasing,
}

module _ {T : Type 0} (blank : T) (capacity : ℕ) where
  -- Each side's copy of the other's index is behind that index.
  unfoldable pub IsValid : Core T → Type 0
  IsValid c =
      (length c.buffer ≡ capacity)
      × (c.head < capacity)
      × (c.tail < capacity)
      × (c.head_cache < capacity)
      × (c.tail_cache < capacity)
      × (distance capacity c.tail c.head ≤ distance capacity c.head_cache c.head)
      × (distance capacity c.tail c.tail_cache ≤ distance capacity c.tail c.head)

  -- A producer that writes has room by its copy, and one that publishes has written.
  unfoldable pub IsProducer : Producer T → List T → ℕ → ℕ → Type 0
  IsProducer Producer.at_rest buffer head head_cache = Unit
  IsProducer (Producer.loading x) buffer head head_cache = Unit
  IsProducer (writing x) buffer head head_cache = suc (distance capacity head_cache head) < capacity
  IsProducer (publishing x) buffer head head_cache =
      (suc (distance capacity head_cache head) < capacity) × (get_or buffer head blank ≡ x)

  -- A consumer that reads has an element by its copy, and one that releases has read it.
  unfoldable pub IsConsumer : Consumer T → List T → ℕ → ℕ → Type 0
  IsConsumer Consumer.at_rest buffer tail tail_cache = Unit
  IsConsumer Consumer.loading buffer tail tail_cache = Unit
  IsConsumer reading buffer tail tail_cache = 0 < distance capacity tail tail_cache
  IsConsumer (releasing x) buffer tail tail_cache =
      (0 < distance capacity tail tail_cache) × (get_or buffer tail blank ≡ x)

  -- The elements from the tail to the head.
  unfoldable pub held : Core T → List T
  held c = window blank capacity c.buffer c.tail (distance capacity c.tail c.head)

  -- What a step does to the queue.
  unfoldable pub Answers : Event T → List T → List T → Type 0
  Answers silent xs xs' = xs' ≡ xs
  Answers (pushed x ok) xs xs' = (xs', ok) ≡ put_in capacity x xs
  Answers (popped out) xs xs' = (xs', out) ≡ take_out xs

  -- The state of the three.
  unfoldable pub AreValid : Producer T → Consumer T → Core T → Type 0
  unfolding IsValid IsProducer IsConsumer
  AreValid p q c =
      IsValid c
      × IsProducer p c.buffer c.head c.head_cache
      × IsConsumer q c.buffer c.tail c.tail_cache
