-- ===== src/Lockfree/Spsc.antt =====
-- include/lcr/lockfree/spsc_core.hpp and include/lcr/lockfree/spsc_queue.hpp: a ring between a producer
-- and a consumer. Each side owns its index, with a cached copy of the other's. The capacity is a power
-- of two, so that `& MASK` is the remainder by it. These are the operations as one thread runs them
-- while the other stands still; Lockfree.Spsc.Threads takes them apart.
pub mod Threads
pub mod Positions
pub mod State
pub mod Produce
pub mod Consume
pub mod Linear
pub mod WaitFree
pub mod Alone
use wirekrak.Common.{
  ℕ, ◌+◌, ◌-◌, ◌%◌, Bool, true, false, List, Option, none, some, ◌==◌, ltb, if◌then◌else◌, get_or,
  set, replicate,
}

pub record Core {ℓ} (T : Type ℓ) : Type ℓ where
  pub buffer : List T
  pub head : ℕ
  pub head_cache : ℕ
  pub tail : ℕ
  pub tail_cache : ℕ

-- `next`.
abbrev pub next_slot : ℕ → ℕ → ℕ
next_slot capacity v = (v + 1) % capacity

-- `(a - b) & MASK`, on indices below the capacity.
abbrev pub apart : ℕ → ℕ → ℕ → ℕ
apart capacity a b = (a + capacity - b) % capacity

module _ {ℓ} {T : Type ℓ} (capacity : ℕ) where
  unfoldable pub new_core : T → Core T
  new_core blank = record {
    buffer = replicate capacity blank;
    head = 0;
    head_cache = 0;
    tail = 0;
    tail_cache = 0;
  }

  -- The two loads of the other side's index.
  unfoldable pub load_tail : Core T → Core T
  load_tail c = record c { head_cache = c.tail }

  unfoldable pub load_head : Core T → Core T
  load_head c = record c { tail_cache = c.head }

  -- The tests of the cached index.
  unfoldable pub looks_full : Core T → Bool
  looks_full c = next_slot capacity c.head == c.head_cache

  unfoldable pub looks_empty : Core T → Bool
  looks_empty c = c.tail == c.tail_cache

  -- `is_full` and `is_empty`, with the cached index that they may refresh.
  unfoldable pub is_full : Core T → Core T × Bool
  unfolding looks_full load_tail
  is_full c = if looks_full c then (load_tail c, looks_full (load_tail c)) else (c, false)

  unfoldable pub is_empty : Core T → Core T × Bool
  unfolding looks_empty load_head
  is_empty c = if looks_empty c then (load_head c, looks_empty (load_head c)) else (c, false)

  unfoldable pub advance_head : ℕ → Core T → Core T
  advance_head n c = record c { head = (c.head + n) % capacity }

  unfoldable pub advance_tail : ℕ → Core T → Core T
  advance_tail n c = record c { tail = (c.tail + n) % capacity }

  unfoldable pub free_for : Core T → ℕ
  free_for c = apart capacity c.head_cache (c.head + 1)

  unfoldable pub has_free_slots : ℕ → Core T → Core T × Bool
  unfolding free_for load_tail
  has_free_slots n c =
      let c' = if ltb (free_for c) n then load_tail c else c in
      (c', if ltb (free_for c') n then false else true)

  unfoldable pub available_for : Core T → ℕ
  available_for c = apart capacity c.tail_cache c.tail

  unfoldable pub has_available : ℕ → Core T → Core T × Bool
  unfolding available_for load_head
  has_available n c =
      let c' = if ltb (available_for c) n then load_head c else c in
      (c', if ltb (available_for c') n then false else true)

  unfoldable pub empty : Core T → Bool
  empty c = c.tail == c.head

  unfoldable pub full : Core T → Bool
  full c = next_slot capacity c.head == c.tail

  unfoldable pub used : Core T → ℕ
  used c = apart capacity c.head c.tail

  unfoldable pub free_slots : Core T → ℕ
  unfolding used
  free_slots c = capacity - 1 - used c

  unfoldable pub clear : Core T → Core T
  clear c = record c { head = 0; head_cache = 0; tail = 0; tail_cache = 0 }

  -- The writes of `push` and `pop`.
  unfoldable pub write : T → Core T → Core T
  write item c = record c { buffer = set c.buffer c.head item }

  unfoldable pub publish_head : Core T → Core T
  publish_head c = record c { head = next_slot capacity c.head }

  unfoldable pub publish_tail : Core T → Core T
  publish_tail c = record c { tail = next_slot capacity c.tail }

  unfoldable pub push : T → Core T → Core T × Bool
  unfolding is_full write publish_head
  push item c =
      let (c', refused) = is_full c in
      if refused then (c', false) else (publish_head (write item c'), true)

  unfoldable pub pop : T → Core T → Core T × Option T
  unfolding is_empty publish_tail
  pop blank c =
      let (c', refused) = is_empty c in
      if refused then (c', none) else (publish_tail c', some (get_or c'.buffer c'.tail blank))
