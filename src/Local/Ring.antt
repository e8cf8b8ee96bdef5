-- ===== src/Local/Ring.antt =====
-- include/lcr/local/ring.hpp and queue.hpp: the circular buffers `ring`, with its acquire, commit,
-- peek and release, and `queue`, with push and pop. Both have the same fields. `capacity` is the
-- template's parameter, a power of two, so `& MASK` is the remainder by it; the flags of the debug
-- build are left out.
pub mod Positions
pub mod Refine
use wirekrak.Common.{
  ℕ, ◌+◌, ◌-◌, ◌%◌, ◌^◌, Bool, true, false, List, Option, none, some, ◌==◌, if◌then◌else◌, get_or,
  set, replicate,
}

pub record Ring {ℓ} (T : Type ℓ) : Type ℓ where
  pub buffer : List T
  pub head : ℕ
  pub tail : ℕ

-- `(i + 1) & MASK`.
abbrev pub next_index : ℕ → ℕ → ℕ
next_index capacity i = (i + 1) % capacity

module _ {ℓ} {T : Type ℓ} (capacity : ℕ) where
  -- A new ring, whose elements are all `T{}`.
  unfoldable pub new_ring : T → Ring T
  new_ring blank = record { buffer = replicate capacity blank; head = 0; tail = 0 }

  -- The index of the slot, or none for the null pointer.
  unfoldable pub acquire_producer_slot : Ring T → Option ℕ
  acquire_producer_slot r = if next_index capacity r.head == r.tail then none else some r.head

  -- The producer's write through the pointer to its slot.
  unfoldable pub write_slot : ℕ → T → Ring T → Ring T
  write_slot i x r = record r { buffer = set r.buffer i x }

  unfoldable pub commit_producer_slot : Ring T → Ring T
  commit_producer_slot r = record r { head = next_index capacity r.head }

  unfoldable pub discard_producer_slot : Ring T → Ring T
  discard_producer_slot r = r

  unfoldable pub peek_consumer_slot : Ring T → Option ℕ
  peek_consumer_slot r = if r.tail == r.head then none else some r.tail

  unfoldable pub release_consumer_slot : Ring T → Ring T
  release_consumer_slot r = record r { tail = next_index capacity r.tail }

  unfoldable pub is_empty : Ring T → Bool
  is_empty r = r.head == r.tail

  unfoldable pub is_full : Ring T → Bool
  is_full r = next_index capacity r.head == r.tail

  -- `(head_ - tail_) & MASK` on `size_t`.
  unfoldable pub size : Ring T → ℕ
  size r = (r.head + 2 ^ 64 - r.tail) % 2 ^ 64 % capacity

  unfoldable pub clear : Ring T → Ring T
  clear r = record r { head = 0; tail = 0 }

  -- `queue::push`.
  unfoldable pub push : T → Ring T → Ring T × Bool
  push item r =
      let next = next_index capacity r.head in
      if next == r.tail
      then (r, false)
      else (record r { buffer = set r.buffer r.head item; head = next }, true)

  -- `queue::pop`; the element read is out of range only where `blank` stands for it.
  unfoldable pub pop : T → Ring T → Ring T × Option T
  pop blank r =
      if r.tail == r.head
      then (r, none)
      else (record r { tail = next_index capacity r.tail }, some (get_or r.buffer r.tail blank))
