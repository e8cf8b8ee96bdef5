-- ===== src/Lockfree/Ring/Slots.antt =====
-- A slot that is acquired, written and committed is a push, and one that is peeked, read and released a
-- pop.
use wirekrak.Common.{
  ℕ, ◌≡◌, refl, Bool, true, false, Option, none, some, ◌>>=◌, Bool-cases, inl, inr,
}
use wirekrak.Lockfree.Spsc.{
  Core, is_full, is_empty, looks_full, looks_empty, load_tail, load_head, write, push, pop,
}
use wirekrak.Lockfree.Ring.{
  SpscRing, hand_to_producer, hand_to_consumer, acquire_producer_slot, write_slot, read_slot,
  commit_producer_slot, peek_consumer_slot, release_consumer_slot,
}

module _ {T : Type 0} (capacity : ℕ) where
  -- The calls that put an item into the ring, and those that take one out.
  unfoldable pub produce : T → SpscRing T → Option (SpscRing T × Bool)
  unfolding acquire_producer_slot write_slot commit_producer_slot
  produce item r = do
    (r', slot) ← acquire_producer_slot capacity r
    elim slot [
      | none ↦ some (r', false)
      | some i ↦ (do
        r'' ← commit_producer_slot capacity (write_slot capacity i item r')
        some (r'', true))
    ]

  unfoldable pub consume : T → SpscRing T → Option (SpscRing T × Option T)
  unfolding peek_consumer_slot read_slot release_consumer_slot
  consume blank r = do
    (r', slot) ← peek_consumer_slot capacity r
    elim slot [
      | none ↦ some (r', none)
      | some i ↦ (do
        r'' ← release_consumer_slot capacity r'
        some (r'', some (read_slot capacity i blank r')))
    ]

  -- On a ring of which no slot is held, acquiring, writing and committing a slot is a push of the queue
  -- on the same core, and peeking, reading and releasing one is a pop: no assertion fails, and no slot
  -- is held afterwards.
  pub produce-push :
      (blank item : T) (c : Core T)
      → let r : SpscRing T = record {
        core = c;
        producer_slot_acquired = false;
        consumer_slot_acquired = false;
      } in
        let (pushed, ok) = push capacity item c in
        let (popped, out) = pop capacity blank c in
        (produce item r ≡ some (record r { core = pushed }, ok))
        × (consume blank r ≡ some (record r { core = popped }, out))
  unfolding produce consume acquire_producer_slot peek_consumer_slot write_slot read_slot
      commit_producer_slot release_consumer_slot hand_to_producer hand_to_consumer push pop is_full
      is_empty write looks_full looks_empty load_tail load_head
  produce-push blank item c = (
    elim (Bool-cases (looks_full capacity c)) [
      | inl e ↦ elim (Bool-cases (looks_full capacity (load_tail capacity c))) [
        | inl f ↦ rw (e, f) refl
        | inr f ↦ rw (e, f) refl
      ]
      | inr e ↦ rw e refl
    ],
    elim (Bool-cases (looks_empty capacity c)) [
      | inl e ↦ elim (Bool-cases (looks_empty capacity (load_head capacity c))) [
        | inl f ↦ rw (e, f) refl
        | inr f ↦ rw (e, f) refl
      ]
      | inr e ↦ rw e refl
    ],
  )
