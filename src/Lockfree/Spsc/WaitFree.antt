-- ===== src/Lockfree/Spsc/WaitFree.antt =====
-- Every call returns within four turns of its thread, whatever the other thread does.
use wirekrak.Common.{
  ℕ, suc, ◌≤◌, ◌<◌, ◌≡◌, refl, Bool, true, false, List, [], ◌∷◌, arith, Bool-cases, inl, inr, ◌⊎◌,
}
use wirekrak.Lockfree.Spsc.{Core, looks_full, load_tail}
use wirekrak.Lockfree.Spsc.Threads.{
  Producer, Machine, Turn, produce, consume, Event, silent, pushed, popped, writing, publishing,
  produce_step, consume_step, take_turn, returns,
}

module _ {T : Type 0} (blank : T) (capacity : ℕ) where
  -- The turns that a call still takes at most.
  unfoldable pub left_to_push : Producer T → ℕ
  left_to_push Producer.at_rest = 4
  left_to_push (Producer.loading x) = 3
  left_to_push (writing x) = 2
  left_to_push (publishing x) = 1

  unfoldable pub has_pushed : List (Event T) → Bool
  has_pushed [] = false
  has_pushed (silent ∷ es) = has_pushed es
  has_pushed (pushed x ok ∷ es) = true
  has_pushed (popped out ∷ es) = has_pushed es

  unfoldable pub producer_turns : List (Turn T) → ℕ
  producer_turns [] = 0
  producer_turns (produce item ∷ turns) = suc (producer_turns turns)
  producer_turns (consume ∷ turns) = producer_turns turns

  left_to_push-positive : (p : Producer T) → 0 < left_to_push p
  unfolding left_to_push
  left_to_push-positive Producer.at_rest = omega arith
  left_to_push-positive (Producer.loading x) = omega arith
  left_to_push-positive (writing x) = omega arith
  left_to_push-positive (publishing x) = omega arith

  has_pushed-later :
      (e : Event T) (es : List (Event T)) → has_pushed es ≡ true → has_pushed (e ∷ es) ≡ true
  unfolding has_pushed
  has_pushed-later silent es h = h
  has_pushed-later (pushed x ok) es h = refl
  has_pushed-later (popped out) es h = h

  -- A step of the producer returns, or brings the return nearer.
  nearer :
      (item : T) (p : Producer T) (c : Core T)
      → let (c', p', e) = produce_step capacity item p c in
        (suc (left_to_push p') ≤ left_to_push p)
        ⊎ ((es : List (Event T)) → has_pushed (e ∷ es) ≡ true)
  unfolding produce_step left_to_push has_pushed
  nearer item Producer.at_rest c = elim (Bool-cases (looks_full capacity c)) [
    | inl e ↦ rw e (inl (omega arith))
    | inr e ↦ rw e (inl (omega arith))
  ]
  nearer item (Producer.loading x) c =
      elim (Bool-cases (looks_full capacity (load_tail capacity c))) [
        | inl e ↦ rw e (inr (λ es. refl))
        | inr e ↦ rw e (inl (omega arith))
      ]
  nearer item (writing x) c = inl (omega arith)
  nearer item (publishing x) c = inr (λ es. refl)

  -- A producer that gets four turns, or as many as its call still takes, returns from a push, in whatever
  -- order the consumer runs between them.
  pub returns-has_pushed :
      (turns : List (Turn T)) (m : Machine T)
      → left_to_push m.producer ≤ producer_turns turns
      → has_pushed (returns capacity blank turns m) ≡ true
  unfolding returns take_turn producer_turns
  returns-has_pushed [] m l = absurd (omega (arith, l, left_to_push-positive m.producer))
  returns-has_pushed (produce item ∷ turns) m l =
      let (c, p, e) = produce_step capacity item m.producer m.core in
      elim (nearer item m.producer m.core) [
        | inl n ↦
            has_pushed-later e _
              (returns-has_pushed turns (record m { core = c; producer = p }) (omega (arith, l, n)))
        | inr done ↦ done _
      ]
  returns-has_pushed (consume ∷ turns) m l =
      let (c, q, e) = consume_step capacity blank m.consumer m.core in
      has_pushed-later e _ (returns-has_pushed turns (record m { core = c; consumer = q }) l)
