-- ===== src/Subscription/Controller/Laws.antt =====
-- What the controller does across its managers.
use wirekrak.Common.{
  ℕ, ◌≡◌, refl, ◌∙◌, Bool, true, false, List, [], ◌∷◌, All, arith, Bool-cases, inl, inr, ◌⊎◌,
  if◌then◌else◌,
}
use wirekrak.Subscription.Manager.{Manager, has_pending_requests}
use wirekrak.Subscription.Manager.Status.{IsValid, status, awaits, next, rejected}
use wirekrak.Subscription.Manager.Quiet.{
  is_waiting, has_pending_requests-false, has_pending_requests-true,
}
use wirekrak.Subscription.Manager.Answers.{moved, try_process_rejection-status}
use wirekrak.Subscription.Controller.{
  Controller, mark_progress, reject_in, try_process_rejection_for, none_pending, is_quiescent,
}

abbrev pub IsWellFormed : Controller → Type 0
IsWellFormed c = All IsValid c.managers

-- Some manager has a symbol that waits for an answer.
abbrev pub SomeWaits : List Manager → Type 0
SomeWaits [] = ⊥
SomeWaits (m ∷ ms) = ((sid : ℕ) × (is_waiting (status sid m) ≡ true)) ⊎ SomeWaits ms

none_pending-true :
    (ms : List Manager)
    → All IsValid ms
    → none_pending ms ≡ true
    → All (λ m. (sid : ℕ) → is_waiting (status sid m) ≡ false) ms
unfolding none_pending
none_pending-true [] v e = tt
none_pending-true (m ∷ ms) v e =
    (has_pending_requests-false m v.0 (ground arith), none_pending-true ms v.1 (ground arith))

none_pending-false : (ms : List Manager) → All IsValid ms → none_pending ms ≡ false → SomeWaits ms
unfolding none_pending
none_pending-false [] v e = cc
none_pending-false (m ∷ ms) v e = elim (Bool-cases (has_pending_requests m)) [
  | inl p ↦ inl (has_pending_requests-true m v.0 p)
  | inr p ↦ inr (none_pending-false ms v.1 (ground arith))
]

module _ (c : Controller) (v : IsWellFormed c) where
  -- A quiescent controller has no manager in which a symbol waits for an answer.
  pub is_quiescent-true :
      is_quiescent c ≡ true → All (λ m. (sid : ℕ) → is_waiting (status sid m) ≡ false) c.managers
  unfolding is_quiescent
  is_quiescent-true e = none_pending-true c.managers v e

  -- A controller that is not quiescent has one.
  pub is_quiescent-false : is_quiescent c ≡ false → SomeWaits c.managers
  unfolding is_quiescent
  is_quiescent-false e = none_pending-false c.managers v e

-- The managers after a rejection: in the first of them where the symbol waits for the request the
-- rejection happens, the ones before keep every status, and the ones after are untouched.
abbrev pub Resolves : ℕ → ℕ → List Manager → List Manager → Bool → Type 0
Resolves r sid [] [] done = done ≡ false
Resolves r sid [] (m' ∷ ms') done = ⊥
Resolves r sid (m ∷ ms) [] done = ⊥
Resolves r sid (m ∷ ms) (m' ∷ ms') done =
    ((awaits r (status sid m) ≡ true)
      × (done ≡ true)
      × ((j : ℕ) → status j m' ≡ moved (rejected r) sid j (status j m))
      × (ms' ≡ ms))
    ⊎ ((awaits r (status sid m) ≡ false)
        × ((j : ℕ) → status j m' ≡ status j m)
        × Resolves r sid ms ms' done)

-- A rejection changes nothing for a symbol that does not wait for the request.
still :
    (r sid j : ℕ) (m : Manager)
    → awaits r (status sid m) ≡ false
    → moved (rejected r) sid j (status j m) ≡ status j m
unfolding awaits next
still r sid j m e = ground arith

module _ {Symbol : Type 0} (intern : Symbol → ℕ) (r : ℕ) (symbol : Symbol) where
  reject_in-lem :
      (ms : List Manager)
      → All IsValid ms
      → let (ms', done) = reject_in intern r symbol ms in
        All IsValid ms' × Resolves r (intern symbol) ms ms' done
  unfolding reject_in
  reject_in-lem [] v = (tt, refl)
  reject_in-lem (m ∷ ms) v =
      let (v', taken, moves) = try_process_rejection-status intern r symbol m v.0 in
      let (vs, rest) = reject_in-lem ms v.1 in
      elim (Bool-cases (awaits r (status (intern symbol) m))) [
        | inl e ↦ rw (taken, reject_in, e) ((v', v.1), inl (e, refl, moves, refl))
        | inr e ↦
            rw (taken, reject_in, e)
              ((v', vs), inr (e, λ j. moves j ∙ still r (intern symbol) j m e, rest))
      ]

  -- A rejection is taken by the first manager in which the symbol waits for the request, and by
  -- no other; the managers stay valid.
  pub try_process_rejection_for-Resolves :
      (now : ℕ) (c : Controller)
      → IsWellFormed c
      → let (c', done) = try_process_rejection_for intern now r symbol c in
        IsWellFormed c'
        × Resolves r (intern symbol) c.managers c'.managers done
        × (c'.last_progress_ns ≡ (if done then now else c.last_progress_ns))
  unfolding try_process_rejection_for mark_progress
  try_process_rejection_for-Resolves now c v =
      let (vs, resolved) = reject_in-lem c.managers v in
      elim (Bool-cases (reject_in intern r symbol c.managers).1) [
        | inl e ↦ rw e (vs, rw e at resolved, refl)
        | inr e ↦ rw e (vs, rw e at resolved, refl)
      ]
