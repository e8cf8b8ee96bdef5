-- ===== src/Subscription/Controller/Waiting.antt =====
-- What registering a subscription with a type does to the symbols of that type.
use wirekrak.Common.{
  ℕ, zero, suc, ◌<◌, ◌≡◌, List, [], ◌∷◌, map, Option, arith, Returns, Returns-some, Returns-bind,
  if◌then◌else◌, contains,
}
use wirekrak.Subscription.Manager.{Manager, register_subscription}
use wirekrak.Subscription.Manager.Status.{Status, idle, subscribe, next, status, IsValid}
use wirekrak.Subscription.Manager.Register.{register_subscription-status}
use wirekrak.Subscription.Controller.{
  Controller, at_manager, mark_progress, register_subscription_for,
}
use wirekrak.Subscription.Controller.Total.{AllValid}

-- The status of a symbol in the manager of a type; idle for a type that there is not.
abbrev pub status_in : ℕ → ℕ → List Manager → Status
status_in type sid [] = idle
status_in zero sid (m ∷ ms) = status sid m
status_in (suc type) sid (m ∷ ms) = status_in type sid ms

at_manager-status_in :
    {R : Type 0} (change : ℕ → Status → Status) (i n : ℕ) (f : Manager → Option (Manager × R))
    (ms : List Manager)
    → i < n
    → AllValid n ms
    → ((m : Manager)
        → IsValid m
        → Returns (λ r. (sid : ℕ) → status sid r.0 ≡ change sid (status sid m)) (f m))
    → Returns
        (λ r. (sid : ℕ) → status_in i sid r.0 ≡ change sid (status_in i sid ms))
        (at_manager i f ms)
unfolding at_manager
at_manager-status_in change i n f [] l v g = absurd (ground arith)
at_manager-status_in change zero n f (m ∷ ms) l v g =
    Returns-bind (λ r. (sid : ℕ) → status sid r.0 ≡ change sid (status sid m))
      (λ r. (sid : ℕ) → status_in zero sid r.0 ≡ change sid (status sid m)) (f m) _ (g m v.0.0)
      (λ r h. h)
at_manager-status_in change (suc i) zero f (m ∷ ms) l v g = absurd (ground arith)
at_manager-status_in change (suc i) (suc n) f (m ∷ ms) l v g =
    Returns-bind (λ r. (sid : ℕ) → status_in i sid r.0 ≡ change sid (status_in i sid ms))
      (λ r. (sid : ℕ) → status_in (suc i) sid r.0 ≡ change sid (status_in i sid ms))
      (at_manager i f ms) _
      (at_manager-status_in change i n f ms (ground arith) (v.0.1, ground arith) g) (λ r h. h)

-- The idle symbols of the request wait for it, and every other symbol keeps its status.
pub register_subscription_for-status_in :
    {Symbol : Type 0} (intern : Symbol → ℕ) (now type n : ℕ) (c : Controller)
    → type < n
    → AllValid n c.managers
    → (symbols : List Symbol) (req_id : ℕ)
    → Returns
        (λ r.
          (sid : ℕ)
          → status_in type sid r.0.managers ≡ (
              if contains sid (map intern symbols)
              then next (subscribe req_id) (status_in type sid c.managers)
              else status_in type sid c.managers))
        (register_subscription_for intern now type symbols req_id c)
unfolding register_subscription_for mark_progress
register_subscription_for-status_in intern now type n c l v symbols req_id =
    let change : ℕ → Status → Status =
      λ sid s. if contains sid (map intern symbols) then next (subscribe req_id) s else s in
    Returns-bind
      (λ r. (sid : ℕ) → status_in type sid r.0 ≡ change sid (status_in type sid c.managers))
      (λ r.
        (sid : ℕ) → status_in type sid r.0.managers ≡ change sid (status_in type sid c.managers))
      (at_manager type (register_subscription intern symbols req_id) c.managers) _
      (at_manager-status_in change type n (register_subscription intern symbols req_id) c.managers l
        v
        (λ m w.
          let (m', e, _, moved) = register_subscription-status intern symbols req_id m w in
          Returns-some (λ r. (sid : ℕ) → status sid r.0 ≡ change sid (status sid m)) _ _ e moved))
      (λ r h. h)
