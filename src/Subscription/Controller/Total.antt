-- ===== src/Subscription/Controller/Total.antt =====
-- The controller's operations return on the types that it manages, and keep its managers valid.
use wirekrak.Common.{
  ℕ, zero, suc, ◌<◌, ◌≡◌, refl, ap, Bool, true, false, List, [], ◌∷◌, Option, some, length, All,
  arith, Returns, Returns-some, Returns-bind, if◌then◌else◌,
}
use wirekrak.Subscription.Manager.{
  Manager, register_subscription, register_unsubscription, process_subscribe_ack,
  process_unsubscribe_ack, initial, clear_all,
}
use wirekrak.Subscription.Pending.{clear, empty_requests}
use wirekrak.Subscription.Manager.Status.{IsValid}
use wirekrak.Subscription.Manager.Register.{register_subscription-status}
use wirekrak.Subscription.Manager.Cancel.{register_unsubscription-status}
use wirekrak.Subscription.Manager.Answers.{
  process_subscribe_ack-status, process_unsubscribe_ack-status,
}
use wirekrak.Subscription.Manager.History.{initial-IsValid}
use wirekrak.Subscription.Controller.{
  Controller, at_manager, reject_in, mark_progress, register_subscription_for,
  register_unsubscription_for, process_subscribe_ack_for, process_unsubscribe_ack_for,
  clear_managers, clear_all_for, try_process_rejection_for,
}
use wirekrak.Subscription.Controller.Laws.{try_process_rejection_for-Resolves}

-- All managers of the list are valid, and there are `n`.
abbrev pub AllValid : ℕ → List Manager → Type 0
AllValid n ms = All IsValid ms × (length ms ≡ n)

at_manager-Returns :
    {R : Type 0} (i n : ℕ) (f : Manager → Option (Manager × R)) (ms : List Manager)
    → i < n
    → AllValid n ms
    → ((m : Manager) → IsValid m → Returns (λ r. IsValid r.0) (f m))
    → Returns (λ r. AllValid n r.0) (at_manager i f ms)
unfolding at_manager
at_manager-Returns i n f [] l v g = absurd (ground arith)
at_manager-Returns zero n f (m ∷ ms) l v g =
    Returns-bind (λ r. IsValid r.0) (λ r. AllValid n r.0) (f m) _ (g m v.0.0)
      (λ r h. ((h, v.0.1), v.1))
at_manager-Returns (suc i) zero f (m ∷ ms) l v g = absurd (ground arith)
at_manager-Returns (suc i) (suc n) f (m ∷ ms) l v g =
    Returns-bind (λ r. AllValid n r.0) (λ r. AllValid (suc n) r.0) (at_manager i f ms) _
      (at_manager-Returns i n f ms (ground arith) (v.0.1, ground arith) g)
      (λ r h. ((v.0.0, h.0), ap suc h.1))

module _ {Symbol : Type 0} (intern : Symbol → ℕ) (now type n : ℕ) (l : type < n) (c : Controller)
    (v : AllValid n c.managers) where
  pub register_subscription_for-Returns :
      (symbols : List Symbol) (req_id : ℕ)
      → Returns
          (λ r. AllValid n r.0.managers)
          (register_subscription_for intern now type symbols req_id c)
  unfolding register_subscription_for mark_progress
  register_subscription_for-Returns symbols req_id =
      Returns-bind (λ r. AllValid n r.0) (λ r. AllValid n r.0.managers)
        (at_manager type (register_subscription intern symbols req_id) c.managers) _
        (at_manager-Returns type n (register_subscription intern symbols req_id) c.managers l v
          (λ m w.
            let (m', e, w', _) = register_subscription-status intern symbols req_id m w in
            Returns-some (λ r. IsValid r.0) _ _ e w'))
        (λ r h. h)

  pub register_unsubscription_for-Returns :
      (symbols : List Symbol) (req_id : ℕ)
      → Returns
          (λ r. AllValid n r.0.managers)
          (register_unsubscription_for intern now type symbols req_id c)
  unfolding register_unsubscription_for mark_progress
  register_unsubscription_for-Returns symbols req_id =
      Returns-bind (λ r. AllValid n r.0) (λ r. AllValid n r.0.managers)
        (at_manager type (register_unsubscription intern symbols req_id) c.managers) _
        (at_manager-Returns type n (register_unsubscription intern symbols req_id) c.managers l v
          (λ m w.
            let (m', _, e, w', _) = register_unsubscription-status intern symbols req_id m w in
            Returns-some (λ r. IsValid r.0) _ _ e w'))
        (λ r h. h)

  -- Marking the progress leaves the managers as they are.
  marked :
      (taken : Bool) (ms : List Manager)
      → AllValid n ms
      → AllValid n
          (if taken
            then mark_progress now (record c { managers = ms })
            else record c { managers = ms }).managers
  unfolding mark_progress
  marked true ms h = h
  marked false ms h = h

  pub process_subscribe_ack_for-Returns :
      (req_id : ℕ) (symbol : Symbol) (success : Bool)
      → Returns
          (λ r. AllValid n r.managers)
          (process_subscribe_ack_for intern now type req_id symbol success c)
  unfolding process_subscribe_ack_for
  process_subscribe_ack_for-Returns req_id symbol success =
      Returns-bind (λ r. AllValid n r.0) (λ r. AllValid n r.managers)
        (at_manager type (λ m. some (process_subscribe_ack intern req_id symbol success m))
          c.managers)
        _
        (at_manager-Returns type n
          (λ m. some (process_subscribe_ack intern req_id symbol success m)) c.managers l v
          (λ m w. (process_subscribe_ack-status intern req_id symbol m w success).0))
        (λ r h. marked r.1 r.0 h)

  pub process_unsubscribe_ack_for-Returns :
      (req_id : ℕ) (symbol : Symbol) (success : Bool)
      → Returns
          (λ r. AllValid n r.managers)
          (process_unsubscribe_ack_for intern now type req_id symbol success c)
  unfolding process_unsubscribe_ack_for
  process_unsubscribe_ack_for-Returns req_id symbol success =
      Returns-bind (λ r. AllValid n r.0) (λ r. AllValid n r.managers)
        (at_manager type (λ m. some (process_unsubscribe_ack intern req_id symbol success m))
          c.managers)
        _
        (at_manager-Returns type n
          (λ m. some (process_unsubscribe_ack intern req_id symbol success m)) c.managers l v
          (λ m w. (process_unsubscribe_ack-status intern req_id symbol m w success).0))
        (λ r h. marked r.1 r.0 h)

length-reject_in :
    {Symbol : Type 0} (intern : Symbol → ℕ) (req_id : ℕ) (symbol : Symbol) (ms : List Manager)
    → length (reject_in intern req_id symbol ms).0 ≡ length ms
unfolding reject_in
length-reject_in intern req_id symbol [] = refl
length-reject_in intern req_id symbol (m ∷ ms) =
    ground (arith, length-reject_in intern req_id symbol ms)

pub try_process_rejection_for-AllValid :
    {Symbol : Type 0} (intern : Symbol → ℕ) (now req_id n : ℕ) (symbol : Symbol) (c : Controller)
    → AllValid n c.managers
    → AllValid n (try_process_rejection_for intern now req_id symbol c).0.managers
unfolding try_process_rejection_for mark_progress
try_process_rejection_for-AllValid intern now req_id n symbol c v = (
  (try_process_rejection_for-Resolves intern req_id symbol now c v.0).0,
  ground (arith, length-reject_in intern req_id symbol c.managers, v.1),
)

clear_managers-AllValid :
    (n : ℕ) (ms : List Manager) → AllValid n ms → AllValid n (clear_managers ms)
unfolding clear_managers clear_all initial clear empty_requests
clear_managers-AllValid n [] v = v
clear_managers-AllValid zero (m ∷ ms) v = absurd (ground arith)
clear_managers-AllValid (suc n) (m ∷ ms) v =
    let rest = clear_managers-AllValid n ms (v.0.1, ground arith) in
    ((initial-IsValid, rest.0), ap suc rest.1)

pub clear_all_for-AllValid :
    (now n : ℕ) (c : Controller) → AllValid n c.managers → AllValid n (clear_all_for now c).managers
unfolding clear_all_for mark_progress
clear_all_for-AllValid now n c v = clear_managers-AllValid n c.managers v
