-- ===== src/Subscription/Manager/Acks.antt =====
-- The acknowledgements and the rejection notice move one symbol as the specification says.
use wirekrak.Common.{
  is_owner, ℕ, ◌≡◌, true, false, ◌==◌, if◌then◌else◌, arith, contains-count, count-insert,
  count-erase_first, contains-insert, contains-erase_first,
}
use wirekrak.Subscription.Pending.Removal.{remove-IsConsistent, remove-owner}
use wirekrak.Subscription.Manager.{
  Manager, confirm_subscription, reject_subscription, confirm_unsubscription, reject_unsubscription,
}
use wirekrak.Subscription.Manager.Status.{
  subscribed, unsubscribed, next, status_of, status, IsValid,
}

module _ (req_id sid : ℕ) (m : Manager) (v : IsValid m) where
  pub confirm_subscription-IsValid : IsValid (confirm_subscription req_id sid m)
  unfolding confirm_subscription
  confirm_subscription-IsValid = record {
    subscriptions = remove-IsConsistent req_id sid m.pending_subscriptions v.subscriptions;
    unsubscriptions = v.unsubscriptions;
    once = λ j.
        ground (
          arith,
          v.once j,
          count-insert j sid m.active_symbols,
          contains-count sid m.active_symbols,
        );
    disjoint = λ j. ground (
      arith,
      v.disjoint j,
      remove-owner req_id sid m.pending_subscriptions v.subscriptions j,
      contains-insert j sid m.active_symbols,
    );
    covered = λ j. ground (arith, v.covered j, contains-insert j sid m.active_symbols);
  }

  pub confirm_subscription-status :
      (j : ℕ)
      → status j (confirm_subscription req_id sid m)
        ≡ (if sid == j then next (subscribed req_id true) (status j m) else status j m)
  unfolding confirm_subscription status status_of next is_owner
  confirm_subscription-status j = ground (
    arith,
    v.disjoint j,
    v.covered j,
    remove-owner req_id sid m.pending_subscriptions v.subscriptions j,
    contains-insert j sid m.active_symbols,
  )

  pub reject_subscription-IsValid : IsValid (reject_subscription req_id sid m)
  unfolding reject_subscription
  reject_subscription-IsValid = record {
    subscriptions = remove-IsConsistent req_id sid m.pending_subscriptions v.subscriptions;
    unsubscriptions = v.unsubscriptions;
    once = v.once;
    disjoint = λ j.
        ground
          (arith, v.disjoint j, remove-owner req_id sid m.pending_subscriptions v.subscriptions j);
    covered = v.covered;
  }

  pub reject_subscription-status :
      (j : ℕ)
      → status j (reject_subscription req_id sid m)
        ≡ (if sid == j then next (subscribed req_id false) (status j m) else status j m)
  unfolding reject_subscription status status_of next is_owner
  reject_subscription-status j = ground (
    arith,
    v.disjoint j,
    v.covered j,
    remove-owner req_id sid m.pending_subscriptions v.subscriptions j,
  )

  pub confirm_unsubscription-IsValid : IsValid (confirm_unsubscription req_id sid m)
  unfolding confirm_unsubscription
  confirm_unsubscription-IsValid = record {
    subscriptions = v.subscriptions;
    unsubscriptions = remove-IsConsistent req_id sid m.pending_unsubscriptions v.unsubscriptions;
    once = λ j. ground (arith, v.once j, count-erase_first j sid m.active_symbols);
    disjoint =
        λ j. ground (arith, v.disjoint j, v.once sid, contains-erase_first j sid m.active_symbols);
    covered = λ j. ground (
      arith,
      v.covered j,
      v.once sid,
      remove-owner req_id sid m.pending_unsubscriptions v.unsubscriptions j,
      contains-erase_first j sid m.active_symbols,
    );
  }

  pub confirm_unsubscription-status :
      (j : ℕ)
      → status j (confirm_unsubscription req_id sid m)
        ≡ (if sid == j then next (unsubscribed req_id true) (status j m) else status j m)
  unfolding confirm_unsubscription status status_of next is_owner
  confirm_unsubscription-status j = ground (
    arith,
    v.disjoint j,
    v.covered j,
    v.once sid,
    remove-owner req_id sid m.pending_unsubscriptions v.unsubscriptions j,
    contains-erase_first j sid m.active_symbols,
  )

  pub reject_unsubscription-IsValid : IsValid (reject_unsubscription req_id sid m)
  unfolding reject_unsubscription
  reject_unsubscription-IsValid = record {
    subscriptions = v.subscriptions;
    unsubscriptions = remove-IsConsistent req_id sid m.pending_unsubscriptions v.unsubscriptions;
    once = v.once;
    disjoint = v.disjoint;
    covered = λ j.
        ground (
          arith,
          v.covered j,
          remove-owner req_id sid m.pending_unsubscriptions v.unsubscriptions j,
        );
  }

  pub reject_unsubscription-status :
      (j : ℕ)
      → status j (reject_unsubscription req_id sid m)
        ≡ (if sid == j then next (unsubscribed req_id false) (status j m) else status j m)
  unfolding reject_unsubscription status status_of next is_owner
  reject_unsubscription-status j = ground (
    arith,
    v.disjoint j,
    v.covered j,
    remove-owner req_id sid m.pending_unsubscriptions v.unsubscriptions j,
  )
