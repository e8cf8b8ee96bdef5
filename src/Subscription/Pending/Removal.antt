-- ===== src/Subscription/Pending/Removal.antt =====
-- What the two `remove` operations and the queries of `PendingRequests` return.
use wirekrak.Common.{
  is_owner, ℕ, ◌≡◌, refl, true, false, ◌&&◌, [], ◌∷◌, none, some, ◌==◌, if◌then◌else◌, is_some,
  erase_first, arith, contains-count, Bool-cases, Option-cases, inl, inr, length, List,
}
use wirekrak.Subscription.Pending.{
  PendingRequests, erase_symbol, remove, remove_any, contains_symbol, is_empty, symbol_count,
  request_count,
}
use wirekrak.Subscription.Pending.Requests.{holds, owner, is_some-owner, stored, Filled}
use wirekrak.Subscription.Pending.Erase.{erase-owner, holds-owner, remove_from-owner}
use wirekrak.Subscription.Pending.Invariant.{waits_for, IsConsistent, erased-IsConsistent}

-- A symbol is pending exactly when it waits for some request.
pub contains_symbol-owner :
    (sid : ℕ) (p : PendingRequests)
    → IsConsistent p
    → contains_symbol sid p ≡ is_some (waits_for sid p)
unfolding contains_symbol waits_for
contains_symbol-owner sid p v =
    ground
      (arith, v.tracked sid, is_some-owner sid p.requests, contains-count sid p.pending_symbols)

remove_cases :
    (req_id sid : ℕ) (p : PendingRequests)
    → remove req_id sid p ≡ (
        if holds req_id sid p.requests
        then (
          record {
            requests = erase_symbol req_id sid p.requests;
            pending_symbols = erase_first sid p.pending_symbols;
          },
          true,
        )
        else (p, false))
unfolding remove holds
remove_cases req_id sid p = ground arith

module _ (req_id sid : ℕ) (p : PendingRequests) (v : IsConsistent p) where
  pub remove-IsConsistent : IsConsistent (remove req_id sid p).0
  remove-IsConsistent = elim (Bool-cases (holds req_id sid p.requests)) [
    | inl e ↦ rw (remove_cases req_id sid p, e) (erased-IsConsistent req_id sid p v e)
    | inr e ↦ rw (remove_cases req_id sid p, e) v
  ]

  -- `remove(req_id, sid)` succeeds exactly when the symbol waits for that request; then the symbol
  -- waits no more, and every other symbol, or every symbol when it fails, waits as before.
  pub remove-owner :
      (j : ℕ)
      → ((remove req_id sid p).1 ≡ is_owner req_id (waits_for sid p))
        × (waits_for j (remove req_id sid p).0
            ≡ (if is_owner req_id (waits_for sid p) && sid == j then none else waits_for j p))
  unfolding waits_for
  remove-owner j =
      let held =
        holds-owner req_id sid p.requests v.unique (omega (arith, v.tracked sid, v.once sid)) in
      elim (Bool-cases (holds req_id sid p.requests)) [
        | inl e ↦
            rw (remove_cases req_id sid p, e, ← held, e)
              (
                refl,
                ground (arith, e, v.tracked sid, v.once sid, erase-owner req_id sid j p.requests),
              )
        | inr e ↦ rw (remove_cases req_id sid p, e, ← held, e) (refl, refl)
      ]

  pub remove-true : (remove req_id sid p).1 ≡ is_owner req_id (waits_for sid p)
  remove-true = (remove-owner 0).0

module _ (sid : ℕ) (p : PendingRequests) (v : IsConsistent p) where
  -- `remove(sid)` never reaches its unreachable line. It succeeds exactly when the symbol waits
  -- for some request; then the symbol waits no more, and all else is as before.
  pub remove_any-owner :
      (q : PendingRequests) × (remove_any sid p ≡ some (q, is_some (waits_for sid p)))
      × IsConsistent q
      × ((j : ℕ) → waits_for j q ≡ (if sid == j then none else waits_for j p))
  remove_any-owner = elim (Option-cases (owner sid p.requests)) [
    | inl e ↦ (
      p,
      unfold remove_any waits_for in
          rw e (
            ground (
              arith,
              e,
              v.tracked sid,
              is_some-owner sid p.requests,
              contains-count sid p.pending_symbols,
            )),
      v,
      λ j. unfold waits_for in ground (arith, e),
    )
    | inr (k, e) ↦
        let (found, held) = remove_from-owner sid k p.requests v.unique e in
        (
          record {
            requests = erase_symbol k sid p.requests;
            pending_symbols = erase_first sid p.pending_symbols;
          },
          unfold remove_any waits_for in
              ground (
                arith,
                e,
                found,
                v.tracked sid,
                is_some-owner sid p.requests,
                contains-count sid p.pending_symbols,
              ),
          erased-IsConsistent k sid p v held,
          λ j.
              unfold waits_for in
              ground (arith, held, v.tracked sid, v.once sid, erase-owner k sid j p.requests),
        )
  ]

stored_empty : (m : List (ℕ × List ℕ)) → Filled m → stored m ≡ 0 → length m ≡ 0
unfolding stored
stored_empty [] f e = refl
stored_empty ((k, []) ∷ m) f e = absurd f
stored_empty ((k, s ∷ v) ∷ m) f e = absurd (omega arith)

stored_empty' : (m : List (ℕ × List ℕ)) → length m ≡ 0 → stored m ≡ 0
unfolding stored
stored_empty' [] e = refl
stored_empty' ((k, v) ∷ m) e = absurd (omega arith)

-- No request is pending exactly when no symbol is.
pub is_empty-symbol_count :
    (p : PendingRequests)
    → IsConsistent p
    → (is_empty p ≡ (symbol_count p == 0)) × (is_empty p ≡ (request_count p == 0))
unfolding is_empty symbol_count request_count
is_empty-symbol_count p v =
    ground (arith, v.sized, stored_empty p.requests v.filled, stored_empty' p.requests)
