-- ===== src/Subscription/Pending/Invariant.antt =====
-- The invariant of `PendingRequests`, which `assert_consistency` checks in part, and that each
-- operation keeps it.
use wirekrak.Common.{
  ℕ, ◌≤◌, ◌≡◌, true, List, [], ◌∷◌, Option, none, some, ◌==◌, if◌then◌else◌, is_some, length,
  contains, count, erase_first, arith, contains-count, count-insert, count-erase_first,
  length-insert, length-erase_first, Bool-cases, inl, inr,
}
use wirekrak.Subscription.Pending.{
  PendingRequests, empty_requests, ensure_request, drop_if_empty, add_symbol, add_symbols, add,
  erase_symbol,
}
use wirekrak.Subscription.Pending.Requests.{
  occurrences, stored, owner, has_request, UniqueRequests, Filled, FilledBut, holds, is_some-owner,
  ensure-lem, push-lem, push-owner, drop-lem, ensure-Unique, push-Unique, drop-Unique,
  ensure-FilledBut, push-FilledBut, drop-Filled,
}
use wirekrak.Subscription.Pending.Erase.{holds-occurrences, erase-lem, erase-Unique, erase-Filled}

-- The request that a symbol waits for.
unfoldable pub waits_for : ℕ → PendingRequests → Option ℕ
waits_for sid p = owner sid p.requests

pub record IsConsistent (p : PendingRequests) : Type 0 where
  pub unique : UniqueRequests p.requests
  pub filled : Filled p.requests
  pub tracked : (sid : ℕ) → occurrences sid p.requests ≡ count sid p.pending_symbols
  pub once : (sid : ℕ) → count sid p.pending_symbols ≤ 1
  pub sized : stored p.requests ≡ length p.pending_symbols

-- The state inside `add`, where the entry of the request exists and may be without symbols.
record IsOpen (req_id : ℕ) (p : PendingRequests) : Type 0 where
  unique : UniqueRequests p.requests
  filled : FilledBut req_id p.requests
  present : has_request req_id p.requests ≡ true
  tracked : (sid : ℕ) → occurrences sid p.requests ≡ count sid p.pending_symbols
  once : (sid : ℕ) → count sid p.pending_symbols ≤ 1
  sized : stored p.requests ≡ length p.pending_symbols

pub empty-IsConsistent : IsConsistent empty_requests
unfolding empty_requests occurrences stored count
empty-IsConsistent = ground arith

module _ (req_id : ℕ) where
  add_symbol-IsOpen :
      (p : PendingRequests) (sid : ℕ) → IsOpen req_id p → IsOpen req_id (add_symbol req_id p sid)
  unfolding add_symbol
  add_symbol-IsOpen p sid v = elim (Bool-cases (contains sid p.pending_symbols)) [
    | inl e ↦ rw e v
    | inr e ↦ rw e (record {
      unique = push-Unique req_id sid p.requests v.present v.unique;
      filled = push-FilledBut req_id sid p.requests v.filled;
      present = ground (arith, v.present, push-lem req_id sid 0 req_id p.requests);
      tracked = λ j. ground (
        arith,
        e,
        v.present,
        v.tracked j,
        push-lem req_id sid j 0 p.requests,
        count-insert j sid p.pending_symbols,
      );
      once = λ j. ground (
        arith,
        e,
        v.once j,
        count-insert j sid p.pending_symbols,
        contains-count sid p.pending_symbols,
      );
      sized = ground (
        arith,
        e,
        v.sized,
        v.present,
        push-lem req_id sid 0 0 p.requests,
        length-insert sid p.pending_symbols,
      );
    })
  ]

  -- A symbol that waits keeps its request, and a new one waits for this request.
  add_symbol-owner :
      (p : PendingRequests) (sid j : ℕ)
      → IsOpen req_id p
      → owner j (add_symbol req_id p sid).requests ≡ (
          if is_some (owner j p.requests)
          then owner j p.requests
          else if sid == j
          then some req_id
          else none)
  unfolding add_symbol
  add_symbol-owner p sid j v = ground (
    arith,
    v.present,
    v.tracked sid,
    is_some-owner j p.requests,
    is_some-owner sid p.requests,
    push-owner req_id sid j p.requests,
    contains-count sid p.pending_symbols,
  )

  add_symbols-IsOpen :
      (p : PendingRequests) (sids : List ℕ)
      → IsOpen req_id p
      → IsOpen req_id (add_symbols req_id p sids)
  unfolding add_symbols
  add_symbols-IsOpen p [] v = v
  add_symbols-IsOpen p (sid ∷ sids) v =
      add_symbols-IsOpen (add_symbol req_id p sid) sids (add_symbol-IsOpen p sid v)

  add_symbols-owner :
      (p : PendingRequests) (sids : List ℕ) (j : ℕ)
      → IsOpen req_id p
      → owner j (add_symbols req_id p sids).requests ≡ (
          if is_some (owner j p.requests)
          then owner j p.requests
          else if contains j sids
          then some req_id
          else none)
  unfolding add_symbols contains
  add_symbols-owner p [] j v = ground arith
  add_symbols-owner p (sid ∷ sids) j v = ground (
    arith,
    add_symbols-owner (add_symbol req_id p sid) sids j (add_symbol-IsOpen p sid v),
    add_symbol-owner p sid j v,
  )

  opened : PendingRequests → PendingRequests
  opened p = record p { requests = ensure_request req_id p.requests }

  opened-IsOpen : (p : PendingRequests) → IsConsistent p → IsOpen req_id (opened p)
  unfolding opened
  opened-IsOpen p v = record {
    unique = ensure-Unique req_id p.requests v.unique;
    filled = ensure-FilledBut req_id p.requests v.filled;
    present = ground (arith, ensure-lem req_id 0 req_id p.requests);
    tracked = λ j. ground (arith, v.tracked j, ensure-lem req_id j 0 p.requests);
    once = v.once;
    sized = ground (arith, v.sized, ensure-lem req_id 0 0 p.requests);
  }

  closed-IsConsistent :
      (p : PendingRequests)
      → IsOpen req_id p
      → IsConsistent (record p { requests = drop_if_empty req_id p.requests })
  closed-IsConsistent p v = record {
    unique = drop-Unique req_id p.requests v.unique;
    filled = drop-Filled req_id p.requests v.unique v.filled;
    tracked = λ j. ground (arith, v.tracked j, drop-lem req_id j 0 p.requests);
    once = v.once;
    sized = ground (arith, v.sized, drop-lem req_id 0 0 p.requests);
  }

  -- `add` keeps the invariant: one entry for a request and none without symbols, no symbol twice,
  -- and an index that holds exactly the symbols of the requests.
  pub add-IsConsistent :
      (sids : List ℕ) (p : PendingRequests) → IsConsistent p → IsConsistent (add req_id sids p)
  unfolding add opened
  add-IsConsistent sids p v =
      closed-IsConsistent (add_symbols req_id (opened p) sids)
        (add_symbols-IsOpen (opened p) sids (opened-IsOpen p v))

  -- A symbol that waits already keeps its request; of the others, exactly the added ones wait, and
  -- they wait for this request.
  pub add-owner :
      (sids : List ℕ) (p : PendingRequests) (j : ℕ)
      → IsConsistent p
      → waits_for j (add req_id sids p) ≡ (
          if is_some (waits_for j p)
          then waits_for j p
          else if contains j sids
          then some req_id
          else none)
  unfolding add opened waits_for
  add-owner sids p j v =
      let q = add_symbols req_id (opened p) sids in
      ground (
        arith,
        drop-lem req_id j 0 q.requests,
        add_symbols-owner (opened p) sids j (opened-IsOpen p v),
        ensure-lem req_id j 0 p.requests,
      )

  pub erased-IsConsistent :
      (sid : ℕ) (p : PendingRequests)
      → IsConsistent p
      → holds req_id sid p.requests ≡ true
      → IsConsistent (record {
        requests = erase_symbol req_id sid p.requests;
        pending_symbols = erase_first sid p.pending_symbols;
      })
  erased-IsConsistent sid p v h = record {
    unique = erase-Unique req_id sid p.requests h v.unique;
    filled = erase-Filled req_id sid p.requests v.filled;
    tracked = λ j. ground (
      arith,
      h,
      v.tracked j,
      v.tracked sid,
      erase-lem req_id sid j 0 p.requests,
      count-erase_first j sid p.pending_symbols,
      contains-count sid p.pending_symbols,
      holds-occurrences req_id sid p.requests,
    );
    once = λ j. ground (arith, v.once j, count-erase_first j sid p.pending_symbols);
    sized = ground (
      arith,
      h,
      v.sized,
      v.tracked sid,
      erase-lem req_id sid 0 0 p.requests,
      length-erase_first sid p.pending_symbols,
      contains-count sid p.pending_symbols,
      holds-occurrences req_id sid p.requests,
    );
  }
