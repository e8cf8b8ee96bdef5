-- ===== src/Replay/Table/Erasing.antt =====
-- What `erase_symbol` and `try_process_rejection` of a table do.
use wirekrak.Common.{
  is_owner, ℕ, ◌≤◌, ◌≡◌, refl, sym, ◌∙◌, true, false, not, ◌&&◌, List, none, some, ◌==◌,
  if◌then◌else◌, contains, lookup, remove, UniqueKeys, remove-UniqueKeys, replace-UniqueKeys,
  lookup-remove, arith, Bool-cases, Option-cases, inl, inr,
}
use wirekrak.Replay.Table.{
  Symbols, Request, Table, is_nil, erase_from, reject_from, put_back, try_process_rejection,
  erase_symbol,
}
use wirekrak.Replay.Table.Entries.{
  has, holders, owner_in, erase_from-has, remove-owner_in, replace-owner_in, owner_in-lookup,
  owner_in-found, owner_in-missing,
}
use wirekrak.Replay.Table.Invariant.{Labelled-lookup, owner_of, IsValid, put_back-Labelled}

module _ (s : Symbols) {Body : Type 0} where
  open s use {Symbol, intern}

  has_nil : (j : ℕ) (r : Request Symbol Body) → is_nil r.symbols ≡ true → has s j r ≡ false
  unfolding has contains
  has_nil j r e = ground arith

  -- The requests after symbol `sid` has left request `k`.
  put_back-lem :
      (k sid : ℕ) (r r' : Request Symbol Body) (m : List (ℕ × Request Symbol Body)) (j : ℕ)
      → lookup k m ≡ some r
      → holders s j m ≤ 1
      → has s sid r ≡ true
      → has s j r' ≡ (has s j r && not (sid == j))
      → (holders s j (put_back s k r' m) ≤ holders s j m)
        × (owner_in s j (put_back s k r' m) ≡ (if sid == j then none else owner_in s j m))
  unfolding put_back
  put_back-lem k sid r r' m j e h held left = elim (Bool-cases (is_nil r'.symbols)) [
    | inl none_left ↦
        rw none_left (ground (arith, has_nil j r' none_left, remove-owner_in s k r j m e h))
    | inr some_left ↦ rw some_left (ground (arith, replace-owner_in s k r r' j m e h))
  ]

  -- The table without symbol `sid`, which request `k` has.
  without : ℕ → ℕ → Request Symbol Body → Table Symbol Body → Table Symbol Body
  without k sid r' t = record {
    subscriptions = put_back s k r' t.subscriptions;
    symbol_owner = remove sid t.symbol_owner;
  }

  module _ (k sid : ℕ) (r r' : Request Symbol Body) (t : Table Symbol Body) (v : IsValid s t)
      (found : lookup k t.subscriptions ≡ some r) (held : has s sid r ≡ true)
      (kept : r'.req_id ≡ r.req_id)
      (left : (j : ℕ) → has s j r' ≡ (has s j r && not (sid == j))) where
    without-owner :
        (j : ℕ) → owner_of s j (without k sid r' t) ≡ (if sid == j then none else owner_of s j t)
    unfolding owner_of without
    without-owner j = lookup-remove j sid t.symbol_owner v.owners

    without-IsValid : IsValid s (without k sid r' t)
    unfolding without
    without-IsValid = record {
      keys = put_back-keys;
      owners = remove-UniqueKeys sid t.symbol_owner v.owners;
      labelled =
          put_back-Labelled s k r' t.subscriptions v.labelled
            (kept ∙ (Labelled-lookup k r t.subscriptions v.labelled found).0);
      single = λ j. omega (
        arith,
        v.single j,
        (put_back-lem k sid r r' t.subscriptions j found (v.single j) held (left j)).0,
      );
      tracked = λ j. ground (
        arith,
        v.tracked j,
        lookup-remove j sid t.symbol_owner v.owners,
        put_back-lem k sid r r' t.subscriptions j found (v.single j) held (left j),
      );
    }
      where
        put_back-keys : UniqueKeys (put_back s k r' t.subscriptions)
        put_back-keys =
            unfold put_back in
            elim (Bool-cases (is_nil r'.symbols)) [
              | inl e ↦ rw e (remove-UniqueKeys k t.subscriptions v.keys)
              | inr e ↦ rw e (replace-UniqueKeys k r' t.subscriptions v.keys)
            ]

  erase_symbol-found :
      (symbol : Symbol) (k : ℕ) (r : Request Symbol Body) (t : Table Symbol Body)
      → lookup (intern symbol) t.symbol_owner ≡ some k
      → lookup k t.subscriptions ≡ some r
      → (erase_from s symbol r).1 ≡ true
      → erase_symbol s symbol t ≡ without k (intern symbol) (erase_from s symbol r).0 t
  unfolding erase_symbol without
  erase_symbol-found symbol k r t owned found erased = rw (owned, erase_symbol, found, erased)

  -- `erase_symbol` keeps the invariant and takes the symbol, and no other, out of the table.
  pub erase_symbol-owner :
      (symbol : Symbol) (t : Table Symbol Body)
      → IsValid s t
      → IsValid s (erase_symbol s symbol t)
        × ((j : ℕ)
            → owner_of s j (erase_symbol s symbol t)
              ≡ (if intern symbol == j then none else owner_of s j t))
  erase_symbol-owner symbol t v = elim (Option-cases (lookup (intern symbol) t.symbol_owner)) [
    | inl e ↦
        unfold erase_symbol in rw (e, erase_symbol) (v, λ j. unfold owner_of in ground (arith, e))
    | inr (k, e) ↦
        let sid = intern symbol in
        let (r, found, held) =
          owner_in-lookup s sid k t.subscriptions v.keys (sym (v.tracked sid) ∙ e) in
        let erased = erase_from-has s symbol r in
        let r' = (erase_from s symbol r).0 in
        rw (erase_symbol-found symbol k r t e found ((erased 0).0 ∙ held)) (
          without-IsValid k sid r r' t v found held (erased 0).2 (λ j. (erased j).1),
          without-owner k sid r r' t v found held (erased 0).2 (λ j. (erased j).1),
        )
  ]

  -- The rejection of a symbol by request `k`, on its entry.
  reject_from-lem :
      (k : ℕ) (symbol : Symbol) (r : Request Symbol Body)
      → r.req_id ≡ some k
      → reject_from s k symbol r ≡ erase_from s symbol r
  unfolding reject_from
  reject_from-lem k symbol r e = rw (e, reject_from) (ground arith)

  rejection-found :
      (symbol : Symbol) (k : ℕ) (r : Request Symbol Body) (t : Table Symbol Body)
      → lookup k t.subscriptions ≡ some r
      → r.req_id ≡ some k
      → (try_process_rejection s k symbol t ≡ (
          if (erase_from s symbol r).1
          then (without k (intern symbol) (erase_from s symbol r).0 t, true)
          else (t, false)))
  unfolding try_process_rejection without
  rejection-found symbol k r t found e =
      rw (found, try_process_rejection, reject_from-lem k symbol r e) (ground arith)

  -- `try_process_rejection` keeps the invariant, succeeds exactly when the request owns the symbol,
  -- and then takes that symbol, and no other, out of the table; otherwise nothing changes.
  pub try_process_rejection-owner :
      (k : ℕ) (symbol : Symbol) (t : Table Symbol Body)
      → IsValid s t
      → let (t', done) = try_process_rejection s k symbol t in
        IsValid s t'
        × (done ≡ is_owner k (owner_of s (intern symbol) t))
        × ((j : ℕ)
            → owner_of s j t' ≡ (if done && intern symbol == j then none else owner_of s j t))
  try_process_rejection-owner k symbol t v = elim (Option-cases (lookup k t.subscriptions)) [
    | inl e ↦
        unfold try_process_rejection owner_of in
        rw (e, try_process_rejection, v.tracked (intern symbol))
          (v, sym (owner_in-missing s (intern symbol) k t.subscriptions e), λ j. refl)
    | inr (r, found) ↦
        let sid = intern symbol in
        let labelled = (Labelled-lookup k r t.subscriptions v.labelled found).0 in
        let erased = erase_from-has s symbol r in
        let r' = (erase_from s symbol r).0 in
        let owner : is_owner k (owner_of s sid t) ≡ has s sid r =
          unfold owner_of in
          rw (v.tracked sid)
            (owner_in-found s sid k r t.subscriptions v.keys (v.single sid) found) in
        elim (Bool-cases (has s sid r)) [
          | inl held ↦
              rw (rejection-found symbol k r t found labelled, (erased 0).0, held)
                (
                  without-IsValid k sid r r' t v found held (erased 0).2 (λ j. (erased j).1),
                  sym (owner ∙ held),
                  without-owner k sid r r' t v found held (erased 0).2 (λ j. (erased j).1),
                )
          | inr free ↦
              rw (rejection-found symbol k r t found labelled, (erased 0).0, free)
                (v, sym (owner ∙ free), λ j. refl)
        ]
  ]
