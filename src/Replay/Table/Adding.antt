-- ===== src/Replay/Table/Adding.antt =====
-- What `add` and `take_subscriptions` of a table do.
use wirekrak.Common.{
  ℕ, ◌+◌, ◌≡◌, refl, Bool, true, false, not, ◌&&◌, List, [], ◌∷◌, map, none, some, if◌then◌else◌,
  is_some, bit, contains, All, lookup, emplace, lookup-emplace, emplace-UniqueKeys, UniqueKeys,
  arith, Bool-cases, Option-cases, inl, inr,
}
use wirekrak.Replay.Table.{
  Symbols, Request, Table, is_nil, remove_if, own_symbols, add, take_subscriptions, move_out, clear,
  empty_table,
}
use wirekrak.Replay.Table.Entries.{has, holders, owner_in, is_some-owner_in}
use wirekrak.Replay.Table.Invariant.{Labelled, owner_of, IsValid, empty-IsValid}

module _ (s : Symbols) where
  open s use {Symbol, intern}

  contains-remove_owned :
      (j : ℕ) (owners : List (ℕ × ℕ)) (symbols : List Symbol)
      → contains j
          (map intern (remove_if (λ symbol. is_some (lookup (intern symbol) owners)) symbols))
        ≡ (contains j (map intern symbols) && not (is_some (lookup j owners)))
  unfolding contains remove_if
  contains-remove_owned j owners [] = refl
  contains-remove_owned j owners (x ∷ symbols) =
      elim (Bool-cases (is_some (lookup (intern x) owners))) [
        | inl e ↦ rw e (ground (arith, e, contains-remove_owned j owners symbols))
        | inr e ↦ rw e (ground (arith, e, contains-remove_owned j owners symbols))
      ]

  own_symbols-lem :
      (k j : ℕ) (symbols : List Symbol) (owners : List (ℕ × ℕ))
      → UniqueKeys owners
      → (lookup j (own_symbols s k symbols owners) ≡ (
          if is_some (lookup j owners)
          then lookup j owners
          else if contains j (map intern symbols)
          then some k
          else none))
        × UniqueKeys (own_symbols s k symbols owners)
  unfolding own_symbols contains
  own_symbols-lem k j [] owners u = (ground arith, u)
  own_symbols-lem k j (x ∷ symbols) owners u =
      let rest =
        own_symbols-lem k j symbols (emplace (intern x) k owners)
          (emplace-UniqueKeys (intern x) k owners u) in
      (ground (arith, rest.0, lookup-emplace j (intern x) k owners), rest.1)

module _ (s : Symbols) {Body : Type 0} where
  open s use {Symbol, intern}

  -- The symbols of a request that no stored request owns.
  unfoldable pub unowned : Request Symbol Body → Table Symbol Body → List Symbol
  unowned req t = remove_if (λ symbol. is_some (lookup (intern symbol) t.symbol_owner)) req.symbols

  -- A request is stored if it has an identifier that is not in use and a symbol that is unowned.
  pub accepts : Request Symbol Body → Table Symbol Body → Bool
  accepts req t = elim req.req_id [
    | none ↦ false
    | some k ↦ not (is_nil (unowned req t)) && not (is_some (lookup k t.subscriptions))
  ]

  unfoldable pub stored : ℕ → Request Symbol Body → Table Symbol Body → Table Symbol Body
  stored k req t = record {
    subscriptions = (k, record req { symbols = unowned req t }) ∷ t.subscriptions;
    symbol_owner = own_symbols s k (unowned req t) t.symbol_owner;
  }

  pub add-lem :
      (req : Request Symbol Body) (t : Table Symbol Body) (k : ℕ)
      → req.req_id ≡ some k
      → add s req t ≡ (if accepts req t then (stored k req t, true) else (t, false))
  unfolding add accepts stored unowned
  add-lem req t k e = rw (e, add) (ground arith)

  stored-owner :
      (k : ℕ) (req : Request Symbol Body) (t : Table Symbol Body) (j : ℕ)
      → IsValid s t
      → owner_of s j (stored k req t) ≡ (
          if is_some (owner_of s j t)
          then owner_of s j t
          else if contains j (map intern req.symbols)
          then some k
          else none)
  unfolding stored owner_of unowned
  stored-owner k req t j v = ground (
    arith,
    own_symbols-lem s k j (unowned req t) t.symbol_owner v.owners,
    contains-remove_owned s j t.symbol_owner req.symbols,
  )

  accepted :
      (k : ℕ) (req : Request Symbol Body) (t : Table Symbol Body)
      → req.req_id ≡ some k
      → accepts req t ≡ true
      → (is_some (lookup k t.subscriptions) ≡ false) × (is_nil (unowned req t) ≡ false)
  unfolding accepts
  accepted k req t e a = ground arith

  stored-IsValid :
      (k : ℕ) (req : Request Symbol Body) (t : Table Symbol Body)
      → IsValid s t
      → req.req_id ≡ some k
      → accepts req t ≡ true
      → IsValid s (stored k req t)
  unfolding stored accepts unowned holders owner_in has
  stored-IsValid k req t v e a =
      let free = accepted k req t e a in
      record {
        keys = (free.0, v.keys);
        owners = (own_symbols-lem s k 0 (unowned req t) t.symbol_owner v.owners).1;
        labelled = (e, free.1, v.labelled);
        single = λ j. ground (
          arith,
          v.single j,
          v.tracked j,
          is_some-owner_in s j t.subscriptions,
          contains-remove_owned s j t.symbol_owner req.symbols,
        );
        tracked = λ j. ground (
          arith,
          v.tracked j,
          own_symbols-lem s k j (unowned req t) t.symbol_owner v.owners,
          contains-remove_owned s j t.symbol_owner req.symbols,
        );
      }

  pub refused :
      (req : Request Symbol Body) (t : Table Symbol Body)
      → req.req_id ≡ none
      → add s req t ≡ (t, false)
  unfolding add
  refused req t e = rw (e, add)

  -- `add` keeps the agreement of the ownership index with the stored requests (`IsValid`: a symbol is
  -- owned by the one stored request that has it, however often that request repeats it; not the
  -- equality of sizes that `assert_consistency` tests, which a repeated symbol breaks). It stores
  -- the request exactly when that has an identifier which is not in use and a symbol that no stored
  -- request owns; then the request owns those of its symbols that were unowned, and every other
  -- symbol keeps its owner. Where it does not store the request, every symbol keeps its owner.
  pub add-owner_of :
      (req : Request Symbol Body) (t : Table Symbol Body)
      → IsValid s t
      → let (t', added) = add s req t in
        IsValid s t'
        × (added ≡ accepts req t)
        × ((j : ℕ)
            → owner_of s j t' ≡ (
                if added && not (is_some (owner_of s j t)) && contains j (map intern req.symbols)
                then req.req_id
                else owner_of s j t))
  add-owner_of req t v = elim (Option-cases req.req_id) [
    | inl e ↦ rw (refused req t e) (v, unfold accepts in rw (e, accepts), λ j. refl)
    | inr (k, e) ↦ elim (Bool-cases (accepts req t)) [
      | inl a ↦
          rw (add-lem req t k e, a)
            (stored-IsValid k req t v e a, refl, λ j. ground (arith, e, stored-owner k req t j v))
      | inr a ↦ rw (add-lem req t k e, a) (v, refl, λ j. refl)
    ]
  ]

  -- How many of the requests have the symbol.
  pub senders : ℕ → List (Request Symbol Body) → ℕ
  senders sid [] = 0
  senders sid (r ∷ rs) = bit (has s sid r) + senders sid rs

  senders-move_out :
      (sid : ℕ) (m : List (ℕ × Request Symbol Body)) → senders sid (move_out s m) ≡ holders s sid m
  unfolding senders move_out holders
  senders-move_out sid [] = refl
  senders-move_out sid ((k, r) ∷ m) = rw (senders-move_out sid m)

  move_out-All :
      (m : List (ℕ × Request Symbol Body))
      → Labelled m
      → All (λ r. (is_some r.req_id ≡ true) × (is_nil r.symbols ≡ false)) (move_out s m)
  unfolding move_out
  move_out-All [] l = tt
  move_out-All ((k, r) ∷ m) l = ((ground (arith, l.0), l.1), move_out-All m l.2)

  -- `take_subscriptions` hands over exactly the stored intent: each owned symbol stands in one of
  -- the requests and any other symbol in none, each request has an identifier and a symbol, and the
  -- table is left empty and valid.
  pub take_subscriptions-owner :
      (t : Table Symbol Body)
      → IsValid s t
      → let (out, t') = take_subscriptions s t in
        ((j : ℕ) → senders j out ≡ bit (is_some (owner_of s j t)))
        × All (λ r. (is_some r.req_id ≡ true) × (is_nil r.symbols ≡ false)) out
        × (t' ≡ empty_table)
        × IsValid s t'
  unfolding take_subscriptions clear owner_of
  take_subscriptions-owner t v = (
    λ j. ground (
      arith,
      v.tracked j,
      v.single j,
      senders-move_out j t.subscriptions,
      is_some-owner_in s j t.subscriptions,
    ),
    move_out-All t.subscriptions v.labelled,
    unfold empty_table in refl,
    unfold empty_table in empty-IsValid s,
  )
