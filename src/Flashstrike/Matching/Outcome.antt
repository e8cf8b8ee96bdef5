-- ===== src/Flashstrike/Matching/Outcome.antt =====
-- What the matching of an order comes to.
use mathlib.Core.Option
use wirekrak.Common.{
  ℕ, ◌+◌, ◌<◌, ◌≡◌, refl, sym, ap, ◌∙◌, Bool, true, false, List, [], ◌∷◌, ◌++◌, Option, none, some,
  ◌==◌, ◌>>=◌, if◌then◌else◌, All, ◌⊎◌, inl, inr, arith, bind-some, bind-of_some, outcome,
  append-nil, Bool-cases, ltb,
}
use mathlib.Core.Path.{subst}
use wirekrak.Flashstrike.Types.{
  Side, OperationStatus, success, full_fill, partial_fill, no_match, not_found, unchanged,
  invalid_order, book_full, bad_alloc, idmap_full, rejected,
}
use wirekrak.Flashstrike.Pool.{Order}
use wirekrak.Flashstrike.Store.{get_best_price_level}
use wirekrak.Flashstrike.Book.{get_store}
use wirekrak.Flashstrike.Matching.{
  Trade, Manager, Match, on_the_fly, resting, incoming_order, is_out_of_reach, fill_status,
  match_rounds, match_order, opposite,
}
use wirekrak.Flashstrike.Matching.Accounting.{
  taking, AreRounds, total_qty, match_rounds-AreRounds, AreTrades-total_qty, length-total_qty,
}
use wirekrak.Flashstrike.Matching.Limits.{
  as_market, for_market, outcome_for_market, match_rounds-as_market,
}

-- What a status says of the order after the matching, and of the trades.
abbrev IsStatusOf : OperationStatus → Order → List Trade → Type 0
IsStatusOf full_fill o ts = (0 < o.filled) × (o.qty ≡ 0)
IsStatusOf partial_fill o ts = (0 < o.filled) × (0 < o.qty)
IsStatusOf no_match o ts = (ts ≡ []) ⊎ (o.filled ≡ 0)
IsStatusOf success o ts = ⊥
IsStatusOf not_found o ts = ⊥
IsStatusOf unchanged o ts = ⊥
IsStatusOf invalid_order o ts = ⊥
IsStatusOf book_full o ts = ⊥
IsStatusOf bad_alloc o ts = ⊥
IsStatusOf idmap_full o ts = ⊥
IsStatusOf rejected o ts = ⊥

fill_status-IsStatusOf : (o : Order) (ts : List Trade) → IsStatusOf (fill_status o) o ts
unfolding fill_status
fill_status-IsStatusOf o ts = elim (Bool-cases (ltb 0 o.filled)) [
  | inl e ↦ elim (Bool-cases (o.qty == 0)) [
    | inl f ↦ rw (fill_status, e, f) (ground (arith, e), ground (arith, f))
    | inr f ↦ rw (fill_status, e, f) (ground (arith, e), ground (arith, f))
  ]
  | inr e ↦ rw (fill_status, e) (inr (ground (arith, e)))
]

-- The order after the matching, with the trades.
unfoldable pub IsMatched : Order → Manager → Match → OperationStatus → Type 0
IsMatched o manager m' status =
    (ts : List Trade) × (o' : Order) × (manager' : Manager) × (trades : ℕ) × (last_price : Option ℕ)
    × (m' ≡ taking o' manager' trades last_price)
    × (manager'.trades_ring ≡ manager.trades_ring ++ ts)
    × (o'.qty + total_qty ts ≡ o.qty)
    × (o'.filled ≡ o.filled + total_qty ts)
    × IsStatusOf status o' ts

-- The matching of an order of its own, which is none of the pool, conserves it where it returns: its
-- trades are pushed to the ring, what they take is what the order has less and what is filled more.
-- The status full_fill says that the order has filled some and has none left, partial_fill that it
-- has filled some and has some left, no_match that there is no trade or nothing filled, and there
-- is no other status.
pub match_order-IsMatched :
    (fuel : ℕ) (side : Side) (o : Order) (manager : Manager) (trades : ℕ) (last_price : Option ℕ)
    (m' : Match) (status : OperationStatus)
    → match_order fuel side (taking o manager trades last_price) ≡ some (m', status)
    → IsMatched o manager m' status
unfolding match_order IsMatched AreRounds total_qty incoming_order
match_order-IsMatched fuel side o manager trades last_price m' status e =
    let m = taking o manager 0 last_price in
    let finish : Match × Bool → Option (Match × OperationStatus) =
      λ r. some (r.0, fill_status (incoming_order r.0)) in
    let reached : Bool → Option (Match × OperationStatus) = λ out.
      if out
      then some (record m { last_price = some 0 }, no_match)
      else match_rounds fuel side m >>= finish in
    let (out, e1, e2) = bind-some (is_out_of_reach side m) reached (m', status) e in
    elim out as (λ out. reached out ≡ some (m', status) → IsMatched o manager m' status) [
      | true ↦ λ f.
          let (same, kept) = outcome (record m { last_price = some 0 }) m' no_match status f in
          (
            [],
            o,
            manager,
            0,
            some 0,
            same,
            sym (append-nil manager.trades_ring),
            omega arith,
            omega arith,
            subst (λ x. IsStatusOf x o []) (sym kept) (inl refl),
          )
      | false ↦ λ f.
          let ((m'', ended), e3, e4) = bind-some (match_rounds fuel side m) finish (m', status) f in
          let (same, kept) = outcome m'' m' (fill_status (incoming_order m'')) status e4 in
          let (ts, o', manager', trades', last_price', same', ring, are, _) =
            match_rounds-AreRounds fuel side o manager 0 last_price m'' ended e3 in
          let (left, more, _, _) =
            AreTrades-total_qty o manager.seq_gen ts manager'.seq_gen o' are in
          (
            ts,
            o',
            manager',
            trades',
            last_price',
            same ∙ same',
            ring,
            left,
            more,
            subst (λ x. IsStatusOf x o' ts)
                (sym (kept ∙ ap (λ x. fill_status (incoming_order x)) same'))
                (fill_status-IsStatusOf o' ts),
          )
    ]
      e2

-- Some trade has the quantity zero.
unfoldable pub has_empty_trade : List Trade → Bool
has_empty_trade [] = false
has_empty_trade (t ∷ ts) = if t.qty == 0 then true else has_empty_trade ts

-- The trades of a ring that come after those it had before.
unfoldable pub added_trades : List Trade → List Trade → List Trade
added_trades [] ts = ts
added_trades (r ∷ rs) [] = []
added_trades (r ∷ rs) (t ∷ ts) = added_trades rs ts

added_trades-append : (rs ts : List Trade) → added_trades rs (rs ++ ts) ≡ ts
unfolding added_trades
added_trades-append [] ts = refl
added_trades-append (r ∷ rs) ts = added_trades-append rs ts

positive : (ts : List Trade) → has_empty_trade ts ≡ false → All (λ (t : Trade). 0 < t.qty) ts
unfolding has_empty_trade
positive [] e = tt
positive (t ∷ ts) e = elim (Bool-cases (t.qty == 0)) [
  | inl f ↦ absurd (ground (arith, e, f))
  | inr f ↦ (ground (arith, f), positive ts (ground (arith, e, f)))
]

-- For an order of its own, which is none of the pool: where the loop of a matching returns, and none of
-- the trades that it added to the ring has the quantity zero, it has ended within as many rounds as
-- the order's quantity, and one more to see it.
pub match_rounds-ends :
    (fuel : ℕ) (side : Side) (o : Order) (manager : Manager) (trades : ℕ) (last_price : Option ℕ)
    (m' : Match) (ended : Bool)
    → o.qty < fuel
    → match_rounds fuel side (taking o manager trades last_price) ≡ some (m', ended)
    → has_empty_trade (added_trades manager.trades_ring m'.manager.trades_ring) ≡ false
    → ended ≡ true
unfolding AreRounds
match_rounds-ends fuel side o manager trades last_price m' ended l e f =
    let (ts, o', manager', trades', last_price', same, ring, are, done) =
      match_rounds-AreRounds fuel side o manager trades last_price m' ended e in
    let (left, _, _, _) = AreTrades-total_qty o manager.seq_gen ts manager'.seq_gen o' are in
    let rings : m'.manager.trades_ring ≡ manager.trades_ring ++ ts =
      ap (λ (x : Match). x.manager.trades_ring) same ∙ ring in
    let added : added_trades manager.trades_ring m'.manager.trades_ring ≡ ts =
      ap (added_trades manager.trades_ring) rings ∙ added_trades-append manager.trades_ring ts in
    let most = length-total_qty ts (positive ts (ap has_empty_trade (sym added) ∙ f)) in
    elim done [ inl g ↦ g | inr g ↦ absurd (omega (arith, g, most, left, l)) ]

market-is_in_reach :
    (side : Side) (o : Order) (manager : Manager) (last_price : Option ℕ)
    → is_out_of_reach side (taking o manager 0 last_price) ≡ some false
    → is_out_of_reach side (taking (as_market o) manager 0 last_price) ≡ some false
unfolding is_out_of_reach incoming_order as_market
market-is_in_reach side o manager last_price e =
    let v = get_store (opposite side) manager.book in
    let (best, e1, _) = bind-some (get_best_price_level v) _ false e in
    bind-of_some (get_best_price_level v) _ best e1
    ∙ (elim best
        as (λ b. some (elim b as (λ _. Bool) [ none ↦ false | some x ↦ false ]) ≡ some false) [
          | none ↦ refl
          | some x ↦ refl
        ])

for_market-fill_status :
    (m : Match) → fill_status (incoming_order (for_market m)) ≡ fill_status (incoming_order m)
unfolding for_market incoming_order fill_status as_market
for_market-fill_status m =
    elim m.taker
      as (λ t.
        let x = record m { taker = t } in
        fill_status (incoming_order (for_market x)) ≡ fill_status (incoming_order x)) [
          | on_the_fly o ↦ refl
          | resting order_idx ↦ refl
        ]

-- A limit order that crosses the best level is matched as a market order is, whatever the prices of the
-- levels after that one.
pub match_order-as_market :
    (fuel : ℕ) (side : Side) (o : Order) (manager : Manager) (trades : ℕ) (last_price : Option ℕ)
    → is_out_of_reach side (taking o manager 0 last_price) ≡ some false
    → match_order fuel side (taking (as_market o) manager trades last_price)
      ≡ Option.map
          (λ r. (for_market r.0, r.1))
          (match_order fuel side (taking o manager trades last_price))
unfolding match_order is_out_of_reach outcome_for_market for_market
match_order-as_market fuel side o manager trades last_price e =
    let m = taking o manager 0 last_price in
    let m' = taking (as_market o) manager 0 last_price in
    let rounds = match_rounds fuel side m in
    let finish : Match × Bool → Option (Match × OperationStatus) =
      λ r. some (r.0, fill_status (incoming_order r.0)) in
    bind-of_some (is_out_of_reach side m') _ false (market-is_in_reach side o manager last_price e)
    ∙ ap (λ r. r >>= finish) (match_rounds-as_market fuel side o manager 0 last_price)
    ∙ (elim rounds
        as (λ r.
          (Option.map outcome_for_market r >>= finish)
          ≡ Option.map (λ r. (for_market r.0, r.1)) (r >>= finish)) [
            | none ↦ refl
            | some (x, ended) ↦
                ap (λ status. some (for_market x, status)) (for_market-fill_status x)
          ])
    ∙ ap (Option.map (λ r. (for_market r.0, r.1)))
        (sym (bind-of_some (is_out_of_reach side m) _ false e))
