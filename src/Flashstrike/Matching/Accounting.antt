-- ===== src/Flashstrike/Matching/Accounting.antt =====
-- What the rounds of a matching trade.
use wirekrak.Common.{
  ℕ, zero, suc, ◌+◌, ◌%◌, ◌^◌, ◌≤◌, ◌<◌, ◌≡◌, refl, sym, ap, ◌∙◌, subst, Bool, true, false, inl,
  inr, ◌⊎◌, ◌==◌, All, List, [], ◌∷◌, ◌++◌, Option, none, some, length, arith, if◌then◌else◌,
  bind-some, outcome, ◌>>=◌, some-injective, append-nil, append_assoc,
}
use wirekrak.Control.Sequence.{Sequence, next}
use wirekrak.Flashstrike.Types.{Side}
use wirekrak.Flashstrike.Pool.{Order, get_order}
use wirekrak.Flashstrike.Store.{level_at, get_best_price_level}
use wirekrak.Flashstrike.Book.{get_store}
use wirekrak.Flashstrike.Matching.{
  Trade, Manager, Match, on_the_fly, incoming_order, write_incoming, write_resting, fill, smaller,
  subtract_at, remove_filled, put_book, emit_trade_event, trade_with, finish_trade, round_with,
  round_at, match_round, match_rounds, opposite,
}

-- The trades of an order: each has the next number, names the order and its side, and takes no more
-- than what is left of it.
unfoldable pub AreTrades : Order → Sequence → List Trade → Sequence → Order → Type 0
unfolding fill next
AreTrades o s [] s' o' = (s' ≡ s) × (o' ≡ o)
AreTrades o s (t ∷ ts) s' o' =
    (t.seq_num ≡ s.next_seq)
    × (t.taker_order_id ≡ o.id)
    × (t.taker_side ≡ o.side)
    × (t.qty ≤ o.qty)
    × AreTrades (fill t.qty o) ((next s).0) ts s' o'

unfoldable pub total_qty : List Trade → ℕ
total_qty [] = 0
total_qty (t ∷ ts) = t.qty + total_qty ts

abbrev pub taking : Order → Manager → ℕ → Option ℕ → Match
taking o manager trades last_price = record {
  manager = manager;
  taker = on_the_fly o;
  trades = trades;
  last_price = last_price;
}

unless :
    {A : Type 0} (b : Bool) (o : Option (Option A)) (a : A)
    → (if b then some none else o) ≡ some (some a)
    → o ≡ some (some a)
unless true o a e = absurd (ground (arith, e))
unless false o a e = e

smaller-le : (a b : ℕ) → smaller a b ≤ a
unfolding smaller
smaller-le a b = ground arith

-- A round that trades, with the trade.
unfoldable pub IsRound : Order → Manager → Match → Type 0
IsRound o manager m' =
    (t : Trade) × (manager' : Manager) × (trades : ℕ) × (last_price : Option ℕ) × (m'
      ≡ taking (fill t.qty o) manager' trades last_price)
    × (manager'.trades_ring ≡ manager.trades_ring ++ (t ∷ []))
    × (manager'.seq_gen ≡ (next manager.seq_gen).0)
    × (t.seq_num ≡ manager.seq_gen.next_seq)
    × (t.taker_order_id ≡ o.id)
    × (t.taker_side ≡ o.side)
    × (t.qty ≤ o.qty)

module _ (side : Side) (o : Order) (manager : Manager) (trades : ℕ) (last_price : Option ℕ) where
  trade_with-IsRound :
      (part pl_idx order_idx : ℕ) (m' : Match)
      → trade_with side part pl_idx order_idx (taking o manager trades last_price) ≡ some m'
      → IsRound o manager m'
  unfolding trade_with IsRound incoming_order write_incoming write_resting put_book emit_trade_event
      fill next finish_trade
  trade_with-IsRound part pl_idx order_idx m' e =
      let start = taking o manager trades last_price in
      let qty = smaller o.qty (get_order order_idx manager.book.pool).qty in
      let m1 = write_incoming (fill qty o) start in
      let m2 = write_resting order_idx (fill qty (get_order order_idx m1.manager.book.pool)) m1 in
      let (b3, _, e3) =
        bind-some (subtract_at (opposite side) part pl_idx qty m2.manager.book)
          (λ b3.
            remove_filled order_idx b3
            >>= (λ b4. some (finish_trade side part pl_idx order_idx qty m2 b3 b4)))
          m' e in
      let (b4, _, e4) =
        bind-some (remove_filled order_idx b3)
          (λ b4. some (finish_trade side part pl_idx order_idx qty m2 b3 b4)) m' e3 in
      let t : Trade = record {
        seq_num = manager.seq_gen.next_seq;
        maker_order_id = (get_order order_idx b4.pool).id;
        taker_order_id = o.id;
        price = (level_at part pl_idx (get_store (opposite side) b3)).price;
        qty = qty;
        taker_side = o.side;
      } in
      (
        t,
        record manager {
          book = b4;
          trades_ring = manager.trades_ring ++ (t ∷ []);
          seq_gen = (next manager.seq_gen).0;
        },
        (trades + 1) % 2 ^ 32,
        some t.price,
        sym (some-injective (finish_trade side part pl_idx order_idx qty m2 b3 b4) m' e4),
        refl,
        refl,
        refl,
        refl,
        refl,
        smaller-le o.qty (get_order order_idx manager.book.pool).qty,
      )

  round_with-IsRound :
      (part pl_idx : ℕ) (head_idx : Option ℕ) (m' : Match)
      → round_with side part pl_idx (taking o manager trades last_price) head_idx ≡ some (some m')
      → IsRound o manager m'
  unfolding round_with incoming_order
  round_with-IsRound part pl_idx none m' e = absurd (ground (arith, e))
  round_with-IsRound part pl_idx (some order_idx) m' e =
      let traded = trade_with side part pl_idx order_idx (taking o manager trades last_price) in
      let round : Match → Option (Option Match) = λ m''. some (some m'') in
      let (m'', e1, e2) =
        bind-some traded round (some m') (unless (o.qty == 0) (traded >>= round) m' e) in
      let equal = some-injective m'' m' (some-injective (some m'') (some m') e2) in
      trade_with-IsRound part pl_idx order_idx m' (e1 ∙ ap (λ x. some x) equal)

  round_at-IsRound :
      (best : Option (ℕ × ℕ)) (m' : Match)
      → round_at side (taking o manager trades last_price) best ≡ some (some m')
      → IsRound o manager m'
  unfolding round_at
  round_at-IsRound none m' e = absurd (ground (arith, e))
  round_at-IsRound (some (part, pl_idx)) m' e =
      round_with-IsRound part pl_idx
        (level_at part pl_idx (get_store (opposite side) manager.book)).head_idx m' e

  pub match_round-IsRound :
      (m' : Match)
      → match_round side (taking o manager trades last_price) ≡ some (some m')
      → IsRound o manager m'
  unfolding match_round
  match_round-IsRound m' e =
      let m = taking o manager trades last_price in
      let (best, _, e1) =
        bind-some (get_best_price_level (get_store (opposite side) manager.book))
          (λ best. round_at side m best) (some m') e in
      round_at-IsRound best m' e1

-- The trades that rounds add.
unfoldable pub AreRounds : ℕ → Order → Manager → Match → Bool → Type 0
AreRounds fuel o manager m' ended =
    (ts : List Trade) × (o' : Order) × (manager' : Manager) × (trades : ℕ) × (last_price : Option ℕ)
    × (m' ≡ taking o' manager' trades last_price)
    × (manager'.trades_ring ≡ manager.trades_ring ++ ts)
    × AreTrades o manager.seq_gen ts manager'.seq_gen o'
    × ((ended ≡ true) ⊎ (length ts ≡ fuel))

-- The trade of a round, before those of the rounds after it.
prepend :
    (fuel : ℕ) (o : Order) (manager : Manager) (m' : Match) (ended : Bool) (t : Trade)
    (manager'' : Manager)
    → manager''.trades_ring ≡ manager.trades_ring ++ (t ∷ [])
    → manager''.seq_gen ≡ (next manager.seq_gen).0
    → t.seq_num ≡ manager.seq_gen.next_seq
    → t.taker_order_id ≡ o.id
    → t.taker_side ≡ o.side
    → t.qty ≤ o.qty
    → AreRounds fuel (fill t.qty o) manager'' m' ended
    → AreRounds (suc fuel) o manager m' ended
unfolding AreRounds AreTrades
prepend fuel o manager m' ended t manager'' ring seq number taker side most
      (ts, o', manager', trades, last_price, same, ring', are, done) =
    (
      t ∷ ts,
      o',
      manager',
      trades,
      last_price,
      same,
      ring' ∙ ap (λ r. r ++ ts) ring ∙ append_assoc manager.trades_ring (t ∷ []) ts,
      (
        number,
        taker,
        side,
        most,
        subst (λ s. AreTrades (fill t.qty o) s ts manager'.seq_gen o') seq are,
      ),
      elim done [ inl e ↦ inl e | inr e ↦ inr (ap suc e) ],
    )

-- The rounds of an order's matching push trades of the order, one for each round: every trade has the
-- next sequence number, names the order as its taker, takes no more than what is left, and what is
-- left and filled after them is what the trades leave. The loop ended, or all rounds traded.
pub match_rounds-AreRounds :
    (fuel : ℕ) (side : Side) (o : Order) (manager : Manager) (trades : ℕ) (last_price : Option ℕ)
    (m' : Match) (ended : Bool)
    → match_rounds fuel side (taking o manager trades last_price) ≡ some (m', ended)
    → AreRounds fuel o manager m' ended
unfolding match_rounds AreRounds AreTrades IsRound
match_rounds-AreRounds zero side o manager trades last_price m' ended e =
    let (same, _) = outcome (taking o manager trades last_price) m' false ended e in
    (
      [],
      o,
      manager,
      trades,
      last_price,
      same,
      sym (append-nil manager.trades_ring),
      (refl, refl),
      inr refl,
    )
match_rounds-AreRounds (suc fuel) side o manager trades last_price m' ended e =
    let m = taking o manager trades last_price in
    let after : Option Match → Option (Match × Bool) =
      λ round. elim round [ none ↦ some (m, true) | some m'' ↦ match_rounds fuel side m'' ] in
    let (round, e1, e2) = bind-some (match_round side m) after (m', ended) e in
    elim round
        as (λ r.
          match_round side m ≡ some r
          → after r ≡ some (m', ended)
          → AreRounds (suc fuel) o manager m' ended) [
            | none ↦ λ f g.
                let (same, done) = outcome m m' true ended g in
                (
                  [],
                  o,
                  manager,
                  trades,
                  last_price,
                  same,
                  sym (append-nil manager.trades_ring),
                  (refl, refl),
                  inl done,
                )
            | some m'' ↦ λ f g.
                let (
                  t, manager'', trades'', last_price'', same, ring, seq, number, taker, taker_side,
                  most,
                ) =
                  match_round-IsRound side o manager trades last_price m'' f in
                prepend fuel o manager m' ended t manager'' ring seq number taker taker_side most (
                  match_rounds-AreRounds fuel side (fill t.qty o) manager'' trades'' last_price'' m'
                    ended (ap (λ x. match_rounds fuel side x) (sym same) ∙ g))
          ]
      e1 e2

-- An order of its own is conserved by the matching: what its trades take is what it has less and what
-- is filled more.
pub AreTrades-total_qty :
    (o : Order) (s : Sequence) (ts : List Trade) (s' : Sequence) (o' : Order)
    → AreTrades o s ts s' o'
    → (o'.qty + total_qty ts ≡ o.qty)
      × (o'.filled ≡ o.filled + total_qty ts)
      × (o'.id ≡ o.id)
      × (o'.price ≡ o.price)
unfolding AreTrades total_qty fill
AreTrades-total_qty o s [] s' o' (same, equal) = rw equal (omega arith, omega arith, refl, refl)
AreTrades-total_qty o s (t ∷ ts) s' o' (number, taker, side, most, are) =
    let (left, more, id, price) = AreTrades-total_qty (fill t.qty o) ((next s).0) ts s' o' are in
    (omega (arith, left, most), omega (arith, more), id, price)

-- Trades of a positive quantity are no more than the quantity.
pub length-total_qty :
    (ts : List Trade) → All (λ (t : Trade). 0 < t.qty) ts → length ts ≤ total_qty ts
unfolding total_qty
length-total_qty [] p = omega arith
length-total_qty (t ∷ ts) (p, ps) = omega (arith, p, length-total_qty ts ps)
