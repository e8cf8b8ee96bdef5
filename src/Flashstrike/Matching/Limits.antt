-- ===== src/Flashstrike/Matching/Limits.antt =====
-- What the type and the price of an order mean to the loop of its matching.
use mathlib.Core.Option
use wirekrak.Common.{
  ℕ, zero, suc, ◌≡◌, refl, ap, ◌∙◌, Bool, true, false, Option, none, some, ◌==◌, ◌>>=◌,
  if◌then◌else◌,
}
use wirekrak.Flashstrike.Types.{Side, market}
use wirekrak.Flashstrike.Pool.{Order, get_order}
use wirekrak.Flashstrike.Store.{level_at, get_best_price_level}
use wirekrak.Flashstrike.Book
use wirekrak.Flashstrike.Book.{get_store}
use wirekrak.Flashstrike.Matching.{
  Manager, Match, on_the_fly, resting, incoming_order, write_incoming, write_resting, fill, smaller,
  subtract_at, remove_filled, put_book, emit_trade_event, finish_trade, trade_with, round_with,
  round_at, match_round, match_rounds, opposite,
}
use wirekrak.Flashstrike.Matching.Accounting.{taking, IsRound, match_round-IsRound}

-- The order sent as a market order.
unfoldable pub as_market : Order → Order
as_market o = record o { order_type = market }

-- The matching of it.
unfoldable pub for_market : Match → Match
unfolding as_market
for_market m = elim m.taker [
  | on_the_fly o ↦ record m { taker = on_the_fly (as_market o) }
  | resting order_idx ↦ m
]

pub bind-map :
    {A B C : Type 0} (f : B → C) (o : Option A) (k' : A → Option C) (k : A → Option B)
    → ((a : A) → k' a ≡ Option.map f (k a))
    → (o >>= k') ≡ Option.map f (o >>= k)
bind-map f none k' k same = refl
bind-map f (some a) k' k same = same a

map-bind :
    (o : Option Match)
    → (Option.map for_market o >>= (λ x. some (some x)))
      ≡ Option.map (Option.map for_market) (o >>= (λ x. some (some x)))
map-bind none = refl
map-bind (some x) = refl

if-map :
    {A B : Type 0} (f : A → B) (b : Bool) (x y : Option A) (x' y' : Option B)
    → x' ≡ Option.map f x
    → y' ≡ Option.map f y
    → (if b then x' else y') ≡ Option.map f (if b then x else y)
if-map f true x y x' y' e e' = e
if-map f false x y x' y' e e' = e'

module _ (side : Side) (o : Order) (manager : Manager) (trades : ℕ) (last_price : Option ℕ) where
  m : Match
  m = taking o manager trades last_price

  m' : Match
  m' = taking (as_market o) manager trades last_price

  trade_with-as_market :
      (part pl_idx order_idx : ℕ)
      → trade_with side part pl_idx order_idx m'
        ≡ Option.map for_market (trade_with side part pl_idx order_idx m)
  unfolding trade_with incoming_order write_incoming write_resting put_book emit_trade_event fill
      finish_trade m m' for_market as_market
  trade_with-as_market part pl_idx order_idx =
      let qty = smaller o.qty (get_order order_idx manager.book.pool).qty in
      let m1 = write_resting order_idx (fill qty (get_order order_idx manager.book.pool)) in
      let finish : Match → Book.Book → Book.Book → Option Match =
        λ x b3 b4. some (finish_trade side part pl_idx order_idx qty x b3 b4) in
      let left = m1 (write_incoming (fill qty (as_market o)) m') in
      let right = m1 (write_incoming (fill qty o) m) in
      bind-map for_market (subtract_at (opposite side) part pl_idx qty right.manager.book)
        (λ b3. remove_filled order_idx b3 >>= finish left b3)
        (λ b3. remove_filled order_idx b3 >>= finish right b3)
        (λ b3.
          bind-map for_market (remove_filled order_idx b3) (finish left b3) (finish right b3)
            (λ b4. refl))

  round_with-as_market :
      (part pl_idx : ℕ) (head_idx : Option ℕ)
      → round_with side part pl_idx m' head_idx
        ≡ Option.map (Option.map for_market) (round_with side part pl_idx m head_idx)
  unfolding round_with incoming_order m m' as_market
  round_with-as_market part pl_idx none = refl
  round_with-as_market part pl_idx (some order_idx) =
      let round : Match → Option (Option Match) = λ x. some (some x) in
      let traded = trade_with side part pl_idx order_idx m in
      if-map (Option.map for_market) (o.qty == 0) (some none) (traded >>= round) (some none)
        (trade_with side part pl_idx order_idx m' >>= round) refl
        (ap (λ t. t >>= round) (trade_with-as_market part pl_idx order_idx) ∙ map-bind traded)

  round_at-as_market :
      (best : Option (ℕ × ℕ))
      → round_at side m' best ≡ Option.map (Option.map for_market) (round_at side m best)
  unfolding round_at m m'
  round_at-as_market none = refl
  round_at-as_market (some (part, pl_idx)) =
      round_with-as_market part pl_idx
        (level_at part pl_idx (get_store (opposite side) manager.book)).head_idx

  match_round-as_market :
      match_round side m' ≡ Option.map (Option.map for_market) (match_round side m)
  unfolding match_round m m'
  match_round-as_market =
      bind-map (Option.map for_market)
        (get_best_price_level (get_store (opposite side) manager.book)) (round_at side m')
        (round_at side m) round_at-as_market

unfoldable pub outcome_for_market : Match × Bool → Match × Bool
unfolding for_market
outcome_for_market (m, ended) = (for_market m, ended)

-- TODO
pub match_rounds-as_market :
    (fuel : ℕ) (side : Side) (o : Order) (manager : Manager) (trades : ℕ) (last_price : Option ℕ)
    → match_rounds fuel side (taking (as_market o) manager trades last_price)
      ≡ Option.map outcome_for_market (match_rounds fuel side (taking o manager trades last_price))
unfolding match_rounds outcome_for_market for_market as_market fill IsRound m m'
match_rounds-as_market zero side o manager trades last_price = refl
match_rounds-as_market (suc fuel) side o manager trades last_price =
    let m = taking o manager trades last_price in
    let go : Match → Option Match → Option (Match × Bool) =
      λ x round. elim round [ none ↦ some (x, true) | some m'' ↦ match_rounds fuel side m'' ] in
    ap (λ r. r >>= go (for_market m)) (match_round-as_market side o manager trades last_price)
    ∙ (elim (match_round side m)
          as (λ r.
            match_round side m ≡ r
            → (Option.map (Option.map for_market) r >>= go (for_market m))
              ≡ Option.map outcome_for_market (r >>= go m)) [
                | none ↦ λ e. refl
                | some none ↦ λ e. refl
                | some (some m'') ↦ λ e.
                    let (t, manager'', trades'', last_price'', same, _, _, _, _, _, _) =
                      match_round-IsRound side o manager trades last_price m'' e in
                    rw same (
                      match_rounds-as_market fuel side (fill t.qty o) manager'' trades''
                        last_price'')
              ])
        refl
