-- ===== src/Replay/Database.antt =====
-- include/wirekrak/core/protocol/replay/database.hpp, `Database`. The tuple of tables is a list, and
-- a subscription type is its position there; a type out of range, which the class refuses to
-- compile, has no table to change.
pub mod Laws
pub mod Total
use wirekrak.Common.{
  ℕ, zero, suc, ◌+◌, Bool, true, false, List, [], ◌∷◌, Option, none, some, if◌then◌else◌,
}
use wirekrak.Replay.Table.{
  Symbols, Request, Table, add, erase_symbol, try_process_rejection, take_subscriptions, clear,
  total_requests, total_symbols,
}

module _ {Symbol Body : Type 0} where
  -- `table_<DomainT>()`, changed in place.
  unfoldable pub at_table :
      ℕ
      → (Table Symbol Body → Table Symbol Body)
      → List (Table Symbol Body)
      → List (Table Symbol Body)
  at_table i f [] = []
  at_table zero f (t ∷ ts) = f t ∷ ts
  at_table (suc i) f (t ∷ ts) = t ∷ at_table i f ts

module _ (s : Symbols) {Body : Type 0} where
  open s use {Symbol}

  unfoldable pub add_to :
      ℕ → Request Symbol Body → List (Table Symbol Body) → List (Table Symbol Body)
  add_to type req = at_table type (λ t. (add s req t).0)

  -- The loop of `remove`.
  unfoldable pub erase_symbols : List Symbol → Table Symbol Body → Table Symbol Body
  erase_symbols [] t = t
  erase_symbols (symbol ∷ symbols) t = erase_symbols symbols (erase_symbol s symbol t)

  unfoldable pub remove_from :
      ℕ → Request Symbol Body → List (Table Symbol Body) → List (Table Symbol Body)
  remove_from type req = at_table type (erase_symbols req.symbols)

  unfoldable pub remove_symbol : ℕ → Symbol → List (Table Symbol Body) → List (Table Symbol Body)
  remove_symbol type symbol = at_table type (erase_symbol s symbol)

  -- `!done && (done = t.try_process_rejection(req_id, symbol))` for each table in order.
  unfoldable pub reject_in : ℕ → Symbol → List (Table Symbol Body) → List (Table Symbol Body) × Bool
  reject_in req_id symbol [] = ([], false)
  reject_in req_id symbol (t ∷ ts) =
      let rest = reject_in req_id symbol ts in
      let (t', done) = try_process_rejection s req_id symbol t in
      if done then (t' ∷ ts, true) else (t' ∷ rest.0, rest.1)

  unfoldable pub take_from :
      ℕ → List (Table Symbol Body) → List (Request Symbol Body) × List (Table Symbol Body)
  take_from type [] = ([], [])
  take_from zero (t ∷ ts) = let (out, t') = take_subscriptions s t in (out, t' ∷ ts)
  take_from (suc type) (t ∷ ts) = let (out, ts') = take_from type ts in (out, t ∷ ts')

  unfoldable pub clear_tables : List (Table Symbol Body) → List (Table Symbol Body)
  clear_tables [] = []
  clear_tables (t ∷ ts) = clear s t ∷ clear_tables ts

  unfoldable pub count_requests : List (Table Symbol Body) → ℕ
  count_requests [] = 0
  count_requests (t ∷ ts) = total_requests s t + count_requests ts

  unfoldable pub count_symbols : List (Table Symbol Body) → ℕ
  count_symbols [] = 0
  count_symbols (t ∷ ts) = total_symbols s t + count_symbols ts
