-- ===== src/Replay/Table.antt =====
-- include/wirekrak/core/protocol/replay/subscription.hpp and table.hpp: `Subscription` and
-- `Table`. `Body` is what a request holds besides its identifier and its symbols.
pub mod Entries
pub mod Invariant
pub mod Adding
pub mod Erasing
pub mod Sizes
use wirekrak.Common.{
  ℕ, ◌≡◌, Bool, true, false, not, ◌&&◌, List, [], ◌∷◌, map, Option, none, some, ◌==◌, if◌then◌else◌,
  is_some, length, lookup, remove, replace, emplace,
}

-- A symbol is a text; the intern table gives the same identifier to equal texts only.
pub record Symbols : Type 1 where
  pub Symbol : Type 0
  pub equal : Symbol → Symbol → Bool
  pub intern : Symbol → ℕ
  pub equal-intern : (a b : Symbol) → equal a b ≡ (intern a == intern b)

pub record Request (Symbol Body : Type 0) : Type 0 where
  pub req_id : Option ℕ
  pub symbols : List Symbol
  pub body : Body

pub record Table (Symbol Body : Type 0) : Type 0 where
  pub subscriptions : List (ℕ × Request Symbol Body)
  pub symbol_owner : List (ℕ × ℕ)

unfoldable pub empty_table : {Symbol Body : Type 0} → Table Symbol Body
empty_table = record { subscriptions = []; symbol_owner = [] }

-- `std::remove_if` with `erase`.
unfoldable pub remove_if {ℓ} : {A : Type ℓ} → (A → Bool) → List A → List A
remove_if p [] = []
remove_if p (x ∷ xs) = if p x then remove_if p xs else x ∷ remove_if p xs

abbrev pub is_nil {ℓ} : {A : Type ℓ} → List A → Bool
is_nil [] = true
is_nil (x ∷ xs) = false

module _ (s : Symbols) where
  open s use {Symbol, intern}

  -- The loop of `add` that registers the ownership of the symbols.
  unfoldable pub own_symbols : ℕ → List Symbol → List (ℕ × ℕ) → List (ℕ × ℕ)
  own_symbols req_id [] owners = owners
  own_symbols req_id (symbol ∷ symbols) owners =
      own_symbols req_id symbols (emplace (intern symbol) req_id owners)

module _ (s : Symbols) {Body : Type 0} where
  open s use {Symbol, equal, intern}

  -- `Subscription::erase_symbol`. A request from which nothing is erased is as it was, so a caller
  -- writes it back only on success.
  unfoldable pub erase_from : Symbol → Request Symbol Body → Request Symbol Body × Bool
  erase_from symbol r =
      let rest = remove_if (λ sym. equal sym symbol) r.symbols in
      let erased = not (length rest == length r.symbols) in
      ((if erased then record r { symbols = rest } else r), erased)

  -- `Subscription::try_process_rejection`.
  unfoldable pub reject_from : ℕ → Symbol → Request Symbol Body → Request Symbol Body × Bool
  unfolding erase_from
  reject_from req_id symbol r = elim r.req_id [
    | none ↦ (r, false)
    | some k ↦ if k == req_id then erase_from symbol r else (r, false)
  ]

  -- A symbol that the request repeats is stored as often, and owned once.
  unfoldable pub add : Request Symbol Body → Table Symbol Body → Table Symbol Body × Bool
  unfolding own_symbols
  add req t = elim req.req_id [
    | none ↦ (t, false)
    | some req_id ↦
        let fresh =
          remove_if (λ symbol. is_some (lookup (intern symbol) t.symbol_owner)) req.symbols in
        if is_nil fresh
        then (t, false)
        else if is_some (lookup req_id t.subscriptions)
        then (t, false)
        else (
          record {
            subscriptions = (req_id, record req { symbols = fresh }) ∷ t.subscriptions;
            symbol_owner = own_symbols s req_id fresh t.symbol_owner;
          },
          true,
        )
  ]

  -- The entry of a request after a symbol has left it; an entry without symbols is erased.
  unfoldable pub put_back :
      ℕ → Request Symbol Body → List (ℕ × Request Symbol Body) → List (ℕ × Request Symbol Body)
  put_back req_id r m = if is_nil r.symbols then remove req_id m else replace req_id r m

  unfoldable pub try_process_rejection : ℕ → Symbol → Table Symbol Body → Table Symbol Body × Bool
  try_process_rejection req_id symbol t = elim (lookup req_id t.subscriptions) [
    | none ↦ (t, false)
    | some r ↦
        let (r', done) = reject_from req_id symbol r in
        if not done then (t, false) else (
          record {
            subscriptions = put_back req_id r' t.subscriptions;
            symbol_owner = remove (intern symbol) t.symbol_owner;
          },
          true,
        )
  ]

  unfoldable pub erase_symbol : Symbol → Table Symbol Body → Table Symbol Body
  erase_symbol symbol t = elim (lookup (intern symbol) t.symbol_owner) [
    | none ↦ t
    | some req_id ↦ elim (lookup req_id t.subscriptions) [
      | none ↦ record t { symbol_owner = remove (intern symbol) t.symbol_owner }
      | some r ↦
          let (r', removed) = erase_from symbol r in
          if removed
          then record {
            subscriptions = put_back req_id r' t.subscriptions;
            symbol_owner = remove (intern symbol) t.symbol_owner;
          }
          else t
    ]
  ]

  unfoldable pub contains_symbol : Symbol → Table Symbol Body → Bool
  contains_symbol symbol t = is_some (lookup (intern symbol) t.symbol_owner)

  -- The loop of `take_subscriptions`.
  unfoldable pub move_out : List (ℕ × Request Symbol Body) → List (Request Symbol Body)
  move_out [] = []
  move_out ((k, r) ∷ m) = r ∷ move_out m

  unfoldable pub clear : Table Symbol Body → Table Symbol Body
  clear t = record { subscriptions = []; symbol_owner = [] }

  unfoldable pub take_subscriptions :
      Table Symbol Body → List (Request Symbol Body) × Table Symbol Body
  unfolding move_out clear
  take_subscriptions t = (move_out t.subscriptions, clear t)

  unfoldable pub total_requests : Table Symbol Body → ℕ
  total_requests t = length t.subscriptions

  unfoldable pub total_symbols : Table Symbol Body → ℕ
  total_symbols t = length t.symbol_owner
