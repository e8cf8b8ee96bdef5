-- ===== src/Replay/Table/Sizes.antt =====
-- `Table::assert_consistency`, and what `add` does to the sizes that it compares.
use wirekrak.Common.{
  ℕ, ◌+◌, ◌≤◌, ◌≡◌, refl, Bool, true, false, not, ◌&&◌, ◌||◌, List, [], ◌∷◌, map, is_some, contains,
  length, lookup, emplace, ◌==◌, arith, Bool-cases, Option-cases, inl, inr,
}
use wirekrak.Replay.Table.{Symbols, Request, Table, remove_if, own_symbols, add}
use wirekrak.Replay.Table.Adding.{unowned, accepts, stored, add-lem, refused}

module _ (s : Symbols) where
  open s use {Symbol, intern}

  -- Some symbol of the list comes again later.
  unfoldable pub is_repeating : List Symbol → Bool
  is_repeating [] = false
  is_repeating (x ∷ symbols) = contains (intern x) (map intern symbols) || is_repeating symbols

  any_owned : List (ℕ × ℕ) → List Symbol → Bool
  any_owned owners [] = false
  any_owned owners (x ∷ symbols) = is_some (lookup (intern x) owners) || any_owned owners symbols

  any_owned-cons :
      (i k : ℕ) (owners : List (ℕ × ℕ)) (symbols : List Symbol)
      → any_owned ((i, k) ∷ owners) symbols
        ≡ (contains i (map intern symbols) || any_owned owners symbols)
  unfolding any_owned contains lookup
  any_owned-cons i k owners [] = refl
  any_owned-cons i k owners (x ∷ symbols) = ground (arith, any_owned-cons i k owners symbols)

  any_owned-remove_if :
      (owners : List (ℕ × ℕ)) (symbols : List Symbol)
      → any_owned owners (remove_if (λ symbol. is_some (lookup (intern symbol) owners)) symbols)
        ≡ false
  unfolding any_owned remove_if
  any_owned-remove_if owners [] = refl
  any_owned-remove_if owners (x ∷ symbols) =
      elim (Bool-cases (is_some (lookup (intern x) owners))) [
        | inl e ↦ rw e (any_owned-remove_if owners symbols)
        | inr e ↦ rw e (ground (arith, e, any_owned-remove_if owners symbols))
      ]

  length-own_symbols :
      (k : ℕ) (symbols : List Symbol) (owners : List (ℕ × ℕ))
      → (length (own_symbols s k symbols owners) ≤ length symbols + length owners)
        × ((length (own_symbols s k symbols owners) == length symbols + length owners)
            ≡ not (any_owned owners symbols || is_repeating symbols))
  unfolding own_symbols any_owned is_repeating emplace
  length-own_symbols k [] owners = (omega arith, ground arith)
  length-own_symbols k (x ∷ symbols) owners =
      elim (Bool-cases (is_some (lookup (intern x) owners))) [
        | inl e ↦
            let (most, _) = length-own_symbols k symbols owners in
            rw (emplace, e) (omega (arith, most), ground (arith, most))
        | inr e ↦
            let (most, exact) = length-own_symbols k symbols ((intern x, k) ∷ owners) in
            rw (emplace, e)
              (
                omega (arith, most),
                ground (arith, exact, any_owned-cons (intern x) k owners symbols),
              )
      ]

module _ (s : Symbols) {Body : Type 0} where
  open s use {Symbol}

  -- The loop of `assert_consistency`, and its test.
  unfoldable pub symbol_count : List (ℕ × Request Symbol Body) → ℕ
  symbol_count [] = 0
  symbol_count ((k, r) ∷ m) = length r.symbols + symbol_count m

  unfoldable pub is_consistent : Table Symbol Body → Bool
  unfolding symbol_count
  is_consistent t = symbol_count t.subscriptions == length t.symbol_owner

  stored-is_consistent :
      (k : ℕ) (req : Request Symbol Body) (t : Table Symbol Body)
      → is_consistent t ≡ true
      → is_consistent (stored s k req t) ≡ not (is_repeating s (unowned s req t))
  unfolding is_consistent symbol_count stored unowned
  stored-is_consistent k req t c =
      let (most, exact) = length-own_symbols s k (unowned s req t) t.symbol_owner in
      ground (arith, most, exact, any_owned-remove_if s t.symbol_owner req.symbols)

  -- From a table whose number of stored symbols is the size of its ownership index, as
  -- `assert_consistency` demands, `add` leads to one for which this holds again, except exactly where
  -- it stores a request that repeats a symbol which no stored request owned.
  pub add-is_consistent :
      (req : Request Symbol Body) (t : Table Symbol Body)
      → is_consistent t ≡ true
      → let (t', added) = add s req t in
        is_consistent t' ≡ not (added && is_repeating s (unowned s req t))
  add-is_consistent req t c = elim (Option-cases req.req_id) [
    | inl e ↦ rw (refused s req t e) c
    | inr (k, e) ↦ elim (Bool-cases (accepts s req t)) [
      | inl a ↦ rw (add-lem s req t k e, a) (stored-is_consistent k req t c)
      | inr a ↦ rw (add-lem s req t k e, a) c
    ]
  ]
