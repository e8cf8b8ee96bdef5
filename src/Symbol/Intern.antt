-- ===== src/Symbol/Intern.antt =====
-- include/wirekrak/core/symbol/intern.hpp, `InternTable`, as one thread sees it. Texts are compared
-- by `equal`, which the string view's comparison stands for, and `size` is the length of a text; the
-- hash map is an association list.
pub mod Laws
use wirekrak.Common.{
  ℕ, ◌%◌, ◌^◌, Bool, List, [], ◌∷◌, ◌++◌, Option, none, some, leb, ltb, if◌then◌else◌, length,
  get_or,
}

pub record InternTable (Symbol : Type 0) : Type 0 where
  pub symbols : List Symbol
  pub map : List (Symbol × ℕ)

-- `MAX_SYMBOL_LENGTH`.
abbrev pub max_symbol_length : ℕ
max_symbol_length = 16

unfoldable pub empty_table : {Symbol : Type 0} → InternTable Symbol
empty_table = record { symbols = []; map = [] }

module _ {Symbol : Type 0} (equal : Symbol → Symbol → Bool) where
  -- `map_.find(sv)`.
  unfoldable pub find : Symbol → List (Symbol × ℕ) → Option ℕ
  find sv [] = none
  find sv ((key, id) ∷ entries) = if equal key sv then some id else find sv entries

  -- `intern`, whose identifiers are `uint32_t`, with `MaxSymbols` second; none where the capacity is
  -- exceeded, and where `emplace_back` would make a `Symbol` of a text that is too long, against the
  -- assertion of local::string.
  unfoldable pub intern :
      (Symbol → ℕ) → ℕ → Symbol → InternTable Symbol → Option (InternTable Symbol × ℕ)
  intern size max_symbols sv t = elim (find sv t.map) [
    | some id ↦ some (t, id)
    | none ↦
        if leb max_symbols (length t.symbols)
        then none
        else if ltb max_symbol_length (size sv)
        then none
        else some (
          record { symbols = t.symbols ++ sv ∷ []; map = (sv, length t.symbols % 2 ^ 32) ∷ t.map },
          length t.symbols % 2 ^ 32,
        )
  ]

-- `name`, with the text `empty` for an identifier out of range.
unfoldable pub name : {Symbol : Type 0} → Symbol → ℕ → InternTable Symbol → Symbol
name empty id t = if leb (length t.symbols) id then empty else get_or t.symbols id empty

unfoldable pub count : {Symbol : Type 0} → InternTable Symbol → ℕ
count t = length t.symbols
