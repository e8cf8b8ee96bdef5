-- ===== src/Flashstrike/Partition.antt =====
-- integrations/include/flashstrike/matching_engine/partitions.hpp, `PriceLevel` and `Partition`: the
-- price levels of a range of prices, with a bitmap of the active ones. A word of 64 bits is the list
-- of its bits, the lowest first, and a price is none for INVALID_PRICE.
pub mod Bitmap
pub mod Best
use wirekrak.Common.{
  ℕ, zero, suc, ◌+◌, ◌-◌, ◌*◌, ◌/◌, ◌%◌, Bool, true, false, not, ◌&&◌, ◌||◌, List, [], ◌∷◌, Option,
  none, some, ltb, is_some, if◌then◌else◌, length, get_or, set, replicate, map,
}
use wirekrak.Flashstrike.Types.{Side, bid, ask}

pub record PriceLevel : Type 0 where
  pub price : ℕ
  pub head_idx : Option ℕ
  pub tail_idx : Option ℕ
  pub total_qty : ℕ
  pub active : Bool

abbrev pub Word : Type 0
Word = List Bool

abbrev pub zero_word : Word
zero_word = replicate 64 false

pub record Partition : Type 0 where
  pub levels : List PriceLevel
  pub bitmap : List Word
  pub best_price : Option ℕ
  pub has_best : Bool

-- What `levels_.resize` fills the levels with.
abbrev pub no_level : PriceLevel
no_level = record { price = 0; head_idx = some 0; tail_idx = some 0; total_qty = 0; active = false }

unfoldable pub new_partition : ℕ → Partition
new_partition partition_size = record {
  levels = replicate partition_size no_level;
  bitmap = replicate ((partition_size + 64 - 1) / 64) zero_word;
  best_price = none;
  has_best = false;
}

unfoldable pub level : ℕ → Partition → PriceLevel
level pl_idx p = get_or p.levels pl_idx no_level

-- `word != 0`.
unfoldable pub is_nonzero : Word → Bool
is_nonzero [] = false
is_nonzero (b ∷ bs) = b || is_nonzero bs

-- The loop of `empty`.
unfoldable pub all_zero : List Word → Bool
unfolding is_nonzero
all_zero [] = true
all_zero (word ∷ words) = not (is_nonzero word) && all_zero words

unfoldable pub is_empty : Partition → Bool
unfolding all_zero
is_empty p = all_zero p.bitmap

-- The levels of `initialize_for_partid`, from a price on.
unfoldable pub initial_levels : ℕ → List PriceLevel → List PriceLevel
initial_levels price [] = []
initial_levels price (pl ∷ levels) =
    record { price = price; head_idx = none; tail_idx = none; total_qty = 0; active = false }
    ∷ initial_levels (price + 1) levels

unfoldable pub initialize_for_partid : ℕ → Partition → Partition
unfolding initial_levels
initialize_for_partid partid p = record {
  levels = initial_levels (partid * length p.levels) p.levels;
  bitmap = map (λ word. zero_word) p.bitmap;
  best_price = none;
  has_best = false;
}

unfoldable pub put_bit : ℕ → Bool → List Word → List Word
put_bit off b bitmap = set bitmap (off / 64) (set (get_or bitmap (off / 64) []) (off % 64) b)

unfoldable pub set_active : ℕ → Partition → Partition
unfolding put_bit
set_active off p = record p { bitmap = put_bit off true p.bitmap }

unfoldable pub clear_active : ℕ → Partition → Partition
unfolding put_bit
clear_active off p = record p { bitmap = put_bit off false p.bitmap }

unfoldable pub get_bit : ℕ → List Word → Bool
get_bit off bitmap = get_or (get_or bitmap (off / 64) []) (off % 64) false

unfoldable pub is_active : ℕ → Partition → Bool
unfolding get_bit
is_active off p = get_bit off p.bitmap

unfoldable pub try_update_best : Side → ℕ → Partition → Partition
try_update_best side price p =
    if not p.has_best
    then record p { best_price = some price; has_best = true }
    else elim p.best_price [
      | none ↦ elim side [ bid ↦ record p { best_price = some price } | ask ↦ p ]
      | some best ↦ elim side [
        | bid ↦ if ltb best price then record p { best_price = some price } else p
        | ask ↦ if ltb price best then record p { best_price = some price } else p
      ]
    ]

-- `__builtin_ctzll(word)` and `63 - __builtin_clzll(word)`, none for the word 0.
unfoldable pub lowest_bit : Word → Option ℕ
lowest_bit [] = none
lowest_bit (true ∷ bs) = some 0
lowest_bit (false ∷ bs) = elim (lowest_bit bs) [ none ↦ none | some k ↦ some (suc k) ]

unfoldable pub highest_bit : Word → Option ℕ
highest_bit [] = none
highest_bit (b ∷ bs) = elim (highest_bit bs) [
  | none ↦ if b then some 0 else none
  | some k ↦ some (suc k)
]

-- The loops of `recompute_best`: upwards from word `w`, and downwards below word `w`.
unfoldable pub lowest_active : ℕ → List Word → Option ℕ
unfolding lowest_bit
lowest_active w [] = none
lowest_active w (word ∷ words) = elim (lowest_bit word) [
  | none ↦ lowest_active (suc w) words
  | some bit ↦ some (w * 64 + bit)
]

unfoldable pub highest_active : ℕ → List Word → Option ℕ
unfolding highest_bit
highest_active zero bitmap = none
highest_active (suc w) bitmap = elim (highest_bit (get_or bitmap w [])) [
  | none ↦ highest_active w bitmap
  | some bit ↦ some (w * 64 + bit)
]

unfoldable pub recompute_best : Side → Partition → Partition
unfolding lowest_active highest_active level
recompute_best side p =
    let found = elim side as (λ _. Option ℕ) [
      | bid ↦ highest_active (length p.bitmap) p.bitmap
      | ask ↦ lowest_active 0 p.bitmap
    ] in
    elim found [
      | none ↦ record p { best_price = none; has_best = false }
      | some pl_idx ↦ record p { best_price = some (level pl_idx p).price; has_best = true }
    ]
