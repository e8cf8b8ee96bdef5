-- ===== src/Tests/Symbol.antt =====
-- Tests and witnesses of the symbol table, with numbers for texts.
use wirekrak.Common.{ℕ, ◌≤◌, ◌^◌, ◌≡◌, refl, ◌==◌, ==_iff, ◌↔◌, [], ◌∷◌, some, arith}
use wirekrak.Symbol.Intern.{InternTable, empty_table, find, intern}
use wirekrak.Symbol.Intern.Laws.{index_from, IsConsistent, Interned, intern-name, intern-intern}

-- The texts, which numbers stand for, have seven bytes each.
abbrev short : ℕ → ℕ
short symbol = 7

-- A table with two texts.
abbrev two_texts : InternTable ℕ
two_texts = record { symbols = 70 ∷ 80 ∷ []; map = (80, 1) ∷ (70, 0) ∷ [] }

abbrev three_texts : InternTable ℕ
three_texts = record { symbols = 70 ∷ 80 ∷ 90 ∷ []; map = (90, 2) ∷ (80, 1) ∷ (70, 0) ∷ [] }

intern-new : intern ◌==◌ short 4096 90 two_texts ≡ some (three_texts, 2)
unfolding intern find
intern-new = refl

intern-known : intern ◌==◌ short 4096 80 three_texts ≡ some (three_texts, 1)
unfolding intern find
intern-known = refl

empty-IsConsistent : IsConsistent ◌==◌ ==_iff short empty_table
unfolding IsConsistent empty_table find index_from
empty-IsConsistent sv = refl

abbrev narrow_capacity : 4096 ≤ 2 ^ 32
narrow_capacity = omega arith

two_texts-IsConsistent : IsConsistent ◌==◌ ==_iff short two_texts
unfolding IsConsistent find index_from
two_texts-IsConsistent sv = ground arith

intern-name_example :
    (t' : InternTable ℕ) × (id : ℕ) × Interned ◌==◌ ==_iff short 4096 narrow_capacity 90 two_texts
      two_texts-IsConsistent 0 t' id
intern-name_example =
    intern-name ◌==◌ ==_iff short 4096 narrow_capacity 90 two_texts two_texts-IsConsistent 0
      (omega arith) (omega arith)

intern-intern_example : ◌≡◌ {A = ℕ} 2 1 ↔ ◌≡◌ {A = ℕ} 90 80
intern-intern_example =
    intern-intern ◌==◌ ==_iff short 4096 narrow_capacity 90 80 two_texts three_texts three_texts 2 1
      two_texts-IsConsistent intern-new intern-known
