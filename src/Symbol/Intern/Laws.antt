-- ===== src/Symbol/Intern/Laws.antt =====
-- Interning is stable and injective, and the identifier finds the text again.
use wirekrak.Common.{
  ℕ, inl, inr, append-nil, zero, suc, ◌≤◌, ◌^◌, ◌%◌, ◌==◌, ◌+◌, ◌<◌, ◌≡◌, refl, sym, ap, ◌∙◌, ◌↔◌,
  Bool, true, List, [], ◌∷◌, ◌++◌, Option, none, some, leb, ltb, if◌then◌else◌, is_some, length,
  get_or, length-append, Bool-cases, Option-cases, arith,
}
use mathlib.Core.Option.{some-injective}
use mathlib.Core.Path.{subst}
use wirekrak.Symbol.Intern.{InternTable, find, intern, name, max_symbol_length}

module _ {Symbol : Type 0} (equal : Symbol → Symbol → Bool)
    (equal_iff : (a b : Symbol) → (equal a b ≡ true) ↔ (a ≡ b)) (size : Symbol → ℕ) where
  -- The position of the first equal text, counted from `i`.
  unfoldable pub index_from : ℕ → Symbol → List Symbol → Option ℕ
  index_from i sv [] = none
  index_from i sv (x ∷ xs) = if equal x sv then some i else index_from (suc i) sv xs

  -- The map finds each text at its position in the vector.
  unfoldable pub IsConsistent : InternTable Symbol → Type 0
  IsConsistent t = (sv : Symbol) → find equal sv t.map ≡ index_from 0 sv t.symbols

  index_from-append :
      (i : ℕ) (sv x : Symbol) (xs : List Symbol)
      → index_from i sv (xs ++ x ∷ []) ≡ (
          if is_some (index_from i sv xs)
          then index_from i sv xs
          else if equal x sv
          then some (i + length xs)
          else none)
  unfolding index_from
  index_from-append i sv x [] = ground arith
  index_from-append i sv x (y ∷ xs) = ground (arith, index_from-append (suc i) sv x xs)

  index_from-bound :
      (i j : ℕ) (sv : Symbol) (xs : List Symbol) → index_from i sv xs ≡ some j → i ≤ j
  unfolding index_from
  index_from-bound i j sv [] e = ground arith
  index_from-bound i j sv (x ∷ xs) e = ground (arith, index_from-bound (suc i) j sv xs)

  get_or-index_from :
      (i k : ℕ) (sv d : Symbol) (xs : List Symbol)
      → index_from i sv xs ≡ some (i + k)
      → (k < length xs) × (get_or xs k d ≡ sv)
  unfolding index_from
  get_or-index_from i k sv d [] e = ground arith
  get_or-index_from i zero sv d (x ∷ xs) e =
      ground (arith, index_from-bound (suc i) i sv xs, equal_iff x sv)
  get_or-index_from i (suc k) sv d (x ∷ xs) e = ground (arith, get_or-index_from (suc i) k sv d xs)

  get_or-append :
      (k : ℕ) (x d : Symbol) (xs : List Symbol)
      → get_or (xs ++ x ∷ []) k d ≡ (if k == length xs then x else get_or xs k d)
  get_or-append zero x d [] = refl
  get_or-append (suc k) x d [] = ground arith
  get_or-append zero x d (y ∷ xs) = ground arith
  get_or-append (suc k) x d (y ∷ xs) = ground (arith, get_or-append k x d xs)

  get_or-append_left :
      (k : ℕ) (d : Symbol) (xs ys : List Symbol)
      → k < length xs
      → get_or (xs ++ ys) k d ≡ get_or xs k d
  get_or-append_left k d [] ys l = absurd (omega arith)
  get_or-append_left zero d (x ∷ xs) ys l = refl
  get_or-append_left (suc k) d (x ∷ xs) ys l = get_or-append_left k d xs ys (omega arith)

  -- The texts that a table has keep their names when it grows.
  name-append :
      (d : Symbol) (k : ℕ) (t t' : InternTable Symbol) (rest : List Symbol)
      → t'.symbols ≡ t.symbols ++ rest
      → k < length t.symbols
      → name d k t' ≡ name d k t
  unfolding name
  name-append d k t t' rest e l = ground (
    arith,
    ap length e ∙ length-append t.symbols rest,
    ap (λ xs. get_or xs k d) e ∙ get_or-append_left k d t.symbols rest l,
  )

  module _ (max_symbols : ℕ) (narrow : max_symbols ≤ 2 ^ 32) where
    module _ (sv : Symbol) (t : InternTable Symbol) (v : IsConsistent t) where
      fresh-IsConsistent :
          find equal sv t.map ≡ none
          → length t.symbols < 2 ^ 32
          → IsConsistent (record {
            symbols = t.symbols ++ sv ∷ [];
            map = (sv, length t.symbols % 2 ^ 32) ∷ t.map;
          })
      unfolding IsConsistent find
      fresh-IsConsistent e l sv' =
          ground (arith, index_from-append 0 sv' sv t.symbols, v sv', v sv, equal_iff sv sv', e)

      -- What interning promises of its result.
      unfoldable pub Interned : Symbol → InternTable Symbol → ℕ → Type 0
      Interned empty t' id =
          (intern equal size max_symbols sv t ≡ some (t', id))
          × IsConsistent t'
          × (id < length t'.symbols)
          × (name empty id t' ≡ sv)
          × (intern equal size max_symbols sv t' ≡ some (t', id))
          × ((rest : List Symbol) × (t'.symbols ≡ t.symbols ++ rest))

      known-Interned :
          (empty : Symbol) (id : ℕ) → find equal sv t.map ≡ some id → Interned empty t id
      unfolding Interned intern IsConsistent name
      known-Interned empty id e =
          let (l, n) =
            get_or-index_from 0 id sv empty t.symbols (sym (v sv) ∙ e ∙ ap some (omega arith)) in
          (
            simp (intern, e),
            v,
            l,
            ground (arith, l, n),
            simp (intern, e),
            ([], sym (append-nil t.symbols)),
          )

      unfoldable extended : InternTable Symbol
      extended = record {
        symbols = t.symbols ++ sv ∷ [];
        map = (sv, length t.symbols % 2 ^ 32) ∷ t.map;
      }

      fresh-Interned :
          (empty : Symbol)
          → find equal sv t.map ≡ none
          → length t.symbols < max_symbols
          → size sv ≤ 16
          → Interned empty extended (length t.symbols)
      unfolding Interned intern name extended find
      fresh-Interned empty e l s = (
        ground arith,
        fresh-IsConsistent e (omega arith),
        omega (arith, length-append t.symbols (sv ∷ [])),
        ground (
          arith,
          get_or-append (length t.symbols) sv empty t.symbols,
          length-append t.symbols (sv ∷ []),
        ),
        ground (arith, equal_iff sv sv),
        (sv ∷ [], refl),
      )

      -- While a consistent table, of a capacity of at most 2 ^ 32, has room, interning a text of at
      -- most 16 bytes succeeds; the identifier finds the text again, interning the text once more
      -- gives the same identifier and changes nothing, the texts already there keep their places,
      -- and the map stays consistent with them.
      pub intern-name :
          (empty : Symbol)
          → length t.symbols < max_symbols
          → size sv ≤ 16
          → (t' : InternTable Symbol) × (id : ℕ) × Interned empty t' id
      intern-name empty l s = elim (Option-cases (find equal sv t.map)) [
        | inl e ↦ (extended, length t.symbols, fresh-Interned empty e l s)
        | inr (id, e) ↦ (t, id, known-Interned empty id e)
      ]

      -- The promise passes to the result of a call, whatever it is called.
      same-Interned :
          (empty : Symbol) (u t' : InternTable Symbol) (k id : ℕ)
          → Interned empty u k
          → intern equal size max_symbols sv t ≡ some (t', id)
          → Interned empty t' id
      unfolding Interned
      same-Interned empty u t' k id h e =
          subst (λ r. Interned empty r.0 r.1) (some-injective (u, k) (t', id) (sym h.0 ∙ e)) h

      result-Interned :
          (empty : Symbol) (t' : InternTable Symbol) (id : ℕ)
          → intern equal size max_symbols sv t ≡ some (t', id)
          → Interned empty t' id
      unfolding intern
      result-Interned empty t' id e = elim (Option-cases (find equal sv t.map)) [
        | inl c ↦ elim (Bool-cases (leb max_symbols (length t.symbols))) [
          | inl b ↦ absurd (ground arith)
          | inr b ↦ elim (Bool-cases (ltb max_symbol_length (size sv))) [
            | inl d ↦ absurd (ground arith)
            | inr d ↦
                same-Interned empty extended t' (length t.symbols) id
                  (fresh-Interned empty c (ground arith) (ground arith)) e
          ]
        ]
        | inr (k, c) ↦ same-Interned empty t t' k id (known-Interned empty k c) e
      ]

    -- Two texts interned one after the other get the same identifier exactly when they are equal.
    pub intern-intern :
        (a b : Symbol) (t t' t'' : InternTable Symbol) (i j : ℕ)
        → IsConsistent t
        → intern equal size max_symbols a t ≡ some (t', i)
        → intern equal size max_symbols b t' ≡ some (t'', j)
        → (i ≡ j) ↔ (a ≡ b)
    unfolding Interned
    intern-intern a b t t' t'' i j v e f =
        let (_, v', l, n, again, _) = result-Interned a t v a t' i e in
        let (_, _, _, n', _, (rest, grown)) = result-Interned b t' v' a t'' j f in
        (
          λ h. sym n ∙ sym (name-append a i t' t'' rest grown l) ∙ ap (λ k. name a k t'') h ∙ n',
          λ h.
              ap (λ r. r.1)
                (some-injective (t', i) (t'', j)
                  (sym again ∙ ap (λ x. intern equal size max_symbols x t') h ∙ f)),
        )
