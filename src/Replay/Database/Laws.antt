-- ===== src/Replay/Database/Laws.antt =====
-- What the database does across its tables.
use wirekrak.Common.{
  ℕ, ◌≡◌, refl, ◌∙◌, sym, Bool, true, false, ◌⊎◌, inl, inr, List, [], ◌∷◌, map, none, ◌==◌,
  if◌then◌else◌, contains, is_owner, All, arith, Bool-cases,
}
use wirekrak.Replay.Table.{Symbols, Table, erase_symbol, try_process_rejection}
use wirekrak.Replay.Table.Invariant.{owner_of, IsValid}
use wirekrak.Replay.Table.Erasing.{erase_symbol-owner, try_process_rejection-owner}
use wirekrak.Replay.Database.{erase_symbols, reject_in}

module _ (s : Symbols) {Body : Type 0} where
  open s use {Symbol, intern}

  -- An explicit unsubscription keeps the invariant and takes exactly the symbols of the request out
  -- of the table.
  pub erase_symbols-owner :
      (symbols : List Symbol) (t : Table Symbol Body)
      → IsValid s t
      → IsValid s (erase_symbols s symbols t)
        × ((j : ℕ)
            → owner_of s j (erase_symbols s symbols t)
              ≡ (if contains j (map intern symbols) then none else owner_of s j t))
  unfolding erase_symbols contains
  erase_symbols-owner [] t v = (v, λ j. refl)
  erase_symbols-owner (symbol ∷ symbols) t v =
      let (v1, step) = erase_symbol-owner s symbol t v in
      let (v2, rest) = erase_symbols-owner symbols (erase_symbol s symbol t) v1 in
      (v2, λ j. ground (arith, step j, rest j))

  -- The tables after a rejection: the first of them in which the request owns the symbol gives it
  -- up and nothing else; the other tables keep every owner.
  pub Resolves : ℕ → ℕ → List (Table Symbol Body) → List (Table Symbol Body) → Bool → Type 0
  Resolves r sid [] [] done = done ≡ false
  Resolves r sid [] (t' ∷ ts') done = ⊥
  Resolves r sid (t ∷ ts) [] done = ⊥
  Resolves r sid (t ∷ ts) (t' ∷ ts') done =
      ((is_owner r (owner_of s sid t) ≡ true)
        × (done ≡ true)
        × ((j : ℕ) → owner_of s j t' ≡ (if sid == j then none else owner_of s j t))
        × (ts' ≡ ts))
      ⊎ ((is_owner r (owner_of s sid t) ≡ false)
          × ((j : ℕ) → owner_of s j t' ≡ owner_of s j t)
          × Resolves r sid ts ts' done)

  -- A rejection across the tables keeps them valid, and is taken by the first table in which the
  -- request owns the symbol, and by no other.
  pub reject_in-Resolves :
      (r : ℕ) (symbol : Symbol) (ts : List (Table Symbol Body))
      → All (IsValid s) ts
      → let (ts', done) = reject_in s r symbol ts in
        All (IsValid s) ts' × Resolves r (intern symbol) ts ts' done
  unfolding reject_in Resolves
  reject_in-Resolves r symbol [] v = (tt, refl)
  reject_in-Resolves r symbol (t ∷ ts) v =
      let (v', taken, owners) = try_process_rejection-owner s r symbol t v.0 in
      let (vs, rest) = reject_in-Resolves r symbol ts v.1 in
      elim (Bool-cases (try_process_rejection s r symbol t).1) [
        | inl e ↦
            rw (e, reject_in)
              ((v', v.1), inl (sym taken ∙ e, refl, λ j. ground (arith, e, owners j), refl))
        | inr e ↦
            rw (e, reject_in)
              ((v', vs), inr (sym taken ∙ e, λ j. ground (arith, e, owners j), rest))
      ]
