-- ===== src/Replay/Table/Invariant.antt =====
-- The invariant of `Table`: the ownership index and the stored requests say the same. A request may
-- have a symbol twice, which `assert_consistency` of the class, comparing the sizes, does not allow.
use wirekrak.Common.{
  ℕ, ◌≤◌, ◌≡◌, refl, false, List, [], ◌∷◌, Option, some, lookup, remove, replace, UniqueKeys, arith,
  Bool-cases, inl, inr,
}
use wirekrak.Replay.Table.{Symbols, Request, Table, empty_table, is_nil, put_back}
use wirekrak.Replay.Table.Entries.{holders, owner_in}

-- Each request is stored under its own identifier, and has a symbol.
abbrev pub Labelled : {Symbol Body : Type 0} → List (ℕ × Request Symbol Body) → Type 0
Labelled [] = Unit
Labelled ((k, r) ∷ m) = (r.req_id ≡ some k) × (is_nil r.symbols ≡ false) × Labelled m

module _ {Symbol Body : Type 0} where
  pub Labelled-lookup :
      (k : ℕ) (r : Request Symbol Body) (m : List (ℕ × Request Symbol Body))
      → Labelled m
      → lookup k m ≡ some r
      → (r.req_id ≡ some k) × (is_nil r.symbols ≡ false)
  unfolding lookup
  Labelled-lookup k r [] l e = absurd (ground arith)
  Labelled-lookup k r ((i, q) ∷ m) l e = ground (arith, Labelled-lookup k r m l.2)

  remove-Labelled :
      (k : ℕ) (m : List (ℕ × Request Symbol Body)) → Labelled m → Labelled (remove k m)
  unfolding remove
  remove-Labelled k [] l = l
  remove-Labelled k ((i, q) ∷ m) l = ground (arith, remove-Labelled k m l.2)

  replace-Labelled :
      (k : ℕ) (r : Request Symbol Body) (m : List (ℕ × Request Symbol Body))
      → Labelled m
      → r.req_id ≡ some k
      → is_nil r.symbols ≡ false
      → Labelled (replace k r m)
  unfolding replace
  replace-Labelled k r [] l e n = l
  replace-Labelled k r ((i, q) ∷ m) l e n = ground (arith, replace-Labelled k r m l.2 e n)

module _ (s : Symbols) {Body : Type 0} where
  open s use {Symbol}

  -- The request that owns a symbol, by the index.
  unfoldable pub owner_of : ℕ → Table Symbol Body → Option ℕ
  owner_of sid t = lookup sid t.symbol_owner

  pub record IsValid (t : Table Symbol Body) : Type 0 where
    pub keys : UniqueKeys t.subscriptions
    pub owners : UniqueKeys t.symbol_owner
    pub labelled : Labelled t.subscriptions
    pub single : (sid : ℕ) → holders s sid t.subscriptions ≤ 1
    pub tracked : (sid : ℕ) → lookup sid t.symbol_owner ≡ owner_in s sid t.subscriptions

  pub empty-IsValid : IsValid empty_table
  unfolding empty_table holders owner_in lookup
  empty-IsValid = record {
    keys = tt;
    owners = tt;
    labelled = tt;
    single = λ sid. ground arith;
    tracked = λ sid. refl;
  }

  pub put_back-Labelled :
      (k : ℕ) (r : Request Symbol Body) (m : List (ℕ × Request Symbol Body))
      → Labelled m
      → r.req_id ≡ some k
      → Labelled (put_back s k r m)
  unfolding put_back
  put_back-Labelled k r m l e = elim (Bool-cases (is_nil r.symbols)) [
    | inl none_left ↦ rw none_left (remove-Labelled k m l)
    | inr some_left ↦ rw some_left (replace-Labelled k r m l e some_left)
  ]
