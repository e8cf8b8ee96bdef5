-- ===== src/Replay/Database/Total.antt =====
-- The database's operations keep its tables valid.
use wirekrak.Common.{
  ℕ, zero, suc, ◌≡◌, refl, ap, ◌∙◌, true, false, List, [], ◌∷◌, length, All, is_some, arith,
}
use wirekrak.Replay.Table.{Symbols, Request, Table, add, erase_symbol, is_nil}
use wirekrak.Replay.Table.Invariant.{IsValid}
use wirekrak.Replay.Table.Adding.{add-owner_of, take_subscriptions-owner}
use wirekrak.Replay.Table.Erasing.{erase_symbol-owner}
use wirekrak.Replay.Database.{at_table, add_to, remove_symbol, reject_in, take_from}
use wirekrak.Replay.Database.Laws.{reject_in-Resolves}

module _ (s : Symbols) {Body : Type 0} where
  open s use {Symbol}

  -- All tables of the list are valid, and there are `n`.
  abbrev pub AllStored : ℕ → List (Table Symbol Body) → Type 0
  AllStored n ts = All (IsValid s) ts × (length ts ≡ n)

  at_table-AllStored :
      (type n : ℕ) (f : Table Symbol Body → Table Symbol Body) (ts : List (Table Symbol Body))
      → AllStored n ts
      → ((t : Table Symbol Body) → IsValid s t → IsValid s (f t))
      → AllStored n (at_table type f ts)
  unfolding at_table
  at_table-AllStored type n f [] v g = v
  at_table-AllStored zero n f (t ∷ ts) v g = ((g t v.0.0, v.0.1), v.1)
  at_table-AllStored (suc type) zero f (t ∷ ts) v g = absurd (ground arith)
  at_table-AllStored (suc type) (suc n) f (t ∷ ts) v g =
      let rest = at_table-AllStored type n f ts (v.0.1, ground arith) g in
      ((v.0.0, rest.0), ap suc rest.1)

  pub add_to-AllStored :
      (type n : ℕ) (req : Request Symbol Body) (ts : List (Table Symbol Body))
      → AllStored n ts
      → AllStored n (add_to s type req ts)
  unfolding add_to
  add_to-AllStored type n req ts v =
      at_table-AllStored type n (λ t. (add s req t).0) ts v (λ t w. (add-owner_of s req t w).0)

  pub remove_symbol-AllStored :
      (type n : ℕ) (symbol : Symbol) (ts : List (Table Symbol Body))
      → AllStored n ts
      → AllStored n (remove_symbol s type symbol ts)
  unfolding remove_symbol
  remove_symbol-AllStored type n symbol ts v =
      at_table-AllStored type n (erase_symbol s symbol) ts v
        (λ t w. (erase_symbol-owner s symbol t w).0)

  length-reject_in :
      (req_id : ℕ) (symbol : Symbol) (ts : List (Table Symbol Body))
      → length (reject_in s req_id symbol ts).0 ≡ length ts
  unfolding reject_in
  length-reject_in req_id symbol [] = refl
  length-reject_in req_id symbol (t ∷ ts) = ground (arith, length-reject_in req_id symbol ts)

  pub reject_in-AllStored :
      (n req_id : ℕ) (symbol : Symbol) (ts : List (Table Symbol Body))
      → AllStored n ts
      → AllStored n (reject_in s req_id symbol ts).0
  reject_in-AllStored n req_id symbol ts v =
      ((reject_in-Resolves s req_id symbol ts v.0).0, length-reject_in req_id symbol ts ∙ v.1)

  -- What a table gives out are requests with an identifier.
  abbrev pub AllIdentified : List (Request Symbol Body) → Type 0
  AllIdentified reqs = All (λ r. (is_some r.req_id ≡ true) × (is_nil r.symbols ≡ false)) reqs

  pub take_from-AllStored :
      (type n : ℕ) (ts : List (Table Symbol Body))
      → AllStored n ts
      → let (out, ts') = take_from s type ts in AllIdentified out × AllStored n ts'
  unfolding take_from
  take_from-AllStored type n [] v = (tt, v)
  take_from-AllStored zero n (t ∷ ts) v =
      let (_, out, _, w) = take_subscriptions-owner s t v.0.0 in (out, ((w, v.0.1), v.1))
  take_from-AllStored (suc type) zero (t ∷ ts) v = absurd (ground arith)
  take_from-AllStored (suc type) (suc n) (t ∷ ts) v =
      let (out, (w, l)) = take_from-AllStored type n ts (v.0.1, ground arith) in
      (out, ((v.0.0, w), ap suc l))
