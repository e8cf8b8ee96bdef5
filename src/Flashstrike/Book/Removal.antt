-- ===== src/Flashstrike/Book/Removal.antt =====
-- What removing an order does to the identifiers of the book.
use wirekrak.Common.{
  ℕ, ◌≡◌, refl, sym, ap, ◌∙◌, subst, Option, none, some, is_some, ◌==◌, ==_iff, if◌then◌else◌,
  bind-some, outcome, Bool-cases, inl, inr,
}
use wirekrak.Flashstrike.Types.{Side, bid, ask, OperationStatus, success, not_found}
use wirekrak.Flashstrike.IdMap.{find, remove_id}
use wirekrak.Flashstrike.IdMap.Invariant.{IsId, IsValid}
use wirekrak.Flashstrike.IdMap.Laws.{remove_id-find}
use wirekrak.Flashstrike.Pool.{get_order, release}
use wirekrak.Flashstrike.Store.{View}
use wirekrak.Flashstrike.Store.Pricing
use wirekrak.Flashstrike.Book.{Book, get_store, put_store, remove_at, remove_order}

put_store-ids : (side : Side) (v : View) (b : Book) → (put_store side v b).ids ≡ b.ids
unfolding put_store
put_store-ids bid v b = refl
put_store-ids ask v b = refl

-- The identifiers after a removal of `k`, with the status that tells whether it was there.
unfoldable pub IsRemoved : ℕ → ℕ → Book → Book → OperationStatus → Type 0
IsRemoved k j b b' status =
    IsValid b'.ids
    × (find j b'.ids ≡ (if j == k then none else find j b.ids))
    × (status ≡ (if is_some (find k b.ids) then success else not_found))

remove_at-IsRemoved :
    (k j : ℕ) (slot : Option ℕ) (b b' : Book) (status : OperationStatus)
    → IsId k
    → IsId j
    → IsValid b.ids
    → find k b.ids ≡ slot
    → ◌≡◌ {A = Option (Book × OperationStatus)} (remove_at k slot b) (some (b', status))
    → IsRemoved k j b b' status
unfolding remove_at IsRemoved
remove_at-IsRemoved k j none b b' status id id' valid f e =
    let (same, kept) = outcome b b' not_found status e in
    (
      subst (λ (x : Book). IsValid x.ids) (sym same) valid,
      ap (λ (x : Book). find j x.ids) same ∙ (elim (Bool-cases (j == k)) [
        | inl g ↦ rw g (ap (λ i. find i b.ids) ((==_iff j k).0 g) ∙ f)
        | inr g ↦ rw g refl
      ]),
      kept ∙ sym (ap (λ o. if is_some o then success else not_found) f),
    )
remove_at-IsRemoved k j (some order_idx) b b' status id id' valid f e =
    let side = (get_order order_idx b.pool).side in
    let (v, _, e1) =
      bind-some (Pricing.remove_order side order_idx (get_store side b)) _ (b', status) e in
    let r = put_store side v b in
    let (same, kept) =
      outcome (record r { ids = (remove_id k r.ids).0; pool = release order_idx r.pool }) b' success
        status e1 in
    let ids : b'.ids ≡ (remove_id k b.ids).0 =
      ap (λ (x : Book). x.ids) same ∙ ap (λ m. (remove_id k m).0) (put_store-ids side v b) in
    let (_, valid', found) = remove_id-find k j b.ids id id' valid in
    (
      subst IsValid (sym ids) valid',
      ap (find j) ids ∙ found,
      kept ∙ sym (ap (λ o. if is_some o then success else not_found) f),
    )

-- A removal that returns leaves the map of identifiers valid: the identifier is not found in it, every
-- other one is found as before, and the status is success exactly where the identifier was there.
pub remove_order-IsRemoved :
    (k j : ℕ) (b b' : Book) (status : OperationStatus)
    → IsId k
    → IsId j
    → IsValid b.ids
    → remove_order k b ≡ some (b', status)
    → IsRemoved k j b b' status
unfolding remove_order
remove_order-IsRemoved k j b b' status id id' valid e =
    remove_at-IsRemoved k j (find k b.ids) b b' status id id' valid refl e
