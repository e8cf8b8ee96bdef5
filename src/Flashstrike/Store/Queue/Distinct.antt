-- ===== src/Flashstrike/Store/Queue/Distinct.antt =====
-- Lists of distinct orders, and the sums over them.
use wirekrak.Common.{
  ℕ, ◌+◌, ◌≡◌, refl, sym, ap, ◌∙◌, subst, true, false, List, [], ◌∷◌, ◌++◌, ◌==◌, contains,
  contains-append, All, arith, Bool-cases, inl, inr,
}
use wirekrak.Flashstrike.Pool.{OrderPool, get_order}
use wirekrak.Flashstrike.Store.Segment.{IsDistinct}
use wirekrak.Flashstrike.Store.Queue.{sum_qty}

-- The parts of a list of distinct orders around one of them.
unfoldable pub AreParts : List ℕ → ℕ → List ℕ → Type 0
AreParts before x after =
    IsDistinct before
    × IsDistinct after
    × (contains x before ≡ false)
    × (contains x after ≡ false)
    × IsDistinct (before ++ after)
    × ((i : ℕ) → contains i before ≡ true → contains i after ≡ false)

pub parts :
    (before : List ℕ) (x : ℕ) (after : List ℕ)
    → IsDistinct (before ++ (x ∷ after))
    → AreParts before x after
unfolding AreParts IsDistinct contains
parts [] x after (new, d) = (tt, d, refl, new, d, λ i e. absurd (ground (arith, e)))
parts (b ∷ before) x after (new, d) =
    let (d1, d2, n1, n2, d3, apart) = parts before x after d in
    let e = contains-append b before (x ∷ after) in
    (
      (ground (arith, e, new), d1),
      d2,
      ground (arith, e, new, n1),
      n2,
      (ground (arith, e, new, contains-append b before after), d3),
      λ i f. elim (Bool-cases (b == i)) [
        | inl g ↦
            let same : b ≡ i = ground (arith, g) in
            ap (λ k. contains k after) (sym same) ∙ ground (arith, e, new)
        | inr g ↦ apart i (ground (arith, f, g))
      ],
    )

pub append-IsDistinct :
    (is : List ℕ) (x : ℕ) → IsDistinct is → contains x is ≡ false → IsDistinct (is ++ (x ∷ []))
unfolding IsDistinct contains
append-IsDistinct [] x d e = (refl, tt)
append-IsDistinct (i ∷ is) x (new, d) e = (
  ground (arith, contains-append i is (x ∷ []), new, e),
  append-IsDistinct is x d (ground (arith, e)),
)

pub All-parts :
    (P : ℕ → Type 0) (before : List ℕ) (x : ℕ) (after : List ℕ)
    → All P (before ++ (x ∷ after))
    → P x × All P (before ++ after)
All-parts P [] x after (p, ps) = (p, ps)
All-parts P (b ∷ before) x after (p, ps) =
    let (q, qs) = All-parts P before x after ps in (q, (p, qs))

pub All-append : (P : ℕ → Type 0) (is : List ℕ) (x : ℕ) → All P is → P x → All P (is ++ (x ∷ []))
All-append P [] x ps p = (p, tt)
All-append P (i ∷ is) x (q, ps) p = (q, All-append P is x ps p)

pub All-contains : (P : ℕ → Type 0) (is : List ℕ) (i : ℕ) → All P is → contains i is ≡ true → P i
unfolding contains
All-contains P [] i ps e = absurd (ground (arith, e))
All-contains P (j ∷ is) i (p, ps) e = elim (Bool-cases (j == i)) [
  | inl f ↦ let same : j ≡ i = ground (arith, f) in subst P same p
  | inr f ↦ All-contains P is i ps (ground (arith, e, f))
]

pub sum_qty-append :
    (pool : OrderPool) (is js : List ℕ)
    → sum_qty pool (is ++ js) ≡ sum_qty pool is + sum_qty pool js
unfolding sum_qty
sum_qty-append pool [] js = omega arith
sum_qty-append pool (i ∷ is) js = omega (arith, sum_qty-append pool is js)

-- Orders that keep their quantities.
pub sum_qty-kept :
    (pool pool' : OrderPool) (is : List ℕ)
    → ((i : ℕ) → contains i is ≡ true → (get_order i pool').qty ≡ (get_order i pool).qty)
    → sum_qty pool' is ≡ sum_qty pool is
unfolding sum_qty contains
sum_qty-kept pool pool' [] same = refl
sum_qty-kept pool pool' (i ∷ is) same =
    omega
      (arith, same i (ground arith), sum_qty-kept pool pool' is (λ k e. same k (ground (arith, e))))
