-- ===== src/Flashstrike/Store/Segment.antt =====
-- The doubly linked list of a price level: segments of it, and what a change of the links at their ends
-- does to them.
use wirekrak.Common.{
  ℕ, ◌≡◌, refl, sym, ap, ◌∙◌, true, false, List, [], ◌∷◌, ◌++◌, Option, none, some, ◌==◌,
  if◌then◌else◌, is_owner, contains, arith, Bool-cases, inl, inr,
}
use wirekrak.Flashstrike.Pool.{OrderPool, get_order}

-- The orders `is`, linked both ways: the first is `head` and comes after `prev`, the last is `tail` and
-- comes before `next`.
unfoldable pub Seg : OrderPool → Option ℕ → Option ℕ → List ℕ → Option ℕ → Option ℕ → Type 0
Seg pool prev head [] tail next = (head ≡ next) × (tail ≡ prev)
Seg pool prev head (i ∷ is) tail next =
    (head ≡ some i)
    × ((get_order i pool).prev_idx ≡ prev)
    × Seg pool (some i) (get_order i pool).next_idx is tail next

unfoldable pub IsDistinct : List ℕ → Type 0
IsDistinct [] = Unit
IsDistinct (i ∷ is) = (contains i is ≡ false) × IsDistinct is

-- The end of a segment, where nothing (or not) is in it.
abbrev pub end_or : List ℕ → Option ℕ → Option ℕ → Option ℕ
end_or [] a b = a
end_or (i ∷ is) a b = b

pub split :
    (pool : OrderPool) (prev head : Option ℕ) (before after : List ℕ) (tail next : Option ℕ)
    → Seg pool prev head (before ++ after) tail next
    → (q m : Option ℕ) × Seg pool prev head before q m × Seg pool q m after tail next
unfolding Seg
split pool prev head [] after tail next s = (prev, head, (refl, refl), s)
split pool prev head (a ∷ before) after tail next (h, p, s) =
    let (q, m, left, right) =
      split pool (some a) (get_order a pool).next_idx before after tail next s in
    (q, m, (h, p, left), right)

pub join :
    (pool : OrderPool) (prev head : Option ℕ) (before after : List ℕ) (q m tail next : Option ℕ)
    → Seg pool prev head before q m
    → Seg pool q m after tail next
    → Seg pool prev head (before ++ after) tail next
unfolding Seg
join pool prev head [] after q m tail next (h, t) s = rw (h, sym t) s
join pool prev head (a ∷ before) after q m tail next (h, p, left) right =
    (h, p, join pool (some a) (get_order a pool).next_idx before after q m tail next left right)

-- The last order of a segment is one of it.
pub tail-contains :
    (pool : OrderPool) (prev head : Option ℕ) (i : ℕ) (is : List ℕ) (tail next : Option ℕ) (k : ℕ)
    → Seg pool prev head (i ∷ is) tail next
    → contains k (i ∷ is) ≡ false
    → is_owner k tail ≡ false
unfolding Seg contains is_owner
tail-contains pool prev head i [] tail next k (h, p, (_, t)) e = rw t (ground (arith, e))
tail-contains pool prev head i (j ∷ is) tail next k (h, p, s) e =
    tail-contains pool (some i) (get_order i pool).next_idx j is tail next k s (ground (arith, e))

pub is_new-other :
    (i k : ℕ) (is : List ℕ) → contains i is ≡ false → contains k is ≡ true → (i == k) ≡ false
is_new-other i k is new e = elim (Bool-cases (i == k)) [
  | inl f ↦
      let same : i ≡ k = ground (arith, f) in
      absurd (ground (arith, e, new, ap (λ x. contains x is) same))
  | inr f ↦ f
]

module _ (pool pool' : OrderPool) where
  -- What comes after a segment changes.
  pub retarget :
      (prev head : Option ℕ) (is : List ℕ) (tail next next' : Option ℕ)
      → IsDistinct is
      → Seg pool prev head is tail next
      → ((i : ℕ)
          → contains i is ≡ true
          → (get_order i pool').prev_idx ≡ (get_order i pool).prev_idx)
      → ((i : ℕ)
          → contains i is ≡ true
          → (get_order i pool').next_idx
            ≡ (if is_owner i tail then next' else (get_order i pool).next_idx))
      → Seg pool' prev (end_or is next' head) is tail next'
  unfolding Seg IsDistinct contains is_owner
  retarget prev head [] tail next next' d (h, t) same links = (refl, t)
  retarget prev head (i ∷ []) tail next next' d (h, p, (e, t)) same links =
      (h, same i (ground arith) ∙ p, (links i (ground arith) ∙ rw t (ground arith), t))
  retarget prev head (i ∷ j ∷ is) tail next next' (new, d) (h, p, s) same links =
      let kept : (get_order i pool').next_idx ≡ (get_order i pool).next_idx =
        links i (ground arith)
        ∙ ap (λ b. if b then next' else (get_order i pool).next_idx)
            (tail-contains pool (some i) (get_order i pool).next_idx j is tail next i s new) in
      (
        h,
        same i (ground arith) ∙ p,
        rw kept (
            retarget (some i) (get_order i pool).next_idx (j ∷ is) tail next next' d s
              (λ k e. same k (ground (arith, e))) (λ k e. links k (ground (arith, e)))),
      )

  -- A segment whose orders keep their links.
  pub frame :
      (prev head : Option ℕ) (is : List ℕ) (tail next : Option ℕ)
      → Seg pool prev head is tail next
      → ((i : ℕ)
          → contains i is ≡ true
          → (get_order i pool').prev_idx ≡ (get_order i pool).prev_idx)
      → ((i : ℕ)
          → contains i is ≡ true
          → (get_order i pool').next_idx ≡ (get_order i pool).next_idx)
      → Seg pool' prev head is tail next
  unfolding Seg contains
  frame prev head [] tail next s same links = s
  frame prev head (i ∷ is) tail next (h, p, s) same links = (
    h,
    same i (ground arith) ∙ p,
    rw (links i (ground arith)) (
        frame (some i) (get_order i pool).next_idx is tail next s
          (λ k e. same k (ground (arith, e))) (λ k e. links k (ground (arith, e)))),
  )

  -- What comes before a segment changes.
  pub rebase :
      (prev head : Option ℕ) (is : List ℕ) (tail next prev' : Option ℕ)
      → IsDistinct is
      → Seg pool prev head is tail next
      → ((i : ℕ)
          → contains i is ≡ true
          → (get_order i pool').prev_idx
            ≡ (if is_owner i head then prev' else (get_order i pool).prev_idx))
      → ((i : ℕ)
          → contains i is ≡ true
          → (get_order i pool').next_idx ≡ (get_order i pool).next_idx)
      → Seg pool' prev' head is (end_or is prev' tail) next
  unfolding Seg IsDistinct contains is_owner
  rebase prev head [] tail next prev' d (h, t) same links = (h, refl)
  rebase prev head (i ∷ is) tail next prev' (new, d) (h, p, s) same links = (
    h,
    same i (ground arith) ∙ rw h (ground arith),
    rw (links i (ground arith)) (
        frame (some i) (get_order i pool).next_idx is tail next s
          (λ k e. same k (ground (arith, e)) ∙ rw (h, is_new-other i k is new e) refl)
          (λ k e. links k (ground (arith, e)))),
  )

-- The first order of a segment that nothing follows is one of it.
pub head-contains :
    (pool : OrderPool) (prev head : Option ℕ) (is : List ℕ) (tail : Option ℕ) (k : ℕ)
    → Seg pool prev head is tail none
    → contains k is ≡ false
    → is_owner k head ≡ false
unfolding Seg contains is_owner
head-contains pool prev head [] tail k (h, t) e = rw h refl
head-contains pool prev head (i ∷ is) tail k (h, p, s) e = rw h (ground (arith, e))

-- The end of a segment that nothing comes before is one of it.
pub last-contains :
    (pool : OrderPool) (head : Option ℕ) (is : List ℕ) (tail next : Option ℕ) (k : ℕ)
    → Seg pool none head is tail next
    → contains k is ≡ false
    → is_owner k tail ≡ false
unfolding Seg is_owner
last-contains pool head [] tail next k (h, t) e = rw t refl
last-contains pool head (i ∷ is) tail next k s e = tail-contains pool none head i is tail next k s e
