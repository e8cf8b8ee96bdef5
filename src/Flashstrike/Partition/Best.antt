-- ===== src/Flashstrike/Partition/Best.antt =====
-- The best price that a partition computes from its bitmap.
use wirekrak.Common.{
  ℕ, zero, suc, ◌+◌, ◌-◌, ◌*◌, ◌/◌, ◌%◌, ◌≤◌, ◌<◌, ◌≡◌, refl, sym, ap, ◌∙◌, true, false, List, [],
  ◌∷◌, Option, none, some, ltb, length, get_or, arith, ◌⊎◌, Bool-cases, Option-cases, inl, inr,
}
use wirekrak.Flashstrike.Types.{Side, bid, ask}
use wirekrak.Flashstrike.Partition.{
  Word, Partition, level, get_bit, is_active, lowest_bit, highest_bit, lowest_active,
  highest_active, recompute_best,
}
use wirekrak.Flashstrike.Partition.Bitmap.{
  IsBitmap, lowest_bit-none, lowest_bit-some, highest_bit-none, highest_bit-some,
}

-- A bit of a bitmap stands in the first word or in the rest.
module _ (word : Word) (words : List Word) (k : ℕ) where
  get_bit-here : k < 64 → get_bit k (word ∷ words) ≡ get_or word k false
  unfolding get_bit
  get_bit-here l =
      ap (λ i. get_or (get_or (word ∷ words) i []) (k % 64) false) {y = 0} (omega arith)
      ∙ ap (λ i. get_or word i false) {y = k} (omega arith)

  get_bit-later : get_bit (64 + k) (word ∷ words) ≡ get_bit k words
  unfolding get_bit
  get_bit-later =
      ap (λ i. get_or (get_or (word ∷ words) i []) ((64 + k) % 64) false) {y = suc (k / 64)}
        (omega arith)
      ∙ ap (λ i. get_or (get_or words (k / 64) []) i false) {y = k % 64} (omega arith)

place :
    (word : Word) (words : List Word) (k : ℕ)
    → ((k < 64) × (get_bit k (word ∷ words) ≡ get_or word k false))
      ⊎ ((j : ℕ) × (k ≡ 64 + j) × (get_bit k (word ∷ words) ≡ get_bit j words))
place word words k = elim (Bool-cases (ltb k 64)) [
  | inl e ↦ inl (ground (arith, e), get_bit-here word words k (ground (arith, e)))
  | inr e ↦
      let split : k ≡ 64 + (k - 64) = ground (arith, e) in
      inr (
        k - 64,
        split,
        ap (λ i. get_bit i (word ∷ words)) split ∙ get_bit-later word words (k - 64),
      )
]

lowest_active-none :
    (w : ℕ) (words : List Word) (k : ℕ) → lowest_active w words ≡ none → get_bit k words ≡ false
unfolding lowest_active get_bit
lowest_active-none w [] k e = refl
lowest_active-none w (word ∷ words) k e = elim (Option-cases (lowest_bit word)) [
  | inl f ↦ elim (place word words k) [
    | inl (l, g) ↦ g ∙ lowest_bit-none word k f
    | inr (j, _, g) ↦ g ∙ lowest_active-none (suc w) words j (ground (arith, e, f))
  ]
  | inr (i, f) ↦ absurd (ground (arith, e, f))
]

lowest_active-some :
    (w : ℕ) (words : List Word) (i : ℕ)
    → IsBitmap words
    → lowest_active w words ≡ some i
    → (k : ℕ) × (i ≡ w * 64 + k)
      × (get_bit k words ≡ true)
      × ((j : ℕ) → get_bit j words ≡ true → k ≤ j)
unfolding lowest_active
lowest_active-some w [] i b e = absurd (ground (arith, e))
lowest_active-some w (word ∷ words) i (l, b) e = elim (Option-cases (lowest_bit word)) [
  | inl f ↦
      let (k, same, at, least) = lowest_active-some (suc w) words i b (ground (arith, e, f)) in
      (
        64 + k,
        omega (arith, same),
        get_bit-later word words k ∙ at,
        λ j g. elim (place word words j) [
          | inl (q, h) ↦ absurd (ground (arith, g, h, lowest_bit-none word j f))
          | inr (j', q, h) ↦ omega (arith, q, least j' (sym h ∙ g))
        ],
      )
  | inr (k, f) ↦
      let (at, short, least) = lowest_bit-some word k f in
      (
        k,
        ground (arith, e, f),
        get_bit-here word words k (omega (arith, l, short)) ∙ at,
        λ j g. elim (place word words j) [
          | inl (q, h) ↦ least j (sym h ∙ g)
          | inr (j', q, h) ↦ omega (arith, q, l, short)
        ],
      )
]

module _ (bitmap : List Word) where
  -- A bit of word `w`.
  in_word : (w k : ℕ) → k < 64 → get_bit (w * 64 + k) bitmap ≡ get_or (get_or bitmap w []) k false
  unfolding get_bit
  in_word w k l =
      ap (λ i. get_or (get_or bitmap i []) ((w * 64 + k) % 64) false) {y = w} (omega arith)
      ∙ ap (λ i. get_or (get_or bitmap w []) i false) {y = k} (omega arith)

  below :
      (w k : ℕ)
      → k < suc w * 64
      → (k < w * 64)
        ⊎ ((j : ℕ) × (k ≡ w * 64 + j) × (get_bit k bitmap ≡ get_or (get_or bitmap w []) j false))
  below w k l = elim (Bool-cases (ltb k (w * 64))) [
    | inl e ↦ inl (ground (arith, e))
    | inr e ↦
        let split : k ≡ w * 64 + (k - w * 64) = ground (arith, e) in
        inr (
          k - w * 64,
          split,
          ap (λ i. get_bit i bitmap) split ∙ in_word w (k - w * 64) (omega arith),
        )
  ]

  highest_active-none :
      (w k : ℕ) → highest_active w bitmap ≡ none → k < w * 64 → get_bit k bitmap ≡ false
  unfolding highest_active
  highest_active-none zero k e l = absurd (omega (arith, l))
  highest_active-none (suc w) k e l = elim (Option-cases (highest_bit (get_or bitmap w []))) [
    | inl f ↦ elim (below w k l) [
      | inl q ↦ highest_active-none w k (ground (arith, e, f)) q
      | inr (j, _, g) ↦ g ∙ highest_bit-none (get_or bitmap w []) j f
    ]
    | inr (i, f) ↦ absurd (ground (arith, e, f))
  ]

  highest_active-some :
      (w i : ℕ)
      → ((v : ℕ) → length (get_or bitmap v []) ≤ 64)
      → highest_active w bitmap ≡ some i
      → (get_bit i bitmap ≡ true)
        × (i < w * 64)
        × ((k : ℕ) → k < w * 64 → get_bit k bitmap ≡ true → k ≤ i)
  unfolding highest_active
  highest_active-some zero i b e = absurd (ground (arith, e))
  highest_active-some (suc w) i b e = elim (Option-cases (highest_bit (get_or bitmap w []))) [
    | inl f ↦
        let (at, short, most) = highest_active-some w i b (ground (arith, e, f)) in
        (
          at,
          omega (arith, short),
          λ k l g. elim (below w k l) [
            | inl q ↦ most k q g
            | inr (j, _, h) ↦
                absurd (ground (arith, g, h, highest_bit-none (get_or bitmap w []) j f))
          ],
        )
    | inr (k, f) ↦
        let (at, short, most) = highest_bit-some (get_or bitmap w []) k f in
        let same : i ≡ w * 64 + k = ground (arith, e, f) in
        let small = b w in
        (
          ap (λ j. get_bit j bitmap) same ∙ in_word w k (omega (arith, short, small)) ∙ at,
          omega (arith, same, short, small),
          λ j l g. elim (below w j l) [
            | inl q ↦ omega (arith, q, same)
            | inr (j', q, h) ↦ omega (arith, q, same, most j' (sym h ∙ g))
          ],
        )
  ]

word-short : (bitmap : List Word) (v : ℕ) → IsBitmap bitmap → length (get_or bitmap v []) ≤ 64
word-short [] v b = omega arith
word-short (word ∷ words) zero (l, b) = omega (arith, l)
word-short (word ∷ words) (suc v) (l, b) = word-short words v b

-- A bit past the last word is not set.
in_range : (words : List Word) (k : ℕ) → get_bit k words ≡ true → k < length words * 64
unfolding get_bit
in_range [] k e = absurd (ground (arith, e))
in_range (word ∷ words) k e = elim (place word words k) [
  | inl (l, _) ↦ omega (arith, l)
  | inr (j, same, g) ↦ omega (arith, same, in_range words j (sym g ∙ e))
]

-- Level `i` is at least as good as level `j`, for the side: higher for bids, lower for asks.
unfoldable pub IsBest : Side → ℕ → ℕ → Type 0
IsBest bid i j = j ≤ i
IsBest ask i j = i ≤ j

module _ (bitmap : List Word) (b : IsBitmap bitmap) where
  -- The place that `recompute_best` finds.
  unfoldable pub scan : Side → Option ℕ
  scan side = elim side as (λ _. Option ℕ) [
    | bid ↦ highest_active (length bitmap) bitmap
    | ask ↦ lowest_active 0 bitmap
  ]

  scan-none : (side : Side) (k : ℕ) → scan side ≡ none → get_bit k bitmap ≡ false
  unfolding scan
  scan-none bid k e = elim (Bool-cases (get_bit k bitmap)) [
    | inl f ↦
        absurd
          (ground (arith, f, highest_active-none bitmap (length bitmap) k e (in_range bitmap k f)))
    | inr f ↦ f
  ]
  scan-none ask k e = lowest_active-none 0 bitmap k e

  scan-some :
      (side : Side) (i : ℕ)
      → scan side ≡ some i
      → (get_bit i bitmap ≡ true) × ((j : ℕ) → get_bit j bitmap ≡ true → IsBest side i j)
  unfolding scan IsBest
  scan-some bid i e =
      let (at, _, most) =
        highest_active-some bitmap (length bitmap) i (λ v. word-short bitmap v b) e in
      (at, λ j g. most j (in_range bitmap j g) g)
  scan-some ask i e =
      let (k, same, at, least) = lowest_active-some 0 bitmap i b e in
      let equal : i ≡ k = omega (arith, same) in
      (ap (λ x. get_bit x bitmap) equal ∙ at, λ j g. omega (arith, equal, least j g))

-- A recomputed best price is that of the best active level, the highest for bids and the lowest for
-- asks; where no level is active there is none.
pub recompute_best-is_active :
    (side : Side) (p : Partition)
    → IsBitmap p.bitmap
    → let p' = recompute_best side p in
      ((p'.has_best ≡ false) × (p'.best_price ≡ none) × ((j : ℕ) → is_active j p ≡ false))
      ⊎ ((i : ℕ) × (p'.has_best ≡ true)
          × (p'.best_price ≡ some (level i p).price)
          × (is_active i p ≡ true)
          × ((j : ℕ) → is_active j p ≡ true → IsBest side i j))
unfolding recompute_best is_active scan
recompute_best-is_active side p b = elim (Option-cases (scan p.bitmap b side)) [
  | inl e ↦ rw (recompute_best, e) (inl (refl, refl, λ j. scan-none p.bitmap b side j e))
  | inr (i, e) ↦
      let (at, best) = scan-some p.bitmap b side i e in
      rw (recompute_best, e) (inr (i, refl, refl, at, best))
]
