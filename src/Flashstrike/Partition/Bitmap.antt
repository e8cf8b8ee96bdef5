-- ===== src/Flashstrike/Partition/Bitmap.antt =====
-- Setting, clearing and scanning the bits of a bitmap.
use wirekrak.Common.{
  ℕ, zero, suc, ◌/◌, ◌%◌, ◌≤◌, ◌<◌, ◌≡◌, refl, ap, ◌∙◌, Bool, true, false, not, ◌&&◌, ◌||◌, List,
  [], ◌∷◌, none, some, ◌==◌, if◌then◌else◌, length, get_or, set, get_or-set_self, get_or-set_ne,
  length-set, All, arith, Bool-cases, Option-cases, inl, inr, ==_iff,
}
use wirekrak.Flashstrike.Partition.{
  Partition, set_active, clear_active, is_active, Word, put_bit, get_bit, lowest_bit, highest_bit,
}

-- Every word has 64 bits.
abbrev pub IsBitmap : List Word → Type 0
IsBitmap bitmap = All (λ word. length word ≡ 64) bitmap

word-IsBitmap :
    (bitmap : List Word) (i : ℕ)
    → IsBitmap bitmap
    → i < length bitmap
    → length (get_or bitmap i []) ≡ 64
word-IsBitmap [] i w l = absurd (omega (arith, l))
word-IsBitmap (word ∷ words) zero (e, w) l = e
word-IsBitmap (word ∷ words) (suc i) (e, w) l = word-IsBitmap words i w (omega (arith, l))

set-IsBitmap :
    (bitmap : List Word) (i : ℕ) (word : Word)
    → IsBitmap bitmap
    → length word ≡ 64
    → IsBitmap (set bitmap i word)
set-IsBitmap [] i word w e = w
set-IsBitmap (x ∷ xs) zero word (a, w) e = (e, w)
set-IsBitmap (x ∷ xs) (suc i) word (a, w) e = (a, set-IsBitmap xs i word w e)

pub put_bit-IsBitmap :
    (off : ℕ) (b : Bool) (bitmap : List Word)
    → IsBitmap bitmap
    → off / 64 < length bitmap
    → IsBitmap (put_bit off b bitmap)
unfolding put_bit
put_bit-IsBitmap off b bitmap w l =
    set-IsBitmap bitmap (off / 64) _ w
      (length-set (get_or bitmap (off / 64) []) (off % 64) b ∙ word-IsBitmap bitmap (off / 64) w l)

-- A bit that is written is read back, and the others are as they were.
pub get_bit-put_bit :
    (off j : ℕ) (b : Bool) (bitmap : List Word)
    → IsBitmap bitmap
    → off / 64 < length bitmap
    → get_bit j (put_bit off b bitmap) ≡ (if j == off then b else get_bit j bitmap)
unfolding put_bit get_bit
get_bit-put_bit off j b bitmap w l =
    let word = get_or bitmap (off / 64) [] in
    let long = word-IsBitmap bitmap (off / 64) w l in
    elim (Bool-cases (j / 64 == off / 64)) [
      | inl e ↦
          let same_word = (==_iff (j / 64) (off / 64)).0 e in
          let written : get_or (set bitmap (off / 64) (set word (off % 64) b)) (j / 64) []
              ≡ set word (off % 64) b =
            ap (λ i. get_or (set bitmap (off / 64) (set word (off % 64) b)) i []) same_word
            ∙ get_or-set_self bitmap (off / 64) (set word (off % 64) b) [] l in
          elim (Bool-cases (j == off)) [
            | inl f ↦
                rw (written, f, (==_iff j off).0 f)
                  (get_or-set_self word (off % 64) b false (omega (arith, long)))
            | inr f ↦
                rw (written, f, same_word)
                  (get_or-set_ne word b false (λ g. ground (arith, f, g, same_word)))
          ]
      | inr e ↦
          let other : get_or (set bitmap (off / 64) (set word (off % 64) b)) (j / 64) []
              ≡ get_or bitmap (j / 64) [] =
            get_or-set_ne bitmap (set word (off % 64) b) [] (λ g. ground (arith, e, g)) in
          let apart : (j == off) ≡ false = ground (arith, e) in rw (apart, other) refl
    ]

pub lowest_bit-none : (word : Word) (k : ℕ) → lowest_bit word ≡ none → get_or word k false ≡ false
unfolding lowest_bit
lowest_bit-none [] k e = refl
lowest_bit-none (true ∷ bs) k e = absurd (ground (arith, e))
lowest_bit-none (false ∷ bs) zero e = refl
lowest_bit-none (false ∷ bs) (suc k) e = elim (Option-cases (lowest_bit bs)) [
  | inl f ↦ lowest_bit-none bs k f
  | inr (i, f) ↦ absurd (ground (arith, e, f))
]

pub lowest_bit-some :
    (word : Word) (i : ℕ)
    → lowest_bit word ≡ some i
    → (get_or word i false ≡ true)
      × (i < length word)
      × ((k : ℕ) → get_or word k false ≡ true → i ≤ k)
unfolding lowest_bit
lowest_bit-some [] i e = absurd (ground (arith, e))
lowest_bit-some (true ∷ bs) i e =
    let z : i ≡ 0 = ground (arith, e) in (rw z refl, omega (arith, z), λ k f. omega (arith, z))
lowest_bit-some (false ∷ bs) i e = elim (Option-cases (lowest_bit bs)) [
  | inl f ↦ absurd (ground (arith, e, f))
  | inr (j, f) ↦
      let (at, short, least) = lowest_bit-some bs j f in
      let z : i ≡ suc j = ground (arith, e, f) in
      (
        rw z at,
        omega (arith, z, short),
        λ k. elim k as (λ k. get_or (false ∷ bs) k false ≡ true → i ≤ k) [
          | zero ↦ λ g. absurd (ground (arith, g))
          | suc k' ↦ λ g. omega (arith, z, least k' g)
        ],
      )
]

pub highest_bit-none : (word : Word) (k : ℕ) → highest_bit word ≡ none → get_or word k false ≡ false
unfolding highest_bit
highest_bit-none [] k e = refl
highest_bit-none (b ∷ bs) k e = elim (Option-cases (highest_bit bs)) [
  | inl f ↦ elim k as (λ k. get_or (b ∷ bs) k false ≡ false) [
    | zero ↦ ground (arith, e, f)
    | suc k' ↦ highest_bit-none bs k' f
  ]
  | inr (i, f) ↦ absurd (ground (arith, e, f))
]

pub highest_bit-some :
    (word : Word) (i : ℕ)
    → highest_bit word ≡ some i
    → (get_or word i false ≡ true)
      × (i < length word)
      × ((k : ℕ) → get_or word k false ≡ true → k ≤ i)
unfolding highest_bit
highest_bit-some [] i e = absurd (ground (arith, e))
highest_bit-some (b ∷ bs) i e = elim (Option-cases (highest_bit bs)) [
  | inl f ↦
      let z : i ≡ 0 = ground (arith, e, f) in
      let at : b ≡ true = ground (arith, e, f) in
      (
        rw z at,
        omega (arith, z),
        λ k. elim k as (λ k. get_or (b ∷ bs) k false ≡ true → k ≤ i) [
          | zero ↦ λ g. omega arith
          | suc k' ↦ λ g. absurd (ground (arith, g, highest_bit-none bs k' f))
        ],
      )
  | inr (j, f) ↦
      let (at, short, most) = highest_bit-some bs j f in
      let z : i ≡ suc j = ground (arith, e, f) in
      (
        rw z at,
        omega (arith, z, short),
        λ k. elim k as (λ k. get_or (b ∷ bs) k false ≡ true → k ≤ i) [
          | zero ↦ λ g. omega arith
          | suc k' ↦ λ g. omega (arith, z, most k' g)
        ],
      )
]

-- Marking a level active, or clearing it, marks or clears that level only.
pub set_active-is_active :
    (off : ℕ) (p : Partition)
    → IsBitmap p.bitmap
    → off / 64 < length p.bitmap
    → (j : ℕ)
    → (is_active j (set_active off p) ≡ (j == off || is_active j p))
      × (is_active j (clear_active off p) ≡ (not (j == off) && is_active j p))
unfolding is_active set_active clear_active
set_active-is_active off p b l j = (
  get_bit-put_bit off j true p.bitmap b l ∙ marked (j == off) (get_bit j p.bitmap),
  get_bit-put_bit off j false p.bitmap b l ∙ cleared (j == off) (get_bit j p.bitmap),
)
  where
    marked : (x y : Bool) → (if x then true else y) ≡ (x || y)
    marked true y = refl
    marked false y = refl

    cleared : (x y : Bool) → (if x then false else y) ≡ (not x && y)
    cleared true y = refl
    cleared false y = refl
