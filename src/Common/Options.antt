-- ===== src/Common/Options.antt =====
-- Operations that may fail to return.
use mathlib.Core.Path.{◌≡◌, refl, sym, ap}
use native.Mathlib.Omega.{arith}
use mathlib.Core.Option.{Option, none, some}

-- The operation returns a value with the property.
abbrev pub Returns : {A : Type 0} → (A → Type 0) → Option A → Type 0
Returns P none = ⊥
Returns P (some a) = P a

pub Returns-some :
    {A : Type 0} (P : A → Type 0) (a : A) (o : Option A) → o ≡ some a → P a → Returns P o
Returns-some P a o e v = rw e v

pub Returns-bind :
    {A B : Type 0} (P : A → Type 0) (Q : B → Type 0) (o : Option A) (f : A → Option B)
    → Returns P o
    → ((a : A) → P a → Returns Q (f a))
    → Returns Q (elim o [ none ↦ none | some a ↦ f a ])
Returns-bind P Q none f v g = v
Returns-bind P Q (some a) f v g = g a v

-- Where the operation returns, the property holds of what it returns.
abbrev pub Allows : {A : Type 0} → (A → Type 0) → Option A → Type 0
Allows P none = Unit
Allows P (some a) = P a

pub Allows-bind :
    {A B : Type 0} (P : A → Type 0) (Q : B → Type 0) (o : Option A) (f : A → Option B)
    → Allows P o
    → ((a : A) → P a → Allows Q (f a))
    → Allows Q (elim o [ none ↦ none | some a ↦ f a ])
Allows-bind P Q none f v g = tt
Allows-bind P Q (some a) f v g = g a v

infixl 5 ◌>>=◌
abbrev pub ◌>>=◌ : {A B : Type 0} → Option A → (A → Option B) → Option B
m >>= k = elim m [ none ↦ none | some a ↦ k a ]

-- A chain that returns a value: its first operation does, and the rest does.
pub bind-some :
    {A B : Type 0} (o : Option A) (f : A → Option B) (b : B)
    → (o >>= f) ≡ some b
    → (a : A) × (o ≡ some a) × (f a ≡ some b)
bind-some none f b e = absurd (ground (arith, e))
bind-some (some a) f b e = (a, refl, e)

pub some-injective : {A : Type 0} (a b : A) → some a ≡ some b → a ≡ b
some-injective a b e = ap (λ o. elim o [ none ↦ a | some c ↦ c ]) e

pub bind-of_some :
    {A B : Type 0} (o : Option A) (f : A → Option B) (a : A) → o ≡ some a → (o >>= f) ≡ f a
bind-of_some o f a e = ap (λ x. x >>= f) e

pub outcome :
    {A B : Type 0} (a a' : A) (b b' : B)
    → ◌≡◌ {A = Option (A × B)} (some (a, b)) (some (a', b'))
    → (a' ≡ a) × (b' ≡ b)
outcome {A = A} {B = B} a a' b b' e =
    let f : ◌≡◌ {A = A × B} (a', b') (a, b) = sym (some-injective (a, b) (a', b') e) in
    (ap (λ p. p.0) f, ap (λ p. p.1) f)
