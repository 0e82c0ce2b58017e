-- ===== src/Prelude/Options.antt =====
-- Chains of steps that may fail.
use mathlib.Core.Path.{◌≡◌, refl, ap}
use mathlib.Core.Bool.{Bool, true, false}
use mathlib.Core.Option.{Option, none, some}

infixl 5 ◌>>=◌ ◌>>◌
abbrev pub ◌>>=◌ {ℓ κ} : {A : Type ℓ} {B : Type κ} → Option A → (A → Option B) → Option B
none >>= f = none
some a >>= f = f a

abbrev pub ◌>>◌ {ℓ} : {B : Type ℓ} → Option (Unit {0}) → Option B → Option B
m >> k = m >>= λ _. k

abbrev pub is_some {ℓ} : {A : Type ℓ} → Option A → Bool
is_some none = false
is_some (some a) = true

-- `if (!b) return false;`
abbrev pub guard : Bool → Option (Unit {0})
guard true = some tt
guard false = none

abbrev get_or {ℓ} : {A : Type ℓ} → A → Option A → A
get_or d none = d
get_or d (some a) = a

pub some-injective {ℓ} : {A : Type ℓ} {a b : A} → some a ≡ some b → a ≡ b
some-injective {a = a} h = ap (get_or a) h

-- The parts of a chain that gives a result.
pub >>=-eq-some {ℓ κ} :
    {A : Type ℓ} {B : Type κ} (m : Option A) (f : A → Option B) {b : B}
    → (m >>= f) ≡ some b
    → (a : A) × (m ≡ some a) × (f a ≡ some b)
>>=-eq-some none f h = cc
>>=-eq-some (some a) f h = (a, refl, h)

pub guard-eq-some {ℓ} :
    {B : Type ℓ} (t : Bool) (k : Option B) {b : B}
    → (guard t >> k) ≡ some b
    → (t ≡ true) × (k ≡ some b)
guard-eq-some true k h = (refl, h)
guard-eq-some false k h = cc

-- What holds of the result, if there is one. It is a family so that its argument can be inferred.
pub data OnSome {ℓ κ} {B : Type ℓ} (P : B → Type κ) : Option B → Type (ℓ ⊔ κ) where
  nothing : OnSome P none
  just : {b : B} → P b → OnSome P (some b)

pub OnSome->>= {ℓ κ μ} :
    {A : Type ℓ} {B : Type κ} {P : B → Type μ} (m : Option A) (f : A → Option B)
    → ((a : A) → m ≡ some a → OnSome P (f a))
    → OnSome P (m >>= f)
OnSome->>= none f h = nothing
OnSome->>= (some a) f h = h a refl

pub OnSome-guard {ℓ κ} :
    {B : Type ℓ} {P : B → Type κ} (t : Bool) (k : Option B)
    → (t ≡ true → OnSome P k)
    → OnSome P (guard t >> k)
OnSome-guard true k h = h refl
OnSome-guard false k h = nothing

-- An optional section: a default, or what its parser makes of it.
pub OnSome-elim {ℓ κ μ} :
    {A : Type ℓ} {B : Type κ} {P : B → Type μ} (o : Option A) {d : Option B} {f : A → Option B}
    → OnSome P d
    → ((a : A) → o ≡ some a → OnSome P (f a))
    → OnSome P (elim o [ none ↦ d | some a ↦ f a ])
OnSome-elim none hd hf = hd
OnSome-elim (some a) hd hf = hf a refl

from_just {ℓ κ} : {B : Type ℓ} {P : B → Type κ} {b : B} → OnSome P (some b) → P b
from_just (just h) = h

pub OnSome-some {ℓ κ} :
    {B : Type ℓ} {P : B → Type κ} {o : Option B} {b : B} → OnSome P o → o ≡ some b → P b
OnSome-some h e = from_just (rw e at h)
