-- ===== src/Prelude/Poll.antt =====
-- The outcome of a poll, as a value. `Poll<ProtResult<A>>` is `Outcome E A`, and a function that is
-- no poll never answers `pending`. `Poll<Option<ProtResult<A>>>` is `Outcome E (Option A)`.
-- `panic` is an `unwrap` of `None` or a failed `assert!`, `spin` a loop whose fuel ran out.
use mathlib.Core.Path.{◌≡◌, refl, ap, sym, subst}
use mathlib.Core.Bool.{Bool, true, false}

pub data Outcome {ℓ κ} (E : Type κ) (A : Type ℓ) : Type (ℓ ⊔ κ) where
  pending : Outcome E A
  ok : A → Outcome E A
  err : E → Outcome E A
  panic : Outcome E A
  spin : Outcome E A

-- What `ready!` and `?` pass on: everything but a value ends the caller.
infixl 5 ◌>>=◌
abbrev pub ◌>>=◌ {ℓ κ μ} :
    {E : Type μ} {A : Type ℓ} {B : Type κ} → Outcome E A → (A → Outcome E B) → Outcome E B
pending >>= f = pending
ok a >>= f = f a
err e >>= f = err e
panic >>= f = panic
spin >>= f = spin

-- To split on an outcome, and keep the equation.
pub data Split {ℓ κ} {E : Type κ} {A : Type ℓ} (o : Outcome E A) : Type (ℓ ⊔ κ) where
  is_pending : o ≡ pending → Split o
  is_ok : (a : A) → o ≡ ok a → Split o
  is_err : (e : E) → o ≡ err e → Split o
  is_panic : o ≡ panic → Split o
  is_spin : o ≡ spin → Split o

pub split {ℓ κ} : {E : Type κ} {A : Type ℓ} (o : Outcome E A) → Split o
split pending = is_pending refl
split (ok a) = is_ok a refl
split (err e) = is_err e refl
split panic = is_panic refl
split spin = is_spin refl

abbrev pub is_value {ℓ κ} : {E : Type κ} {A : Type ℓ} → Outcome E A → Bool
is_value (ok a) = true
is_value _ = false

-- The same in code that changes a state: the state that was reached stands beside the outcome.
infixl 5 ◌>>>◌
abbrev pub ◌>>>◌ {ℓ κ μ ν} :
    {E : Type μ} {A : Type ℓ} {B : Type κ} {S : Type ν}
    → Outcome E A × S
    → (A → S → Outcome E B × S)
    → Outcome E B × S
(pending, s) >>> f = (pending, s)
(ok a, s) >>> f = f a s
(err e, s) >>> f = (err e, s)
(panic, s) >>> f = (panic, s)
(spin, s) >>> f = (spin, s)

pub >>>_ok {ℓ κ μ ν} :
    {E : Type μ} {A : Type ℓ} {B : Type κ} {S : Type ν} (r : Outcome E A × S)
    (f : A → S → Outcome E B × S) (a : A)
    → r.0 ≡ ok a
    → (r >>> f) ≡ f a r.1
>>>_ok (o, s) f a e = ap (λ o'. (o', s) >>> f) e

-- To go on past a step that answers a value, in a goal about what follows it.
pub past {ℓ κ μ ν ξ} :
    {E : Type μ} {A : Type ℓ} {B : Type κ} {S : Type ν} (P : Outcome E B × S → Type ξ)
    (r : Outcome E A × S) (f : A → S → Outcome E B × S) (a : A)
    → r.0 ≡ ok a
    → P (f a r.1)
    → P (r >>> f)
past P r f a e t = subst P (sym (>>>_ok r f a e)) t

-- What a step's state keeps, and the next step keeps of it, is kept by both, whatever the outcome.
pub >>>_keeps {ℓ κ μ ν ξ} :
    {E : Type μ} {A : Type ℓ} {B : Type κ} {S : Type ν} (P : S → Type ξ) (r : Outcome E A × S)
    (f : A → S → Outcome E B × S)
    → P r.1
    → ((a : A) (s : S) → P s → P (f a s).1)
    → P (r >>> f).1
>>>_keeps P (pending, s) f t g = t
>>>_keeps P (ok a, s) f t g = g a s t
>>>_keeps P (err e, s) f t g = t
>>>_keeps P (panic, s) f t g = t
>>>_keeps P (spin, s) f t g = t

-- Where a step and the next one answer a value, the first one did.
pub >>>_was_ok {ℓ κ μ ν} :
    {E : Type μ} {A : Type ℓ} {B : Type κ} {S : Type ν} (r : Outcome E A × S)
    (f : A → S → Outcome E B × S) (b : B)
    → (r >>> f).0 ≡ ok b
    → (a : A) × (r.0 ≡ ok a)
>>>_was_ok (pending, s) f b h = absurd (cc)
>>>_was_ok (ok a, s) f b h = (a, refl)
>>>_was_ok (err e, s) f b h = absurd (cc)
>>>_was_ok (panic, s) f b h = absurd (cc)
>>>_was_ok (spin, s) f b h = absurd (cc)

-- The same with what the second step answers.
pub >>>_inv {ℓ κ μ ν} :
    {E : Type μ} {A : Type ℓ} {B : Type κ} {S : Type ν} (r : Outcome E A × S)
    (f : A → S → Outcome E B × S) (b : B)
    → (r >>> f).0 ≡ ok b
    → (a : A) × (r.0 ≡ ok a) × ((f a r.1).0 ≡ ok b) × ((r >>> f).1 ≡ (f a r.1).1)
>>>_inv (pending, s) f b h = absurd (cc)
>>>_inv (ok a, s) f b h = (a, refl, h, refl)
>>>_inv (err e, s) f b h = absurd (cc)
>>>_inv (panic, s) f b h = absurd (cc)
>>>_inv (spin, s) f b h = absurd (cc)
