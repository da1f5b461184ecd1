-- ===== src/Base/Outcome.antt =====
-- The outcome of a piece of C code: a value, or undefined behaviour with its reason.
use mathlib.Core.Path.{◌≡◌, refl, ap, ◌∙◌}
use mathlib.Core.Logic.{◌⊎◌, inl, inr}

pub data Fault : Type 0 where
  -- `*p` where p is NULL
  null_deref : Fault
  -- `*p` where p is no address of a live object
  bad_pointer : Fault
  -- a write past the end of a buffer
  buffer_overflow : Fault
  -- a read from the kernel is not answered
  blocked : Fault
  -- a loop took more rounds than it was given
  out_of_fuel : Fault
  -- a conversion to a type that does not hold the value
  out_of_range : Fault

pub data Run {ℓ} (A : Type ℓ) : Type ℓ where
  -- what stands behind it in the code is not reached
  fault : Fault → Run A
  ok : A → Run A

infixl 5 ◌>>=◌
abbrev pub ◌>>=◌ {ℓ κ} : {A : Type ℓ} {B : Type κ} → Run A → (A → Run B) → Run B
fault reason >>= next = fault reason
ok value >>= next = next value

-- A run that succeeds has a first part that does.
pub >>=-eq-ok {ℓ κ} :
    {A : Type ℓ} {B : Type κ} (m : Run A) (next : A → Run B) {final : B}
    → (m >>= next) ≡ ok final
    → (value : A) × (m ≡ ok value) × (next value ≡ ok final)
>>=-eq-ok (fault reason) next run = cc
>>=-eq-ok (ok value) next run = (value, refl, run)

pub Run-cases {ℓ} :
    {A : Type ℓ} (m : Run A) → ((e : Fault) × (m ≡ fault e)) ⊎ ((a : A) × (m ≡ ok a))
Run-cases (ok a) = inr (a, refl)
Run-cases (fault e) = inl (e, refl)

-- A first part with a known value goes on with that value.
pub >>=-ok {ℓ κ} :
    {A : Type ℓ} {B : Type κ} {m : Run A} {value : A} {final : Run B} (next : A → Run B)
    → m ≡ ok value
    → next value ≡ final
    → (m >>= next) ≡ final
>>=-ok next eq run = ap (λ m. m >>= next) eq ∙ run
