-- ===== src/Errors.antt =====
-- include/securekit/error.hpp, src/error.cpp: what a call of the library returns or throws.
use securekit.Prelude.{String, ◌≡◌, refl, Bool, true, false, ◌⊎◌, inl, inr}

pub data ErrorCode : Type 0 where
  invalid_input invalid_encoding invalid_packet authentication_failed backend_failure : ErrorCode

-- `securekit::error`: the code and the message.
pub data Error : Type 0 where
  error : ErrorCode → String → Error

abbrev pub code : Error → ErrorCode
code (error c message) = c

-- A call that returns a value, or throws.
pub data Result {ℓ} (A : Type ℓ) : Type ℓ where
  ok : A → Result A
  err : Error → Result A

module _ {ℓ κ} {A : Type ℓ} {B : Type κ} where
  infixl 5 ◌>>=◌
  abbrev pub ◌>>=◌ : Result A → (A → Result B) → Result B
  err thrown >>= next = err thrown
  ok value >>= next = next value

  pub >>=-eq-ok :
      (m : Result A) (next : A → Result B) {b : B}
      → (m >>= next) ≡ ok b
      → (a : A) × (m ≡ ok a) × (next a ≡ ok b)
  >>=-eq-ok (ok value) next h = (value, refl, h)
  >>=-eq-ok (err thrown) next h = absurd (err≢ok h)
    where
      err≢ok : {b : B} → err thrown ≡ ok b → ⊥
      err≢ok h = cc

infixl 5 ◌>>◌
abbrev pub ◌>>◌ {ℓ} : {B : Type ℓ} → Result (Unit {0}) → Result B → Result B
first >> second = first >>= λ done. second

-- `if (b) throw e;`
abbrev pub throw_if : Bool → Error → Result (Unit {0})
throw_if true e = err e
throw_if false e = ok tt

pub Result-cases {ℓ} :
    {A : Type ℓ} (r : Result A) → ((a : A) × (r ≡ ok a)) ⊎ ((e : Error) × (r ≡ err e))
Result-cases (ok a) = inl (a, refl)
Result-cases (err e) = inr (e, refl)

pub ok≢err {ℓ} : {A : Type ℓ} {a : A} {e : Error} → ok a ≡ err e → ⊥
ok≢err h = cc
