-- ===== src/Exec.antt =====
-- Code that changes an object and may throw. What was written before the throw stays written, so
-- the object comes back beside an error too.
pub mod Keeps
pub mod Throws
use securekit.Prelude.{Bool, true, false, ◌≡◌, refl, ap, sym, arith}
use securekit.Errors.{Error, Result, ok, err}

abbrev pub Exec : Type 0 → Type 0 → Type 0
Exec S A = S → Result A × S

module _ {S A : Type 0} where
  abbrev pub pure : A → Exec S A
  pure value before = (ok value, before)

  abbrev pub raise : Error → Exec S A
  raise thrown before = (err thrown, before)

  abbrev pub lift : Result A → Exec S A
  lift outcome before = (outcome, before)

-- `if (b) throw e;`
abbrev pub raise_if : {S : Type 0} → Bool → Error → Exec S (Unit {0})
raise_if true e s = (err e, s)
raise_if false e s = (ok tt, s)

module _ {S A B : Type 0} where
  abbrev pub continue : (A → Exec S B) → Result A × S → Result B × S
  continue next (ok value, after) = next value after
  continue next (err thrown, after) = (err thrown, after)

  infixl 5 ◌>>=◌ ◌>>◌
  abbrev pub ◌>>=◌ : Exec S A → (A → Exec S B) → Exec S B
  ◌>>=◌ m next before = continue next (m before)

  abbrev pub ◌>>◌ : Exec S A → Exec S B → Exec S B
  m >> n = m >>= λ _. n

-- Inversion of the steps of a run that succeeds.
module _ {S A B : Type 0} where
  continue_inv :
      (next : A → Exec S B) (r : Result A × S) (b : B) (after : S)
      → continue next r ≡ (ok b, after)
      → (a : A) × (s : S) × (r ≡ (ok a, s)) × (next a s ≡ (ok b, after))
  continue_inv next (ok a, s) b after h = (a, s, refl, h)
  continue_inv next (err e, s) b after h = absurd (err≢ok (ap (λ (t : Result B × S). t.0) h))
    where
      err≢ok : err e ≡ ok b → ⊥
      err≢ok h = cc

  pub >>=-eq-ok :
      (m : Exec S A) (next : A → Exec S B) (before : S) {b : B} {after : S}
      → (m >>= next) before ≡ (ok b, after)
      → (a : A) × (s : S) × (m before ≡ (ok a, s)) × (next a s ≡ (ok b, after))
  >>=-eq-ok m next before {b} {after} h = continue_inv next (m before) b after h

module _ {S : Type 0} where
  pub raise_if-eq-ok :
      (b : Bool) (e : Error) (s s' : S) → raise_if b e s ≡ (ok tt, s') → (b ≡ false) × (s' ≡ s)
  raise_if-eq-ok true e s s' h = absurd (ground (arith, h))
  raise_if-eq-ok false e s s' h = (refl, sym (ap (λ (t : Result (Unit {0}) × S). t.1) h))
