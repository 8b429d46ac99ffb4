-- ===== src/Exec/Keeps.antt =====
-- Runs that keep a relation between the state before and the state after, whether they return or
-- throw.
use securekit.Prelude.{Bool, true, false, ◌≡◌, refl}
use securekit.Errors.{Error, Result, ok, err}
use securekit.Exec.{Exec, raise_if, continue, ◌>>=◌}

module _ {S : Type 0} (R : S → S → Type 0) where
  abbrev pub Keeps : {A : Type 0} → Exec S A → Type 0
  Keeps m = (s : S) → R s (m s).1

module _ {S : Type 0} (R : S → S → Type 0) (R-refl : (s : S) → R s s)
    (R-trans : (s t u : S) → R s t → R t u → R s u) where
  continue-Keeps :
      {A B : Type 0} (next : A → Exec S B) (s : S) (r : Result A × S)
      → ((a : A) → Keeps R (next a))
      → R s r.1
      → R s (continue next r).1
  continue-Keeps next s (ok a, t) keep h = R-trans s t (next a t).1 h (keep a t)
  continue-Keeps next s (err e, t) keep h = h

  pub >>=-Keeps :
      {A B : Type 0} (m : Exec S A) (next : A → Exec S B)
      → Keeps R m
      → ((a : A) → Keeps R (next a))
      → Keeps R (m >>= next)
  >>=-Keeps m next first rest s = continue-Keeps next s (m s) rest (first s)

  pub raise_if-Keeps : (b : Bool) (e : Error) → Keeps R (raise_if b e)
  raise_if-Keeps true e s = R-refl s
  raise_if-Keeps false e s = R-refl s

-- What holds of a run in two steps, by what the first step does.
pub continue-by :
    {S A B : Type 0} (P : Result B × S → Type 0) (next : A → Exec S B) (r : Result A × S)
    → ((a : A) (s : S) → r ≡ (ok a, s) → P (next a s))
    → ((e : Error) (s : S) → r ≡ (err e, s) → P (err e, s))
    → P (continue next r)
continue-by P next (ok a, s) then_ok then_err = then_ok a s refl
continue-by P next (err e, s) then_ok then_err = then_err e s refl
