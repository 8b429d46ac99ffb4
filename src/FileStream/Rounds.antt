-- ===== src/FileStream/Rounds.antt =====
-- Runs of a loop over rounds, apart from any fuel, and what the rounds of the payload loops throw.
use securekit.Prelude.{
  ℕ, zero, suc, ◌+◌, ◌<◌, ◌≡◌, ◌≢◌, refl, ap, ◌∙◌, Bool, true, false, arith, if◌then◌else◌,
}
use mathlib.Core.Path.{subst}
use securekit.Errors.{Error, Result, ok, err, ok≢err}
use securekit.Exec.{Exec, continue, pure}
use securekit.Exec.Keeps.{continue-by}
use securekit.Exec.Throws.{Only}
use securekit.FileStream.{out_of_fuel}
use securekit.FileStream.Throws.{Proper, ThrowsProper}

-- The loop from round `i` on the state `s`: it throws what a round throws, it ends with the round
-- that says so, and otherwise it goes on with the next round.
pub data Rounds {S : Type 0} (round : ℕ → Exec S Bool)
    : ℕ → S → Result (Unit {0}) × S → Type 0 where
  throws : {i : ℕ} {s t : S} {e : Error} → round i s ≡ (err e, t) → Rounds round i s (err e, t)
  ends : {i : ℕ} {s t : S} → round i s ≡ (ok true, t) → Rounds round i s (ok tt, t)
  goes_on :
      {i : ℕ} {s t : S} {r : Result (Unit {0}) × S}
      → round i s ≡ (ok false, t)
      → Rounds round (i + 1) t r
      → Rounds round i s r

-- The result is that of finitely many rounds, and is not a lack of fuel.
abbrev pub Ends : {S : Type 0} → (ℕ → Exec S Bool) → ℕ → S → Result (Unit {0}) × S → Type 0
Ends round i s r = Rounds round i s r × (r.0 ≢ err out_of_fuel)

pub Only-Proper : (r : Result (Unit {0})) → Only Proper r → r ≢ err out_of_fuel
Only-Proper (ok done) h e = ok≢err e
Only-Proper (err x) h e = h (err_inj e)
  where
    err_inj : ◌≡◌ {A = Result (Unit {0})} (err x) (err out_of_fuel) → x ≡ out_of_fuel
    err_inj k = cc

pub Proper-Only : (r : Result (Unit {0})) → r ≢ err out_of_fuel → Only Proper r
Proper-Only (ok done) h = tt
Proper-Only (err x) h = λ e. h (ap (λ y. err y) e)

module _ {S : Type 0} (round : ℕ → Exec S Bool) where
  Rounds-Proper :
      ((i : ℕ) → ThrowsProper (round i))
      → {i : ℕ} {s : S} {r : Result (Unit {0}) × S} → Rounds round i s r
      → Only Proper r.0
  Rounds-Proper proper {i} {s} (throws e) =
      subst (λ (x : Result Bool × S). Only Proper x.0) e (proper i s)
  Rounds-Proper proper (ends e) = tt
  Rounds-Proper proper (goes_on e later) = Rounds-Proper proper later

  branch-Rounds :
      (i : ℕ) (s : S) (last : Bool) (t : S) (next : Exec S (Unit {0}))
      → round i s ≡ (ok last, t)
      → (last ≡ false → Rounds round (i + 1) t (next t))
      → Rounds round i s ((if last then pure tt else next) t)
  branch-Rounds i s true t next e later = ends e
  branch-Rounds i s false t next e later = goes_on e (later refl)

  -- A loop on fuel whose rounds go on on less and less.
  module _ (loop : ℕ → ℕ → Exec S (Unit {0})) (measure : S → ℕ)
      (step : (m i : ℕ) (s : S)
        → loop (suc m) i s
          ≡ continue (λ last. if last then pure tt else loop m (i + 1)) (round i s))
      (less : (i : ℕ) (s t : S) → round i s ≡ (ok false, t) → measure t < measure s) where
    loop-Rounds : (m i : ℕ) (s : S) → measure s < m → Rounds round i s (loop m i s)
    loop-Rounds zero i s h = absurd (omega (arith, h))
    loop-Rounds (suc m) i s h = rw (step m i s) (
        continue-by (Rounds round i s) (λ last. if last then pure tt else loop m (i + 1))
          (round i s)
          (λ last t e. branch-Rounds i s last t (loop m (i + 1)) e (λ more.
            loop-Rounds m (i + 1) t (omega (arith, h, less i s t (e ∙ ap (λ b. (ok b, t)) more)))))
          (λ e t thrown. throws thrown))

    pub loop-Ends :
        ((i : ℕ) → ThrowsProper (round i))
        → (m i : ℕ) (s : S) → measure s < m
        → Ends round i s (loop m i s)
    loop-Ends proper m i s h =
        let run = loop-Rounds m i s h in
        (run, Only-Proper (loop m i s).0 (Rounds-Proper proper run))
