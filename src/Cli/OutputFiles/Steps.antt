-- ===== src/Cli/OutputFiles/Steps.antt =====
-- Runs of steps that have returned.
use securekit.Prelude.{◌≡◌, refl, ap, Bool, true, false, String}
use securekit.Cli.{Outcome, returned, thrown, Thrown}
use securekit.Cli.Runs.{Run, ◌>>=◌, followed, unless}

pub returned_inj : {A : Type 0} {a b : A} → returned a ≡ returned b → a ≡ b
returned_inj h = cc

pub returned≢thrown : {A : Type 0} {a : A} {e : Thrown} → thrown e ≡ returned a → ⊥
returned≢thrown h = cc

followed_inv :
    {S A B : Type 0} (next : A → Run S B) (r : Outcome A × S) (b : B) (t : S)
    → followed next r ≡ (returned b, t)
    → (a : A) × (s : S) × (r ≡ (returned a, s)) × (next a s ≡ (returned b, t))
followed_inv next (returned a, s) b t e = (a, s, refl, e)
followed_inv {S = S} {B = B} next (thrown x, s) b t e =
    absurd (returned≢thrown (ap (λ (r : Outcome B × S). r.0) e))

-- If a sequence returns, each of its steps has.
pub >>=-eq-returned :
    {S A B : Type 0} (first : Run S A) (next : A → Run S B) (s : S) (b : B) (t : S)
    → (first >>= next) s ≡ (returned b, t)
    → (a : A) × (s' : S) × (first s ≡ (returned a, s')) × (next a s' ≡ (returned b, t))
>>=-eq-returned first next s b t e = followed_inv next (first s) b t e

pub unless_inv :
    {S : Type 0} (good : Bool) (message : String) (s t : S)
    → unless good message s ≡ (returned tt, t)
    → (good ≡ true) × (s ≡ t)
unless_inv {S = S} true message s t e = (refl, ap (λ (r : Outcome (Unit {0}) × S). r.1) e)
unless_inv {S = S} false message s t e =
    absurd (returned≢thrown (ap (λ (r : Outcome (Unit {0}) × S). r.0) e))
