-- ===== src/Cli/Once.antt =====
-- Loops over options: what is set once, and to what, when the loop succeeds.
use securekit.Prelude.{
  ℕ, ◌+◌, ◌≡◌, refl, sym, ap, ◌∙◌, ◌⊎◌, inl, inr, Bool, true, false, List, [], ◌∷◌, arith,
  if◌then◌else◌, Bool-cases, true≢false,
}
use mathlib.Core.Path.{subst}
use securekit.Cli.{Outcome, Thrown, returned, thrown, ◌>>=◌, ◌>>◌}
use securekit.Cli.Options.{fold_pairs, throw_if}

-- How many of the options in pairs are of a group, and which value goes with which option.
abbrev pub count : (List ℕ → Bool) → List (List ℕ) → ℕ
count group [] = 0
count group (option ∷ []) = 0
count group (option ∷ value ∷ rest) = (if group option then 1 else 0) + count group rest

abbrev pub Given : List ℕ → List ℕ → List (List ℕ) → Type 0
Given o v [] = ⊥
Given o v (option ∷ []) = ⊥
Given o v (option ∷ value ∷ rest) = ((option ≡ o) × (value ≡ v)) ⊎ Given o v rest

-- Some pair of the group is given, and its value holds.
abbrev pub IsGiven : (List ℕ → Bool) → List (List ℕ) → (List ℕ → List ℕ → Type 0) → Type 0
IsGiven group ps Holds = (o v : List ℕ) × Given o v ps × (group o ≡ true) × Holds o v

abbrev pub bit : Bool → ℕ
bit b = if b then 1 else 0

pub thrown≢returned {ℓ} : {A : Type ℓ} {e : Thrown} {a : A} → thrown e ≡ returned a → ⊥
thrown≢returned h = cc

pub returned_inj {ℓ} : {A : Type ℓ} {a b : A} → returned a ≡ returned b → a ≡ b
returned_inj h = cc

pub >>=-eq-returned {ℓ κ} :
    {A : Type ℓ} {B : Type κ} (m : Outcome A) (next : A → Outcome B) {b : B}
    → (m >>= next) ≡ returned b
    → (a : A) × (m ≡ returned a) × (next a ≡ returned b)
>>=-eq-returned (returned a) next h = (a, refl, h)
>>=-eq-returned (thrown e) next h = absurd (thrown≢returned h)

module _ {A : Type 0} (step : List ℕ → List ℕ → A → Outcome A) (group : List ℕ → Bool)
    (has : A → Bool) (Holds : List ℕ → List ℕ → A → Type 0) where
  -- A step of the group sets what was not set, and any other step leaves it.
  pub record SetsOnce : Type 0 where
    pub sets :
        (o v : List ℕ) (a a' : A)
        → step o v a ≡ returned a'
        → group o ≡ true
        → (has a ≡ false) × (has a' ≡ true) × Holds o v a'
    pub keeps :
        (o v : List ℕ) (a a' : A)
        → step o v a ≡ returned a'
        → group o ≡ false
        → (has a' ≡ has a) × ((o' v' : List ℕ) → Holds o' v' a → Holds o' v' a')

  module _ (law : SetsOnce) where
    pub fold_pairs-count :
        (ps : List (List ℕ)) (a a' : A)
        → fold_pairs step ps a ≡ returned a'
        → count group ps + bit (has a) ≡ bit (has a')
    fold_pairs-count [] a a' e = omega (arith, ap (λ x. bit (has x)) (returned_inj e))
    fold_pairs-count (o ∷ []) a a' e = omega (arith, ap (λ x. bit (has x)) (returned_inj e))
    fold_pairs-count (o ∷ v ∷ ps) a a' e =
        let (b, first, rest) = >>=-eq-returned (step o v a) (fold_pairs step ps) e in
        let later = fold_pairs-count ps b a' rest in
        elim (Bool-cases (group o)) [
          | inl mine ↦
              let (before, after, holds) = law.sets o v a b first mine in
              ground (arith, later, mine, before, after)
          | inr other ↦
              let (same, holds) = law.keeps o v a b first other in
              ground (arith, later, other, same)
        ]

    fold_pairs-keeps :
        (ps : List (List ℕ)) (a a' : A) (o v : List ℕ)
        → fold_pairs step ps a ≡ returned a'
        → has a ≡ true
        → Holds o v a
        → Holds o v a'
    fold_pairs-keeps [] a a' o v e set holds = subst (Holds o v) (returned_inj e) holds
    fold_pairs-keeps (o' ∷ []) a a' o v e set holds = subst (Holds o v) (returned_inj e) holds
    fold_pairs-keeps (o' ∷ v' ∷ ps) a a' o v e set holds =
        let (b, first, rest) = >>=-eq-returned (step o' v' a) (fold_pairs step ps) e in
        elim (Bool-cases (group o')) [
          | inl mine ↦ absurd (true≢false (sym set ∙ (law.sets o' v' a b first mine).0))
          | inr other ↦
              let (same, kept) = law.keeps o' v' a b first other in
              fold_pairs-keeps ps b a' o v rest (same ∙ set) (kept o v holds)
        ]

    -- What is set at the end and was not set at the start is what some pair says.
    pub fold_pairs-Given :
        (ps : List (List ℕ)) (a a' : A)
        → fold_pairs step ps a ≡ returned a'
        → has a ≡ false
        → has a' ≡ true
        → (o v : List ℕ) × Given o v ps × (group o ≡ true) × Holds o v a'
    fold_pairs-Given [] a a' e unset set =
        absurd (true≢false (sym set ∙ ap has (sym (returned_inj e)) ∙ unset))
    fold_pairs-Given (o ∷ []) a a' e unset set =
        absurd (true≢false (sym set ∙ ap has (sym (returned_inj e)) ∙ unset))
    fold_pairs-Given (o ∷ v ∷ ps) a a' e unset set =
        let (b, first, rest) = >>=-eq-returned (step o v a) (fold_pairs step ps) e in
        elim (Bool-cases (group o)) [
          | inl mine ↦
              let (before, after, holds) = law.sets o v a b first mine in
              (o, v, inl (refl, refl), mine, fold_pairs-keeps ps b a' o v rest after holds)
          | inr other ↦
              let (same, kept) = law.keeps o v a b first other in
              let (o', v', given, mine, holds) = fold_pairs-Given ps b a' rest (same ∙ unset) set in
              (o', v', inr given, mine, holds)
        ]

last_inv :
    {A : Type 0} (failed : Bool) (message : List ℕ) (b a : A)
    → (throw_if failed message >> returned b) ≡ returned a
    → (failed ≡ false) × (b ≡ a)
last_inv true message b a e = absurd (thrown≢returned e)
last_inv false message b a e = (refl, returned_inj e)

-- A test, a loop, and a test of what the loop returns.
pub checked_inv :
    {A : Type 0} (failed : Bool) (message : List ℕ) (m : Outcome A) (missing : A → Bool) (a : A)
    → (throw_if failed message >> (m >>= λ b. throw_if (missing b) message >> returned b))
      ≡ returned a
    → (failed ≡ false) × (m ≡ returned a) × (missing a ≡ false)
checked_inv true message m missing a e = absurd (thrown≢returned e)
checked_inv false message (thrown t) missing a e = absurd (thrown≢returned e)
checked_inv false message (returned b) missing a e =
    let (fine, same) = last_inv (missing b) message b a e in
    (refl, ap returned same, ap missing (sym same) ∙ fine)

-- Every option of the pairs passes a test.
abbrev pub Each : (List ℕ → Bool) → List (List ℕ) → Type 0
Each test [] = Unit {0}
Each test (option ∷ []) = Unit {0}
Each test (option ∷ value ∷ rest) = (test option ≡ true) × Each test rest

pub fold_pairs-Each :
    {A : Type 0} (step : List ℕ → List ℕ → A → Outcome A) (test : List ℕ → Bool)
    → ((o v : List ℕ) (a a' : A) → step o v a ≡ returned a' → test o ≡ true)
    → (ps : List (List ℕ)) (a a' : A) → fold_pairs step ps a ≡ returned a'
    → Each test ps
fold_pairs-Each step test known [] a a' e = tt
fold_pairs-Each step test known (o ∷ []) a a' e = tt
fold_pairs-Each step test known (o ∷ v ∷ ps) a a' e =
    let (b, first, rest) = >>=-eq-returned (step o v a) (fold_pairs step ps) e in
    (known o v a b first, fold_pairs-Each step test known ps b a' rest)
