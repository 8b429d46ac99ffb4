-- ===== src/Cli/Trim.antt =====
-- Trimming: what is cut off is white space, and nothing at the ends of the rest is.
use securekit.Prelude.{
  ℕ, zero, suc, ◌+◌, ◌≤◌, ◌<◌, ◌≡◌, refl, sym, ap, ◌∙◌, ◌⊎◌, inl, inr, true, false, List, [], ◌∷◌,
  ◌++◌, append_assoc, append-nil, length, length-append, take, get_or, All, Bool-cases, arith,
  take_all, length-take, take-append,
}
use securekit.Cli.Values.{is_space, skip_spaces, last_of, trim_ascii_whitespace}

abbrev pub IsSpace : ℕ → Type 0
IsSpace c = is_space c ≡ true

-- Nothing, or a text whose first and last characters are no spaces.
abbrev pub IsTrimmed : List ℕ → Type 0
IsTrimmed text =
    (text ≡ [])
    ⊎ ((last : ℕ) × (length text ≡ suc last)
        × (is_space (get_or text 0 0) ≡ false)
        × (is_space (get_or text last 0) ≡ false))

skip_spaces_split :
    (text : List ℕ)
    → (front : List ℕ) × (text ≡ front ++ skip_spaces text)
      × All IsSpace front
      × ((skip_spaces text ≡ [])
          ⊎ ((is_space (get_or (skip_spaces text) 0 0) ≡ false) × (0 < length (skip_spaces text))))
unfolding skip_spaces
skip_spaces_split [] = ([], refl, tt, inl refl)
skip_spaces_split (c ∷ text) = elim (Bool-cases (is_space c)) [
  | inl space ↦
      let (front, e, spaces, rest) = skip_spaces_split text in
      rw space (c ∷ front, ap (λ t. c ∷ t) e, (space, spaces), rest)
  | inr solid ↦ rw solid ([], refl, tt, inr (solid, omega arith))
]

take-suc : (t : List ℕ) (n : ℕ) → n < length t → take (suc n) t ≡ take n t ++ (get_or t n 0 ∷ [])
take-suc [] n h = absurd (omega arith)
take-suc (c ∷ t) zero h = refl
take-suc (c ∷ t) (suc n) h = ap (λ r. c ∷ r) (take-suc t n (omega arith))

All-append-IsSpace : (x y : List ℕ) → All IsSpace x → All IsSpace y → All IsSpace (x ++ y)
All-append-IsSpace [] y h k = k
All-append-IsSpace (c ∷ x) y h k = (h.0, All-append-IsSpace x y h.1 k)

last_of_split :
    (t : List ℕ) (n : ℕ)
    → n ≤ length t
    → (back : List ℕ) × (take n t ≡ take (last_of t n) t ++ back)
      × All IsSpace back
      × (last_of t n ≤ n)
      × ((last_of t n ≡ 0)
          ⊎ ((last : ℕ) × (last_of t n ≡ suc last) × (is_space (get_or t last 0) ≡ false)))
unfolding last_of
last_of_split t zero h = ([], refl, tt, omega arith, inl refl)
last_of_split t (suc n) h = elim (Bool-cases (is_space (get_or t n 0))) [
  | inl space ↦
      let (back, e, spaces, bound, rest) = last_of_split t n (omega arith) in
      rw space (
        back ++ (get_or t n 0 ∷ []),
        take-suc t n (omega arith)
            ∙ ap (λ r. r ++ (get_or t n 0 ∷ [])) e
            ∙ append_assoc (take (last_of t n) t) back (get_or t n 0 ∷ []),
        All-append-IsSpace back (get_or t n 0 ∷ []) spaces (space, tt),
        omega (arith, bound),
        rest,
      )
  | inr solid ↦
      rw solid ([], sym (append-nil (take (suc n) t)), tt, omega arith, inr (n, refl, solid))
]

get_or-take : (t : List ℕ) (n i : ℕ) → i < n → n ≤ length t → get_or (take n t) i 0 ≡ get_or t i 0
get_or-take [] n i h k = absurd (omega arith)
get_or-take (c ∷ t) zero i h k = absurd (omega arith)
get_or-take (c ∷ t) (suc n) zero h k = refl
get_or-take (c ∷ t) (suc n) (suc i) h k = get_or-take t n i (omega arith) (omega arith)

take-IsTrimmed :
    (t : List ℕ) (n : ℕ)
    → n ≤ length t
    → (t ≡ []) ⊎ ((is_space (get_or t 0 0) ≡ false) × (0 < length t))
    → (n ≡ 0) ⊎ ((last : ℕ) × (n ≡ suc last) × (is_space (get_or t last 0) ≡ false))
    → IsTrimmed (take n t)
take-IsTrimmed t n h start (inl none_left) = inl (rw none_left refl)
take-IsTrimmed t n h (inl empty) (inr (last, e, solid)) =
    absurd (omega (arith, h, e, ap (λ (x : List ℕ). length x) empty))
take-IsTrimmed t n h (inr (first, some_left)) (inr (last, e, solid)) = inr (
  last,
  omega (arith, length-take n t, h, e),
  ap is_space (get_or-take t n 0 (omega (arith, e)) h) ∙ first,
  ap is_space (get_or-take t n last (omega (arith, e)) h) ∙ solid,
)

-- `trim_ascii_whitespace` cuts white space off both ends of a text and nothing else, and the rest
-- is empty or starts and ends with no white space.
pub trim_ascii_whitespace_lem :
    (text : List ℕ)
    → (front back : List ℕ) × (text ≡ front ++ (trim_ascii_whitespace text ++ back))
      × All IsSpace front
      × All IsSpace back
      × IsTrimmed (trim_ascii_whitespace text)
unfolding trim_ascii_whitespace
trim_ascii_whitespace_lem text =
    let kept = skip_spaces text in
    let (front, e, spaces, start) = skip_spaces_split text in
    let (back, e', spaces', bound, finish) = last_of_split kept (length kept) (omega arith) in
    (
      front,
      back,
      e ∙ ap (λ t. front ++ t) (sym (take_all (length kept) kept (omega arith)) ∙ e'),
      spaces,
      spaces',
      take-IsTrimmed kept (last_of kept (length kept)) bound start finish,
    )

-- Behind a text without spaces.
get_or-append : (x s : List ℕ) (i : ℕ) → get_or (x ++ s) (length x + i) 0 ≡ get_or s i 0
get_or-append [] s i = let e : 0 + i ≡ i = omega arith in ap (λ n. get_or s n 0) e
get_or-append (c ∷ x) s i =
    let e : suc (length x) + i ≡ suc (length x + i) = omega arith in
    ap (λ n. get_or (c ∷ (x ++ s)) n 0) e ∙ get_or-append x s i

All-get_or : (s : List ℕ) (i : ℕ) → i < length s → All IsSpace s → is_space (get_or s i 0) ≡ true
All-get_or [] i h k = absurd (omega arith)
All-get_or (c ∷ s) zero h k = k.0
All-get_or (c ∷ s) (suc i) h k = All-get_or s i (omega arith) k.1

last_of-append :
    (x s : List ℕ) (k : ℕ)
    → k ≤ length s
    → All IsSpace s
    → last_of (x ++ s) (length x + k) ≡ last_of (x ++ s) (length x)
unfolding last_of
last_of-append x s zero h spaces =
    let e : length x + 0 ≡ length x = omega arith in ap (last_of (x ++ s)) e
last_of-append x s (suc k) h spaces =
    let e : length x + suc k ≡ suc (length x + k) = omega arith in
    ap (last_of (x ++ s)) e
    ∙ rw (get_or-append x s k, All-get_or s k (omega arith) spaces)
        (last_of-append x s k (omega arith) spaces)

abbrev pub IsSolid : ℕ → Type 0
IsSolid c = is_space c ≡ false

solid_at :
    (x s : List ℕ) (i : ℕ) → i < length x → All IsSolid x → is_space (get_or (x ++ s) i 0) ≡ false
solid_at [] s i h k = absurd (omega arith)
solid_at (c ∷ x) s zero h k = k.0
solid_at (c ∷ x) s (suc i) h k = solid_at x s i (omega arith) k.1

last_solid : (x s : List ℕ) → All IsSolid x → last_of (x ++ s) (length x) ≡ length x
unfolding last_of
last_solid [] s h = refl
last_solid (c ∷ x) s h = rw (solid_at (c ∷ x) s (length x) (omega arith) h) refl

skip_spaces-blank : (s : List ℕ) → All IsSpace s → skip_spaces s ≡ []
unfolding skip_spaces
skip_spaces-blank [] h = refl
skip_spaces-blank (c ∷ s) h = rw h.0 (skip_spaces-blank s h.1)

skip_spaces-solid : (c : ℕ) (t : List ℕ) → IsSolid c → skip_spaces (c ∷ t) ≡ c ∷ t
unfolding skip_spaces
skip_spaces-solid c t h = rw h refl

pub trim_ascii_whitespace-append :
    (x s : List ℕ) → All IsSolid x → All IsSpace s → trim_ascii_whitespace (x ++ s) ≡ x
unfolding trim_ascii_whitespace last_of
trim_ascii_whitespace-append [] s h spaces = rw (skip_spaces-blank s spaces) refl
trim_ascii_whitespace-append (c ∷ x) s h spaces =
    let whole = (c ∷ x) ++ s in
    let at : last_of whole (length whole) ≡ length (c ∷ x) =
      ap (last_of whole) (length-append (c ∷ x) s)
      ∙ last_of-append (c ∷ x) s (length s) (omega arith) spaces
      ∙ last_solid (c ∷ x) s h in
    rw (skip_spaces-solid c (x ++ s) h.0)
      (ap (λ n. take n whole) at ∙ take-append (length (c ∷ x)) (c ∷ x) s refl)
