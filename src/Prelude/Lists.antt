-- ===== src/Prelude/Lists.antt =====
-- Lists measured, cut and indexed by native numbers, under the library's names.
use Prim.Native.Nat.{ℕ, zero, suc, ◌+◌, ◌-◌, ◌≤◌, min}
use mathlib.Core.Path.{◌≡◌, refl, ap, ◌∙◌}
use mathlib.Core.List.{List, [], ◌∷◌, ◌++◌, map}
use native.Mathlib.Omega.{arith}

module _ {ℓ} {A : Type ℓ} where
  abbrev pub length : List A → ℕ
  length [] = 0
  length (x ∷ xs) = suc (length xs)

  abbrev pub get_or : List A → ℕ → A → A
  get_or [] i d = d
  get_or (x ∷ xs) zero d = x
  get_or (x ∷ xs) (suc i) d = get_or xs i d

  abbrev pub take : ℕ → List A → List A
  take zero xs = []
  take (suc n) [] = []
  take (suc n) (x ∷ xs) = x ∷ take n xs

  abbrev pub drop : ℕ → List A → List A
  drop zero xs = xs
  drop (suc n) [] = []
  drop (suc n) (x ∷ xs) = drop n xs

  abbrev pub replicate : ℕ → A → List A
  replicate zero a = []
  replicate (suc n) a = a ∷ replicate n a

  abbrev pub All {κ} : (A → Type κ) → List A → Type κ
  All P [] = Unit {κ}
  All P (x ∷ xs) = P x × All P xs

  -- `std::copy(source.begin(), source.end(), target.begin() + i)`; nothing is written past the end.
  abbrev pub copy_at : ℕ → List A → List A → List A
  copy_at i source [] = []
  copy_at zero [] (y ∷ target) = y ∷ target
  copy_at zero (x ∷ source) (y ∷ target) = x ∷ copy_at zero source target
  copy_at (suc i) source (y ∷ target) = y ∷ copy_at i source target

  pub length-append : (xs ys : List A) → length (xs ++ ys) ≡ length xs + length ys
  length-append [] ys = omega arith
  length-append (x ∷ xs) ys = omega (arith, length-append xs ys)

module _ {ℓ} {A : Type ℓ} where
  pub length-replicate : (n : ℕ) (a : A) → length (replicate n a) ≡ n
  length-replicate zero a = refl
  length-replicate (suc n) a = ap suc (length-replicate n a)

  pub take-append-drop : (n : ℕ) (xs : List A) → take n xs ++ drop n xs ≡ xs
  take-append-drop zero xs = refl
  take-append-drop (suc n) [] = refl
  take-append-drop (suc n) (x ∷ xs) = ap (λ t. x ∷ t) (take-append-drop n xs)

  pub length-take : (n : ℕ) (xs : List A) → length (take n xs) ≡ min n (length xs)
  length-take zero xs = omega arith
  length-take (suc n) [] = omega arith
  length-take (suc n) (x ∷ xs) = omega (arith, length-take n xs)

  pub length-drop : (n : ℕ) (xs : List A) → length (drop n xs) ≡ length xs - n
  length-drop zero xs = omega arith
  length-drop (suc n) [] = omega arith
  length-drop (suc n) (x ∷ xs) = omega (arith, length-drop n xs)

  pub drop-drop : (k n : ℕ) (xs : List A) → drop (n + k) xs ≡ drop k (drop n xs)
  drop-drop k zero xs = let e : zero + k ≡ k = omega arith in ap (λ t. drop t xs) e
  drop-drop zero (suc n) [] = let e : suc n + zero ≡ suc n = omega arith in ap (λ t. drop t []) e
  drop-drop (suc k) (suc n) [] =
      let e : suc n + suc k ≡ suc (n + suc k) = omega arith in ap (λ t. drop t []) e
  drop-drop k (suc n) (x ∷ xs) =
      let e : suc n + k ≡ suc (n + k) = omega arith in
      ap (λ t. drop t (x ∷ xs)) e ∙ drop-drop k n xs

  -- Cutting a concatenation at the join.
  pub take-append : (n : ℕ) (xs ys : List A) → length xs ≡ n → take n (xs ++ ys) ≡ xs
  take-append zero [] ys h = refl
  take-append zero (x ∷ xs) ys h = absurd (omega arith)
  take-append (suc n) [] ys h = absurd (omega arith)
  take-append (suc n) (x ∷ xs) ys h = ap (λ t. x ∷ t) (take-append n xs ys (omega arith))

  pub drop-append : (n : ℕ) (xs ys : List A) → length xs ≡ n → drop n (xs ++ ys) ≡ ys
  drop-append zero [] ys h = refl
  drop-append zero (x ∷ xs) ys h = absurd (omega arith)
  drop-append (suc n) [] ys h = absurd (omega arith)
  drop-append (suc n) (x ∷ xs) ys h = drop-append n xs ys (omega arith)

  pub take_all : (n : ℕ) (xs : List A) → length xs ≤ n → take n xs ≡ xs
  take_all zero [] h = refl
  take_all zero (x ∷ xs) h = absurd (omega arith)
  take_all (suc n) [] h = refl
  take_all (suc n) (x ∷ xs) h = ap (λ t. x ∷ t) (take_all n xs (omega arith))

  pub drop_all : (n : ℕ) (xs : List A) → length xs ≤ n → drop n xs ≡ []
  drop_all zero [] h = refl
  drop_all zero (x ∷ xs) h = absurd (omega arith)
  drop_all (suc n) [] h = refl
  drop_all (suc n) (x ∷ xs) h = drop_all n xs (omega arith)

  pub copy_at-append :
      (source target rest : List A)
      → length source ≡ length target
      → copy_at 0 source (target ++ rest) ≡ source ++ rest
  copy_at-append [] [] [] h = refl
  copy_at-append [] [] (y ∷ rest) h = refl
  copy_at-append [] (y ∷ target) rest h = absurd (omega arith)
  copy_at-append (x ∷ source) [] rest h = absurd (omega arith)
  copy_at-append (x ∷ source) (y ∷ target) rest h =
      ap (λ t. x ∷ t) (copy_at-append source target rest (omega arith))

  pub copy_at_all :
      (source target : List A) → length source ≡ length target → copy_at 0 source target ≡ source
  copy_at_all [] [] h = refl
  copy_at_all [] (y ∷ target) h = absurd (omega arith)
  copy_at_all (x ∷ source) [] h = absurd (omega arith)
  copy_at_all (x ∷ source) (y ∷ target) h =
      ap (λ t. x ∷ t) (copy_at_all source target (omega arith))

  pub copy_at_skip :
      (n : ℕ) (source front target : List A)
      → length front ≡ n
      → copy_at n source (front ++ target) ≡ front ++ copy_at 0 source target
  copy_at_skip zero source [] target h = refl
  copy_at_skip zero source (x ∷ front) target h = absurd (omega arith)
  copy_at_skip (suc n) source [] target h = absurd (omega arith)
  copy_at_skip (suc n) source (x ∷ front) target h =
      ap (λ t. x ∷ t) (copy_at_skip n source front target (omega arith))

  -- The same at an offset behind the front.
  pub copy_at_behind :
      (m i : ℕ) (source front target : List A)
      → m ≡ length front + i
      → copy_at m source (front ++ target) ≡ front ++ copy_at i source target
  copy_at_behind m i source [] target h =
      let e : m ≡ i = omega arith in ap (λ t. copy_at t source target) e
  copy_at_behind zero i source (x ∷ front) target h = absurd (omega arith)
  copy_at_behind (suc m) i source (x ∷ front) target h =
      ap (λ t. x ∷ t) (copy_at_behind m i source front target (omega arith))

  pub length-copy_at :
      (i : ℕ) (source target : List A) → length (copy_at i source target) ≡ length target
  length-copy_at i source [] = refl
  length-copy_at zero [] (y ∷ target) = refl
  length-copy_at zero (x ∷ source) (y ∷ target) = ap suc (length-copy_at zero source target)
  length-copy_at (suc i) source (y ∷ target) = ap suc (length-copy_at i source target)

  pub length-map {κ} : {B : Type κ} (xs : List A) (f : A → B) → length (map f xs) ≡ length xs
  length-map [] f = refl
  length-map (x ∷ xs) f = ap suc (length-map xs f)

module _ {ℓ κ} {A : Type ℓ} (P : A → Type κ) where
  pub All-take : (n : ℕ) (xs : List A) → All P xs → All P (take n xs)
  All-take zero xs h = tt
  All-take (suc n) [] h = tt
  All-take (suc n) (x ∷ xs) h = (h.0, All-take n xs h.1)

  pub All-drop : (n : ℕ) (xs : List A) → All P xs → All P (drop n xs)
  All-drop zero xs h = h
  All-drop (suc n) [] h = tt
  All-drop (suc n) (x ∷ xs) h = All-drop n xs h.1

module _ {ℓ} {A : Type ℓ} where
  pub one : (xs : List A) → length xs ≡ 1 → (a : A) × (xs ≡ a ∷ [])
  one [] h = absurd (omega arith)
  one (a ∷ []) h = (a, refl)
  one (a ∷ b ∷ xs) h = absurd (omega arith)

  pub two : (xs : List A) → 2 ≤ length xs → (a b : A) × (r : List A) × (xs ≡ a ∷ b ∷ r)
  two [] h = absurd (omega arith)
  two (a ∷ []) h = absurd (omega arith)
  two (a ∷ b ∷ r) h = (a, b, r, refl)

  -- The first four elements.
  pub four : (xs : List A) → 4 ≤ length xs → (a b c d : A) × (r : List A) × (xs ≡ a ∷ b ∷ c ∷ d ∷ r)
  four [] h = absurd (omega arith)
  four (a ∷ []) h = absurd (omega arith)
  four (a ∷ b ∷ []) h = absurd (omega arith)
  four (a ∷ b ∷ c ∷ []) h = absurd (omega arith)
  four (a ∷ b ∷ c ∷ d ∷ r) h = (a, b, c, d, r, refl)

module _ {ℓ κ} {A : Type ℓ} (P : A → Type κ) where
  pub All-append : (xs ys : List A) → All P xs → All P ys → All P (xs ++ ys)
  All-append [] ys hx hy = hy
  All-append (x ∷ xs) ys hx hy = (hx.0, All-append xs ys hx.1 hy)

  pub All-append_inv : (xs ys : List A) → All P (xs ++ ys) → All P xs × All P ys
  All-append_inv [] ys h = (tt, h)
  All-append_inv (x ∷ xs) ys (hx, h) = let (h1, h2) = All-append_inv xs ys h in ((hx, h1), h2)
