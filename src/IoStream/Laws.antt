-- ===== src/IoStream/Laws.antt =====
-- Reading from a stream in good state, and what an output keeps.
use securekit.Prelude.{
  ℕ, ◌≤◌, ◌<◌, ◌≡◌, refl, ap, Bool, true, false, none, some, List, [], ◌∷◌, ◌++◌, length, take,
  drop, length-append, take-append, drop-append, arith, leb, inl, inr, sym, ◌∙◌, Bool-cases,
  take-append-drop, length-take,
}
use securekit.Errors.{ok}
use securekit.IoStream.{IStream, read, peek, read_exact, reject_trailing_data}

-- A healthy stream with some bytes to come, and one whose end has been met.
abbrev pub clean : List ℕ → IStream
clean rest = record { rest = rest; broken = false; eof = false; fail = false; bad = false }

abbrev pub ended : Bool → IStream
ended short = record { rest = []; broken = false; eof = true; fail = short; bad = false }

leb→le : (a b : ℕ) → leb a b ≡ true → a ≤ b
leb→le a b h = ground arith

pub read_exact-append :
    (n : ℕ) (x y : List ℕ) → length x ≡ n → read_exact n (clean (x ++ y)) ≡ (ok (some x), clean y)
unfolding read_exact read
read_exact-append n x y h =
    ground (arith, length-append x y, take-append n x y h, drop-append n x y h)

pub read_exact_inv :
    (n : ℕ) (x got : List ℕ) (s : IStream)
    → read_exact n (clean x) ≡ (ok (some got), s)
    → (y : List ℕ) × (x ≡ got ++ y) × (length got ≡ n) × (s ≡ clean y)
unfolding read_exact read
read_exact_inv n x got s h = elim (Bool-cases (leb n (length x))) [
  | inl long ↦
      let size : length (take n x) ≡ n = omega (arith, length-take n x, leb→le n (length x) long) in
      let start : take n x ≡ got = ground (arith, h, long, size) in
      (
        drop n x,
        sym (take-append-drop n x) ∙ ap (λ t. t ++ drop n x) start,
        rw (← start) size,
        ground (arith, h, long, size),
      )
  | inr short ↦ absurd (ground (arith, h, short))
]

pub reject_trailing_data_inv :
    (x : List ℕ) (s : IStream) → reject_trailing_data (clean x) ≡ (ok tt, s) → x ≡ []
unfolding reject_trailing_data read
reject_trailing_data_inv [] s h = refl
reject_trailing_data_inv (b ∷ x) s h = absurd (ground (arith, h))

pub reject_trailing_data_end : reject_trailing_data (clean []) ≡ (ok tt, ended true)
unfolding reject_trailing_data read
reject_trailing_data_end = refl

pub read_few : (n : ℕ) (p : List ℕ) → length p < n → read n (clean p) ≡ (p, ended true)
unfolding read
read_few n p h = ground (arith, h)

pub read_many :
    (n : ℕ) (p : List ℕ) → n ≤ length p → read n (clean p) ≡ (take n p, clean (drop n p))
unfolding read
read_many n p h = ground (arith, h)

pub peek_end : peek (clean []) ≡ (none, ended false)
unfolding peek
peek_end = refl

pub peek_more : (b : ℕ) (p : List ℕ) → peek (clean (b ∷ p)) ≡ (some b, clean (b ∷ p))
unfolding peek
peek_more b p = refl
