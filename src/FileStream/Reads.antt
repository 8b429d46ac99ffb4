-- ===== src/FileStream/Reads.antt =====
-- What the reads of a round take off the input: no bytes come back, and a round that goes on has
-- taken some.
use securekit.Prelude.{
  ℕ, ◌+◌, ◌≤◌, ◌<◌, ◌≡◌, sym, ap, ◌∙◌, Bool, false, Option, none, some, List, length, length-drop,
  length-take, ltb, arith, Bool-cases, inl, inr, ◌==◌, not, ◌||◌, ◌&&◌,
}
use mathlib.Core.Path.{subst}
use securekit.Errors.{Error, Result, ok, err, ok≢err}
use securekit.Exec.{Exec, pure, raise, lift, raise_if, ◌>>=◌, >>=-eq-ok}
use securekit.Exec.Keeps.{Keeps, >>=-Keeps, raise_if-Keeps}
use securekit.FileFormat.{
  final, bad_packet, chunk_size, record_header_size, RecordHeader, parse_record_header,
}
use securekit.IoStream.{IStream, read, peek, read_exact, reject_trailing_data}
use securekit.FileStream.{
  read_plaintext, after_read, after_peek, require_exact, check_end, check_header, read_body,
  read_record,
}

-- No bytes come back.
abbrev Shorter : IStream → IStream → Type 0
Shorter s t = length t.rest ≤ length s.rest

Shorter-refl : (s : IStream) → Shorter s s
Shorter-refl s = omega arith

Shorter-trans : (s t u : IStream) → Shorter s t → Shorter t u → Shorter s u
Shorter-trans s t u h k = omega (arith, h, k)

read_takes : (n : ℕ) (s : IStream) → length (read n s).1.rest + length (read n s).0 ≤ length s.rest
unfolding read
read_takes n s = ground (arith, length-drop n s.rest, length-take n s.rest)

peek_keeps : (s : IStream) → (peek s).1.rest ≡ s.rest
unfolding peek
peek_keeps s = ground arith

read_exact_takes :
    (n : ℕ) (s t : IStream) (x : List ℕ)
    → read_exact n s ≡ (ok (some x), t)
    → length t.rest + n ≤ length s.rest
unfolding read_exact
read_exact_takes n s t x e = ground (arith, e, read_takes n s)

read_exact-Shorter : (n : ℕ) → Keeps Shorter (read_exact n)
unfolding read_exact
read_exact-Shorter n s = ground (arith, read_takes n s)

reject_trailing_data-Shorter : Keeps Shorter reject_trailing_data
unfolding reject_trailing_data
reject_trailing_data-Shorter s = ground (arith, read_takes 1 s)

after_peek_keeps :
    (p x : List ℕ) (r : Option ℕ × IStream) (t : IStream)
    → after_peek p r ≡ (ok (x, false), t)
    → t.rest ≡ r.1.rest
after_peek_keeps p x (some b, i) t e = ground (arith, e)
after_peek_keeps p x (none, i) t e = absurd (ground (arith, e))

after_read_takes :
    (p x : List ℕ) (i t : IStream)
    → after_read (p, i) ≡ (ok (x, false), t)
    → (chunk_size ≤ length p) × (t.rest ≡ i.rest)
after_read_takes p x i t e = elim (Bool-cases (not i.eof && (i.fail || i.bad))) [
  | inl broken ↦ absurd (ground (arith, rw broken at e))
  | inr fine ↦ elim (Bool-cases (ltb (length p) chunk_size)) [
    | inl short ↦ absurd (ground (arith, rw (fine, short) at e))
    | inr full ↦ (
      ground (arith, full),
      after_peek_keeps p x (peek i) t (rw (fine, full) at e) ∙ peek_keeps i,
    )
  ]
]

pub read_plaintext_takes :
    (s t : IStream) (x : List ℕ)
    → read_plaintext s ≡ (ok (x, false), t)
    → length t.rest < length s.rest
unfolding read_plaintext
read_plaintext_takes s t x e =
    let r = read chunk_size s in
    let (full, same) = after_read_takes r.0 x r.1 t e in
    omega (arith, full, ap (λ (y : List ℕ). length y) same, read_takes chunk_size s)

from_Keeps :
    {A : Type 0} (m : Exec IStream A) (s t : IStream) (r : Result A)
    → Keeps Shorter m
    → m s ≡ (r, t)
    → length t.rest ≤ length s.rest
from_Keeps {A = A} m s t r keeps e =
    subst (λ (x : Result A × IStream). length x.1.rest ≤ length s.rest) e (keeps s)

bind :
    {A B : Type 0} (m : Exec IStream A) (next : A → Exec IStream B)
    → Keeps Shorter m
    → ((a : A) → Keeps Shorter (next a))
    → Keeps Shorter (m >>= next)
bind = >>=-Keeps Shorter Shorter-refl Shorter-trans

returns : {A : Type 0} (r : Result A) → Keeps Shorter (lift r)
returns r s = Shorter-refl s

thrown_if : (b : Bool) (e : Error) → Keeps Shorter (raise_if b e)
thrown_if = raise_if-Keeps Shorter Shorter-refl Shorter-trans

abbrev or_bad : Option (List ℕ) → Exec IStream (List ℕ)
or_bad found = elim found [ none ↦ raise bad_packet | some x ↦ pure x ]

or_bad-Shorter : (found : Option (List ℕ)) → Keeps Shorter (or_bad found)
or_bad-Shorter none = returns {A = List ℕ} (err bad_packet)
or_bad-Shorter (some x) = returns (ok x)

require_exact-Shorter : (n : ℕ) → Keeps Shorter (require_exact n)
unfolding require_exact
require_exact-Shorter n = search (bind, read_exact-Shorter, or_bad-Shorter)

require_exact_takes :
    (n : ℕ) (s t : IStream) (x : List ℕ)
    → require_exact n s ≡ (ok x, t)
    → length t.rest + n ≤ length s.rest
unfolding require_exact
require_exact_takes n s t x e =
    let (found, s1, e1, r1) = >>=-eq-ok (read_exact n) or_bad s e in taken found s1 e1 r1
  where
    taken :
        (found : Option (List ℕ)) (s1 : IStream)
        → read_exact n s ≡ (ok found, s1)
        → or_bad found s1 ≡ (ok x, t)
        → length t.rest + n ≤ length s.rest
    taken none s1 e1 r1 = absurd (ok≢err (sym (ap (λ (y : Result (List ℕ) × IStream). y.0) r1)))
    taken (some y) s1 e1 r1 = omega (
      arith,
      read_exact_takes n s s1 y e1,
      ap (λ (y : Result (List ℕ) × IStream). length y.1.rest) r1,
    )

check_end-Shorter : (flag : ℕ) → Keeps Shorter (check_end flag)
unfolding check_end
check_end-Shorter flag = elim (Bool-cases (flag == final)) [
  | inl h ↦ rw h reject_trailing_data-Shorter
  | inr h ↦ rw h (returns (ok tt))
]

check_header-Shorter : (i : ℕ) (header : RecordHeader) → Keeps Shorter (check_header i header)
unfolding check_header
check_header-Shorter i header = search (bind, thrown_if, returns)

read_body-Shorter : (header : RecordHeader) → Keeps Shorter (read_body header)
unfolding read_body
read_body-Shorter header = search (bind, require_exact-Shorter, check_end-Shorter, returns)

abbrev rest_of_record : ℕ → List ℕ → Exec IStream (RecordHeader × List ℕ × List ℕ)
rest_of_record i record_bytes = do
  parsed ← lift (parse_record_header record_bytes)
  header ← check_header i parsed
  read_body header

rest_of_record-Shorter :
    (i : ℕ) (record_bytes : List ℕ) → Keeps Shorter (rest_of_record i record_bytes)
rest_of_record-Shorter i record_bytes =
    search (bind, returns, check_header-Shorter, read_body-Shorter)

pub read_record_takes :
    (i : ℕ) (s t : IStream) (found : RecordHeader × List ℕ × List ℕ)
    → read_record i s ≡ (ok found, t)
    → length t.rest < length s.rest
unfolding read_record
read_record_takes i s t found e =
    let (record_bytes, s1, e1, r1) =
      >>=-eq-ok (require_exact record_header_size) (rest_of_record i) s e in
    omega (
      arith,
      require_exact_takes record_header_size s s1 record_bytes e1,
      from_Keeps (rest_of_record i record_bytes) s1 t (ok found)
          (rest_of_record-Shorter i record_bytes) r1,
    )
