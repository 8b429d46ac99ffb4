-- ===== src/FileStream/Records.antt =====
-- A record read from a healthy input, field by field, in both directions.
use securekit.Prelude.{
  ℕ, ◌≡◌, sym, ap, ◌∙◌, inl, inr, ◌==◌, not, ◌&&◌, true, false, Bool-cases, Option-cases, List,
  ◌++◌, append_assoc, length, arith, ==_iff,
}
use mathlib.Core.Path.{subst}
use securekit.Errors.{Result, ok}
use securekit.Exec.{pure, lift, ◌>>=◌, ◌>>◌, >>=-eq-ok}
use securekit.FileFormat.{
  chunk_size, tag_size, record_header_size, not_final, RecordHeader, parse_record_header,
}
use securekit.IoStream.{IStream, read_exact}
use securekit.IoStream.Laws.{clean, read_exact-append, read_exact_inv}
use securekit.FileStream.{require_exact, check_end, check_header, read_body, read_record}

pub require_exact-append :
    (n : ℕ) (x y : List ℕ) → length x ≡ n → require_exact n (clean (x ++ y)) ≡ (ok x, clean y)
unfolding require_exact
require_exact-append n x y h = rw (read_exact-append n x y h)

pub require_exact_inv :
    (n : ℕ) (x got : List ℕ) (s : IStream)
    → require_exact n (clean x) ≡ (ok got, s)
    → (y : List ℕ) × (x ≡ got ++ y) × (length got ≡ n) × (s ≡ clean y)
unfolding require_exact
require_exact_inv n x got s h =
    let (found, s1, e, step) = >>=-eq-ok (read_exact n) _ (clean x) h in
    elim (Option-cases found) [
      | inl none_found ↦ absurd (ground (arith, step, none_found))
      | inr (z, some_found) ↦ read_exact_inv n x got s (e ∙ ground (arith, step, some_found))
    ]

pub ==_refl : (i : ℕ) → (i == i) ≡ true
==_refl i = ground arith

-- The bytes of a record.
abbrev pub record_bytes : RecordHeader → List ℕ → List ℕ → List ℕ
record_bytes r c g = r.serialized ++ (c ++ g)

-- The tests that a header passes at an index.
abbrev pub IsExpected : ℕ → RecordHeader → Type 0
IsExpected i r =
    (r.index ≡ i) × ((r.final_flag == not_final && not (r.plaintext_size == chunk_size)) ≡ false)

pub read_record_lem :
    (i : ℕ) (r : RecordHeader) (c g y : List ℕ) (s : IStream)
    → length r.serialized ≡ record_header_size
    → parse_record_header r.serialized ≡ ok r
    → IsExpected i r
    → length c ≡ r.plaintext_size
    → length g ≡ tag_size
    → check_end r.final_flag (clean y) ≡ (ok tt, s)
    → read_record i (clean (record_bytes r c g ++ y)) ≡ (ok (r, c, g), s)
unfolding read_record check_header read_body
read_record_lem i r c g y s size parsed (same, fits) c_size g_size end =
    let split : record_bytes r c g ++ y ≡ r.serialized ++ (c ++ (g ++ y)) = simp append_assoc in
    rw (
      split,
      require_exact-append record_header_size r.serialized (c ++ (g ++ y)) size,
      parsed,
      same,
      ==_refl i,
      fits,
      require_exact-append r.plaintext_size c (g ++ y) c_size,
      require_exact-append tag_size g y g_size,
      end,
    )

check_header_inv :
    (i : ℕ) (r r' : RecordHeader) (s s' : IStream)
    → check_header i r s ≡ (ok r', s')
    → IsExpected i r × (r' ≡ r) × (s' ≡ s)
unfolding check_header
check_header_inv i r r' s s' e = elim (Bool-cases (r.index == i)) [
  | inr other ↦ absurd (ground (arith, e, other))
  | inl same ↦
      elim (Bool-cases (r.final_flag == not_final && not (r.plaintext_size == chunk_size))) [
        | inl bad ↦ absurd (ground (arith, e, same, bad))
        | inr fits ↦ (
          ((==_iff r.index i).0 same, fits),
          ground (arith, e, same, fits),
          ground (arith, e, same, fits),
        )
      ]
]

-- The tail of a record: the ciphertext, the tag, and the end that a final record asks for.
abbrev pub IsBody : RecordHeader → List ℕ → List ℕ → List ℕ → IStream → Type 0
IsBody r x c g s =
    (y : List ℕ) × (x ≡ c ++ (g ++ y))
    × (length c ≡ r.plaintext_size)
    × (length g ≡ tag_size)
    × (check_end r.final_flag (clean y) ≡ (ok tt, s))

abbrev Parts : Type 0
Parts = RecordHeader × List ℕ × List ℕ

body_end_inv :
    (r r' : RecordHeader) (c c' g g' : List ℕ) (s0 s : IStream)
    → (check_end r.final_flag >> pure {A = Parts} (r, c, g)) s0 ≡ (ok (r', c', g'), s)
    → (r' ≡ r) × (c ≡ c') × (g ≡ g') × (check_end r.final_flag s0 ≡ (ok tt, s))
body_end_inv r r' c c' g g' s0 s e =
    let (t, s1, ended_at, same) =
      >>=-eq-ok (check_end r.final_flag) (λ t. pure {A = Parts} (r, c, g)) s0 e in
    (cc same, cc same, cc same, ended_at ∙ cc same)

body_tag_inv :
    (r r' : RecordHeader) (x c c' g : List ℕ) (s : IStream)
    → (do tag ← require_exact tag_size; check_end r.final_flag; pure {A = Parts} (r, c, tag))
        (clean x)
      ≡ (ok (r', c', g), s)
    → (r' ≡ r)
      × (c ≡ c')
      × ((y : List ℕ) × (x ≡ g ++ y)
          × (length g ≡ tag_size)
          × (check_end r.final_flag (clean y) ≡ (ok tt, s)))
body_tag_inv r r' x c c' g s e =
    let (tag, s1, got, f) =
      >>=-eq-ok (require_exact tag_size)
        (λ tag. check_end r.final_flag >> pure {A = Parts} (r, c, tag)) (clean x) e in
    let (y, split, size, at) = require_exact_inv tag_size x tag s1 got in
    let (e1, e2, e3, e4) = body_end_inv r r' c c' tag g (clean y) s (rw at at f) in
    (e1, e2, (y, rw e3 at split, rw e3 at size, e4))

read_body_inv :
    (r r' : RecordHeader) (x c g : List ℕ) (s : IStream)
    → read_body r (clean x) ≡ (ok (r', c, g), s)
    → (r' ≡ r) × IsBody r x c g s
unfolding read_body
read_body_inv r r' x c g s e =
    let (c1, s1, got, f) =
      >>=-eq-ok (require_exact r.plaintext_size)
        (λ c. do tag ← require_exact tag_size; check_end r.final_flag; pure {A = Parts} (r, c, tag))
        (clean x) e in
    let (x1, split, size, at) = require_exact_inv r.plaintext_size x c1 s1 got in
    let (e1, e2, (y, split', size', end)) = body_tag_inv r r' x1 c1 c g s (rw at at f) in
    (e1, (y, rw (e2, split') at split, rw e2 at size, size', end))

-- What a record that is read was made of.
abbrev pub IsRecord : ℕ → List ℕ → RecordHeader → List ℕ → List ℕ → IStream → Type 0
IsRecord i x r c g s =
    (h x' : List ℕ) × (x ≡ h ++ x')
    × (length h ≡ record_header_size)
    × (parse_record_header h ≡ ok r)
    × IsExpected i r
    × IsBody r x' c g s

record_tail_inv :
    (i : ℕ) (h x : List ℕ) (r : RecordHeader) (c g : List ℕ) (s : IStream)
    → (do parsed ← lift (parse_record_header h); header ← check_header i parsed; read_body header)
        (clean x)
      ≡ (ok (r, c, g), s)
    → (parse_record_header h ≡ ok r) × IsExpected i r × IsBody r x c g s
record_tail_inv i h x r c g s e =
    let (r1, s1, parsed, f) =
      >>=-eq-ok (lift (parse_record_header h)) (λ parsed. check_header i parsed >>= read_body)
        (clean x) e in
    let (r2, s2, checked, f') = >>=-eq-ok (check_header i r1) read_body s1 f in
    let (expected, same, at) = check_header_inv i r1 r2 s1 s2 checked in
    let start : s1 ≡ clean x = sym (ap (λ (t : Result RecordHeader × IStream). t.1) parsed) in
    let (same', body) = read_body_inv r2 r x c g s (rw (at ∙ start) at f') in
    let whole : r ≡ r1 = same' ∙ same in
    (
      ap (λ (t : Result RecordHeader × IStream). t.0) parsed ∙ ap ok (sym whole),
      subst (IsExpected i) (sym whole) expected,
      subst (λ (t : RecordHeader). IsBody t x c g s) (sym same') body,
    )

pub read_record_inv :
    (i : ℕ) (x : List ℕ) (r : RecordHeader) (c g : List ℕ) (s : IStream)
    → read_record i (clean x) ≡ (ok (r, c, g), s)
    → IsRecord i x r c g s
unfolding read_record
read_record_inv i x r c g s e =
    let (h, s1, got, f) =
      >>=-eq-ok (require_exact record_header_size)
        (λ h. do
          parsed ← lift (parse_record_header h)
          header ← check_header i parsed
          read_body header)
        (clean x) e in
    let (x', split, size, at) = require_exact_inv record_header_size x h s1 got in
    let (parsed, expected, body) = record_tail_inv i h x' r c g s (rw at at f) in
    (h, x', split, size, parsed, expected, body)
