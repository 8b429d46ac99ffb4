-- ===== src/Base64/Url.antt =====
-- `base64url_decode` against `base64url_encode` on every text.
use securekit.Prelude.{
  inl, inr, ℕ, zero, suc, ◌+◌, ◌%◌, ◌≤◌, ◌<◌, ◌≡◌, ◌↔◌, refl, ap, true, false, List, [], ◌∷◌, ◌++◌,
  map, append_assoc, append-nil, length, length-append, length-map, replicate, All, IsByte, ◌==◌,
  arith, bytes_eq→eq, bytes_eq_refl,
}
use securekit.Errors.{Result-cases, ok}
use securekit.Base64.{
  decode_char, is_base64url_char, char0, char1, char2, char3, encode_groups, base64_encode,
  base64_decode, scan_base64url, reject_invalid_base64url, to_url_char, from_url_char, keep,
  pop_padding, push_padding, base64url_encode, base64url_decode,
}
use securekit.Base64.RoundTrip.{
  IsLetter, char0-IsLetter, char1-IsLetter, char2-IsLetter, char3-IsLetter, base64_decode_inv,
  base64_decode_iff,
}

abbrev padding : ℕ → List ℕ
padding p = replicate p b'='

-- A text of the encoder: letters, then at most two padding characters.
record IsPadded (text letters : List ℕ) (p : ℕ) : Type 0 where
  pub parts : text ≡ letters ++ padding p
  pub are_letters : All IsLetter letters
  pub short : p ≤ 2
  pub whole : (length letters + p) % 4 ≡ 0

encode_groups-IsPadded :
    (b : List ℕ)
    → All IsByte b
    → (letters : List ℕ) × (p : ℕ) × IsPadded (encode_groups b) letters p
unfolding encode_groups
encode_groups-IsPadded [] h =
    ([], 0, record { parts = refl; are_letters = tt; short = omega arith; whole = refl })
encode_groups-IsPadded (b0 ∷ []) h = (
  char0 b0 ∷ char1 b0 0 ∷ [],
  2,
  record {
    parts = refl;
    are_letters = (char0-IsLetter b0 h.0, (char1-IsLetter b0 0 h.0 (omega arith), tt));
    short = omega arith;
    whole = refl;
  },
)
encode_groups-IsPadded (b0 ∷ b1 ∷ []) h = (
  char0 b0 ∷ char1 b0 b1 ∷ char2 b1 0 ∷ [],
  1,
  record {
    parts = refl;
    are_letters = (
      char0-IsLetter b0 h.0,
      (char1-IsLetter b0 b1 h.0 h.1.0, (char2-IsLetter b1 0 h.1.0 (omega arith), tt)),
    );
    short = omega arith;
    whole = refl;
  },
)
encode_groups-IsPadded (b0 ∷ b1 ∷ b2 ∷ b) h =
    let (letters, p, rest) = encode_groups-IsPadded b h.1.1.1 in
    (
      char0 b0 ∷ char1 b0 b1 ∷ char2 b1 b2 ∷ char3 b2 ∷ letters,
      p,
      record {
        parts = ap (λ t. char0 b0 ∷ char1 b0 b1 ∷ char2 b1 b2 ∷ char3 b2 ∷ t) rest.parts;
        are_letters = (
          char0-IsLetter b0 h.0,
          (
            char1-IsLetter b0 b1 h.0 h.1.0,
            (char2-IsLetter b1 b2 h.1.0 h.1.1.0, (char3-IsLetter b2 h.1.1.0, rest.are_letters)),
          ),
        );
        short = rest.short;
        whole = omega (arith, rest.whole);
      },
    )

-- A letter survives the change of alphabet, and is no padding there.
letter_url :
    (c : ℕ)
    → IsLetter c
    → (from_url_char (to_url_char c) ≡ c)
      × (is_base64url_char (to_url_char c) ≡ true)
      × ((to_url_char c == b'=') ≡ false)
unfolding decode_char to_url_char from_url_char is_base64url_char
letter_url c h = ground arith

from-to_url : (ls : List ℕ) → All IsLetter ls → map from_url_char (map to_url_char ls) ≡ ls
from-to_url [] h = refl
from-to_url (c ∷ ls) (hc, h) = rw ((letter_url c hc).0, from-to_url ls h)

scan_letters : (ls : List ℕ) → All IsLetter ls → scan_base64url (map to_url_char ls) ≡ ok tt
unfolding scan_base64url
scan_letters [] h = refl
scan_letters (c ∷ ls) (hc, h) = rw ((letter_url c hc).1, scan_letters ls h)

pop_letter :
    (c : ℕ) (rest : List ℕ) → (c == b'=') ≡ false → pop_padding (c ∷ rest) ≡ c ∷ pop_padding rest
unfolding pop_padding keep
pop_letter c rest h = ground arith

pop_only_padding : (p : ℕ) → pop_padding (map to_url_char (padding p)) ≡ []
unfolding pop_padding to_url_char
pop_only_padding zero = refl
pop_only_padding (suc p) = rw (pop_only_padding p) (unfold keep in refl)

pop_padding-letters :
    (ls : List ℕ) (p : ℕ)
    → All IsLetter ls
    → pop_padding (map to_url_char (ls ++ padding p)) ≡ map to_url_char ls
pop_padding-letters [] p h = pop_only_padding p
pop_padding-letters (c ∷ ls) p (hc, h) =
    rw (pop_letter _ _ (letter_url c hc).2, pop_padding-letters ls p h)

-- Three rounds of the loop are enough to reach a multiple of four.
pub push_padding-eq-append :
    (fuel p : ℕ) (xs : List ℕ)
    → p ≤ fuel
    → p < 4
    → (length xs + p) % 4 ≡ 0
    → push_padding fuel xs ≡ xs ++ padding p
unfolding push_padding
push_padding-eq-append zero zero xs h small e = rw append-nil
push_padding-eq-append zero (suc p) xs h small e = absurd (omega arith)
push_padding-eq-append (suc fuel) zero xs h small e = ground (arith, append-nil xs)
push_padding-eq-append (suc fuel) (suc p) xs h small e = ground (
  arith,
  length-append xs (b'=' ∷ []),
  push_padding-eq-append fuel p (xs ++ (b'=' ∷ [])),
  append_assoc xs (b'=' ∷ []) (padding p),
)

url_text :
    {text letters : List ℕ} {p : ℕ}
    → IsPadded text letters p
    → pop_padding (map to_url_char text) ≡ map to_url_char letters
url_text {text} {letters} {p} h = rw h.parts (pop_padding-letters letters p h.are_letters)

reject_letters :
    {text letters : List ℕ} {p : ℕ}
    → IsPadded text letters p
    → reject_invalid_base64url (map to_url_char letters) ≡ ok tt
unfolding reject_invalid_base64url
reject_letters {text} {letters} {p} h =
    ground
      (arith, length-map letters to_url_char, scan_letters letters h.are_letters, h.short, h.whole)

padded_again :
    {text letters : List ℕ} {p : ℕ}
    → IsPadded text letters p
    → push_padding 3 (map from_url_char (map to_url_char letters)) ≡ text
padded_again {text} {letters} {p} h =
    rw (from-to_url letters h.are_letters, h.parts)
      (push_padding-eq-append 3 p letters (omega (arith, h.short)) (omega (arith, h.short)) h.whole)

base64url_decode_inv :
    (string_max bytes_max : ℕ) (s b : List ℕ)
    → base64url_decode string_max bytes_max s ≡ ok b
    → All IsByte b × (base64url_encode string_max b ≡ ok s)
unfolding base64url_decode
base64url_decode_inv string_max bytes_max s b h =
    let padded = push_padding 3 (map from_url_char s) in
    elim (Result-cases (base64_decode string_max bytes_max padded)) [
      | inr (e, failed) ↦ absurd (ground (arith, failed))
      | inl (out, decoded) ↦ elim (Result-cases (base64url_encode string_max out)) [
        | inr (e, failed) ↦ absurd (ground (arith, failed, decoded))
        | inl (t, encoded) ↦ ground (
          arith,
          decoded,
          encoded,
          base64_decode_inv string_max bytes_max padded out decoded,
          bytes_eq→eq t s,
        )
      ]
    ]

base64url_decode-letters :
    (string_max bytes_max : ℕ) (b letters : List ℕ) (p : ℕ)
    → All IsByte b
    → IsPadded (encode_groups b) letters p
    → length b + 2 ≤ bytes_max
    → length letters + 3 ≤ string_max
    → base64_encode string_max b ≡ ok (encode_groups b)
    → base64url_decode string_max bytes_max (map to_url_char letters) ≡ ok b
unfolding base64url_decode base64url_encode
base64url_decode-letters string_max bytes_max b letters p hb shape small fits e = ground (
  arith,
  reject_letters shape,
  length-map letters to_url_char,
  padded_again shape,
  (base64_decode_iff string_max bytes_max (encode_groups b) b small).1 (hb, e),
  url_text shape,
  bytes_eq_refl (map to_url_char letters),
)

-- Where the decoded bytes stay two below the largest size of `bytes` and the text three below the
-- largest size of a string, `base64url_decode` accepts a text exactly when it is what
-- `base64url_encode` writes for a sequence of bytes, and it returns those bytes.
pub base64url_decode_iff :
    (string_max bytes_max : ℕ) (s b : List ℕ)
    → length b + 2 ≤ bytes_max
    → length s + 3 ≤ string_max
    → (base64url_decode string_max bytes_max s ≡ ok b)
      ↔ (All IsByte b × (base64url_encode string_max b ≡ ok s))
unfolding base64url_encode base64_encode
base64url_decode_iff string_max bytes_max s b small fits = (
  base64url_decode_inv string_max bytes_max s b,
  λ (hb, e).
      let (letters, p, shape) = encode_groups-IsPadded b hb in
      let text : s ≡ map to_url_char letters = ground (arith, url_text shape) in
      rw text (
        base64url_decode-letters string_max bytes_max b letters p hb shape small
          (omega (arith, fits, ap length text, length-map letters to_url_char)) (ground arith)),
)

-- For a sequence of bytes that `base64url_encode` can encode, the text holds url-safe characters
-- only, and no padding.
pub base64url_encode-IsUrlText :
    (string_max : ℕ) (b s : List ℕ)
    → All IsByte b
    → base64url_encode string_max b ≡ ok s
    → All (λ ch. is_base64url_char ch ≡ true) s
unfolding base64url_encode base64_encode
base64url_encode-IsUrlText string_max b s hb e =
    let (letters, p, shape) = encode_groups-IsPadded b hb in
    let text : s ≡ map to_url_char letters = ground (arith, url_text shape) in
    rw text (all_url letters shape.are_letters)
  where
    all_url :
        (ls : List ℕ)
        → All IsLetter ls
        → All (λ ch. is_base64url_char ch ≡ true) (map to_url_char ls)
    all_url [] h = tt
    all_url (c ∷ ls) (hc, h) = ((letter_url c hc).1, all_url ls h)
