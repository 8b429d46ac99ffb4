-- ===== src/Base64/RoundTrip.antt =====
-- `base64_decode` against `base64_encode` on every text.
use securekit.Prelude.{
  ℕ, ◌+◌, ◌*◌, ◌/◌, ◌%◌, ◌≤◌, ◌≡◌, ◌↔◌, refl, false, List, [], ◌∷◌, length, All, All-append, IsByte,
  is_negative, ◌==◌, arith, bytes_eq→eq, bytes_eq_refl,
}
use securekit.Errors.{ok}
use securekit.Base64.{
  decode_char, scan_base64, reject_invalid_base64, char0, char1, char2, char3, encode_groups,
  base64_encode, decode_quad, decode_groups, decode_canonical, base64_decode,
}
use securekit.Base64.Tables.{
  decode_char-char0, decode_char-char1, decode_char-char2, decode_char-char3, byte0, byte1, byte2,
}

-- The number of groups of three bytes, the last of which may be short.
abbrev pub groups : ℕ → ℕ
groups n = (n + 2) / 3

pub length-encode_groups : (b : List ℕ) → length (encode_groups b) ≡ 4 * groups (length b)
unfolding encode_groups
length-encode_groups [] = refl
length-encode_groups (b0 ∷ []) = refl
length-encode_groups (b0 ∷ b1 ∷ []) = refl
length-encode_groups (b0 ∷ b1 ∷ b2 ∷ b) = omega (arith, length-encode_groups b)

decode_quad_three :
    (b0 b1 b2 : ℕ)
    → IsByte b0
    → IsByte b1
    → IsByte b2
    → decode_quad (char0 b0) (char1 b0 b1) (char2 b1 b2) (char3 b2) ≡ b0 ∷ b1 ∷ b2 ∷ []
unfolding decode_quad
decode_quad_three b0 b1 b2 h0 h1 h2 = ground (
  arith,
  decode_char-char0 b0 h0,
  decode_char-char1 b0 b1 h0 h1,
  decode_char-char2 b1 b2 h1 h2,
  decode_char-char3 b2 h2,
  byte0 (b0 / 4) (b0 % 4 * 16 + b1 / 16),
  byte1 (b0 % 4 * 16 + b1 / 16) (b1 % 16 * 4 + b2 / 64),
  byte2 (b1 % 16 * 4 + b2 / 64) (b2 % 64),
)

decode_quad_two :
    (b0 b1 : ℕ)
    → IsByte b0
    → IsByte b1
    → decode_quad (char0 b0) (char1 b0 b1) (char2 b1 0) b'=' ≡ b0 ∷ b1 ∷ []
unfolding decode_quad
decode_quad_two b0 b1 h0 h1 = ground (
  arith,
  decode_char-char0 b0 h0,
  decode_char-char1 b0 b1 h0 h1,
  decode_char-char2 b1 0 h1 (omega arith),
  byte0 (b0 / 4) (b0 % 4 * 16 + b1 / 16),
  byte1 (b0 % 4 * 16 + b1 / 16) (b1 % 16 * 4),
)

decode_quad_one : (b0 : ℕ) → IsByte b0 → decode_quad (char0 b0) (char1 b0 0) b'=' b'=' ≡ b0 ∷ []
unfolding decode_quad
decode_quad_one b0 h0 = ground (
  arith,
  decode_char-char0 b0 h0,
  decode_char-char1 b0 0 h0 (omega arith),
  byte0 (b0 / 4) (b0 % 4 * 16),
)

pub decode_groups-encode_groups : (b : List ℕ) → All IsByte b → decode_groups (encode_groups b) ≡ b
unfolding decode_groups encode_groups
decode_groups-encode_groups [] h = refl
decode_groups-encode_groups (b0 ∷ []) h = rw (decode_quad_one b0 h.0)
decode_groups-encode_groups (b0 ∷ b1 ∷ []) h = rw (decode_quad_two b0 b1 h.0 h.1.0)
decode_groups-encode_groups (b0 ∷ b1 ∷ b2 ∷ b) h =
    rw (decode_quad_three b0 b1 b2 h.0 h.1.0 h.1.1.0, decode_groups-encode_groups b h.1.1.1)

-- The validation loop passes over a letter.
scan_letter :
    (ch : ℕ) (input : List ℕ)
    → (ch == b'=') ≡ false
    → is_negative (decode_char ch) ≡ false
    → scan_base64 (ch ∷ input) false 0 ≡ scan_base64 input false 0
unfolding scan_base64
scan_letter ch input h k = rw (h, k)

abbrev pub IsLetter : ℕ → Type 0
IsLetter ch = ((ch == b'=') ≡ false) × (is_negative (decode_char ch) ≡ false)

pub char0-IsLetter : (b : ℕ) → IsByte b → IsLetter (char0 b)
char0-IsLetter b h = ground (arith, decode_char-char0 b h)

pub char1-IsLetter : (b c : ℕ) → IsByte b → IsByte c → IsLetter (char1 b c)
char1-IsLetter b c h k = ground (arith, decode_char-char1 b c h k)

pub char2-IsLetter : (b c : ℕ) → IsByte b → IsByte c → IsLetter (char2 b c)
char2-IsLetter b c h k = ground (arith, decode_char-char2 b c h k)

pub char3-IsLetter : (b : ℕ) → IsByte b → IsLetter (char3 b)
char3-IsLetter b h = ground (arith, decode_char-char3 b h)

-- The validation loop accepts what the encoder writes.
scan_base64-encode_groups :
    (b : List ℕ) → All IsByte b → (p : ℕ) × (scan_base64 (encode_groups b) false 0 ≡ ok p)
unfolding encode_groups
scan_base64-encode_groups [] h = (0, unfold scan_base64 in refl)
scan_base64-encode_groups (b0 ∷ []) h =
    let (e0, n0) = char0-IsLetter b0 h.0 in
    let (e1, n1) = char1-IsLetter b0 0 h.0 (omega arith) in
    (2, rw (scan_letter _ _ e0 n0, scan_letter _ _ e1 n1) (unfold scan_base64 in refl))
scan_base64-encode_groups (b0 ∷ b1 ∷ []) h =
    let (e0, n0) = char0-IsLetter b0 h.0 in
    let (e1, n1) = char1-IsLetter b0 b1 h.0 h.1.0 in
    let (e2, n2) = char2-IsLetter b1 0 h.1.0 (omega arith) in
    (
      1,
      rw (scan_letter _ _ e0 n0, scan_letter _ _ e1 n1, scan_letter _ _ e2 n2)
          (unfold scan_base64 in refl),
    )
scan_base64-encode_groups (b0 ∷ b1 ∷ b2 ∷ b) h =
    let (e0, n0) = char0-IsLetter b0 h.0 in
    let (e1, n1) = char1-IsLetter b0 b1 h.0 h.1.0 in
    let (e2, n2) = char2-IsLetter b1 b2 h.1.0 h.1.1.0 in
    let (e3, n3) = char3-IsLetter b2 h.1.1.0 in
    let (p, rest) = scan_base64-encode_groups b h.1.1.1 in
    (
      p,
      rw
          (
            scan_letter _ _ e0 n0,
            scan_letter _ _ e1 n1,
            scan_letter _ _ e2 n2,
            scan_letter _ _ e3 n3,
          )
          rest,
    )

-- The validation accepts every text that the encoder writes.
reject_invalid_base64-encode_groups :
    (b : List ℕ) → All IsByte b → reject_invalid_base64 (encode_groups b) ≡ ok tt
unfolding reject_invalid_base64
reject_invalid_base64-encode_groups [] h = unfold encode_groups scan_base64 in refl
reject_invalid_base64-encode_groups (x ∷ b) h =
    let (p, e) = scan_base64-encode_groups (x ∷ b) h in
    ground (arith, e, length-encode_groups (x ∷ b))

decode_quad-IsByte : (a c d e : ℕ) → All IsByte (decode_quad a c d e)
unfolding decode_quad
decode_quad-IsByte a c d e = ground arith

decode_groups-IsByte : (s : List ℕ) → All IsByte (decode_groups s)
unfolding decode_groups
decode_groups-IsByte (a ∷ c ∷ d ∷ e ∷ s) =
    All-append IsByte (decode_quad a c d e) (decode_groups s) (decode_quad-IsByte a c d e)
      (decode_groups-IsByte s)
decode_groups-IsByte _ = tt

decode_canonical_inv :
    (string_max bytes_max : ℕ) (s b : List ℕ)
    → decode_canonical string_max bytes_max s ≡ ok b
    → All IsByte b × (base64_encode string_max b ≡ ok s)
unfolding decode_canonical base64_encode
decode_canonical_inv string_max bytes_max s b h =
    ground (arith, bytes_eq→eq (encode_groups (decode_groups s)) s, decode_groups-IsByte s)

decode_canonical-encode_groups :
    (string_max bytes_max : ℕ) (b : List ℕ)
    → All IsByte b
    → length b + 2 ≤ bytes_max
    → base64_encode string_max b ≡ ok (encode_groups b)
    → decode_canonical string_max bytes_max (encode_groups b) ≡ ok b
unfolding decode_canonical
decode_canonical-encode_groups string_max bytes_max b h fits e = ground (
  arith,
  decode_groups-encode_groups b h,
  length-encode_groups b,
  bytes_eq_refl (encode_groups b),
)

base64_decode-encode_groups :
    (string_max bytes_max : ℕ) (b : List ℕ)
    → All IsByte b
    → length b + 2 ≤ bytes_max
    → base64_encode string_max b ≡ ok (encode_groups b)
    → base64_decode string_max bytes_max (encode_groups b) ≡ ok b
unfolding base64_decode
base64_decode-encode_groups string_max bytes_max [] h fits e =
    unfold encode_groups reject_invalid_base64 scan_base64 in refl
base64_decode-encode_groups string_max bytes_max (x ∷ b) h fits e = grind (
  arith,
  reject_invalid_base64-encode_groups (x ∷ b) h,
  decode_canonical-encode_groups string_max bytes_max (x ∷ b) h fits e,
  length-encode_groups (x ∷ b),
)

pub base64_decode_inv :
    (string_max bytes_max : ℕ) (s b : List ℕ)
    → base64_decode string_max bytes_max s ≡ ok b
    → All IsByte b × (base64_encode string_max b ≡ ok s)
unfolding base64_decode
base64_decode_inv string_max bytes_max [] b h = unfold base64_encode encode_groups in ground arith
base64_decode_inv string_max bytes_max (x ∷ s) b h =
    ground (arith, decode_canonical_inv string_max bytes_max (x ∷ s) b)

-- Where the decoded bytes stay two below the largest size of `bytes`, `base64_decode` accepts a
-- text exactly when it is what `base64_encode` writes for a sequence of bytes, and it returns
-- those bytes.
pub base64_decode_iff :
    (string_max bytes_max : ℕ) (s b : List ℕ)
    → length b + 2 ≤ bytes_max
    → (base64_decode string_max bytes_max s ≡ ok b)
      ↔ (All IsByte b × (base64_encode string_max b ≡ ok s))
unfolding base64_encode
base64_decode_iff string_max bytes_max s b fits = (
  base64_decode_inv string_max bytes_max s b,
  λ (hb, e). ground (arith, base64_decode-encode_groups string_max bytes_max b hb fits),
)
