-- ===== src/Cli/Keys.antt =====
-- Keys as text, and in files.
use securekit.Prelude.{
  ℕ, ◌*◌, ◌/◌, ◌<◌, ◌≡◌, ◌↔◌, refl, sym, ap, ◌∙◌, true, false, not, List, [], ◌∷◌, ◌++◌, length,
  take, take_all, All, IsByte, arith, Bool-cases, inl, inr, ◌==◌, is_negative, map, ◌≤◌, length-map,
}
use mathlib.Core.Path.{subst}
use securekit.Errors.{Result, ok, err, >>=-eq-ok}
use securekit.Hex.{
  encode_nibble, encode_bytes, hex_encode, hex_decode, decode_nibble, decode_pair, decode_pairs,
}
use securekit.Hex.RoundTrip.{length-encode_bytes, decode_pairs-encode_bytes, hex_decode_iff}
use securekit.Hex.Tables.{to_lower}
use securekit.Prelude.Bits.{holds_below, holds_below-elim}
use securekit.Cli.{Outcome, returned, ◌>>=◌, library}
use securekit.Cli.Values.{all, is_hex_char, is_space, key_from_hex, key_from_file}
use securekit.Cli.Trim.{IsSolid, IsSpace, trim_ascii_whitespace-append}

nibble_table : (v : ℕ) → v < 256 → is_hex_char (encode_nibble v) ≡ true
unfolding holds_below encode_nibble is_hex_char
nibble_table v h = holds_below-elim 256 (λ v. is_hex_char (encode_nibble v)) v h refl

decode_nibble-hex : (c : ℕ) → is_negative (decode_nibble c) ≡ false → is_hex_char c ≡ true
unfolding decode_nibble is_hex_char
decode_nibble-hex c h = ground (arith, h)

decode_pair-hex :
    (a b x : ℕ) → decode_pair a b ≡ ok x → (is_hex_char a ≡ true) × (is_hex_char b ≡ true)
unfolding decode_pair
decode_pair-hex a b x h = elim (Bool-cases (is_negative (decode_nibble a))) [
  | inl bad ↦ ground arith
  | inr fine ↦ elim (Bool-cases (is_negative (decode_nibble b))) [
    | inl bad ↦ ground arith
    | inr fine' ↦ (decode_nibble-hex a fine, decode_nibble-hex b fine')
  ]
]

decode_pairs-hex : (s b : List ℕ) → decode_pairs s ≡ ok b → all is_hex_char s ≡ true
unfolding decode_pairs
decode_pairs-hex [] b h = refl
decode_pairs-hex (c ∷ []) b h = ground arith
decode_pairs-hex (a ∷ c ∷ s) b h =
    let (x, pair, h') = >>=-eq-ok (decode_pair a c) _ h in
    let (r, rest, h'') = >>=-eq-ok (decode_pairs s) _ h' in
    let (first, second) = decode_pair-hex a c x pair in
    rw (first, second) (decode_pairs-hex s r rest)

hex_decode-hex : (s b : List ℕ) → hex_decode s ≡ ok b → all is_hex_char s ≡ true
unfolding hex_decode
hex_decode-hex s b h = ground (arith, h, decode_pairs-hex s b)

-- What `key_from_hex` returns, by what `hex_decode` does.
key_from_hex_inv :
    (text key : List ℕ)
    → key_from_hex text ≡ returned key
    → (length text ≡ 64) × ((d : List ℕ) × (hex_decode text ≡ ok d) × (key ≡ take 32 d))
unfolding key_from_hex
key_from_hex_inv text key h = elim (Bool-cases (length text == 64)) [
  | inr other ↦ absurd (ground (arith, h, other))
  | inl size ↦ elim (Bool-cases (all is_hex_char text)) [
    | inr other ↦ absurd (ground (arith, h, size, other))
    | inl digits ↦ (ground arith, decoded (hex_decode text) (rw (size, digits) at h))
  ]
]
  where
    decoded :
        (r : Result (List ℕ))
        → (library r >>= λ d. returned (take 32 d)) ≡ returned key
        → (d : List ℕ) × (r ≡ ok d) × (key ≡ take 32 d)
    decoded (ok d) e = (d, refl, ground (arith, e))
    decoded (err e) h = absurd (ground (arith, h))

key_from_hex_intro :
    (text key : List ℕ)
    → length text ≡ 64
    → length key ≡ 32
    → hex_decode text ≡ ok key
    → key_from_hex text ≡ returned key
unfolding key_from_hex
key_from_hex_intro text key h k e =
    rw (h, hex_decode-hex text key e, e) (ap returned (take_all 32 key (omega (arith, k))))

hex_decode-length : (text b : List ℕ) → hex_decode text ≡ ok b → length text ≡ 2 * length b
unfolding hex_encode
hex_decode-length text b h =
    let (bytes, e) = (hex_decode_iff (2 * length b) text b (omega arith)).0 h in
    let written : encode_bytes b ≡ map to_lower text = ground (arith, e) in
    omega (
      arith,
      length-encode_bytes b,
      ap (λ (t : List ℕ). length t) written,
      length-map text to_lower,
    )

hex_encode-length :
    (max_size : ℕ) (b text : List ℕ) → hex_encode max_size b ≡ ok text → length text ≡ 2 * length b
unfolding hex_encode
hex_encode-length max_size b text h =
    let written : encode_bytes b ≡ text = ground (arith, h) in
    omega (arith, length-encode_bytes b, ap (λ (t : List ℕ). length t) written)

-- If the largest size of a string is at least 64, `key_from_hex` accepts a text exactly when it
-- is, up to the case of its letters, what `hex_encode` writes for a key of 32 bytes, and it
-- returns that key.
pub key_from_hex_iff :
    (max_size : ℕ) (text key : List ℕ)
    → 64 ≤ max_size
    → (key_from_hex text ≡ returned key)
      ↔ ((length key ≡ 32) × All IsByte key × (hex_encode max_size key ≡ ok (map to_lower text)))
key_from_hex_iff max_size text key fits = (
  λ h.
      let (size, (decoded, e, taken)) = key_from_hex_inv text key h in
      let long : length decoded ≡ 32 = omega (arith, size, hex_decode-length text decoded e) in
      let same : key ≡ decoded = taken ∙ take_all 32 decoded (omega (arith, long)) in
      let (bytes, written) = (hex_decode_iff max_size text decoded (omega (arith, long))).0 e in
      (
        ap (λ (t : List ℕ). length t) same ∙ long,
        subst (All IsByte) (sym same) bytes,
        ap (hex_encode max_size) same ∙ written,
      ),
  λ (size, bytes, e).
      let decoded = (hex_decode_iff max_size text key (omega (arith, size))).1 (bytes, e) in
      key_from_hex_intro text key (omega (arith, size, hex_decode-length text key decoded)) size
        decoded,
)

solid_table : (v : ℕ) → v < 256 → not (is_space (encode_nibble v)) ≡ true
unfolding holds_below encode_nibble is_space
solid_table v h = holds_below-elim 256 (λ v. not (is_space (encode_nibble v))) v h refl

encode_nibble-IsSolid : (v : ℕ) → v < 256 → IsSolid (encode_nibble v)
encode_nibble-IsSolid v h = ground (arith, solid_table v h)

encode_bytes-IsSolid : (b : List ℕ) → All IsByte b → All IsSolid (encode_bytes b)
unfolding encode_bytes
encode_bytes-IsSolid [] h = tt
encode_bytes-IsSolid (x ∷ b) h = (
  encode_nibble-IsSolid (x / 16) (omega (arith, h.0)),
  (encode_nibble-IsSolid x h.0, encode_bytes-IsSolid b h.1),
)

hex_decode-encode_bytes : (b : List ℕ) → All IsByte b → hex_decode (encode_bytes b) ≡ ok b
unfolding hex_decode
hex_decode-encode_bytes b h = ground (arith, length-encode_bytes b, decode_pairs-encode_bytes b h)

-- If a file holds the hexadecimal digits of a key of 32 bytes and nothing but white space behind
-- them, such as the newline of a generated key file, `key_from_file` returns the key.
pub key_from_file-encode_bytes :
    (read_file : List ℕ → Outcome (List ℕ)) (path key space : List ℕ)
    → length key ≡ 32
    → All IsByte key
    → All IsSpace space
    → read_file path ≡ returned (encode_bytes key ++ space)
    → key_from_file read_file path ≡ returned key
unfolding key_from_file
key_from_file-encode_bytes read_file path key space size bytes spaces found = rw found (
    ap key_from_hex (
      trim_ascii_whitespace-append (encode_bytes key) space (encode_bytes-IsSolid key bytes) spaces)
    ∙ key_from_hex_intro (encode_bytes key) key (omega (arith, length-encode_bytes key, size)) size
        (hex_decode-encode_bytes key bytes))
