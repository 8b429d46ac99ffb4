-- ===== src/Hex/RoundTrip.antt =====
-- `hex_decode` against `hex_encode` on every text.
use securekit.Prelude.{
  ℕ, ◌+◌, ◌*◌, ◌/◌, ◌%◌, ◌≤◌, ◌≡◌, ◌↔◌, refl, ap, inl, inr, Bool-cases, List, [], ◌∷◌, map, length,
  length-map, All, IsByte, is_negative, arith,
}
use securekit.Errors.{Error, code, invalid_encoding, ok, err, >>=-eq-ok}
use securekit.Hex.{
  decode_nibble, encode_nibble, encode_bytes, decode_pair, decode_pairs, hex_encode, hex_decode,
}
use securekit.Hex.Tables.{
  to_lower, high_nibble, low_nibble, join_nibbles, encode_nibble-join, decode_nibble-small,
  encode_nibble-decode_nibble,
}

pub length-encode_bytes : (b : List ℕ) → length (encode_bytes b) ≡ 2 * length b
unfolding encode_bytes
length-encode_bytes [] = refl
length-encode_bytes (x ∷ b) = omega (arith, length-encode_bytes b)

decode_nibble-to_lower : (c : ℕ) → decode_nibble (to_lower c) ≡ decode_nibble c
unfolding decode_nibble to_lower
decode_nibble-to_lower c = ground arith

decode_pair-to_lower : (a c : ℕ) → decode_pair (to_lower a) (to_lower c) ≡ decode_pair a c
unfolding decode_pair
decode_pair-to_lower a c = simp decode_nibble-to_lower

decode_pairs-to_lower : (s : List ℕ) → decode_pairs (map to_lower s) ≡ decode_pairs s
unfolding decode_pairs
decode_pairs-to_lower [] = refl
decode_pairs-to_lower (c ∷ []) = refl
decode_pairs-to_lower (a ∷ c ∷ s) = simp (decode_pair-to_lower, decode_pairs-to_lower s)

decode_pair-encode_nibble :
    (x : ℕ) → IsByte x → decode_pair (encode_nibble (x / 16)) (encode_nibble x) ≡ ok x
unfolding decode_pair
decode_pair-encode_nibble x h =
    ground (arith, high_nibble x h, low_nibble x h, join_nibbles (x / 16) (x % 16))

pub decode_pairs-encode_bytes : (b : List ℕ) → All IsByte b → decode_pairs (encode_bytes b) ≡ ok b
unfolding decode_pairs encode_bytes
decode_pairs-encode_bytes [] h = refl
decode_pairs-encode_bytes (x ∷ b) (hx, hb) =
    rw (decode_pair-encode_nibble x hx, decode_pairs-encode_bytes b hb)

-- The byte of an accepted pair, and the pair that `hex_encode` writes for it.
decode_pair_inv :
    (a c x : ℕ)
    → decode_pair a c ≡ ok x
    → IsByte x × (encode_nibble (x / 16) ≡ to_lower a) × (encode_nibble x ≡ to_lower c)
unfolding decode_pair
decode_pair_inv a c x h = elim (Bool-cases (is_negative (decode_nibble a))) [
  | inl bad ↦ ground arith
  | inr fine ↦ elim (Bool-cases (is_negative (decode_nibble c))) [
    | inl bad ↦ ground arith
    | inr fine' ↦
        let high = decode_nibble a in
        let low = decode_nibble c in
        let value : x ≡ high * 16 + low =
          ground (
            arith,
            join_nibbles high low,
            decode_nibble-small a fine,
            decode_nibble-small c fine',
          ) in
        ground (
          arith,
          value,
          decode_nibble-small a fine,
          decode_nibble-small c fine',
          encode_nibble-join high low,
          encode_nibble-decode_nibble a fine,
          encode_nibble-decode_nibble c fine',
        )
  ]
]

decode_pairs_inv :
    (s b : List ℕ) → decode_pairs s ≡ ok b → All IsByte b × (encode_bytes b ≡ map to_lower s)
unfolding decode_pairs encode_bytes
decode_pairs_inv [] b h = ground arith
decode_pairs_inv (c ∷ []) b h = ground arith
decode_pairs_inv (a ∷ c ∷ s) b h =
    let (x, pair, h') = >>=-eq-ok (decode_pair a c) _ h in
    let (r, rest, h'') = >>=-eq-ok (decode_pairs s) _ h' in
    ground (arith, decode_pair_inv a c x pair, decode_pairs_inv s r rest)

-- Where the bytes are at most half of the largest size of a string, `hex_decode` accepts a text
-- exactly when it is, up to the case of its letters, the text that `hex_encode` writes for a
-- sequence of bytes, and it returns those bytes.
pub hex_decode_iff :
    (max_size : ℕ) (s b : List ℕ)
    → length b ≤ max_size / 2
    → (hex_decode s ≡ ok b) ↔ (All IsByte b × (hex_encode max_size b ≡ ok (map to_lower s)))
unfolding hex_decode hex_encode
hex_decode_iff max_size s b fits = (
  λ h. ground (arith, decode_pairs_inv s b, fits),
  λ (hb, e).
      let text : encode_bytes b ≡ map to_lower s = ground arith in
      let even : length s ≡ 2 * length b =
        omega (arith, length-encode_bytes b, ap length text, length-map s to_lower) in
      ground (
        arith,
        even,
        decode_pairs-to_lower s,
        ap decode_pairs text,
        decode_pairs-encode_bytes b hb,
      ),
)

decode_pairs_fails : (s : List ℕ) (e : Error) → decode_pairs s ≡ err e → code e ≡ invalid_encoding
unfolding decode_pairs decode_pair
decode_pairs_fails [] e h = ground arith
decode_pairs_fails (c ∷ []) e h = ground arith
decode_pairs_fails (a ∷ c ∷ s) e h = ground (arith, decode_pairs_fails s e)

-- Every failure of `hex_decode` is an invalid encoding.
pub hex_decode_fails : (s : List ℕ) (e : Error) → hex_decode s ≡ err e → code e ≡ invalid_encoding
unfolding hex_decode
hex_decode_fails s e h = ground (arith, decode_pairs_fails s e)
