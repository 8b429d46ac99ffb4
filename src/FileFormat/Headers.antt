-- ===== src/FileFormat/Headers.antt =====
-- The layout of the headers (docs/FORMAT.md), and their parsers against their writers.
use securekit.Prelude.{
  ℕ, ◌≡◌, ◌↔◌, ap, ◌∙◌, List, [], ◌∷◌, ◌++◌, length, All, IsByte, arith, take, drop, length-drop,
  length-take, take-append, drop-append, take-append-drop, replicate, copy_at, copy_at_all,
  copy_at-append, copy_at_skip, two, four, bytes_eq,
}
use securekit.Errors.{ok}
use securekit.FileFormat.{
  header_size, salt_size, nonce_prefix_size, u32_be, FileHeader, header_of, parse_header,
}
use securekit.FileFormat.Words.{read_u32_be_lem}

-- SKF1, version, algorithm and chunk size.
abbrev pub skf1_fixed : List ℕ
skf1_fixed = b'S' ∷ b'K' ∷ b'F' ∷ b'1' ∷ 1 ∷ 1 ∷ 0 ∷ 16 ∷ 0 ∷ 0 ∷ []

drawn_parts :
    (salt prefix : List ℕ)
    → length salt ≡ 32
    → length prefix ≡ 8
    → copy_at 32 prefix (copy_at 0 salt (replicate 40 0)) ≡ salt ++ prefix
drawn_parts salt prefix hs hp =
    rw
      (
        copy_at-append salt (replicate 32 0) (replicate 8 0) hs,
        copy_at_skip 32 prefix salt (replicate 8 0) hs,
      )
      (ap (λ t. salt ++ t) (copy_at_all prefix (replicate 8 0) hp))

pub header_of_lem :
    (salt prefix : List ℕ)
    → length salt ≡ salt_size
    → length prefix ≡ nonce_prefix_size
    → header_of salt prefix
      ≡ record { serialized = skf1_fixed ++ (salt ++ prefix); salt = salt; nonce_prefix = prefix }
unfolding header_of u32_be
header_of_lem salt prefix hs hp =
    rw (copy_at_all salt (replicate 32 0) hs, copy_at_all prefix (replicate 8 0) hp)
      (ap
        (λ (t : List ℕ). record {
          serialized = skf1_fixed ++ t;
          salt = salt;
          nonce_prefix = prefix;
        })
        (drawn_parts salt prefix hs hp))

-- A header that has the fixed part parses to the rest's salt and nonce prefix.
parse_fixed :
    (rest : List ℕ)
    → parse_header (skf1_fixed ++ rest)
      ≡ ok (record {
        serialized = skf1_fixed ++ rest;
        salt = take 32 rest;
        nonce_prefix = drop 32 rest;
      })
unfolding parse_header bytes_eq
parse_fixed rest = ground (arith, read_u32_be_lem 0 16 0 0)

-- Only such a header parses.
parse_fixed_inv :
    (a b c d v g i0 i1 i2 i3 : ℕ) (rest : List ℕ) (h : FileHeader)
    → IsByte i0
    → IsByte i1
    → IsByte i2
    → IsByte i3
    → parse_header (a ∷ b ∷ c ∷ d ∷ v ∷ g ∷ i0 ∷ i1 ∷ i2 ∷ i3 ∷ rest) ≡ ok h
    → (a ∷ b ∷ c ∷ d ∷ v ∷ g ∷ i0 ∷ i1 ∷ i2 ∷ i3 ∷ rest) ≡ skf1_fixed ++ rest
unfolding parse_header bytes_eq
parse_fixed_inv a b c d v g i0 i1 i2 i3 rest h h0 h1 h2 h3 e =
    ground (arith, e, read_u32_be_lem i0 i1 i2 i3 h0 h1 h2 h3)

parse_header_inv :
    (x : List ℕ) (h : FileHeader)
    → length x ≡ header_size
    → All IsByte x
    → parse_header x ≡ ok h
    → (rest : List ℕ) × (length rest ≡ 40) × (x ≡ skf1_fixed ++ rest)
parse_header_inv x h size bytes e =
    let (a, b, c, d, r1, e1) = four x (omega (arith, size)) in
    let (v, g, i0, i1, r2, e2) = four r1 (omega (arith, size, ap length e1)) in
    let (i2, i3, rest, e3) = two r2 (omega (arith, size, ap length e1, ap length e2)) in
    let whole : x ≡ a ∷ b ∷ c ∷ d ∷ v ∷ g ∷ i0 ∷ i1 ∷ i2 ∷ i3 ∷ rest = cc (e1, e2, e3) in
    let all : All IsByte (a ∷ b ∷ c ∷ d ∷ v ∷ g ∷ i0 ∷ i1 ∷ i2 ∷ i3 ∷ rest) = rw whole at bytes in
    let (_, (_, (_, (_, (_, (_, (h0, (h1, (h2, (h3, _)))))))))) = all in
    (
      rest,
      omega (arith, size, ap length whole),
      whole ∙ parse_fixed_inv a b c d v g i0 i1 i2 i3 rest h h0 h1 h2 h3 (rw whole at e),
    )

pub parse_header-header_of :
    (salt prefix : List ℕ)
    → length salt ≡ salt_size
    → length prefix ≡ nonce_prefix_size
    → parse_header (header_of salt prefix).serialized ≡ ok (header_of salt prefix)
parse_header-header_of salt prefix hs hp = rw (header_of_lem salt prefix hs hp) (
    parse_fixed (salt ++ prefix)
    ∙ rw (take-append 32 salt prefix hs, drop-append 32 salt prefix hs))

-- Fifty bytes parse as an SKF1 header exactly when they are the serialized form of the header that
-- `make_header` builds from some 32-byte salt and 8-byte nonce prefix, and they parse to that
-- header.
pub parse_header_iff :
    (x : List ℕ) (h : FileHeader)
    → length x ≡ header_size
    → All IsByte x
    → (parse_header x ≡ ok h) ↔ (
        (salt prefix : List ℕ) × (length salt ≡ salt_size)
        × (length prefix ≡ nonce_prefix_size)
        × (h ≡ header_of salt prefix)
        × (x ≡ h.serialized))
parse_header_iff x h size bytes = (
  λ e.
      let (rest, rest_size, whole) = parse_header_inv x h size bytes e in
      let salt = take 32 rest in
      let prefix = drop 32 rest in
      let hs : length salt ≡ 32 = omega (arith, length-take 32 rest) in
      let hp : length prefix ≡ 8 = omega (arith, length-drop 32 rest) in
      let eh : h ≡ record { serialized = skf1_fixed ++ rest; salt = salt; nonce_prefix = prefix } =
        ground (arith, rw whole at e, parse_fixed rest) in
      (
        salt,
        prefix,
        hs,
        hp,
        cc (eh, header_of_lem salt prefix hs hp, take-append-drop 32 rest),
        cc (eh, whole),
      ),
  λ (salt, prefix, hs, hp, eh, ex). cc (parse_header-header_of salt prefix hs hp, eh, ex),
)
