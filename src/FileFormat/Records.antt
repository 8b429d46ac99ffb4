-- ===== src/FileFormat/Records.antt =====
-- The record header of a chunk, and the chunk's nonce.
use securekit.Prelude.{
  ℕ, ◌^◌, ◌≤◌, ◌<◌, ◌≡◌, ◌↔◌, ◌⊎◌, refl, one, ap, sym, ◌∙◌, List, [], ◌∷◌, ◌++◌, length, All,
  IsByte, arith, four, copy_at-append, copy_at_skip, replicate,
}
use securekit.Errors.{ok}
use securekit.FileFormat.{
  chunk_size, record_header_size, nonce_prefix_size, not_final, final, u32_be, read_u32_be,
  RecordHeader, make_record_header, parse_record_header, make_nonce,
}
use securekit.FileFormat.Words.{read_u32_be_lem, read_u32_be-u32_be, u32_be-read_u32_be}

pub make_record_header_lem :
    (index size flag : ℕ)
    → make_record_header index size flag ≡ record {
      serialized = u32_be index ++ (u32_be size ++ (flag ∷ []));
      index = index;
      plaintext_size = size;
      final_flag = flag;
    }
unfolding make_record_header u32_be
make_record_header_lem index size flag = refl

abbrev pub IsFlag : ℕ → Type 0
IsFlag flag = (flag ≡ not_final) ⊎ (flag ≡ final)

parse_nine :
    (a b c d e f g h flag : ℕ)
    → IsFlag flag
    → read_u32_be (e ∷ f ∷ g ∷ h ∷ []) ≤ chunk_size
    → parse_record_header (a ∷ b ∷ c ∷ d ∷ e ∷ f ∷ g ∷ h ∷ flag ∷ [])
      ≡ ok (record {
        serialized = a ∷ b ∷ c ∷ d ∷ e ∷ f ∷ g ∷ h ∷ flag ∷ [];
        index = read_u32_be (a ∷ b ∷ c ∷ d ∷ []);
        plaintext_size = read_u32_be (e ∷ f ∷ g ∷ h ∷ []);
        final_flag = flag;
      })
unfolding parse_record_header
parse_nine a b c d e f g h flag is_flag small = ground arith

parse_nine_inv :
    (a b c d e f g h flag : ℕ) (r : RecordHeader)
    → parse_record_header (a ∷ b ∷ c ∷ d ∷ e ∷ f ∷ g ∷ h ∷ flag ∷ []) ≡ ok r
    → IsFlag flag
      × (read_u32_be (e ∷ f ∷ g ∷ h ∷ []) ≤ chunk_size)
      × (r ≡ record {
        serialized = a ∷ b ∷ c ∷ d ∷ e ∷ f ∷ g ∷ h ∷ flag ∷ [];
        index = read_u32_be (a ∷ b ∷ c ∷ d ∷ []);
        plaintext_size = read_u32_be (e ∷ f ∷ g ∷ h ∷ []);
        final_flag = flag;
      })
unfolding parse_record_header
parse_nine_inv a b c d e f g h flag r e' = ground (arith, e')

-- Reading back what was written.
pub parse_record_header-make_record_header :
    (index size flag : ℕ)
    → index < 2 ^ 32
    → size ≤ chunk_size
    → IsFlag flag
    → parse_record_header (make_record_header index size flag).serialized
      ≡ ok (make_record_header index size flag)
unfolding u32_be
parse_record_header-make_record_header index size flag hi hs hf =
    let ei = read_u32_be-u32_be index hi in
    let es = read_u32_be-u32_be size (omega arith) in
    rw (make_record_header_lem index size flag)
      (parse_nine _ _ _ _ _ _ _ _ flag hf (rw es hs) ∙ rw (ei, es))

record_bounds :
    (a b c d e f g h : ℕ)
    → All IsByte (a ∷ b ∷ c ∷ d ∷ e ∷ f ∷ g ∷ h ∷ [])
    → (read_u32_be (a ∷ b ∷ c ∷ d ∷ []) < 2 ^ 32)
      × (u32_be (read_u32_be (a ∷ b ∷ c ∷ d ∷ [])) ≡ a ∷ b ∷ c ∷ d ∷ [])
      × (u32_be (read_u32_be (e ∷ f ∷ g ∷ h ∷ [])) ≡ e ∷ f ∷ g ∷ h ∷ [])
record_bounds a b c d e f g h (ha, (hb, (hc, (hd, (he, (hf, (hg, (hh, _)))))))) = (
  omega (arith, read_u32_be_lem a b c d ha hb hc hd),
  u32_be-read_u32_be a b c d ha hb hc hd,
  u32_be-read_u32_be e f g h he hf hg hh,
)

parse_record_header_inv :
    (x : List ℕ) (r : RecordHeader)
    → length x ≡ record_header_size
    → All IsByte x
    → parse_record_header x ≡ ok r
    → (x ≡ r.serialized)
      × (r ≡ make_record_header r.index r.plaintext_size r.final_flag)
      × (r.index < 2 ^ 32)
      × (r.plaintext_size ≤ chunk_size)
      × IsFlag r.final_flag
parse_record_header_inv x r size bytes parsed =
    let (a, b, c, d, r1, e1) = four x (omega (arith, size)) in
    let (e, f, g, h, r2, e2) = four r1 (omega (arith, size, ap length e1)) in
    let (flag, e3) = one r2 (omega (arith, size, ap length e1, ap length e2)) in
    let whole : x ≡ a ∷ b ∷ c ∷ d ∷ e ∷ f ∷ g ∷ h ∷ flag ∷ [] = cc (e1, e2, e3) in
    let (is_flag, small, shape) = parse_nine_inv a b c d e f g h flag r (rw whole at parsed) in
    let all : All IsByte (a ∷ b ∷ c ∷ d ∷ e ∷ f ∷ g ∷ h ∷ flag ∷ []) = rw whole at bytes in
    let (bound, back_index, back_size) = record_bounds a b c d e f g h (
      all.0,
      (
        all.1.0,
        (
          all.1.1.0,
          (
            all.1.1.1.0,
            (all.1.1.1.1.0, (all.1.1.1.1.1.0, (all.1.1.1.1.1.1.0, (all.1.1.1.1.1.1.1.0, tt)))),
          ),
        ),
      ),
    ) in
    let made =
      make_record_header_lem (read_u32_be (a ∷ b ∷ c ∷ d ∷ [])) (read_u32_be (e ∷ f ∷ g ∷ h ∷ []))
        flag in
    (
      ground (arith, whole, shape),
      rw shape (sym (made ∙ rw (back_index, back_size))),
      rw shape bound,
      rw shape small,
      rw shape is_flag,
    )

-- Nine bytes parse as a record header exactly when they are what `make_record_header` serializes
-- for a 32-bit index, a size of at most a chunk, and one of the two flags; they parse to that
-- header.
pub parse_record_header_iff :
    (x : List ℕ) (r : RecordHeader)
    → length x ≡ record_header_size
    → All IsByte x
    → (parse_record_header x ≡ ok r) ↔ (
        (x ≡ r.serialized)
        × (r ≡ make_record_header r.index r.plaintext_size r.final_flag)
        × (r.index < 2 ^ 32)
        × (r.plaintext_size ≤ chunk_size)
        × IsFlag r.final_flag)
parse_record_header_iff x r size bytes = (
  parse_record_header_inv x r size bytes,
  λ (ex, er, hi, hs, hf). cc (
    ex,
    er,
    parse_record_header-make_record_header r.index r.plaintext_size r.final_flag hi hs hf,
  ),
)

-- The nonce of a chunk is the prefix and the index.
pub make_nonce_lem :
    (prefix : List ℕ) (index : ℕ)
    → length prefix ≡ nonce_prefix_size
    → make_nonce prefix index ≡ prefix ++ u32_be index
unfolding make_nonce
make_nonce_lem prefix index h =
    rw
      (
        copy_at-append prefix (replicate 8 0) (replicate 4 0) h,
        copy_at_skip 8 (u32_be index) prefix (replicate 4 0) h,
      )
      (ap (λ t. prefix ++ t) (unfold u32_be in refl))
