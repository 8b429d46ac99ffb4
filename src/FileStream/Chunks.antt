-- ===== src/FileStream/Chunks.antt =====
-- A chunk of a file: what is sealed is opened, and what is opened was sealed.
use securekit.Prelude.{
  ℕ, ◌+◌, ◌^◌, ◌<◌, ◌≤◌, ◌≡◌, refl, sym, ap, ◌∙◌, inl, inr, ◌==◌, not, ◌&&◌, Bool, true, false,
  Bool-cases, List, ◌++◌, append_assoc, length, length-append, All, All-append_inv, IsByte, arith,
  int_max, bytes_eq, bytes_eq_refl, bytes_eq→eq, if◌then◌else◌,
}
use mathlib.Core.Path.{subst}
use securekit.Errors.{Result, ok, err}
use securekit.Exec.{lift, >>=-eq-ok}
use securekit.Evp.{Evp, Gcm}
use securekit.FileFormat.{
  chunk_size, tag_size, record_header_size, not_final, final, nonce_prefix_size, RecordHeader,
  make_nonce, make_record_header, make_chunk_aad, u32_be,
}
use securekit.FileFormat.Records.{
  IsFlag, parse_record_header-make_record_header, parse_record_header_iff,
}
use securekit.FileCrypto.{not_authentic}
use securekit.FileCrypto.Chunks.{decrypt_chunk_lem}
use securekit.IoStream.{IStream}
use securekit.IoStream.Laws.{clean}
use securekit.FileStream.{flag_of, check_end, read_record, open_record, read_chunk}
use securekit.FileStream.Records.{read_record_lem, read_record_inv, record_bytes, IsRecord}
use securekit.FileStream.Format.{sealed_chunk}
use securekit.FileStream.Seal.{length-make_nonce}

pub length-serialized : (i n flag : ℕ) → length (make_record_header i n flag).serialized ≡ 9
unfolding make_record_header u32_be
length-serialized i n flag = refl

flag_of-IsFlag : (f : Bool) → IsFlag (flag_of f)
flag_of-IsFlag true = inr refl
flag_of-IsFlag false = inl refl

flag_is_final : (f : Bool) → (flag_of f == final) ≡ f
flag_is_final true = refl
flag_is_final false = refl

flag_fits :
    (n : ℕ) (f : Bool)
    → (f ≡ false → n ≡ chunk_size)
    → (flag_of f == not_final && not (n == chunk_size)) ≡ false
flag_fits n true full = refl
flag_fits n false full = ground (arith, full refl)

-- A flag byte of a record is that of its Boolean.
flag_of-final : (flag : ℕ) → IsFlag flag → flag ≡ flag_of (flag == final)
flag_of-final flag h = ground (arith, h)

module _ (evp : Evp) (gcm : Gcm evp) (header prefix k aad : List ℕ)
    (prefix_fits : length prefix ≡ nonce_prefix_size) (key_fits : length k ≡ 32)
    (aad_fits : length header + 9 + length aad ≤ int_max) where
  open gcm use {crypt, auth_tag}

  abbrev nonce_of : RecordHeader → List ℕ
  nonce_of r = make_nonce prefix r.index

  abbrev aad_of : RecordHeader → List ℕ
  aad_of r = make_chunk_aad header r aad

  length-aad_of :
      (r : RecordHeader) → length r.serialized ≡ record_header_size → length (aad_of r) ≤ int_max
  unfolding make_chunk_aad
  length-aad_of r size =
      omega
        (arith, size, length-append (header ++ r.serialized) aad, length-append header r.serialized)

  abbrev tag_of : RecordHeader → List ℕ → List ℕ
  tag_of r c = auth_tag k (nonce_of r) (aad_of r) c

  -- A record opens by its tag.
  open_record_lem :
      (r : RecordHeader) (c g : List ℕ)
      → length r.serialized ≡ record_header_size
      → length c ≤ chunk_size
      → length g ≡ tag_size
      → open_record evp header prefix k aad (r, c, g) ≡ (
          if bytes_eq g (tag_of r c)
          then ok (crypt k (nonce_of r) 0 c, r.final_flag == final)
          else err not_authentic)
  unfolding open_record
  open_record_lem r c g size small tag_fits = ground (
    arith,
    decrypt_chunk_lem evp gcm k (nonce_of r) (aad_of r) c g key_fits
        (length-make_nonce prefix r.index prefix_fits) (length-aad_of r size) (omega arith)
        tag_fits,
  )

  pub open_record_sealed :
      (r : RecordHeader) (p : List ℕ)
      → length r.serialized ≡ record_header_size
      → length p ≤ chunk_size
      → let c = crypt k (nonce_of r) 0 p in
        open_record evp header prefix k aad (r, c, tag_of r c) ≡ ok (p, r.final_flag == final)
  open_record_sealed r p size small =
      let c = crypt k (nonce_of r) 0 p in
      open_record_lem r c (tag_of r c) size (omega (arith, gcm.length-crypt k (nonce_of r) 0 p))
        (gcm.length-auth_tag k (nonce_of r) (aad_of r) c)
      ∙ rw (bytes_eq_refl (tag_of r c), gcm.crypt_involutive k (nonce_of r) 0 p)

  pub open_record_inv :
      (r : RecordHeader) (c g p : List ℕ) (f : Bool)
      → length r.serialized ≡ record_header_size
      → length c ≤ chunk_size
      → length g ≡ tag_size
      → open_record evp header prefix k aad (r, c, g) ≡ ok (p, f)
      → (f ≡ (r.final_flag == final))
        × (length p ≡ length c)
        × (c ≡ crypt k (nonce_of r) 0 p)
        × (g ≡ tag_of r (crypt k (nonce_of r) 0 p))
  open_record_inv r c g p f size small tag_fits e =
      let verdict = sym (open_record_lem r c g size small tag_fits) ∙ e in
      elim (Bool-cases (bytes_eq g (tag_of r c))) [
        | inr wrong ↦ absurd (ground (arith, verdict, wrong))
        | inl right ↦
            let plain : p ≡ crypt k (nonce_of r) 0 c = ground (arith, verdict, right) in
            let back : c ≡ crypt k (nonce_of r) 0 p =
              rw plain (sym (gcm.crypt_involutive k (nonce_of r) 0 c)) in
            (
              ground (arith, verdict, right),
              rw plain (gcm.length-crypt k (nonce_of r) 0 c),
              back,
              bytes_eq→eq g (tag_of r c) right ∙ ap (tag_of r) back,
            )
      ]

  -- A chunk in front of `y`, as far as the check of the end passes.
  pub read_chunk_lem :
      (i : ℕ) (p : List ℕ) (f : Bool) (y : List ℕ) (s : IStream)
      → i < 2 ^ 32
      → length p ≤ chunk_size
      → (f ≡ false → length p ≡ chunk_size)
      → check_end (flag_of f) (clean y) ≡ (ok tt, s)
      → read_chunk evp header prefix k aad i
          (clean (sealed_chunk evp gcm header prefix k aad i p f ++ y))
        ≡ (ok (p, f), s)
  unfolding read_chunk make_record_header
  read_chunk_lem i p f y s word small full end =
      let r = make_record_header i (length p) (flag_of f) in
      let c = crypt k (nonce_of r) 0 p in
      let got =
        read_record_lem i r c (tag_of r c) y s (length-serialized i (length p) (flag_of f))
          (parse_record_header-make_record_header i (length p) (flag_of f) word small
            (flag_of-IsFlag f))
          (refl, flag_fits (length p) f full) (gcm.length-crypt k (nonce_of r) 0 p)
          (gcm.length-auth_tag k (nonce_of r) (aad_of r) c) end in
      rw got (
        ap (λ (t : Result (List ℕ × Bool)). (t, s))
          (open_record_sealed r p (length-serialized i (length p) (flag_of f)) small
            ∙ ap (λ t. ok (p, t)) (flag_is_final f)))

  -- What a chunk that is accepted looks like.
  abbrev pub IsChunk : ℕ → List ℕ → List ℕ → Bool → IStream → Type 0
  IsChunk i x p f s =
      (y : List ℕ) × (x ≡ sealed_chunk evp gcm header prefix k aad i p f ++ y)
      × (i < 2 ^ 32)
      × (length p ≤ chunk_size)
      × (f ≡ false → length p ≡ chunk_size)
      × (check_end (flag_of f) (clean y) ≡ (ok tt, s))

  -- The bytes of a chunk whose header is `r`.
  abbrev chunk_with : List ℕ → RecordHeader → List ℕ
  chunk_with p r = let c = crypt k (nonce_of r) 0 p in record_bytes r c (tag_of r c)

  chunk_with_lem :
      (i : ℕ) (p : List ℕ) (f : Bool)
      → chunk_with p (make_record_header i (length p) (flag_of f))
        ≡ sealed_chunk evp gcm header prefix k aad i p f
  unfolding make_record_header
  chunk_with_lem i p f = refl

  opened_parts :
      (i : ℕ) (x p : List ℕ) (f : Bool) (s : IStream) (r : RecordHeader) (c g : List ℕ)
      → All IsByte x
      → IsRecord i x r c g s
      → open_record evp header prefix k aad (r, c, g) ≡ ok (p, f)
      → IsChunk i x p f s
  opened_parts i x p f s r c g bytes
        (h, x', split, size, parsed, (same, fits), (y, split', c_size, g_size, end)) opened =
      let (own, shape, word, small, flag) =
        (parse_record_header_iff h r size
            (All-append_inv IsByte h x' (subst (All IsByte) split bytes)).0).0
          parsed in
      let r_size : length r.serialized ≡ record_header_size = rw (← own) size in
      let (f_same, p_size, c_same, g_same) =
        open_record_inv r c g p f r_size (omega (arith, c_size, small)) g_size opened in
      let n_same : r.plaintext_size ≡ length p = sym c_size ∙ sym p_size in
      let flag_same : r.final_flag ≡ flag_of f =
        flag_of-final r.final_flag flag ∙ ap flag_of (sym f_same) in
      let whole : r ≡ make_record_header i (length p) (flag_of f) =
        shape ∙ rw (same, n_same, flag_same) in
      let parts : x ≡ chunk_with p r ++ y =
        split ∙ rw (own, split', c_same, g_same) (sym (simp append_assoc)) in
      (
        y,
        parts ∙ ap (λ t. t ++ y) (ap (chunk_with p) whole ∙ chunk_with_lem i p f),
        rw (← same) word,
        rw (← n_same) small,
        λ more. ground (arith, fits, flag_same, more, n_same),
        rw (← flag_same) end,
      )

  pub read_chunk_inv :
      (i : ℕ) (x p : List ℕ) (f : Bool) (s : IStream)
      → All IsByte x
      → read_chunk evp header prefix k aad i (clean x) ≡ (ok (p, f), s)
      → IsChunk i x p f s
  unfolding read_chunk
  read_chunk_inv i x p f s bytes e =
      let ((r, c, g), s1, got, opened) =
        >>=-eq-ok (read_record i) (λ found. lift (open_record evp header prefix k aad found))
          (clean x) e in
      let at : s1 ≡ s = ap (λ (t : Result (List ℕ × Bool) × IStream). t.1) opened in
      opened_parts i x p f s r c g bytes
        (subst (IsRecord i x r c g) at (read_record_inv i x r c g s1 got))
        (ap (λ (t : Result (List ℕ × Bool) × IStream). t.0) opened)
