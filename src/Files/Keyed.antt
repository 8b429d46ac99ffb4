-- ===== src/Files/Keyed.antt =====
-- Files sealed and opened with a key, on healthy streams and a backend that does not fail.
use securekit.Prelude.{
  ℕ, ◌+◌, ◌*◌, ◌^◌, ◌≤◌, ◌≡◌, ◌↔◌, refl, sym, ap, ◌∙◌, List, [], ◌++◌, length, codes, length-append,
  All, All-append_inv, IsByte, arith, int_max,
}
use mathlib.Core.Path.{subst}
use mathlib.Core.List.{flatten}
use securekit.Errors.{Result, ok}
use securekit.Exec.{lift, ◌>>=◌, >>=-eq-ok}
use securekit.Evp.{Evp, Gcm}
use securekit.Hash.{Hashing}
use securekit.Hash.Laws.{IsHashing, hkdf_sha256-within}
use securekit.Random.{Generator, random_bytes}
use securekit.Random.Laws.{IsFilling, length-random_bytes}
use securekit.FileFormat.{
  FileHeader, header_size, salt_size, nonce_prefix_size, chunk_size, parse_header, header_of,
}
use securekit.FileFormat.Headers.{header_of_lem, parse_header_iff, parse_header-header_of}
use securekit.FileCrypto.{make_header, derive_file_key}
use securekit.IoStream.{IStream, Sink}
use securekit.IoStream.Laws.{clean}
use securekit.FileStream.{on_input, require_exact, seal_stream_payload, open_file_payload}
use securekit.IoStream.Sinks.{IsSink}
use securekit.FileStream.Format.{IsChunked, payload}
use securekit.FileStream.Records.{require_exact-append, require_exact_inv}
use securekit.FileStream.Seal.{seal_stream_payload_lem, take_all}
use securekit.FileStream.Open.{open_file_payload_iff, open_file_payload-payload, on_input_inv}
use securekit.Files.{seal_file, open_file, on_io}

length-header_of :
    (salt prefix : List ℕ)
    → length salt ≡ salt_size
    → length prefix ≡ nonce_prefix_size
    → length (header_of salt prefix).serialized ≡ header_size
length-header_of salt prefix hs hp =
    rw (header_of_lem salt prefix hs hp) (omega (arith, hs, hp, length-append salt prefix))

module _ (evp : Evp) (gcm : Gcm evp) (sink : Sink) (law : IsSink sink) (hashing : Hashing)
    (hash : IsHashing hashing) (key aad : List ℕ)
    (aad_fits : header_size + 9 + length aad ≤ int_max) where
  open law use {written, Accepting}

  abbrev pub file_key : List ℕ → List ℕ
  file_key salt = hash.hkdf key salt (codes "securekit file sealing v1") 32

  -- The bytes of a file, by its salt, its nonce prefix and its chunks.
  abbrev pub file_of : List ℕ → List ℕ → List (List ℕ) → List ℕ → List ℕ
  file_of salt prefix cs last =
      let header = (header_of salt prefix).serialized in
      header ++ payload evp gcm header prefix (file_key salt) aad 0 cs last

  derive_file_key_lem :
      (salt prefix : List ℕ)
      → length salt ≡ salt_size
      → length prefix ≡ nonce_prefix_size
      → derive_file_key hashing key (header_of salt prefix) ≡ ok (file_key salt)
  unfolding derive_file_key
  derive_file_key_lem salt prefix hs hp = rw (header_of_lem salt prefix hs hp) (
      ground (
        arith,
        hkdf_sha256-within hashing hash key salt (codes "securekit file sealing v1") 32
            (omega arith),
        take_all 32 (file_key salt)
            (hash.length-hkdf key salt (codes "securekit file sealing v1") 32 (omega arith)),
      ))

  length-file_key : (salt : List ℕ) → length (file_key salt) ≡ 32
  length-file_key salt =
      hash.length-hkdf key salt (codes "securekit file sealing v1") 32 (omega arith)

  header_fits :
      (salt prefix : List ℕ)
      → length salt ≡ salt_size
      → length prefix ≡ nonce_prefix_size
      → length (header_of salt prefix).serialized + 9 + length aad ≤ int_max
  header_fits salt prefix hs hp = omega (arith, length-header_of salt prefix hs hp, aad_fits)

  payload_iff :
      (salt prefix t p : List ℕ) (o : sink.Out)
      → length salt ≡ salt_size
      → length prefix ≡ nonce_prefix_size
      → All IsByte t
      → Accepting o
      → let header = (header_of salt prefix).serialized in
        ((s' : IStream × sink.Out) × (open_file_payload evp sink header prefix
              (file_key salt)
              aad
              (clean t, o)
            ≡ (ok tt, s'))
          × (written s'.1 ≡ written o ++ p))
        ↔ ((cs : List (List ℕ)) × (last : List ℕ) × IsChunked 0 cs last
            × (t ≡ payload evp gcm header prefix (file_key salt) aad 0 cs last)
            × (flatten cs ++ last ≡ p))
  payload_iff salt prefix t p o hs hp bytes ready =
      open_file_payload_iff evp gcm sink law (header_of salt prefix).serialized prefix
        (file_key salt) aad hp (length-file_key salt) (header_fits salt prefix hs hp) t p o bytes
        ready

  -- Behind a header that `make_header` wrote, `open_file` opens the payload.
  open_file-header_of :
      (salt prefix t : List ℕ) (o : sink.Out)
      → length salt ≡ salt_size
      → length prefix ≡ nonce_prefix_size
      → let header = (header_of salt prefix).serialized in
        open_file evp sink hashing key aad (clean (header ++ t), o)
        ≡ open_file_payload evp sink header prefix (file_key salt) aad (clean t, o)
  unfolding open_file
  open_file-header_of salt prefix t o hs hp =
      let h = header_of salt prefix in
      rw
        (
          require_exact-append header_size h.serialized t (length-header_of salt prefix hs hp),
          parse_header-header_of salt prefix hs hp,
          derive_file_key_lem salt prefix hs hp,
        )
        (ap (λ n. open_file_payload evp sink h.serialized n (file_key salt) aad (clean t, o))
          (ap (λ (t : FileHeader). t.nonce_prefix) (header_of_lem salt prefix hs hp)))

  open_file_inv :
      (x : List ℕ) (o : sink.Out) (s' : IStream × sink.Out)
      → All IsByte x
      → open_file evp sink hashing key aad (clean x, o) ≡ (ok tt, s')
      → (salt prefix t : List ℕ) × (length salt ≡ salt_size)
        × (length prefix ≡ nonce_prefix_size)
        × (x ≡ (header_of salt prefix).serialized ++ t)
  unfolding open_file
  open_file_inv x o s' bytes e =
      let (header_bytes, s1, got, e1) =
        >>=-eq-ok (on_input evp sink (require_exact header_size))
          (λ header_bytes. do
            header ← lift (parse_header header_bytes)
            derived ← lift (derive_file_key hashing key header)
            open_file_payload evp sink header.serialized header.nonce_prefix derived aad)
          (clean x, o) e in
      let (header, s2, parsed, e2) =
        >>=-eq-ok (lift (parse_header header_bytes))
          (λ header. do
            derived ← lift (derive_file_key hashing key header)
            open_file_payload evp sink header.serialized header.nonce_prefix derived aad)
          s1 e1 in
      let (read, out) =
        on_input_inv evp sink (require_exact header_size) (clean x) o header_bytes s1 got in
      let (t, split, size, at) = require_exact_inv header_size x header_bytes s1.0 read in
      let (salt, prefix, hs, hp, shape, whole) =
        (parse_header_iff header_bytes header size
            (All-append_inv IsByte header_bytes t (subst (All IsByte) split bytes)).0).0
          (ap (λ (t : Result FileHeader × (IStream × sink.Out)). t.0) parsed) in
      (
        salt,
        prefix,
        t,
        hs,
        hp,
        split ∙ ap (λ b. b ++ t) (whole ∙ ap (λ (t : FileHeader). t.serialized) shape),
      )

  -- For an input of bytes and an output that takes them, on a backend that meets the laws of
  -- AES-256-GCM and HKDF, healthy streams and associated data of at most INT_MAX - 59 bytes,
  -- `open_file` succeeds and writes a plaintext exactly when the input is, byte for byte and to
  -- its end, the SKF1 header of some 32-byte salt and 8-byte nonce prefix, followed by the sealed
  -- chunks of that plaintext in order: full chunks, then one final chunk of at most 1 MiB, at most
  -- 2^32 in all.
  pub open_file_iff :
      (x p : List ℕ) (o : sink.Out)
      → All IsByte x
      → Accepting o
      → ((s' : IStream × sink.Out) × (open_file evp sink hashing key aad (clean x, o) ≡ (ok tt, s'))
          × (written s'.1 ≡ written o ++ p))
        ↔ ((salt prefix : List ℕ) × (cs : List (List ℕ)) × (last : List ℕ) × (length salt
              ≡ salt_size)
            × (length prefix ≡ nonce_prefix_size)
            × IsChunked 0 cs last
            × (x ≡ file_of salt prefix cs last)
            × (flatten cs ++ last ≡ p))
  open_file_iff x p o bytes ready = (
    λ (s', e, w).
        let (salt, prefix, t, hs, hp, split) = open_file_inv x o s' bytes e in
        let header = (header_of salt prefix).serialized in
        let t_bytes = (All-append_inv IsByte header t (subst (All IsByte) split bytes)).1 in
        let opened =
          sym (open_file-header_of salt prefix t o hs hp)
          ∙ ap (λ b. open_file evp sink hashing key aad (clean b, o)) (sym split)
          ∙ e in
        let (cs, last, chunked, shape, parts) =
          (payload_iff salt prefix t p o hs hp t_bytes ready).0 (s', opened, w) in
        (salt, prefix, cs, last, hs, hp, chunked, split ∙ ap (λ b. header ++ b) shape, parts),
    λ (salt, prefix, cs, last, hs, hp, chunked, shape, parts).
        let header = (header_of salt prefix).serialized in
        let t = payload evp gcm header prefix (file_key salt) aad 0 cs last in
        let t_bytes = (All-append_inv IsByte header t (subst (All IsByte) shape bytes)).1 in
        let (s', e, w) =
          (payload_iff salt prefix t p o hs hp t_bytes ready).1 (cs, last, chunked, refl, parts) in
        (
          s',
          ap (λ b. open_file evp sink hashing key aad (clean b, o)) shape
              ∙ open_file-header_of salt prefix t o hs hp
              ∙ e,
          w,
        ),
  )

  -- For a plaintext of at most 2^32 MiB, a salt and a nonce prefix drawn from a generator that
  -- fills its buffers, and an output that takes the bytes, on a backend that meets the laws of
  -- AES-256-GCM and HKDF, healthy streams and associated data of at most INT_MAX - 59 bytes,
  -- `seal_file` succeeds and writes the header of the salt and the nonce prefix that were drawn
  -- and the sealed chunks of the plaintext, all full but the last one, which is empty only if it
  -- is the only one.
  pub seal_file_lem :
      (gen : Generator) (filling : IsFilling gen) (p salt prefix : List ℕ) (o : sink.Out)
      (s s1 s2 : gen.Source)
      → random_bytes gen salt_size s ≡ (ok salt, s1)
      → random_bytes gen nonce_prefix_size s1 ≡ (ok prefix, s2)
      → length p ≤ chunk_size * 2 ^ 32
      → Accepting o
      → (cs : List (List ℕ)) × (last : List ℕ) × (input' : IStream) × (o' : sink.Out) × (flatten cs
            ++ last
          ≡ p)
        × IsChunked 0 cs last
        × (length last ≡ 0 → cs ≡ [])
        × (seal_file evp sink hashing gen key aad (s, (clean p, o)) ≡ (ok tt, (s2, (input', o'))))
        × (written o' ≡ written o ++ file_of salt prefix cs last)
  unfolding seal_file make_header
  seal_file_lem gen filling p salt prefix o s s1 s2 e1 e2 fits ready =
      let hs = length-random_bytes gen filling salt_size salt s s1 e1 in
      let hp = length-random_bytes gen filling nonce_prefix_size prefix s1 s2 e2 in
      let h = header_of salt prefix in
      let (cs, last, input', o', parts, chunked, tail, e, w) =
        seal_stream_payload_lem evp gcm sink law h.serialized prefix (file_key salt) aad hp
          (length-file_key salt) (header_fits salt prefix hs hp) p o fits ready in
      (
        cs,
        last,
        input',
        o',
        parts,
        chunked,
        tail,
        rw (e1, e2, derive_file_key_lem salt prefix hs hp)
            (ap
                (λ n.
                  on_io evp sink hashing gen
                    (seal_stream_payload evp sink h.serialized n (file_key salt) aad)
                    (s2, (clean p, o)))
                (ap (λ (t : FileHeader). t.nonce_prefix) (header_of_lem salt prefix hs hp))
              ∙ ap (λ (t : Result (Unit {0}) × (IStream × sink.Out)). (t.0, (s2, t.1))) e),
        w,
      )

  -- For a plaintext of at most 2^32 MiB and a salt and a nonce prefix drawn from a generator that
  -- fills its buffers, on a backend that meets the laws of AES-256-GCM and HKDF, healthy streams
  -- and associated data of at most INT_MAX - 59 bytes and outputs that take the bytes, `seal_file`
  -- succeeds, and `open_file` on what it wrote succeeds and writes the plaintext.
  pub open_file-seal_file :
      (gen : Generator) (filling : IsFilling gen) (p salt prefix : List ℕ) (o o2 : sink.Out)
      (s s1 s2 : gen.Source)
      → random_bytes gen salt_size s ≡ (ok salt, s1)
      → random_bytes gen nonce_prefix_size s1 ≡ (ok prefix, s2)
      → length p ≤ chunk_size * 2 ^ 32
      → Accepting o
      → Accepting o2
      → (sealed : List ℕ) × (input' : IStream) × (o' : sink.Out) × (s' : IStream × sink.Out)
        × (seal_file evp sink hashing gen key aad (s, (clean p, o)) ≡ (ok tt, (s2, (input', o'))))
        × (written o' ≡ written o ++ sealed)
        × (open_file evp sink hashing key aad (clean sealed, o2) ≡ (ok tt, s'))
        × (written s'.1 ≡ written o2 ++ p)
  open_file-seal_file gen filling p salt prefix o o2 s s1 s2 e1 e2 fits ready ready2 =
      let hs = length-random_bytes gen filling salt_size salt s s1 e1 in
      let hp = length-random_bytes gen filling nonce_prefix_size prefix s1 s2 e2 in
      let (cs, last, input', o', parts, chunked, tail, e, w) =
        seal_file_lem gen filling p salt prefix o s s1 s2 e1 e2 fits ready in
      let header = (header_of salt prefix).serialized in
      let (s', opened, w') =
        open_file_payload-payload evp gcm sink law header prefix (file_key salt) aad hp
          (length-file_key salt) (header_fits salt prefix hs hp) cs last o2 chunked ready2 in
      (
        file_of salt prefix cs last,
        input',
        o',
        s',
        e,
        w,
        open_file-header_of salt prefix _ o2 hs hp ∙ opened,
        w' ∙ ap (λ b. written o2 ++ b) parts,
      )
