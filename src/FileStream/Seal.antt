-- ===== src/FileStream/Seal.antt =====
-- `seal_stream_payload` on a healthy input and an output that takes what is written.
use securekit.Prelude.{
  ℕ, zero, suc, ◌+◌, ◌-◌, ◌*◌, ◌^◌, ◌<◌, ◌≤◌, ◌≡◌, refl, sym, ap, ◌∙◌, ◌⊎◌, inl, inr, ◌==◌, not,
  ◌&&◌, Bool, true, false, some, List, [], ◌∷◌, ◌++◌, append_assoc, append-nil, length,
  length-append, length-drop, length-take, take, drop, take-append-drop, arith, int_max, lt→ltb,
  le→ltb_false, take-append,
}
use mathlib.Core.List.{flatten}
use securekit.Errors.{Result, ok}
use securekit.Evp.{Evp, Gcm}
use securekit.FileFormat.{
  u32_be, chunk_size, nonce_prefix_size, make_nonce, make_record_header, make_chunk_aad,
}
use securekit.FileFormat.Records.{make_nonce_lem, make_record_header_lem}
use securekit.FileCrypto.Chunks.{sealed, encrypt_chunk_lem}
use securekit.IoStream.{IStream, Sink, peek}
use securekit.IoStream.Laws.{clean, ended, read_few, read_many, peek_end, peek_more}
use securekit.FileStream.{
  after_read, after_peek, read_plaintext, flag_of, max_index, write_chunk, seal_chunk, seal_loop,
  seal_stream_payload,
}
use securekit.IoStream.Sinks.{IsSink}
use securekit.FileStream.Format.{IsChunked, sealed_chunk, payload}

-- The three ways a read of a chunk can go on a healthy stream.
read_short :
    (p : List ℕ) → length p < chunk_size → read_plaintext (clean p) ≡ (ok (p, true), ended true)
unfolding read_plaintext
read_short p h = rw (read_few chunk_size p h) (rw (lt→ltb _ _ h))

nil_of_length : (x : List ℕ) → length x ≡ 0 → x ≡ []
nil_of_length [] h = refl
nil_of_length (y ∷ x) h = absurd (omega arith)

pub take_all : (n : ℕ) (p : List ℕ) → length p ≡ n → take n p ≡ p
take_all n p h = ap (take n) (sym (append-nil p)) ∙ take-append n p [] h

read_last :
    (p : List ℕ) → length p ≡ chunk_size → read_plaintext (clean p) ≡ (ok (p, true), ended false)
unfolding read_plaintext
read_last p h =
    let rest : drop chunk_size p ≡ [] =
      nil_of_length (drop chunk_size p) (omega (arith, length-drop chunk_size p)) in
    ap after_read (read_many chunk_size p (omega arith))
    ∙ rw (rest, take_all chunk_size p h, le→ltb_false (length p) chunk_size (omega arith), peek_end)

not_nil : (x : List ℕ) → 0 < length x → (b : ℕ) × (y : List ℕ) × (x ≡ b ∷ y)
not_nil [] h = absurd (omega arith)
not_nil (b ∷ y) h = (b, y, refl)

peek_of_more : (x : List ℕ) (b : ℕ) (y : List ℕ) → x ≡ b ∷ y → peek (clean x) ≡ (some b, clean x)
peek_of_more x b y e = rw e (peek_more b y)

read_full :
    (p : List ℕ)
    → chunk_size < length p
    → read_plaintext (clean p) ≡ (ok (take chunk_size p, false), clean (drop chunk_size p))
unfolding read_plaintext
read_full p h =
    let (b, y, rest) = not_nil (drop chunk_size p) (omega (arith, length-drop chunk_size p)) in
    let long =
      le→ltb_false (length (take chunk_size p)) chunk_size
        (omega (arith, length-take chunk_size p)) in
    ap after_read (read_many chunk_size p (omega arith))
    ∙ rw long (ap (after_peek (take chunk_size p)) (peek_of_more (drop chunk_size p) b y rest))

pub length-make_nonce :
    (prefix : List ℕ) (i : ℕ)
    → length prefix ≡ nonce_prefix_size
    → length (make_nonce prefix i) ≡ 12
unfolding u32_be
length-make_nonce prefix i h =
    rw (make_nonce_lem prefix i h) (omega (arith, length-append prefix (u32_be i)))

pub length-make_chunk_aad :
    (header aad : List ℕ) (i n flag : ℕ)
    → length (make_chunk_aad header (make_record_header i n flag) aad)
      ≡ length header + 9 + length aad
unfolding make_chunk_aad u32_be
length-make_chunk_aad header aad i n flag =
    let r = u32_be i ++ (u32_be n ++ (flag ∷ [])) in
    rw (make_record_header_lem i n flag)
      (omega (arith, length-append (header ++ r) aad, length-append header r))

trichotomy : (a b : ℕ) → (a < b) ⊎ ((a ≡ b) ⊎ (b < a))
trichotomy a b = ground arith

module _ (evp : Evp) (gcm : Gcm evp) (sink : Sink) (law : IsSink sink)
    (header prefix k aad : List ℕ) (prefix_fits : length prefix ≡ nonce_prefix_size)
    (key_fits : length k ≡ 32) (aad_fits : length header + 9 + length aad ≤ int_max) where
  open law use {written, Accepting}

  write_chunk_lem :
      (i : ℕ) (p : List ℕ) (is_final : Bool) (o : sink.Out)
      → length p ≤ chunk_size
      → Accepting o
      → (o' : sink.Out) × (write_chunk evp sink header prefix k aad i p is_final o ≡ (ok tt, o'))
        × (written o' ≡ written o ++ sealed_chunk evp gcm header prefix k aad i p is_final)
        × Accepting o'
  unfolding write_chunk
  write_chunk_lem i p is_final o small ready =
      let r = make_record_header i (length p) (flag_of is_final) in
      let n = make_nonce prefix i in
      let a = make_chunk_aad header r aad in
      let c = sealed evp gcm k n a p in
      let (o1, e1, w1, h1) = law.accept r.serialized o ready in
      let (o2, e2, w2, h2) = law.accept c.ciphertext o1 h1 in
      let (o3, e3, w3, h3) = law.accept c.tag o2 h2 in
      let made =
        encrypt_chunk_lem evp gcm k n a p key_fits (length-make_nonce prefix i prefix_fits)
          (omega (arith, length-make_chunk_aad header aad i (length p) (flag_of is_final)))
          (omega arith) in
      (o3, rw (made, e1, e2, e3), rw (w3, w2, w1) (simp append_assoc), h3)

  seal_chunk_lem :
      (i : ℕ) (p : List ℕ) (is_final : Bool) (input input' : IStream) (o : sink.Out)
      → read_plaintext input ≡ (ok (p, is_final), input')
      → length p ≤ chunk_size
      → (i == max_index && not is_final) ≡ false
      → Accepting o
      → (o' : sink.Out) × (seal_chunk evp sink header prefix k aad i (input, o)
          ≡ (ok is_final, (input', o')))
        × (written o' ≡ written o ++ sealed_chunk evp gcm header prefix k aad i p is_final)
        × Accepting o'
  unfolding seal_chunk
  seal_chunk_lem i p is_final input input' o got small guard ready =
      let (o', e, w, h) = write_chunk_lem i p is_final o small ready in
      (o', rw (got, e, guard), w, h)

  -- What a run from a chunk on does.
  abbrev Outcome : ℕ → List ℕ → sink.Out → Result (Unit {0}) × (IStream × sink.Out) → Type 0
  Outcome i p o result =
      (cs : List (List ℕ)) × (last : List ℕ) × (input' : IStream) × (o' : sink.Out) × (flatten cs
          ++ last
        ≡ p)
      × IsChunked i cs last
      × (length last ≡ 0 → cs ≡ [])
      × (result ≡ (ok tt, (input', o')))
      × (written o' ≡ written o ++ payload evp gcm header prefix k aad i cs last)

  seal_last :
      (fuel i : ℕ) (p : List ℕ) (input' : IStream) (o : sink.Out)
      → read_plaintext (clean p) ≡ (ok (p, true), input')
      → length p ≤ chunk_size
      → i < 2 ^ 32
      → Accepting o
      → Outcome i p o (seal_loop evp sink header prefix k aad (suc fuel) i (clean p, o))
  unfolding seal_loop payload flatten
  seal_last fuel i p input' o got small word ready =
      let (o', e, w, h) =
        seal_chunk_lem i p true (clean p) input' o got small (ground arith) ready in
      ([], p, input', o', refl, (tt, small, omega arith), λ empty. refl, rw e, w)

  seal_more :
      (fuel i : ℕ) (p : List ℕ) (o o1 : sink.Out)
      → chunk_size < length p
      → seal_chunk evp sink header prefix k aad i (clean p, o)
        ≡ (ok false, (clean (drop chunk_size p), o1))
      → written o1
        ≡ written o ++ sealed_chunk evp gcm header prefix k aad i (take chunk_size p) false
      → Outcome
          (i + 1)
          (drop chunk_size p)
          o1
          (seal_loop evp sink header prefix k aad fuel (i + 1) (clean (drop chunk_size p), o1))
      → Outcome i p o (seal_loop evp sink header prefix k aad (suc fuel) i (clean p, o))
  unfolding seal_loop payload flatten
  seal_more fuel i p o o1 more step w1
        (cs, last, input', o', parts, (full, small, word), tail, rest, w) =
      let size : length (take chunk_size p) ≡ chunk_size =
        omega (arith, length-take chunk_size p) in
      (
        take chunk_size p ∷ cs,
        last,
        input',
        o',
        append_assoc (take chunk_size p) (flatten cs) last
            ∙ ap (λ t. take chunk_size p ++ t) parts
            ∙ take-append-drop chunk_size p,
        ((size, full), small, omega arith),
        λ empty. absurd (
            omega (
              arith,
              more,
              ap length (sym parts),
              length-append (flatten cs) last,
              length-drop chunk_size p,
              ap (λ t. length (flatten t)) (tail empty),
            )),
        rw step rest,
        w
            ∙ ap (λ t. t ++ payload evp gcm header prefix k aad (i + 1) cs last) w1
            ∙ append_assoc (written o) _ _,
      )

  seal_loop_lem :
      (fuel i : ℕ) (p : List ℕ) (o : sink.Out)
      → length p < fuel
      → length p ≤ chunk_size * (2 ^ 32 - i)
      → i < 2 ^ 32
      → Accepting o
      → Outcome i p o (seal_loop evp sink header prefix k aad fuel i (clean p, o))
  seal_loop_lem zero i p o enough fits word ready = absurd (omega arith)
  seal_loop_lem (suc fuel) i p o enough fits word ready = elim (trichotomy (length p) chunk_size) [
    | inl less ↦ seal_last fuel i p (ended true) o (read_short p less) (omega arith) word ready
    | inr (inl same) ↦
        seal_last fuel i p (ended false) o (read_last p same) (omega arith) word ready
    | inr (inr more) ↦
        let (o1, e1, w1, h1) =
          seal_chunk_lem i (take chunk_size p) false (clean p) (clean (drop chunk_size p)) o
            (read_full p more) (omega (arith, length-take chunk_size p)) (ground arith) ready in
        seal_more fuel i p o o1 more e1 w1 (
          seal_loop_lem fuel (i + 1) (drop chunk_size p) o1
            (omega (arith, length-drop chunk_size p)) (omega (arith, length-drop chunk_size p))
            (omega arith) h1)
  ]

  -- The payload that is written, chunk by chunk, behind the header.
  pub seal_stream_payload_lem :
      (p : List ℕ) (o : sink.Out)
      → length p ≤ chunk_size * 2 ^ 32
      → Accepting o
      → (cs : List (List ℕ)) × (last : List ℕ) × (input' : IStream) × (o' : sink.Out) × (flatten cs
            ++ last
          ≡ p)
        × IsChunked 0 cs last
        × (length last ≡ 0 → cs ≡ [])
        × (seal_stream_payload evp sink header prefix k aad (clean p, o) ≡ (ok tt, (input', o')))
        × (written o' ≡ written o ++ (header ++ payload evp gcm header prefix k aad 0 cs last))
  unfolding seal_stream_payload
  seal_stream_payload_lem p o fits ready =
      let (o1, e1, w1, h1) = law.accept header o ready in
      let (cs, last, input', o', parts, chunked, tail, e, w) =
        seal_loop_lem (length p + 1) 0 p o1 (omega arith) (omega arith) (omega arith) h1 in
      (
        cs,
        last,
        input',
        o',
        parts,
        chunked,
        tail,
        rw (e1, e),
        w
            ∙ ap (λ t. t ++ payload evp gcm header prefix k aad 0 cs last) w1
            ∙ append_assoc (written o) header _,
      )
