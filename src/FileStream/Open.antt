-- ===== src/FileStream/Open.antt =====
-- `open_file_payload` on a healthy input: the payloads that it accepts, and what it writes.
use securekit.Prelude.{
  ℕ, zero, suc, ◌+◌, ◌<◌, ◌≤◌, ◌≡◌, ◌↔◌, refl, sym, ap, ◌∙◌, ◌==◌, not, ◌&&◌, Bool, true, false,
  List, [], ◌∷◌, ◌++◌, append_assoc, append-nil, length, length-append, All, All-append_inv, IsByte,
  arith, int_max, if◌then◌else◌,
}
use mathlib.Core.Path.{subst}
use mathlib.Core.List.{flatten}
use securekit.Errors.{Result, ok}
use securekit.Exec.{Exec, pure, raise_if, ◌>>◌, >>=-eq-ok, raise_if-eq-ok}
use securekit.Evp.{Evp, Gcm}
use securekit.FileFormat.{make_record_header, chunk_size, nonce_prefix_size, bad_packet}
use securekit.IoStream.{IStream, Sink}
use securekit.IoStream.Laws.{clean, ended, reject_trailing_data_inv, reject_trailing_data_end}
use securekit.FileStream.{
  flag_of, max_index, check_end, read_chunk, on_input, on_output, open_chunk, open_loop,
  open_file_payload,
}
use securekit.FileStream.Chunks.{length-serialized, IsChunk, read_chunk_lem, read_chunk_inv}
use securekit.IoStream.Sinks.{IsSink}
use securekit.FileStream.Format.{IsChunked, sealed_chunk, payload}

check_end-more : (y : List ℕ) → check_end (flag_of false) (clean y) ≡ (ok tt, clean y)
unfolding check_end
check_end-more y = refl

check_end-last : check_end (flag_of true) (clean []) ≡ (ok tt, ended true)
unfolding check_end
check_end-last = reject_trailing_data_end

check_end-more_inv :
    (y : List ℕ) (s : IStream) → check_end (flag_of false) (clean y) ≡ (ok tt, s) → s ≡ clean y
check_end-more_inv y s e = ap (λ (t : Result (Unit {0}) × IStream). t.1) (sym e ∙ check_end-more y)

check_end-last_inv :
    (y : List ℕ) (s : IStream) → check_end (flag_of true) (clean y) ≡ (ok tt, s) → y ≡ []
unfolding check_end
check_end-last_inv y s e = reject_trailing_data_inv y s e

module _ (evp : Evp) (sink : Sink) {A : Type 0} where
  -- A step on the input, from a run that succeeds.
  pub on_input_inv :
      (m : Exec IStream A) (input : IStream) (o : sink.Out) (a : A) (s : IStream × sink.Out)
      → on_input evp sink m (input, o) ≡ (ok a, s)
      → (m input ≡ (ok a, s.0)) × (s.1 ≡ o)
  on_input_inv m input o a s e =
      (λ i. ((e i).0, (e i).1.0), sym (ap (λ (t : Result A × (IStream × sink.Out)). t.1.1) e))

append_cancel : (x y z : List ℕ) → x ++ y ≡ x ++ z → y ≡ z
append_cancel [] y z e = e
append_cancel (b ∷ x) y z e = append_cancel x y z (cc e)

module _ (evp : Evp) (gcm : Gcm evp) (sink : Sink) (law : IsSink sink)
    (header prefix k aad : List ℕ) (prefix_fits : length prefix ≡ nonce_prefix_size)
    (key_fits : length k ≡ 32) (aad_fits : length header + 9 + length aad ≤ int_max) where
  open law use {written, Accepting}

  abbrev chunk_at : ℕ → List ℕ → Bool → List ℕ
  chunk_at i p f = sealed_chunk evp gcm header prefix k aad i p f

  abbrev payload_at : ℕ → List (List ℕ) → List ℕ → List ℕ
  payload_at i cs last = payload evp gcm header prefix k aad i cs last

  abbrev loop : ℕ → ℕ → Exec (IStream × sink.Out) (Unit {0})
  loop fuel i = open_loop evp sink header prefix k aad fuel i

  open_chunk_lem :
      (i : ℕ) (p : List ℕ) (f : Bool) (input input' : IStream) (o : sink.Out)
      → read_chunk evp header prefix k aad i input ≡ (ok (p, f), input')
      → (i == max_index && not f) ≡ false
      → Accepting o
      → (o' : sink.Out) × (open_chunk evp sink header prefix k aad i (input, o)
          ≡ (ok f, (input', o')))
        × (written o' ≡ written o ++ p)
        × Accepting o'
  unfolding open_chunk
  open_chunk_lem i p f input input' o got guard ready =
      let (o', e, w, h) = law.accept p o ready in (o', rw (got, e, guard), w, h)

  open_loop_lem :
      (fuel i : ℕ) (cs : List (List ℕ)) (last : List ℕ) (o : sink.Out)
      → length cs < fuel
      → IsChunked i cs last
      → Accepting o
      → (input' : IStream) × (o' : sink.Out) × (loop fuel i (clean (payload_at i cs last), o)
          ≡ (ok tt, (input', o')))
        × (written o' ≡ written o ++ (flatten cs ++ last))
  unfolding open_loop payload flatten
  open_loop_lem zero i cs last o enough chunked ready = absurd (omega arith)
  open_loop_lem (suc fuel) i [] last o enough (full, small, word) ready =
      let got =
        read_chunk_lem evp gcm header prefix k aad prefix_fits key_fits aad_fits i last true []
          (ended true) (omega arith) small (λ e. absurd (ground (arith, e))) check_end-last in
      let (o', e, w, h) =
        open_chunk_lem i last true (clean (chunk_at i last true)) (ended true) o
          (rw (append-nil (chunk_at i last true)) at got) (ground arith) ready in
      (ended true, o', rw e, w)
  open_loop_lem (suc fuel) i (c ∷ cs) last o enough ((size, full), small, word) ready =
      let rest = payload_at (i + 1) cs last in
      let got =
        read_chunk_lem evp gcm header prefix k aad prefix_fits key_fits aad_fits i c false rest
          (clean rest) (omega arith) (omega arith) (λ e. size) (check_end-more rest) in
      let (o1, e1, w1, h1) =
        open_chunk_lem i c false (clean (chunk_at i c false ++ rest)) (clean rest) o got
          (ground arith) ready in
      let (input', o', e, w) =
        open_loop_lem fuel (i + 1) cs last o1 (omega arith) (full, small, omega arith) h1 in
      (input', o', rw (e1, e), w ∙ ap (λ t. t ++ (flatten cs ++ last)) w1 ∙ simp append_assoc)

  abbrev State : Type 0
  State = IStream × sink.Out

  abbrev Reads : Type 0
  Reads = List ℕ × Bool

  on_output_inv :
      (m : Exec sink.Out (Unit {0})) (s s' : State) (t : Unit {0})
      → on_output evp sink m s ≡ (ok t, s')
      → (m s.1 ≡ (ok tt, s'.1)) × (s'.0 ≡ s.0)
  on_output_inv m s s' t e =
      (λ i. ((e i).0, (e i).1.1), sym (ap (λ (t : Result (Unit {0}) × State). t.1.0) e))

  open_chunk_inv :
      (i : ℕ) (f : Bool) (input : IStream) (o : sink.Out) (s' : State)
      → open_chunk evp sink header prefix k aad i (input, o) ≡ (ok f, s')
      → (p : List ℕ) × (read_chunk evp header prefix k aad i input ≡ (ok (p, f), s'.0))
        × (written s'.1 ≡ written o ++ p)
        × ((i == max_index && not f) ≡ false)
  unfolding open_chunk
  open_chunk_inv i f input o s' e =
      let (chunk, s1, got, e1) =
        >>=-eq-ok (on_input evp sink (read_chunk evp header prefix k aad i))
          (λ (chunk : Reads). do
            on_output evp sink (sink.write_all chunk.0)
            raise_if (i == max_index && not chunk.1) bad_packet
            pure chunk.1)
          (input, o) e in
      let (t, s2, put, e2) =
        >>=-eq-ok (on_output evp sink (sink.write_all chunk.0))
          (λ t. do raise_if (i == max_index && not chunk.1) bad_packet; pure chunk.1) s1 e1 in
      let (t', s3, guard, e3) =
        >>=-eq-ok (raise_if (i == max_index && not chunk.1) bad_packet) (λ t. pure chunk.1) s2 e2 in
      let (passed, at3) = raise_if-eq-ok _ bad_packet s2 s3 guard in
      let (read, out) =
        on_input_inv evp sink (read_chunk evp header prefix k aad i) input o chunk s1 got in
      let (wrote, kept) = on_output_inv (sink.write_all chunk.0) s1 s2 t put in
      let flag : chunk.1 ≡ f = cc e3 in
      let last : s2 ≡ s' = sym at3 ∙ ap (λ (t : Result Bool × State). t.1) e3 in
      let moved : s1.0 ≡ s'.0 = sym kept ∙ ap (λ (t : State). t.0) last in
      (
        chunk.0,
        read ∙ (λ j. (ok (chunk.0, flag j), moved j)),
        sym (ap (λ (t : State). written t.1) last)
            ∙ law.write_inv chunk.0 s1.1 s2.1 wrote
            ∙ ap (λ t. written t ++ chunk.0) out,
        subst (λ b. (i == max_index && not b) ≡ false) flag passed,
      )

  -- What a run that succeeds has read and written.
  abbrev Accepted : ℕ → List ℕ → sink.Out → State → Type 0
  Accepted i x o s' =
      (cs : List (List ℕ)) × (last : List ℕ) × IsChunked i cs last
      × (x ≡ payload_at i cs last)
      × (written s'.1 ≡ written o ++ (flatten cs ++ last))

  accept_last :
      (i : ℕ) (x p : List ℕ) (o : sink.Out) (s1 s' : State)
      → IsChunk evp gcm header prefix k aad prefix_fits key_fits aad_fits i x p true s1.0
      → written s1.1 ≡ written o ++ p
      → s1 ≡ s'
      → Accepted i x o s'
  unfolding payload flatten
  accept_last i x p o s1 s' (y, split, word, small, full, end) wrote same =
      let none_left : y ≡ [] = check_end-last_inv y s1.0 end in
      (
        [],
        p,
        (tt, small, omega arith),
        split ∙ rw (none_left, append-nil (chunk_at i p true)),
        ap (λ (t : State). written t.1) (sym same) ∙ wrote,
      )

  accept_more :
      (i : ℕ) (x p y : List ℕ) (o : sink.Out) (s1 s' : State)
      → x ≡ chunk_at i p false ++ y
      → length p ≡ chunk_size
      → written s1.1 ≡ written o ++ p
      → Accepted (i + 1) y s1.1 s'
      → Accepted i x o s'
  unfolding payload flatten
  accept_more i x p y o s1 s' split size wrote (cs, last, (full, small, word), rest, w) = (
    p ∷ cs,
    last,
    ((size, full), small, omega arith),
    split ∙ ap (λ t. chunk_at i p false ++ t) rest,
    w ∙ ap (λ t. t ++ (flatten cs ++ last)) wrote ∙ simp append_assoc,
  )

  accept_step :
      (fuel i : ℕ) (x p : List ℕ) (f : Bool) (o : sink.Out) (s1 s' : State)
      → All IsByte x
      → IsChunk evp gcm header prefix k aad prefix_fits key_fits aad_fits i x p f s1.0
      → written s1.1 ≡ written o ++ p
      → (if f then pure {A = Unit {0}} tt else loop fuel (i + 1)) s1 ≡ (ok tt, s')
      → ((y : List ℕ)
          → All IsByte y
          → loop fuel (i + 1) (clean y, s1.1) ≡ (ok tt, s')
          → Accepted (i + 1) y s1.1 s')
      → Accepted i x o s'
  accept_step fuel i x p true o s1 s' bytes chunk wrote e next =
      accept_last i x p o s1 s' chunk wrote (ap (λ (t : Result (Unit {0}) × State). t.1) e)
  accept_step fuel i x p false o s1 s' bytes (y, split, word, small, full, end) wrote e next =
      let at : s1.0 ≡ clean y = check_end-more_inv y s1.0 end in
      let y_bytes =
        (All-append_inv IsByte (chunk_at i p false) y (subst (All IsByte) split bytes)).1 in
      accept_more i x p y o s1 s' split (full refl) wrote
        (next y y_bytes (ap (λ t. loop fuel (i + 1) (t, s1.1)) (sym at) ∙ e))

  length-payload :
      (i : ℕ) (cs : List (List ℕ)) (last : List ℕ) → length cs ≤ length (payload_at i cs last)
  unfolding payload
  length-payload i [] last = omega arith
  length-payload i (c ∷ cs) last =
      let r = (make_record_header i (length c) 0).serialized in
      omega (
        arith,
        length-payload (i + 1) cs last,
        length-append (chunk_at i c false) (payload_at (i + 1) cs last),
        length-append r _,
        length-serialized i (length c) 0,
      )

  open_loop_inv :
      (fuel i : ℕ) (x : List ℕ) (o : sink.Out) (s' : State)
      → All IsByte x
      → loop fuel i (clean x, o) ≡ (ok tt, s')
      → Accepted i x o s'
  unfolding open_loop
  open_loop_inv zero i x o s' bytes e = absurd (ground (arith, e))
  open_loop_inv (suc fuel) i x o s' bytes e =
      let (f, s1, step, e1) =
        >>=-eq-ok (open_chunk evp sink header prefix k aad i)
          (λ f. if f then pure tt else loop fuel (i + 1)) (clean x, o) e in
      let (p, read, wrote, guard) = open_chunk_inv i f (clean x) o s1 step in
      let chunk =
        read_chunk_inv evp gcm header prefix k aad prefix_fits key_fits aad_fits i x p f s1.0 bytes
          read in
      accept_step fuel i x p f o s1 s' bytes chunk wrote e1
        (λ y y_bytes. open_loop_inv fuel (i + 1) y s1.1 s' y_bytes)

  -- The payloads that are opened are those of the format.
  pub open_file_payload_iff :
      (x p : List ℕ) (o : sink.Out)
      → All IsByte x
      → Accepting o
      → ((s' : State) × (open_file_payload evp sink header prefix k aad (clean x, o) ≡ (ok tt, s'))
          × (written s'.1 ≡ written o ++ p))
        ↔ ((cs : List (List ℕ)) × (last : List ℕ) × IsChunked 0 cs last
            × (x ≡ payload_at 0 cs last)
            × (flatten cs ++ last ≡ p))
  unfolding open_file_payload
  open_file_payload_iff x p o bytes ready = (
    λ (s', e, w).
        let (cs, last, chunked, shape, w') = open_loop_inv (length x + 1) 0 x o s' bytes e in
        (cs, last, chunked, shape, append_cancel (written o) _ p (sym w' ∙ w)),
    λ (cs, last, chunked, shape, parts).
        let (input', o', e, w) =
          open_loop_lem (length x + 1) 0 cs last o
            (omega (arith, ap length shape, length-payload 0 cs last)) chunked ready in
        (
          (input', o'),
          ap (λ t. loop (length x + 1) 0 (clean t, o)) shape ∙ e,
          w ∙ ap (λ t. written o ++ t) parts,
        ),
  )

  -- A payload in its format is opened, whatever its bytes.
  pub open_file_payload-payload :
      (cs : List (List ℕ)) (last : List ℕ) (o : sink.Out)
      → IsChunked 0 cs last
      → Accepting o
      → (s' : State) × (open_file_payload evp sink header prefix k aad
            (clean (payload_at 0 cs last), o)
          ≡ (ok tt, s'))
        × (written s'.1 ≡ written o ++ (flatten cs ++ last))
  unfolding open_file_payload
  open_file_payload-payload cs last o chunked ready =
      let (input', o', e, w) =
        open_loop_lem (length (payload_at 0 cs last) + 1) 0 cs last o
          (omega (arith, length-payload 0 cs last)) chunked ready in
      ((input', o'), e, w)
