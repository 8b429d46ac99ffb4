-- ===== src/FileStream/Fuel.antt =====
-- The payload loops end: a round that goes on has taken bytes off the input, so that one round more
-- than there are bytes is enough fuel, whatever the streams do.
use securekit.Prelude.{
  ℕ, ◌+◌, ◌<◌, ◌≡◌, ◌≢◌, refl, sym, ap, ◌∙◌, Bool, false, List, length, arith, ◌==◌, not, ◌&&◌,
}
use securekit.Errors.{Error, error, invalid_input, Result, ok, err}
use securekit.Exec.{Exec, pure, lift, raise_if, ◌>>◌, >>=-eq-ok, raise_if-eq-ok}
use securekit.Evp.{Evp}
use securekit.FileFormat.{bad_packet}
use securekit.IoStream.{IStream, Sink}
use securekit.FileStream.{
  Io, on_input, on_output, read_plaintext, read_record, read_chunk, open_record, seal_chunk,
  seal_loop, open_chunk, open_loop, write_chunk, max_index,
}
use mathlib.Core.Path.{subst}
use securekit.Exec.Keeps.{continue-by}
use securekit.Exec.Throws.{Only}
use securekit.FileStream.Throws.{Proper, ThrowsProper}
use securekit.FileStream.Rounds.{Ends, loop-Ends, Only-Proper, Proper-Only}
use securekit.FileStream.Causes.{seal_chunk-Proper, open_chunk-Proper}
use securekit.FileStream.{out_of_fuel, seal_stream_payload, open_file_payload}
use securekit.FileStream.Reads.{read_plaintext_takes, read_record_takes}

module _ (evp : Evp) (sink : Sink) (header prefix key aad : List ℕ) where
  -- Behind the input, a round writes, tests the index, and says whether it was the last.
  round_keeps :
      (chunk : List ℕ × Bool) (written : Exec sink.Out (Unit {0})) (b : Bool) (e : Error)
      (s t : Io evp sink) (last : Bool)
      → (do on_output evp sink written; raise_if b e; pure chunk.1) s ≡ (ok last, t)
      → (last ≡ chunk.1) × (t.0 ≡ s.0)
  round_keeps chunk written b e s t last run =
      let (done, s1, e1, r1) =
        >>=-eq-ok (on_output evp sink written) (λ done. do raise_if b e; pure chunk.1) s run in
      let (done', s2, e2, r2) = >>=-eq-ok (raise_if b e) (λ done'. pure chunk.1) s1 r1 in
      let (fine, still) = raise_if-eq-ok b e s1 s2 e2 in
      (
        ok_inj (ap (λ (x : Result Bool × Io evp sink). x.0) (sym r2)),
        ap (λ (x : Result Bool × Io evp sink). x.1.0) (sym r2)
            ∙ ap (λ (x : Io evp sink). x.0) still
            ∙ ap (λ (x : Result (Unit {0}) × Io evp sink). x.1.0) (sym e1),
      )
    where
      ok_inj : {x y : Bool} → ok x ≡ ok y → x ≡ y
      ok_inj h = cc

  on_input_takes :
      {A : Type 0} (m : Exec IStream A) (s s1 : Io evp sink) (a : A)
      → on_input evp sink m s ≡ (ok a, s1)
      → m s.0 ≡ (ok a, s1.0)
  on_input_takes {A = A} m s s1 a e = ap (λ (x : Result A × Io evp sink). (x.0, x.1.0)) e

  seal_chunk_takes :
      (i : ℕ) (s t : Io evp sink)
      → seal_chunk evp sink header prefix key aad i s ≡ (ok false, t)
      → length t.0.rest < length s.0.rest
  unfolding seal_chunk
  seal_chunk_takes i s t e =
      let (chunk, s1, e1, r1) =
        >>=-eq-ok (on_input evp sink read_plaintext)
          (λ chunk. do
            on_output evp sink (write_chunk evp sink header prefix key aad i chunk.0 chunk.1)
            raise_if (i == max_index && not chunk.1)
                (error invalid_input "file is too large to seal")
            pure chunk.1)
          s e in
      let (last, still) =
        round_keeps chunk (write_chunk evp sink header prefix key aad i chunk.0 chunk.1) _ _ s1 t
          false r1 in
      let taken = read_plaintext_takes s.0 s1.0 chunk.0 (
        on_input_takes read_plaintext s s1 chunk e1
        ∙ ap (λ b. (ok (chunk.0, b), s1.0)) (sym last)) in
      omega (arith, taken, ap (λ (x : IStream). length x.rest) still)

  read_chunk_takes :
      (i : ℕ) (s t : IStream) (chunk : List ℕ × Bool)
      → read_chunk evp header prefix key aad i s ≡ (ok chunk, t)
      → length t.rest < length s.rest
  unfolding read_chunk
  read_chunk_takes i s t chunk e =
      let (found, s1, e1, r1) =
        >>=-eq-ok (read_record i) (λ found. lift (open_record evp header prefix key aad found)) s
          e in
      omega (
        arith,
        read_record_takes i s s1 found e1,
        ap (λ (x : Result (List ℕ × Bool) × IStream). length x.1.rest) r1,
      )

  open_chunk_takes :
      (i : ℕ) (s t : Io evp sink)
      → open_chunk evp sink header prefix key aad i s ≡ (ok false, t)
      → length t.0.rest < length s.0.rest
  unfolding open_chunk
  open_chunk_takes i s t e =
      let (chunk, s1, e1, r1) =
        >>=-eq-ok (on_input evp sink (read_chunk evp header prefix key aad i))
          (λ chunk. do
            on_output evp sink (sink.write_all chunk.0)
            raise_if (i == max_index && not chunk.1) bad_packet
            pure chunk.1)
          s e in
      let (last, still) = round_keeps chunk (sink.write_all chunk.0) _ _ s1 t false r1 in
      omega (
        arith,
        read_chunk_takes i s.0 s1.0 chunk
            (on_input_takes (read_chunk evp header prefix key aad i) s s1 chunk e1),
        ap (λ (x : IStream). length x.rest) still,
      )

  module _
      (sink_Proper : (x : List ℕ) (o : sink.Out) → (sink.write_all x o).0 ≢ err out_of_fuel) where
    sink-ThrowsProper : (x : List ℕ) → ThrowsProper (sink.write_all x)
    sink-ThrowsProper x o = Proper-Only (sink.write_all x o).0 (sink_Proper x o)

    seal_loop-Ends :
        (m i : ℕ) (s : Io evp sink)
        → length s.0.rest < m
        → Ends
            (seal_chunk evp sink header prefix key aad)
            i
            s
            (seal_loop evp sink header prefix key aad m i s)
    unfolding seal_loop
    seal_loop-Ends =
        loop-Ends (seal_chunk evp sink header prefix key aad)
          (seal_loop evp sink header prefix key aad) (λ s. length s.0.rest) (λ m i s. refl)
          seal_chunk_takes (seal_chunk-Proper evp header prefix key aad sink sink-ThrowsProper)

    open_loop-Ends :
        (m i : ℕ) (s : Io evp sink)
        → length s.0.rest < m
        → Ends
            (open_chunk evp sink header prefix key aad)
            i
            s
            (open_loop evp sink header prefix key aad m i s)
    unfolding open_loop
    open_loop-Ends =
        loop-Ends (open_chunk evp sink header prefix key aad)
          (open_loop evp sink header prefix key aad) (λ s. length s.0.rest) (λ m i s. refl)
          open_chunk_takes (open_chunk-Proper evp header prefix key aad sink sink-ThrowsProper)

    -- The loop with the fuel that it starts with, behind the header.
    seal_stream_payload-Proper : ThrowsProper (seal_stream_payload evp sink header prefix key aad)
    unfolding seal_stream_payload
    seal_stream_payload-Proper s =
        continue-by (λ x. Only Proper x.0)
          (λ done. seal_loop evp sink header prefix key aad (length s.0.rest + 1) 0)
          (on_output evp sink (sink.write_all header) s)
          (λ done t e.
            Proper-Only (seal_loop evp sink header prefix key aad (length s.0.rest + 1) 0 t).0
              (seal_loop-Ends (length s.0.rest + 1) 0 t (
                omega
                  (arith, ap (λ (x : Result (Unit {0}) × Io evp sink). length x.1.0.rest) e))).1)
          (λ x t e.
            subst (λ (r : Result (Unit {0}) × Io evp sink). Only Proper r.0) e
              (sink-ThrowsProper header s.1))

    -- On every input and backend, healthy or not, and every output that does not itself throw the
    -- error that stands for a lack of fuel, the loops that seal and open a payload end: with more
    -- rounds allowed than there are bytes to come, the result is that of finitely many rounds, the
    -- last of which says that it is the last or throws, and never a lack of fuel. Nor is the
    -- result of `seal_stream_payload` or `open_file_payload`, with the rounds that they allow.
    pub payload_loops-Ends :
        (m i : ℕ) (s : Io evp sink)
        → length s.0.rest < m
        → Ends
            (seal_chunk evp sink header prefix key aad)
            i
            s
            (seal_loop evp sink header prefix key aad m i s)
          × Ends
              (open_chunk evp sink header prefix key aad)
              i
              s
              (open_loop evp sink header prefix key aad m i s)
          × ((seal_stream_payload evp sink header prefix key aad s).0 ≢ err out_of_fuel)
          × ((open_file_payload evp sink header prefix key aad s).0 ≢ err out_of_fuel)
    unfolding open_file_payload
    payload_loops-Ends m i s h = (
      seal_loop-Ends m i s h,
      open_loop-Ends m i s h,
      Only-Proper (seal_stream_payload evp sink header prefix key aad s).0
          (seal_stream_payload-Proper s),
      (open_loop-Ends (length s.0.rest + 1) 0 s (omega arith)).1,
    )
