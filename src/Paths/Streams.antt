-- ===== src/Paths/Streams.antt =====
-- The path functions against the stream overloads of the same names.
use securekit.Prelude.{
  ℕ, ◌≡◌, sym, ap, ◌∙◌, Bool, true, false, Option, none, some, List, ◌⊎◌, inl, inr, Option-cases,
}
use securekit.Errors.{Result, ok, ok≢err}
use securekit.Exec.{Exec, lift, >>=-eq-ok, ◌>>=◌, ◌>>◌}
use securekit.Evp.{Evp}
use securekit.Hash.{Hashing}
use securekit.Random.{Generator}
use securekit.FileCrypto.{
  make_header, make_password_header, derive_file_key, derive_password_file_key,
  require_non_empty_password,
}
use securekit.IoStream.{IStream, OStream, Sink, ostream, write_all}
use securekit.FileSystem.{FileSystem, FilePath}
use securekit.FileSystem.Laws.{IsFileSystem}
use securekit.FileIo.{
  output_sink, write_output, after_exists, World, from_source, from_system,
  ensure_output_does_not_exist,
}
use securekit.FileIo.Frames.{Within, Within-refl, Within-trans, write_output-Within}
use securekit.FileIo.Temporaries.{Spares}
use securekit.FileIo.Tracking.{Tracks, write_output-Tracks}
use securekit.FileStream.{seal_stream_payload}
use securekit.Files.{
  seal_file, open_file, seal_file_with_password, open_file_with_password, on_io, on_source,
}
use securekit.Files.Frames.{open_file-Keeps, open_file_with_password-Keeps}
use securekit.Files.Simulation.{
  Simulates, Alike, seal_stream_payload-Simulates, open_file-Simulates,
  open_file_with_password-Simulates,
}
use securekit.Paths.{
  seal_file_payload, seal_path, seal_path_with_password, open_path, open_path_with_password,
  through_temp, Call, sealing, opening, password_sealing, password_opening, perform,
}
use securekit.Paths.Attempts.{WritesOnly}
use securekit.Paths.Calls.{sealing-WritesOnly, output_of}
use securekit.Paths.Refinement.{empty, through_temp_inv}

module _ (os : FileSystem) (law : IsFileSystem os) (gen : Generator) (hashing : Hashing)
    (evp : Evp) where
  open os use {System}
  open law use {contents}
  open gen use {Source}

  abbrev pub input_of : Call os gen hashing evp → FilePath
  input_of (sealing input output key aad) = input
  input_of (opening input output key aad) = input
  input_of (password_sealing input output password aad) = input
  input_of (password_opening input output password aad) = input

  -- The stream overload.
  abbrev pub stream_of : Call os gen hashing evp → Exec (Source × (IStream × OStream)) (Unit {0})
  stream_of (sealing input output key aad) = seal_file evp ostream hashing gen key aad
  stream_of (opening input output key aad) =
      on_io evp ostream hashing gen (open_file evp ostream hashing key aad)
  stream_of (password_sealing input output password aad) =
      seal_file_with_password evp ostream hashing gen password aad
  stream_of (password_opening input output password aad) =
      on_io evp ostream hashing gen (open_file_with_password evp ostream hashing password aad)

  tracked :
      (p : FilePath) (x : List ℕ) → Simulates (Tracks os law p) (write_output os x) (write_all x)
  tracked p x s t tt s' related e = write_output-Tracks os law p x s s' t related e

  -- The stream overload, run from the random source `source` on the input as it was opened, succeeds
  -- and writes what the output holds at the end.
  abbrev pub Refines : Call os gen hashing evp → World os gen → System → Type 0
  Refines call w s' =
      (i : IStream) × (t : System) × (source' : Source) × (io : IStream × OStream) × ((contents w.1
            (input_of call)
          ≡ none)
        ⊎ (contents t (input_of call) ≡ contents w.1 (input_of call)))
      × (os.ifstream (input_of call) t ≡ some i)
      × (stream_of call (w.0, (i, empty)) ≡ (ok tt, (source', io)))
      × (contents s' (output_of os law gen hashing evp call) ≡ some io.1.written)

  -- The input is as it was, if there was one.
  abbrev Undisturbed : FilePath → System → System → Type 0
  Undisturbed input s t = (contents s input ≡ none) ⊎ (contents t input ≡ contents s input)

  undisturbed : (input : FilePath) (s t : System) → Spares os law s t → Undisturbed input s t
  undisturbed input s t spares = elim (Option-cases (contents s input)) [
    | inl missing ↦ inl missing
    | inr (c, there) ↦ inr (spares input c there ∙ sym there)
  ]

  after_exists_inv :
      (found : Option Bool) (w w' : World os gen) (done : Unit {0})
      → from_system os gen (after_exists os found) w ≡ (ok done, w')
      → w' ≡ w
  after_exists_inv none w w' done e =
      absurd (ok≢err (sym (ap (λ (x : Result (Unit {0}) × World os gen). x.0) e)))
  after_exists_inv (some true) w w' done e =
      absurd (ok≢err (sym (ap (λ (x : Result (Unit {0}) × World os gen). x.0) e)))
  after_exists_inv (some false) w w' done e =
      sym (ap (λ (x : Result (Unit {0}) × World os gen). x.1) e)

  -- Behind the check of the output, the world is the same.
  ensure_inv :
      (output : FilePath) (rest : Exec (World os gen) (Unit {0})) (w w' : World os gen)
      → (from_system os gen (ensure_output_does_not_exist os output) >> rest) w ≡ (ok tt, w')
      → rest w ≡ (ok tt, w')
  unfolding ensure_output_does_not_exist
  ensure_inv output rest w w' e =
      let (done, w1, e1, r1) =
        >>=-eq-ok (from_system os gen (ensure_output_does_not_exist os output)) (λ done. rest) w
          e in
      ap rest (sym (after_exists_inv (os.exists output w.1) w w1 done e1)) ∙ r1

  -- What the two functions that seal share, with their own headers.
  module _ {H : Type 0} (make : Exec Source H) (derive : H → Result (List ℕ))
      (serialized nonce_prefix : H → List ℕ) (input output : FilePath) (aad : List ℕ) where
    abbrev payload : List ℕ → H → Exec (World os gen) (Unit {0})
    payload file_key header =
        seal_file_payload os gen hashing evp input output (serialized header) (nonce_prefix header)
          file_key aad

    abbrev on_path : Exec (World os gen) (Unit {0})
    on_path = do
      header ← from_source os gen make
      file_key ← lift (derive header)
      payload file_key header

    abbrev on_stream : Exec (Source × (IStream × OStream)) (Unit {0})
    on_stream = do
      header ← on_source evp ostream hashing gen make
      file_key ← lift (derive header)
      on_io evp ostream hashing gen
          (seal_stream_payload evp ostream (serialized header) (nonce_prefix header) file_key aad)

    sealing_refines :
        (w w' : World os gen)
        → on_path w ≡ (ok tt, w')
        → (i : IStream) × (t : System) × (source' : Source) × (io : IStream × OStream) × Undisturbed
            input w.1 t
          × (os.ifstream input t ≡ some i)
          × (on_stream (w.0, (i, empty)) ≡ (ok tt, (source', io)))
          × (contents w'.1 output ≡ some io.1.written)
    unfolding seal_file_payload
    sealing_refines w w' e =
        let (header, w1, e1, r1) =
          >>=-eq-ok (from_source os gen make)
            (λ header. do file_key ← lift (derive header); payload file_key header) w e in
        let (file_key, w2, e2, r2) =
          >>=-eq-ok (lift (derive header)) (λ file_key. payload file_key header) w1 r1 in
        let (i, t, io, spares, found, f, holds) =
          through_temp_inv os law evp
            (seal_stream_payload evp (output_sink os) (serialized header) (nonce_prefix header)
              file_key aad)
            (seal_stream_payload evp ostream (serialized header) (nonce_prefix header) file_key aad)
            input output
            (sealing-WritesOnly os law gen hashing evp (serialized header) (nonce_prefix header)
              file_key aad)
            gen hashing
            (λ p.
              seal_stream_payload-Simulates evp (output_sink os) ostream (Tracks os law p)
                (tracked p) (serialized header) (nonce_prefix header) file_key aad)
            w2 w' r2 in
        let drawn : make w.0 ≡ (ok header, w1.0) =
          ap (λ (x : Result H × World os gen). (x.0, x.1.0)) e1 in
        let derived : derive header ≡ ok file_key =
          ap (λ (x : Result (List ℕ) × World os gen). x.0) e2 in
        (
          i,
          t,
          w1.0,
          io,
          undisturbed input w.1 t (λ q c h. spares q c (
              ap (λ (x : Result (List ℕ) × World os gen). contents x.1.1 q) (sym e2)
              ∙ ap (λ (x : Result H × World os gen). contents x.1.1 q) (sym e1)
              ∙ h)),
          found,
          rw (drawn, derived)
              (ap (λ (x : Result (Unit {0}) × (IStream × OStream)). (x.0, (w1.0, x.1))) f),
          holds,
        )

  -- What the two functions that open share.
  opening_refines :
      (input output : FilePath) (run : (sink : Sink) → Exec (IStream × sink.Out) (Unit {0}))
      → WritesOnly os law (run (output_sink os))
      → ((p : FilePath)
          → Simulates
              (Alike evp (output_sink os) ostream (Tracks os law p))
              (run (output_sink os))
              (run ostream))
      → (w w' : World os gen)
      → through_temp os gen hashing evp input output (run (output_sink os)) w ≡ (ok tt, w')
      → (i : IStream) × (t : System) × (source' : Source) × (io : IStream × OStream) × Undisturbed
          input w.1 t
        × (os.ifstream input t ≡ some i)
        × (on_io evp ostream hashing gen (run ostream) (w.0, (i, empty)) ≡ (ok tt, (source', io)))
        × (contents w'.1 output ≡ some io.1.written)
  opening_refines input output run writes simulates w w' e =
      let (i, t, io, spares, found, f, holds) =
        through_temp_inv os law evp (run (output_sink os)) (run ostream) input output writes gen
          hashing simulates w w' e in
      (
        i,
        t,
        w.0,
        io,
        undisturbed input w.1 t spares,
        found,
        ap (λ (x : Result (Unit {0}) × (IStream × OStream)). (x.0, (w.0, x.1))) f,
        holds,
      )

  password_inv :
      (password : List ℕ) (rest : Exec (World os gen) (Unit {0})) (w w' : World os gen)
      → (lift (require_non_empty_password password) >> rest) w ≡ (ok tt, w')
      → (require_non_empty_password password ≡ ok tt) × (rest w ≡ (ok tt, w'))
  password_inv password rest w w' e =
      let (done, w1, e1, r1) =
        >>=-eq-ok (lift (require_non_empty_password password)) (λ done. rest) w e in
      (
        ap (λ (x : Result (Unit {0}) × World os gen). x.0) e1,
        ap rest (ap (λ (x : Result (Unit {0}) × World os gen). x.1) e1) ∙ r1,
      )

  -- On an operating system that meets the laws of its calls, any of which may fail, if a call that
  -- seals or opens by path succeeds, the stream overload of the same name, from the same random
  -- source, on the input as the system opened it and an output that takes everything, succeeds
  -- too, and the output file holds at the end exactly the bytes that it writes; an input file that
  -- was there had its contents from the start when it was opened.
  pub perform-Refines :
      (call : Call os gen hashing evp) (w w' : World os gen)
      → perform os gen hashing evp call w ≡ (ok tt, w')
      → Refines call w w'.1
  unfolding perform seal_path seal_path_with_password open_path open_path_with_password seal_file
      seal_file_with_password
  perform-Refines (sealing input output key aad) w w' e =
      sealing_refines (make_header gen) (derive_file_key hashing key) (λ h. h.serialized)
        (λ h. h.nonce_prefix) input output aad w w' (ensure_inv output _ w w' e)
  perform-Refines (password_sealing input output password aad) w w' e =
      let (some_password, e1) = password_inv password _ w w' e in
      let (i, t, source', io, spares, found, f, holds) =
        sealing_refines (make_password_header gen) (derive_password_file_key hashing password)
          (λ h. h.serialized) (λ h. h.nonce_prefix) input output aad w w'
          (ensure_inv output _ w w' e1) in
      (i, t, source', io, spares, found, rw some_password f, holds)
  perform-Refines (opening input output key aad) w w' e =
      opening_refines input output (λ sink. open_file evp sink hashing key aad)
        (open_file-Keeps evp (output_sink os) (Within os law) (Within-refl os law)
          (Within-trans os law) (write_output-Within os law) hashing key aad)
        (λ p.
          open_file-Simulates evp (output_sink os) ostream (Tracks os law p) (tracked p) hashing key
            aad)
        w w' (ensure_inv output _ w w' e)
  perform-Refines (password_opening input output password aad) w w' e =
      let (some_password, e1) = password_inv password _ w w' e in
      opening_refines input output (λ sink. open_file_with_password evp sink hashing password aad)
        (open_file_with_password-Keeps evp (output_sink os) (Within os law) (Within-refl os law)
          (Within-trans os law) (write_output-Within os law) hashing password aad)
        (λ p.
          open_file_with_password-Simulates evp (output_sink os) ostream (Tracks os law p)
            (tracked p) hashing password aad)
        w w' (ensure_inv output _ w w' e1)
