-- ===== src/Tests/Files.antt =====
-- Small files through the stream functions, on the small backends.
use securekit.Prelude.{
  ℕ, ◌≡◌, ◌≢◌, if◌then◌else◌, ◌↔◌, refl, arith, true, false, none, Bool, ◌&&◌, ltb, List, [], ◌∷◌,
  ◌++◌, length, replicate, All, IsByte,
}
use mathlib.Core.List.{flatten}
use securekit.Errors.{Result, ok, err}
use securekit.Random.{random_bytes}
use securekit.FileFormat.{
  salt_size, nonce_prefix_size, header_of, u32_be, make_record_header, make_nonce, make_chunk_aad,
}
use securekit.IoStream.{IStream, OStream, ostream}
use securekit.IoStream.Laws.{clean}
use securekit.IoStream.Sinks.{ostream_laws}
use securekit.FileStream.{
  seal_loop, open_loop, seal_chunk, open_chunk, seal_stream_payload, open_file_payload, out_of_fuel,
}
use securekit.FileStream.Rounds.{Ends}
use securekit.IoStream.{write, write_all, write_failed}
use securekit.FileStream.Fuel.{payload_loops-Ends}
use securekit.FileStream.Format.{IsChunked, payload}
use securekit.Files.{seal_file, open_file, seal_file_with_password, open_file_with_password}
use securekit.Files.Keyed.{file_of, open_file_iff, seal_file_lem, open_file-seal_file}
use securekit.Files.Password.{open_file_with_password-seal_file_with_password}
use securekit.Tests.Backend.{toy, toy_gcm}
use securekit.Tests.Hashes.{toy_hashing, toy_hash_laws}
use securekit.Tests.Codecs.{counting, counting-IsFilling}

abbrev empty : OStream
empty = record { written = []; room = none; bad = false }

abbrev key_32 : List ℕ
key_32 = replicate 32 5

abbrev text : List ℕ
text = 10 ∷ 20 ∷ 30 ∷ []

abbrev aad_1 : List ℕ
aad_1 = 7 ∷ []

abbrev small_file : List ℕ
small_file =
    file_of toy toy_gcm ostream ostream_laws toy_hashing toy_hash_laws key_32 aad_1 (omega arith)
      (replicate 32 1) (replicate 8 2) [] text

abbrev are_bytes : List ℕ → Bool
are_bytes [] = true
are_bytes (b ∷ x) = ltb b 256 && are_bytes x

are_bytes_lem : (x : List ℕ) → are_bytes x ≡ true → All IsByte x
are_bytes_lem [] h = tt
are_bytes_lem (b ∷ x) h = (ground (arith, h), are_bytes_lem x (ground (arith, h)))

small_file-bytes : are_bytes small_file ≡ true
unfolding header_of u32_be payload make_record_header make_nonce make_chunk_aad
small_file-bytes = refl

open_file_iff_example :
    ((s' : IStream × OStream) × (open_file toy ostream toy_hashing key_32 aad_1
          (clean small_file, empty)
        ≡ (ok tt, s'))
      × (s'.1.written ≡ text))
    ↔ ((salt prefix : List ℕ) × (cs : List (List ℕ)) × (last : List ℕ) × (length salt ≡ salt_size)
        × (length prefix ≡ nonce_prefix_size)
        × IsChunked 0 cs last
        × (small_file
            ≡ file_of toy toy_gcm ostream ostream_laws toy_hashing toy_hash_laws key_32 aad_1
                (omega arith)
                salt
                prefix
                cs
                last)
        × (flatten cs ++ last ≡ text))
open_file_iff_example =
    open_file_iff toy toy_gcm ostream ostream_laws toy_hashing toy_hash_laws key_32 aad_1
      (omega arith) small_file text empty (are_bytes_lem small_file small_file-bytes) (refl, refl)

salt_drawn : random_bytes counting salt_size 5 ≡ (ok (replicate 32 5), 6)
unfolding random_bytes
salt_drawn = refl

prefix_drawn : random_bytes counting nonce_prefix_size 6 ≡ (ok (replicate 8 6), 7)
unfolding random_bytes
prefix_drawn = refl

seal_file_lem_example :
    (cs : List (List ℕ)) × (last : List ℕ) × (input' : IStream) × (o' : OStream) × (flatten cs
        ++ last
      ≡ text)
    × IsChunked 0 cs last
    × (length last ≡ 0 → cs ≡ [])
    × (seal_file toy ostream toy_hashing counting key_32 aad_1 (5, (clean text, empty))
        ≡ (ok tt, (7, (input', o'))))
    × (o'.written
        ≡ file_of toy toy_gcm ostream ostream_laws toy_hashing toy_hash_laws key_32 aad_1
            (omega arith)
            (replicate 32 5)
            (replicate 8 6)
            cs
            last)
seal_file_lem_example =
    seal_file_lem toy toy_gcm ostream ostream_laws toy_hashing toy_hash_laws key_32 aad_1
      (omega arith) counting counting-IsFilling text (replicate 32 5) (replicate 8 6) empty 5 6 7
      salt_drawn prefix_drawn (omega arith) (refl, refl)

open_file-seal_file_example :
    (sealed : List ℕ) × (input' : IStream) × (o' : OStream) × (s' : IStream × OStream) × (seal_file
        toy ostream toy_hashing counting key_32 aad_1
        (5, (clean text, empty))
      ≡ (ok tt, (7, (input', o'))))
    × (o'.written ≡ sealed)
    × (open_file toy ostream toy_hashing key_32 aad_1 (clean sealed, empty) ≡ (ok tt, s'))
    × (s'.1.written ≡ text)
open_file-seal_file_example =
    open_file-seal_file toy toy_gcm ostream ostream_laws toy_hashing toy_hash_laws key_32 aad_1
      (omega arith) counting counting-IsFilling text (replicate 32 5) (replicate 8 6) empty empty 5
      6 7 salt_drawn prefix_drawn (omega arith) (refl, refl) (refl, refl)

abbrev password : List ℕ
password = 1 ∷ 2 ∷ []

abbrev password_key : List ℕ
password_key = replicate 32 163

open_file_with_password-seal_file_with_password_example :
    (sealed : List ℕ) × (input' : IStream) × (o' : OStream) × (s' : IStream × OStream)
    × (seal_file_with_password toy ostream toy_hashing counting password aad_1
          (5, (clean text, empty))
        ≡ (ok tt, (7, (input', o'))))
    × (o'.written ≡ sealed)
    × (open_file_with_password toy ostream toy_hashing password aad_1 (clean sealed, empty)
        ≡ (ok tt, s'))
    × (s'.1.written ≡ text)
open_file_with_password-seal_file_with_password_example =
    open_file_with_password-seal_file_with_password toy toy_gcm ostream ostream_laws toy_hashing
      password password_key (replicate 32 5) (replicate 8 6) aad_1 (omega arith) refl refl refl refl
      (omega arith) counting text empty empty 5 6 7 salt_drawn prefix_drawn (omega arith)
      (refl, refl) (refl, refl)

ostream_throws : (x : List ℕ) (o : OStream) → (ostream.write_all x o).0 ≢ err out_of_fuel
unfolding write_all
ostream_throws x o = answered (write x o).bad
  where
    answered :
        (b : Bool)
        → ◌≢◌ {A = Result (Unit {0})} (if b then err write_failed else ok tt) (err out_of_fuel)
    answered true h = cc
    answered false h = cc

payload_loops-Ends_example :
    Ends
      (seal_chunk toy ostream [] (replicate 8 2) key_32 [])
      0
      (clean text, empty)
      (seal_loop toy ostream [] (replicate 8 2) key_32 [] 4 0 (clean text, empty))
    × Ends
        (open_chunk toy ostream [] (replicate 8 2) key_32 [])
        0
        (clean text, empty)
        (open_loop toy ostream [] (replicate 8 2) key_32 [] 4 0 (clean text, empty))
    × ((seal_stream_payload toy ostream [] (replicate 8 2) key_32 [] (clean text, empty)).0
        ≢ err out_of_fuel)
    × ((open_file_payload toy ostream [] (replicate 8 2) key_32 [] (clean text, empty)).0
        ≢ err out_of_fuel)
payload_loops-Ends_example =
    payload_loops-Ends toy ostream [] (replicate 8 2) key_32 [] ostream_throws 4 0
      (clean text, empty) (omega arith)
