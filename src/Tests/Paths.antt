-- ===== src/Tests/Paths.antt =====
-- The path functions on a small disk.
use securekit.Prelude.{◌≡◌, refl, ap, true, false, none, some, some≢none, [], ◌∷◌, codes, replicate}
use securekit.Errors.{Result, ok, err}
use securekit.Random.{random_bytes}
use securekit.FileFormat.{bad_packet}
use securekit.FileSystem.{FilePath}
use securekit.FileIo.{World, backend, temp_path_of, open_unique_temp_output, token_digits}
use securekit.FileIo.Temporaries.{Same}
use securekit.FileIo.Leftovers.{open_unique_temp_output-fdopen_none}
use securekit.Paths.{Call, sealing, opening, perform}
use securekit.Paths.Safety.{perform_all, perform_all-Spares, perform-err}
use securekit.Paths.Streams.{Refines, perform-Refines}
use securekit.Paths.{
  open_path, seal_path, seal_file_payload, through_temp, run_attempt, finish, attempt, write_temp,
}
use securekit.FileIo.{
  ensure_output_does_not_exist, make_unique_temp_path, try_open_output_exclusive, close_output,
  close_quietly, commit_temp_file, discard, flush, flush_parent_directory, open_attempts,
  open_input, remove_quietly, write_output,
}
use securekit.Prelude.{bytes_eq}
use securekit.FileCrypto.{
  make_header, derive_file_key, decrypt_chunk, decrypt_in_context, decrypt_text, encrypt_chunk,
  encrypt_in_context, encrypt_text, initialize_decrypt, initialize_encrypt, int_size, make_context,
  update_aad,
}
use securekit.Hash.{hkdf_sha256, hkdf_params}
use securekit.FileFormat.{
  header_of, make_chunk_aad, make_nonce, make_record_header, parse_header, parse_record_header,
  read_u32_be, u32_be,
}
use securekit.FileStream.{
  check_end, check_header, open_chunk, open_file_payload, open_loop, open_record, read_body,
  read_chunk, read_plaintext, read_record, require_exact, seal_chunk, seal_loop,
  seal_stream_payload, write_chunk,
}
use securekit.Files.{open_file}
use securekit.IoStream.{peek, read, read_exact, reject_trailing_data}
use securekit.Random.{fill_loop, fill_random}
use securekit.Tests.Backend.{toy}
use securekit.Tests.Hashes.{toy_hashing}
use securekit.Tests.Codecs.{counting}
use securekit.Tests.Disk.{disk, disk_laws, update, update_self}

abbrev plain : FilePath
plain = codes "p"

abbrev sealed : FilePath
sealed = codes "s"

abbrev opened : FilePath
opened = codes "o"

abbrev start : World (disk true) counting
start = (5, update plain (some (10 ∷ 20 ∷ 30 ∷ [])) (λ q. none))

abbrev seal_it : Call (disk true) counting toy_hashing toy
seal_it = sealing plain sealed (replicate 32 5) (7 ∷ [])

abbrev open_it : Call (disk true) counting toy_hashing toy
open_it = opening sealed opened (replicate 32 5) (7 ∷ [])

-- The plaintext is no sealed file.
abbrev open_plain : Call (disk true) counting toy_hashing toy
open_plain = opening plain opened (replicate 32 5) (7 ∷ [])

-- A file is sealed and opened again; what is no sealed file is refused.
runs :
    ((perform_all
          (disk true)
          (disk_laws true)
          counting
          toy_hashing
          toy
          (seal_it ∷ open_it ∷ [])
          start).1
        opened
      ≡ some (10 ∷ 20 ∷ 30 ∷ []))
    × ((perform (disk true) counting toy_hashing toy seal_it start).0 ≡ ok tt)
    × ((perform (disk true) counting toy_hashing toy open_plain start).0 ≡ err bad_packet)
unfolding perform open_path ensure_output_does_not_exist seal_path bytes_eq make_header random_bytes
    derive_file_key hkdf_sha256 seal_file_payload through_temp open_unique_temp_output
    make_unique_temp_path try_open_output_exclusive run_attempt finish attempt write_temp
    decrypt_chunk decrypt_in_context decrypt_text encrypt_chunk encrypt_in_context encrypt_text
    initialize_decrypt initialize_encrypt int_size make_context update_aad header_of make_chunk_aad
    make_nonce make_record_header parse_header parse_record_header read_u32_be u32_be close_output
    close_quietly commit_temp_file discard flush flush_parent_directory open_attempts open_input
    remove_quietly token_digits write_output check_end check_header open_chunk open_file_payload
    open_loop open_record read_body read_chunk read_plaintext read_record require_exact seal_chunk
    seal_loop seal_stream_payload write_chunk open_file hkdf_params peek read read_exact
    reject_trailing_data fill_loop fill_random
runs = (refl, refl, refl)

perform_all-Spares_example :
    (disk_laws true).contents
      (perform_all
        (disk true)
        (disk_laws true)
        counting
        toy_hashing
        toy
        (seal_it ∷ open_it ∷ seal_it ∷ [])
        start).1
      plain
    ≡ some (10 ∷ 20 ∷ 30 ∷ [])
unfolding bytes_eq
perform_all-Spares_example =
    perform_all-Spares (disk true) (disk_laws true) counting toy_hashing toy
      (seal_it ∷ open_it ∷ seal_it ∷ []) start plain (10 ∷ 20 ∷ 30 ∷ []) refl

abbrev after_seal : World (disk true) counting
after_seal = (perform (disk true) counting toy_hashing toy seal_it start).1

perform-Refines_example :
    Refines (disk true) (disk_laws true) counting toy_hashing toy seal_it start after_seal.1
perform-Refines_example =
    perform-Refines (disk true) (disk_laws true) counting toy_hashing toy seal_it start after_seal
      (ap (λ (r : Result (Unit {0})). (r, after_seal)) runs.1)

abbrev after_failure : World (disk true) counting
after_failure = (perform (disk true) counting toy_hashing toy open_plain start).1

perform-err_example : Same (disk true) (disk_laws true) start.1 after_failure.1
perform-err_example =
    perform-err (disk true) (disk_laws true) counting toy_hashing toy open_plain start after_failure
      bad_packet (λ fd s. some≢none) (λ p s. update_self p none s) (λ p s. (p, s, refl, refl, refl))
      (ap (λ (r : Result (Unit {0})). (r, after_failure)) runs.2)

token_drawn : random_bytes counting 16 5 ≡ (ok (replicate 16 5), 6)
unfolding random_bytes
token_drawn = refl

abbrev temporary : FilePath
temporary = temp_path_of sealed (replicate 16 5)

open_unique_temp_output-fdopen_none_example :
    (w : World (disk false) counting) × (open_unique_temp_output
        (disk false)
        counting
        sealed
        (5, start.1)
      ≡ (err (backend "File open failed"), w))
    × (start.1 temporary ≡ none)
    × (w.1 temporary ≡ some [])
unfolding token_digits bytes_eq
open_unique_temp_output-fdopen_none_example =
    open_unique_temp_output-fdopen_none (disk false) (disk_laws false) counting sealed
      (replicate 16 5) 5 6 start.1 (update temporary (some []) start.1)
      (update temporary (some []) start.1) temporary token_drawn refl refl
