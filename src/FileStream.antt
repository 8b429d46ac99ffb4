-- ===== src/FileStream.antt =====
-- src/file.cpp: sealing and opening through streams.
pub mod Format
pub mod Seal
pub mod Records
pub mod Chunks
pub mod Open
pub mod Reads
pub mod Throws
pub mod Rounds
pub mod Causes
pub mod Fuel
use securekit.Prelude.{
  ℕ, zero, suc, ◌+◌, ◌-◌, ◌^◌, Bool, true, false, not, ◌&&◌, Option, none, some, List, length, ltb,
  ◌==◌, if◌then◌else◌,
}
use securekit.Errors.{Error, error, Result, ok, err, backend_failure, invalid_input}
use securekit.Exec.{Exec, pure, raise, lift, raise_if, ◌>>=◌, ◌>>◌}
use securekit.Evp.{Evp}
use securekit.FileFormat.{
  chunk_size, tag_size, RecordHeader, record_header_size, not_final, final, bad_packet, make_nonce,
  make_record_header, parse_record_header, make_chunk_aad,
}
use securekit.FileCrypto.{encrypt_chunk, decrypt_chunk}
use securekit.IoStream.{
  IStream, Sink, has_failed, read, peek, read_exact, reject_trailing_data, read_failed,
}

abbrev pub max_index : ℕ
max_index = 2 ^ 32 - 1

-- A loop that runs out of fuel: a round that goes on has read at least one of the bytes to come, and
-- the loops start with one round more than there are.
abbrev pub out_of_fuel : Error
out_of_fuel = error backend_failure "out of fuel"

-- `in.peek()` behind a full chunk: the chunk is the last one if nothing follows.
abbrev pub after_peek : List ℕ → Option ℕ × IStream → Result (List ℕ × Bool) × IStream
after_peek plaintext (some b, input) = (ok (plaintext, false), input)
after_peek plaintext (none, input) =
    if input.bad then (err read_failed, input) else (ok (plaintext, true), input)

-- The tests behind `in.read`. `gcount()` is the length, and never negative.
abbrev pub after_read : List ℕ × IStream → Result (List ℕ × Bool) × IStream
after_read (plaintext, input) =
    if not input.eof && has_failed input
    then (err read_failed, input)
    else if ltb (length plaintext) chunk_size
    then (ok (plaintext, true), input)
    else after_peek plaintext (peek input)

-- What a round reads: the plaintext, and whether it is the last.
unfoldable pub read_plaintext : Exec IStream (List ℕ × Bool)
read_plaintext before = after_read (read chunk_size before)

-- `if (!read_exact(...)) throw_invalid_packet();`
unfoldable pub require_exact : ℕ → Exec IStream (List ℕ)
require_exact size = do
  bytes ← read_exact size
  elim bytes [ none ↦ raise bad_packet | some found ↦ pure found ]

-- `if (record.final_flag == kFinal) reject_trailing_data(in);`
unfoldable pub check_end : ℕ → Exec IStream (Unit {0})
check_end flag = if flag == final then reject_trailing_data else pure tt

-- The two tests on a record header that has parsed.
unfoldable pub check_header : ℕ → RecordHeader → Exec IStream RecordHeader
check_header expected_index header = do
  raise_if (not (header.index == expected_index)) bad_packet
  raise_if (header.final_flag == not_final && not (header.plaintext_size == chunk_size)) bad_packet
  pure header

unfoldable pub read_body : RecordHeader → Exec IStream (RecordHeader × List ℕ × List ℕ)
read_body header = do
  ciphertext ← require_exact header.plaintext_size
  tag ← require_exact tag_size
  check_end header.final_flag
  pure (header, ciphertext, tag)

-- What a round of `open_file_payload` reads: the record, the ciphertext and the tag.
unfoldable pub read_record : ℕ → Exec IStream (RecordHeader × List ℕ × List ℕ)
read_record expected_index = do
  record_bytes ← require_exact record_header_size
  parsed ← lift (parse_record_header record_bytes)
  header ← check_header expected_index parsed
  read_body header

abbrev pub flag_of : Bool → ℕ
flag_of is_final = if is_final then final else not_final

module _ (evp : Evp) (serialized_header nonce_prefix file_key aad : List ℕ) where
  -- The rest of a round of `open_file_payload`, once the record is read.
  unfoldable pub open_record : RecordHeader × List ℕ × List ℕ → Result (List ℕ × Bool)
  open_record (header, ciphertext, tag) =
      let nonce = make_nonce nonce_prefix header.index in
      let chunk_aad = make_chunk_aad serialized_header header aad in
      elim (decrypt_chunk evp ciphertext tag file_key nonce chunk_aad) [
        | err e ↦ err e
        | ok plaintext ↦ ok (plaintext, header.final_flag == final)
      ]

  unfoldable pub read_chunk : ℕ → Exec IStream (List ℕ × Bool)
  read_chunk expected_index = do found ← read_record expected_index; lift (open_record found)

module _ (evp : Evp) (sink : Sink) where
  open sink use {Out, write_all}

  abbrev pub Io : Type 0
  Io = IStream × Out

  abbrev pub on_input : {A : Type 0} → Exec IStream A → Exec Io A
  on_input m (i, o) = let (r, i') = m i in (r, (i', o))

  abbrev pub on_output : Exec Out (Unit {0}) → Exec Io (Unit {0})
  on_output m (i, o) = let (r, o') = m o in (r, (i, o'))

  module _ (serialized_header nonce_prefix file_key aad : List ℕ) where
    -- A round of the loop of `seal_stream_payload`, once the plaintext is read.
    unfoldable pub write_chunk : ℕ → List ℕ → Bool → Exec Out (Unit {0})
    write_chunk chunk_index plaintext is_final =
        let header = make_record_header chunk_index (length plaintext) (flag_of is_final) in
        let nonce = make_nonce nonce_prefix chunk_index in
        let chunk_aad = make_chunk_aad serialized_header header aad in
        do
          encrypted ← lift (encrypt_chunk evp plaintext file_key nonce chunk_aad)
          write_all header.serialized
          write_all encrypted.ciphertext
          write_all encrypted.tag

    unfoldable pub seal_chunk : ℕ → Exec Io Bool
    seal_chunk chunk_index = do
      chunk ← on_input read_plaintext
      on_output (write_chunk chunk_index chunk.0 chunk.1)
      raise_if (chunk_index == max_index && not chunk.1)
          (error invalid_input "file is too large to seal")
      pure chunk.1

    unfoldable pub seal_loop : ℕ → ℕ → Exec Io (Unit {0})
    seal_loop zero chunk_index = raise out_of_fuel
    seal_loop (suc fuel) chunk_index =
        let next = seal_loop fuel (chunk_index + 1) in
        do wrote_final ← seal_chunk chunk_index; if wrote_final then pure tt else next

    unfoldable pub seal_stream_payload : Exec Io (Unit {0})
    seal_stream_payload (input, out) =
        (do on_output (write_all serialized_header); seal_loop (length input.rest + 1) 0)
          (input, out)

    unfoldable pub open_chunk : ℕ → Exec Io Bool
    open_chunk expected_index = do
      chunk ← on_input (read_chunk evp serialized_header nonce_prefix file_key aad expected_index)
      on_output (write_all chunk.0)
      raise_if (expected_index == max_index && not chunk.1) bad_packet
      pure chunk.1

    unfoldable pub open_loop : ℕ → ℕ → Exec Io (Unit {0})
    open_loop zero expected_index = raise out_of_fuel
    open_loop (suc fuel) expected_index =
        let next = open_loop fuel (expected_index + 1) in
        do saw_final ← open_chunk expected_index; if saw_final then pure tt else next

    unfoldable pub open_file_payload : Exec Io (Unit {0})
    open_file_payload (input, out) = open_loop (length input.rest + 1) 0 (input, out)
