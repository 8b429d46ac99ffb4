-- ===== src/FileStream/Causes.antt =====
-- What the rounds of the payload loops throw: never a lack of fuel, if the output does not.
use securekit.Prelude.{ℕ, Bool, Option, none, some, List, ◌==◌, Bool-cases, inl, inr, arith}
use securekit.Errors.{Result, ok, err, error, invalid_input}
use securekit.Exec.{Exec, pure, raise, lift}
use securekit.Exec.Throws.{Only, lift-Throws}
use securekit.Evp.{Evp}
use securekit.FileCrypto.{decrypt_chunk}
use securekit.FileFormat.{
  bad_packet, parse_record_header, RecordHeader, chunk_size, final, make_chunk_aad, make_nonce,
}
use securekit.IoStream.{IStream, Sink, read, peek, read_exact, reject_trailing_data, read_failed}
use securekit.FileStream.{
  read_plaintext, after_peek, require_exact, check_end, check_header, read_body, read_record,
  open_record, read_chunk, on_input, on_output, write_chunk, seal_chunk, open_chunk,
}
use securekit.FileStream.Throws.{
  Proper, ThrowsProper, >>=-Proper, pure-Proper, raise_if-Proper, encrypt_chunk-Proper,
  decrypt_chunk-Proper,
}

read_failed-Proper : Proper read_failed
read_failed-Proper h = cc

pub bad_packet-Proper : Proper bad_packet
bad_packet-Proper h = cc

after_peek-Proper : (x : List ℕ) (r : Option ℕ × IStream) → Only Proper (after_peek x r).0
after_peek-Proper x (some b, i) = tt
after_peek-Proper x (none, i) = ground (arith, read_failed-Proper)

pub read_plaintext-Proper : ThrowsProper read_plaintext
unfolding read_plaintext
read_plaintext-Proper s =
    let r = read chunk_size s in
    ground (arith, read_failed-Proper, after_peek-Proper r.0 (peek r.1))

read_exact-Proper : (n : ℕ) → ThrowsProper (read_exact n)
unfolding read_exact
read_exact-Proper n s = ground (arith, read_failed-Proper)

reject_trailing_data-Proper : ThrowsProper reject_trailing_data
unfolding reject_trailing_data
reject_trailing_data-Proper s = ground (arith, bad_packet-Proper, read_failed-Proper)

too_big-Proper : Proper (error invalid_input "file is too large to seal")
too_big-Proper h = cc

lift-Proper : {S A : Type 0} (r : Result A) → Only Proper r → ThrowsProper {S = S} (lift r)
lift-Proper = lift-Throws Proper

or_bad-Proper :
    (found : Option (List ℕ))
    → ThrowsProper {S = IStream} {A = List ℕ}
        (elim found [ none ↦ raise bad_packet | some x ↦ pure x ])
or_bad-Proper none s = bad_packet-Proper
or_bad-Proper (some x) s = tt

require_exact-Proper : (n : ℕ) → ThrowsProper (require_exact n)
unfolding require_exact
require_exact-Proper n = search (>>=-Proper, read_exact-Proper, or_bad-Proper)

check_end-Proper : (flag : ℕ) → ThrowsProper (check_end flag)
unfolding check_end
check_end-Proper flag = elim (Bool-cases (flag == final)) [
  | inl h ↦ rw h reject_trailing_data-Proper
  | inr h ↦ rw h (pure-Proper tt)
]

check_header-Proper : (i : ℕ) (header : RecordHeader) → ThrowsProper (check_header i header)
unfolding check_header
check_header-Proper i header =
    search (>>=-Proper, raise_if-Proper, bad_packet-Proper, pure-Proper) depth 10

read_body-Proper : (header : RecordHeader) → ThrowsProper (read_body header)
unfolding read_body
read_body-Proper header =
    search (>>=-Proper, require_exact-Proper, check_end-Proper, pure-Proper) depth 10

parse_record_header-Proper : (x : List ℕ) → Only Proper (parse_record_header x)
unfolding parse_record_header
parse_record_header-Proper x = ground (arith, bad_packet-Proper)

read_record-Proper : (i : ℕ) → ThrowsProper (read_record i)
unfolding read_record
read_record-Proper i =
    search
      (
        >>=-Proper, require_exact-Proper, lift-Proper, parse_record_header-Proper,
        check_header-Proper, read_body-Proper,
      )
      depth 10

module _ (evp : Evp) (serialized_header nonce_prefix file_key aad : List ℕ) where
  open_record-Proper :
      (found : RecordHeader × List ℕ × List ℕ)
      → Only Proper (open_record evp serialized_header nonce_prefix file_key aad found)
  unfolding open_record
  open_record-Proper (header, ciphertext, tag) =
      opened
        (decrypt_chunk evp ciphertext tag file_key (make_nonce nonce_prefix header.index)
          (make_chunk_aad serialized_header header aad))
        (decrypt_chunk-Proper evp ciphertext tag file_key (make_nonce nonce_prefix header.index)
          (make_chunk_aad serialized_header header aad))
    where
      opened :
          (r : Result (List ℕ))
          → Only Proper r
          → Only Proper {A = List ℕ × Bool}
              (elim r [ err e ↦ err e | ok x ↦ ok (x, header.final_flag == final) ])
      opened (err e) h = h
      opened (ok x) h = tt

  read_chunk-Proper :
      (i : ℕ) → ThrowsProper (read_chunk evp serialized_header nonce_prefix file_key aad i)
  unfolding read_chunk
  read_chunk-Proper i = search (>>=-Proper, read_record-Proper, lift-Proper, open_record-Proper)

  module _ (sink : Sink) (sink_Proper : (x : List ℕ) → ThrowsProper (sink.write_all x)) where
    on_input-Proper :
        {A : Type 0} (m : Exec IStream A) → ThrowsProper m → ThrowsProper (on_input evp sink m)
    on_input-Proper m h s = h s.0

    pub on_output-Proper :
        (m : Exec sink.Out (Unit {0})) → ThrowsProper m → ThrowsProper (on_output evp sink m)
    on_output-Proper m h s = h s.1

    write_chunk-Proper :
        (i : ℕ) (x : List ℕ) (last : Bool)
        → ThrowsProper (write_chunk evp sink serialized_header nonce_prefix file_key aad i x last)
    unfolding write_chunk
    write_chunk-Proper i x last =
        search (>>=-Proper, lift-Proper, encrypt_chunk-Proper, sink_Proper) depth 12

    pub seal_chunk-Proper :
        (i : ℕ) → ThrowsProper (seal_chunk evp sink serialized_header nonce_prefix file_key aad i)
    unfolding seal_chunk
    seal_chunk-Proper i =
        search
          (
            >>=-Proper, on_input-Proper, read_plaintext-Proper, on_output-Proper,
            write_chunk-Proper, raise_if-Proper, too_big-Proper, pure-Proper,
          )
          depth 12

    pub open_chunk-Proper :
        (i : ℕ) → ThrowsProper (open_chunk evp sink serialized_header nonce_prefix file_key aad i)
    unfolding open_chunk
    open_chunk-Proper i =
        search
          (
            >>=-Proper, on_input-Proper, read_chunk-Proper, on_output-Proper, sink_Proper,
            raise_if-Proper, bad_packet-Proper, pure-Proper,
          )
          depth 12
