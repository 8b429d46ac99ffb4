-- ===== src/Aead.antt =====
-- src/aead_internal.hpp: the format of an SKT1 packet. Wiping of
-- buffers that are released (src/wipe.hpp) has no effect on what a call returns.
pub mod Context
use Prim.Native.String.{◌++◌ as str_append}
use securekit.Prelude.{
  ℕ, ◌+◌, ◌-◌, String, not, Bool, true, false, ◌&&◌, Option, none, some, List, [], ◌∷◌, ◌++◌,
  length, take, drop, get_or, replicate, copy_at, ltb, ◌==◌, bytes_eq, if◌then◌else◌, codes,
  int_max,
}
use securekit.Errors.{
  Error, error, Result, ok, ◌>>=◌, ◌>>◌, throw_if, invalid_input, invalid_packet,
  authentication_failed, backend_failure,
}

abbrev pub magic : List ℕ
magic = codes "SKT1"

abbrev pub version : ℕ
version = 0x01

abbrev pub header_size : ℕ
header_size = 4 + 1

abbrev pub nonce_size : ℕ
nonce_size = 12

abbrev pub prefix_size : ℕ
prefix_size = header_size + nonce_size

abbrev pub tag_size : ℕ
tag_size = 16

abbrev pub overhead : ℕ
overhead = prefix_size + tag_size

abbrev pub gcm_failed : Error
gcm_failed = error backend_failure "OpenSSL AES-256-GCM operation failed"

abbrev pub bad_packet : Error
bad_packet = error invalid_packet "Invalid AEAD packet"

abbrev pub not_authentic : Error
not_authentic = error authentication_failed "AEAD authentication failed"

abbrev pub too_large : String → Error
too_large name = error invalid_input (str_append name " exceeds OpenSSL update limit")

unfoldable pub check_update_size : ℕ → String → Result (Unit {0})
check_update_size size name = throw_if (ltb int_max size) (too_large name)

-- The size as an `int`, which it fits.
unfoldable pub update_size : List ℕ → String → Result ℕ
unfolding check_update_size
update_size input name = do check_update_size (length input) name; ok (length input)

unfoldable pub make_header : List ℕ
make_header = copy_at 4 (version ∷ []) (copy_at 0 magic (replicate header_size 0))

unfoldable pub make_packet_prefix : List ℕ → Result (List ℕ)
unfolding make_header
make_packet_prefix nonce = do
  throw_if (not (length nonce == nonce_size)) gcm_failed
  ok (copy_at header_size nonce (copy_at 0 make_header (replicate prefix_size 0)))

unfoldable pub require_valid_prefix : List ℕ → Result (Unit {0})
require_valid_prefix packet_prefix = do
  throw_if (not (length packet_prefix == prefix_size)) bad_packet
  throw_if (not (bytes_eq magic (take 4 packet_prefix))) bad_packet
  throw_if (not (get_or packet_prefix 4 0 == version)) bad_packet

unfoldable pub require_valid_packet : List ℕ → Result (Unit {0})
require_valid_packet packet = do
  throw_if (ltb (length packet) overhead) bad_packet
  require_valid_prefix (take prefix_size packet)
