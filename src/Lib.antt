-- ===== src/Lib.antt =====
-- SecureKit: text encodings, authenticated packets, streaming encryption, key wrapping, random
-- bytes, hashes, and the sealing and opening of files through streams and paths.
--
-- Parts of the program and the files that model them (paths from the repository's root):
-- * Errors      src/error.cpp, include/securekit/error.hpp. A function that may throw returns a
--               `Result`; the message of an exception is kept with its code.
-- * Hex         src/hex.cpp.
-- * Base64      src/base64.cpp, the standard and the url-safe alphabet.
-- * Exec        The steps of the stateful code: from a state to a result and the state it leaves,
--               also where an exception leaves it half changed.
-- * Evp         OpenSSL's cipher interface, which is not part of the repository: a record of calls
--               (`Evp`), and the documented laws of AES-256-GCM through that interface (`Gcm`).
-- * Aead        src/aead_internal.hpp; Aead/Context has the functions that take a context.
-- * PacketStream  src/packet_stream.cpp: `packet_encryptor` and `packet_decryptor`, phase by phase.
-- * Encryption  src/aead.cpp and src/key_wrap.cpp, which drive one object of PacketStream.
-- * Random      src/random.cpp, over a generator that may fail and that keeps a state.
-- * FileFormat  src/file_crypto.cpp and src/file_detail.hpp: headers, records and chunk nonces.
-- * Hash        src/hash.cpp, over a record of OpenSSL's calls; Hash/Laws has what they document.
-- * Compare     src/compare.cpp; its running time is not modelled.
-- * FileCrypto  the rest of src/file_crypto.cpp: keys and the encryption of one chunk.
-- * IoStream    the standard streams, `read_exact`, `reject_trailing_data` and `write_all` of
--               src/file_io.cpp; IoStream/Sinks has what is asked of an output.
-- * FileStream  the payload loops of src/file.cpp; FileStream/Format is the format of docs/FORMAT.md.
-- * Files       the stream overloads of src/file.cpp: Files/Keyed with a key, Files/Password with a
--               password.
-- * FileSystem  the calls of the operating system that src/file_io.cpp makes, as a record, and the laws
--               of what they change; each may fail.
-- * FileIo      the rest of src/file_io.cpp on Unix: output files, temporary files, the commit.
-- * Paths       the path overloads of src/file.cpp, which write to a temporary file beside the output
--               and link it to its name at the end. `Call` is a call of one of the four.
-- * Cli         src/cli/commands.cpp: usage texts, keys and sizes as arguments, and the options of the
--               commands, where reading a file is a parameter; Cli/OutputFiles has the new files that
--               the commands on keys and packets write, over the calls on `std::ofstream`.
-- * Tests       The functions at concrete inputs, over a small backend that meets the laws.
--
-- A byte is a number below 256, a byte sequence or a string is a list of numbers. An `int` and an
-- `unsigned` are written with their limits: `to_byte`, `% 2 ^ 32`, `int_max`. The limits of the
-- containers (`max_size`) are parameters. A loop over an index is a recursion on the rest of the
-- sequence; loops that have no such rest run on fuel that is enough: in `fill_random` a round for each
-- INT_MAX bytes and one more, in `base64url_decode` three paddings, and in the payload loops one round
-- more than there are bytes, since each round but the last reads at least one.
--
-- The parts meet in Files: `seal_file` draws a header (Random, FileFormat), derives the file's key
-- (Hash), and runs the payload loop (FileStream), which reads and writes through IoStream and calls
-- FileCrypto for each chunk, which calls Evp. A `std::istream` is the bytes to come, a flag for a
-- device that fails behind them, and the three state bits.
--
-- The path overloads draw the name of the temporary file (Random), create it (FileIo), and run the same
-- payload as the stream overloads with the output file as their `Sink`. `open_unique_temp_output` makes
-- 32 attempts, which is the source's own bound. What other processes do in between shows only in the
-- answers of the calls.
--
-- Not modelled: the Windows branches, the streaming file commands and the dispatch in `run` of
-- src/cli/commands.cpp, the wiping of memory, allocation failures, and the moves of C++ objects beyond
-- the null pointer they leave behind.
pub mod Prelude
pub mod Errors
pub mod Hex
pub mod Base64
pub mod Exec
pub mod Evp
pub mod Aead
pub mod PacketStream
pub mod Encryption
pub mod Random
pub mod FileFormat
pub mod Hash
pub mod Compare
pub mod FileCrypto
pub mod IoStream
pub mod FileStream
pub mod Files
pub mod Tests
pub mod FileSystem
pub mod FileIo
pub mod Paths
pub mod Cli
