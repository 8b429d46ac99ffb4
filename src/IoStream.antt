-- ===== src/IoStream.antt =====
-- The standard streams as src/file.cpp and src/file_io.cpp use them: `std::istream` with `read`,
-- `peek` and its state, `std::ostream` with `write`, and lines 130-170 of src/file_io.cpp.
pub mod Laws
pub mod Sinks
use securekit.Prelude.{
  ℕ, Bool, true, false, not, ◌&&◌, ◌||◌, Option, none, some, List, [], ◌∷◌, ◌++◌, length, take,
  drop, leb, ltb, ◌-◌, ◌==◌, if◌then◌else◌,
}
use securekit.Errors.{Error, error, Result, ok, err, backend_failure, invalid_packet}
use securekit.Exec.{Exec, pure, raise, raise_if, ◌>>=◌, ◌>>◌}

-- The bytes that are still to come, whether the device fails behind them, where a healthy one ends,
-- and the three state bits.
pub record IStream : Type 0 where
  pub rest : List ℕ
  pub broken : Bool
  pub eof : Bool
  pub fail : Bool
  pub bad : Bool

abbrev pub is_good : IStream → Bool
is_good input = not input.eof && not input.fail && not input.bad

-- `in.fail()`
abbrev pub has_failed : IStream → Bool
has_failed input = input.fail || input.bad

-- The state that is set when a read meets the end of the bytes.
abbrev pub hit_end : Bool → IStream → IStream
hit_end short input =
    if input.broken then record input { bad = true } else record input { eof = true; fail = short }

-- `in.read(buffer, n)`: the `gcount()` bytes that were read.
unfoldable pub read : ℕ → IStream → List ℕ × IStream
read n input =
    if not (is_good input)
    then ([], record input { fail = true })
    else if leb n (length input.rest)
    then (take n input.rest, record input { rest = drop n input.rest })
    else (input.rest, hit_end true (record input { rest = [] }))

-- `in.peek()`; `none` is `eof()`
unfoldable pub peek : IStream → Option ℕ × IStream
peek input =
    if not (is_good input)
    then (none, record input { fail = true })
    else elim input.rest [ [] ↦ (none, hit_end false input) | b ∷ rest ↦ (some b, input) ]

-- The device behind a `std::ostream` takes `room` bytes more, or any number if there is no limit.
pub record OStream : Type 0 where
  pub written : List ℕ
  pub room : Option ℕ
  pub bad : Bool

abbrev pub put : List ℕ → OStream → OStream
put bytes out = elim out.room [
  | none ↦ record out { written = out.written ++ bytes }
  | some n ↦
      if leb (length bytes) n
      then record out { written = out.written ++ bytes; room = some (n - length bytes) }
      else record out { written = out.written ++ take n bytes; room = some 0; bad = true }
]

-- `out.write(bytes, size)`
unfoldable pub write : List ℕ → OStream → OStream
write bytes out = if out.bad then out else put bytes out

-- What the payload functions need of their output, a template parameter.
pub record Sink : Type 1 where
  pub Out : Type 0
  pub write_all : List ℕ → Exec Out (Unit {0})

abbrev pub write_failed : Error
write_failed = error backend_failure "File write failed"

abbrev pub read_failed : Error
read_failed = error backend_failure "File read failed"

-- `write_all` of a `std::ostream`.
unfoldable pub write_all : List ℕ → Exec OStream (Unit {0})
unfolding write
write_all bytes out =
    let after = write bytes out in (if after.bad then err write_failed else ok tt, after)

abbrev pub ostream : Sink
ostream = record { Out = OStream; write_all = write_all }

-- The bytes, or `none` where the source returns false.
unfoldable pub read_exact : ℕ → Exec IStream (Option (List ℕ))
read_exact size before =
    let (bytes, input) = read size before in
    if length bytes == size
    then (ok (some bytes), input)
    else if input.bad || (not input.eof && has_failed input)
    then (err read_failed, input)
    else (ok none, input)

unfoldable pub reject_trailing_data : Exec IStream (Unit {0})
reject_trailing_data before =
    let (trailing, input) = read 1 before in
    if not (length trailing == 0)
    then (err (error invalid_packet "Invalid file sealing packet"), input)
    else if input.bad || (not input.eof && has_failed input)
    then (err read_failed, input)
    else (ok tt, input)
