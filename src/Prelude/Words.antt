-- ===== src/Prelude/Words.antt =====
-- C++ `int` as its 32-bit pattern (two's complement), `std::byte` casts, and text constants.
use Prim.Native.Nat.{ℕ, ◌+◌, ◌-◌, ◌*◌, ◌/◌, ◌%◌, ◌^◌, ◌<◌}
use Prim.Native.Char.{code}
use Prim.Native.String.{String}
use mathlib.Core.Bool.{Bool}
use mathlib.Core.List.{List, [], ◌∷◌}
use securekit.Prelude.Tests.{leb, if◌then◌else◌}

-- The code points of a text constant: its bytes, since the source's constants are ASCII.
abbrev pub codes : String → List ℕ
codes String.[] = []
codes (String.◌∷◌ c s) = code c ∷ codes s

abbrev pub IsByte : ℕ → Type 0
IsByte b = b < 256

-- `-1` as an `int`.
abbrev pub minus_one : ℕ
minus_one = 0xffff_ffff

abbrev pub is_negative : ℕ → Bool
is_negative c = leb 0x8000_0000 c

-- `c << k`, and `c >> k` with the sign carried in.
abbrev pub shl : ℕ → ℕ → ℕ
shl c k = c * 2 ^ k % 2 ^ 32

abbrev pub sar : ℕ → ℕ → ℕ
sar c k = if is_negative c then (c + (2 ^ k - 1) * 2 ^ 32) / 2 ^ k else c / 2 ^ k

-- `static_cast<std::byte>`
abbrev pub to_byte : ℕ → ℕ
to_byte c = c % 256

abbrev pub int_max : ℕ
int_max = 2 ^ 31 - 1
