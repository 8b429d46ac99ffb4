-- ===== src/IoStream/Sinks.antt =====
-- What is asked of an output, and a `std::ostream` as one.
use securekit.Prelude.{ℕ, ◌≡◌, refl, Bool, true, false, Option, none, some, List, ◌++◌, arith}
use securekit.Errors.{ok}
use securekit.IoStream.{OStream, Sink, ostream, write_all, write}

-- An output that tells what was written to it. `Accepting` holds where writes succeed.
pub record IsSink (sink : Sink) : Type 1 where
  pub written : sink.Out → List ℕ
  pub Accepting : sink.Out → Type 0
  pub accept :
      (x : List ℕ) (o : sink.Out)
      → Accepting o
      → (o' : sink.Out) × (sink.write_all x o ≡ (ok tt, o'))
        × (written o' ≡ written o ++ x)
        × Accepting o'
  pub write_inv :
      (x : List ℕ) (o o' : sink.Out)
      → sink.write_all x o ≡ (ok tt, o')
      → written o' ≡ written o ++ x

-- It takes any number of bytes.
abbrev pub IsOpen : OStream → Type 0
IsOpen out = (out.room ≡ none) × (out.bad ≡ false)

abbrev pub stream : List ℕ → Option ℕ → Bool → OStream
stream written room bad = record { written = written; room = room; bad = bad }

pub write_all-open :
    (x w : List ℕ) (room : Option ℕ) (bad : Bool)
    → room ≡ none
    → bad ≡ false
    → write_all x (stream w room bad) ≡ (ok tt, stream (w ++ x) none false)
unfolding write_all write
write_all-open x w room bad h k = ground (arith, h, k)

pub write_all_inv :
    (x w : List ℕ) (room : Option ℕ) (bad : Bool) (out' : OStream)
    → write_all x (stream w room bad) ≡ (ok tt, out')
    → out'.written ≡ w ++ x
unfolding write_all write
write_all_inv x w room true out' e = absurd (ground (arith, e))
write_all_inv x w none false out' e = ground (arith, e)
write_all_inv x w (some n) false out' e = ground (arith, e)

abbrev pub ostream_laws : IsSink ostream
ostream_laws = record {
  written = λ out. out.written;
  Accepting = IsOpen;
  accept = λ x out (room, fine). (
    stream (out.written ++ x) none false,
    write_all-open x out.written out.room out.bad room fine,
    refl,
    (refl, refl),
  );
  write_inv = λ x out out' e. write_all_inv x out.written out.room out.bad out' e;
}
