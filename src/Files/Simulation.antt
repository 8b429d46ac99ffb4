-- ===== src/Files/Simulation.antt =====
-- Two outputs under the same code: if every write that one accepts is accepted by the other, a run
-- that succeeds on the first succeeds on the second, and reads the same.
use securekit.Prelude.{
  ℕ, zero, suc, ◌+◌, ◌≡◌, refl, sym, ap, ◌∙◌, Bool, true, false, List, length, if◌then◌else◌,
}
use mathlib.Core.Path.{subst}
use securekit.Errors.{Error, Result, ok, err}
use securekit.Exec.{Exec, lift, raise_if, >>=-eq-ok, ◌>>=◌}
use securekit.Evp.{Evp}
use securekit.Hash.{Hashing}
use securekit.IoStream.{IStream, Sink}
use securekit.FileStream.{
  Io, on_input, on_output, write_chunk, seal_chunk, seal_loop, seal_stream_payload, open_chunk,
  open_loop, open_file_payload, out_of_fuel,
}
use securekit.Files.{open_file, open_file_with_password}

module _ {S T : Type 0} (R : S → T → Type 0) where
  abbrev pub Simulates : {A : Type 0} → Exec S A → Exec T A → Type 0
  Simulates {A = A} m n =
      (s : S) (t : T) (a : A) (s' : S)
      → R s t
      → m s ≡ (ok a, s')
      → (t' : T) × (n t ≡ (ok a, t')) × R s' t'

  >>=-Simulates :
      {A B : Type 0} (m : Exec S A) (m' : Exec T A) (next : A → Exec S B) (next' : A → Exec T B)
      → Simulates m m'
      → ((a : A) → Simulates (next a) (next' a))
      → Simulates (m >>= next) (m' >>= next')
  >>=-Simulates m m' next next' first rest s t b s' related e =
      let (a, s1, e1, e2) = >>=-eq-ok m next s e in
      let (t1, f1, related1) = first s t a s1 related e1 in
      let (t', f2, related') = rest a s1 t1 b s' related1 e2 in (t', rw f1 f2, related')

  lift-Simulates : {A : Type 0} (r : Result A) → Simulates (lift r) (lift r)
  lift-Simulates {A = A} r s t a s' related e = (
    t,
    ap (λ (x : Result A × S). (x.0, t)) e,
    subst (λ x. R x t) (ap (λ (x : Result A × S). x.1) e) related,
  )

  raise_if-Simulates : (b : Bool) (e : Error) → Simulates (raise_if b e) (raise_if b e)
  raise_if-Simulates true e = lift-Simulates (err e)
  raise_if-Simulates false e = lift-Simulates (ok tt)

  branch :
      {A : Type 0} (b : Bool) (m n : Exec S A) (m' n' : Exec T A)
      → Simulates m m'
      → Simulates n n'
      → Simulates (if b then m else n) (if b then m' else n')
  branch true m n m' n' h k = h
  branch false m n m' n' h k = k

-- The inputs are the same, and the outputs are related.
abbrev pub Alike :
    (evp : Evp) (sink sink' : Sink) (R : sink.Out → sink'.Out → Type 0)
    → Io evp sink
    → Io evp sink'
    → Type 0
Alike evp sink sink' R s t = (s.0 ≡ t.0) × R s.1 t.1

module _ (evp : Evp) (sink sink' : Sink) (R : sink.Out → sink'.Out → Type 0)
    (writes : (x : List ℕ) → Simulates R (sink.write_all x) (sink'.write_all x)) where
  abbrev Paired : Io evp sink → Io evp sink' → Type 0
  Paired = Alike evp sink sink' R

  input-Simulates :
      {A : Type 0} (m : Exec IStream A)
      → Simulates Paired (on_input evp sink m) (on_input evp sink' m)
  input-Simulates {A = A} m s t a s' (same, related) e = (
    (s'.0, t.1),
    ap (λ i. ((m i).0, ((m i).1, t.1))) (sym same)
        ∙ ap (λ (x : Result A × Io evp sink). (x.0, (x.1.0, t.1))) e,
    (refl, subst (λ o. R o t.1) (ap (λ (x : Result A × Io evp sink). x.1.1) e) related),
  )

  output-Simulates :
      (m : Exec sink.Out (Unit {0})) (m' : Exec sink'.Out (Unit {0}))
      → Simulates R m m'
      → Simulates Paired (on_output evp sink m) (on_output evp sink' m')
  output-Simulates m m' mimic s t a s' (same, related) e =
      let (p', f, related') =
        mimic s.1 t.1 a s'.1 related
          (ap (λ (x : Result (Unit {0}) × Io evp sink). (x.0, x.1.1)) e) in
      (
        (t.0, p'),
        ap (λ (x : Result (Unit {0}) × sink'.Out). (x.0, (t.0, x.1))) f,
        (sym (ap (λ (x : Result (Unit {0}) × Io evp sink). x.1.0) e) ∙ same, related'),
      )

  ruleset steps =
      (>>=-Simulates, lift-Simulates, raise_if-Simulates, branch, input-Simulates, output-Simulates)

  module _ (header prefix key aad : List ℕ) where
    write_chunk-Simulates :
        (i : ℕ) (plaintext : List ℕ) (is_final : Bool)
        → Simulates R
            (write_chunk evp sink header prefix key aad i plaintext is_final)
            (write_chunk evp sink' header prefix key aad i plaintext is_final)
    unfolding write_chunk
    write_chunk-Simulates i plaintext is_final = search (steps, writes)

    seal_chunk-Simulates :
        (i : ℕ)
        → Simulates Paired
            (seal_chunk evp sink header prefix key aad i)
            (seal_chunk evp sink' header prefix key aad i)
    unfolding seal_chunk
    seal_chunk-Simulates i = search (steps, write_chunk-Simulates)

    seal_loop-Simulates :
        (fuel i : ℕ)
        → Simulates Paired
            (seal_loop evp sink header prefix key aad fuel i)
            (seal_loop evp sink' header prefix key aad fuel i)
    unfolding seal_loop
    seal_loop-Simulates zero i = lift-Simulates Paired {A = Unit {0}} (err out_of_fuel)
    seal_loop-Simulates (suc fuel) i =
        search (steps, seal_chunk-Simulates i, seal_loop-Simulates fuel (i + 1))

    seal_from :
        (input : IStream) (o : sink.Out) (p : sink'.Out) (a : Unit {0}) (s' : Io evp sink)
        → R o p
        → seal_stream_payload evp sink header prefix key aad (input, o) ≡ (ok a, s')
        → (t' : Io evp sink') × (seal_stream_payload evp sink' header prefix key aad (input, p)
            ≡ (ok a, t'))
          × Paired s' t'
    unfolding seal_stream_payload
    seal_from input o p a s' related e =
        >>=-Simulates Paired (on_output evp sink (sink.write_all header))
          (on_output evp sink' (sink'.write_all header))
          (λ _. seal_loop evp sink header prefix key aad (length input.rest + 1) 0)
          (λ _. seal_loop evp sink' header prefix key aad (length input.rest + 1) 0)
          (output-Simulates (sink.write_all header) (sink'.write_all header) (writes header))
          (λ _. seal_loop-Simulates (length input.rest + 1) 0) (input, o) (input, p) a s'
          (refl, related) e

    pub seal_stream_payload-Simulates :
        Simulates Paired
          (seal_stream_payload evp sink header prefix key aad)
          (seal_stream_payload evp sink' header prefix key aad)
    seal_stream_payload-Simulates s t a s' (same, related) e =
        let (t', f, alike) = seal_from s.0 s.1 t.1 a s' related e in
        (
          t',
          ap (λ i. seal_stream_payload evp sink' header prefix key aad (i, t.1)) (sym same) ∙ f,
          alike,
        )

    open_chunk-Simulates :
        (i : ℕ)
        → Simulates Paired
            (open_chunk evp sink header prefix key aad i)
            (open_chunk evp sink' header prefix key aad i)
    unfolding open_chunk
    open_chunk-Simulates i = search (steps, writes)

    open_loop-Simulates :
        (fuel i : ℕ)
        → Simulates Paired
            (open_loop evp sink header prefix key aad fuel i)
            (open_loop evp sink' header prefix key aad fuel i)
    unfolding open_loop
    open_loop-Simulates zero i = lift-Simulates Paired {A = Unit {0}} (err out_of_fuel)
    open_loop-Simulates (suc fuel) i =
        search (steps, open_chunk-Simulates i, open_loop-Simulates fuel (i + 1))

    open_file_payload-Simulates :
        Simulates Paired
          (open_file_payload evp sink header prefix key aad)
          (open_file_payload evp sink' header prefix key aad)
    unfolding open_file_payload
    open_file_payload-Simulates (input, o) (input', p) a s' (same, related) e =
        let (t', f, alike) =
          open_loop-Simulates (length input.rest + 1) 0 (input, o) (input, p) a s' (refl, related)
            e in
        (
          t',
          ap (λ i. open_file_payload evp sink' header prefix key aad (i, p)) (sym same) ∙ f,
          alike,
        )

  module _ (hashing : Hashing) where
    pub open_file-Simulates :
        (key aad : List ℕ)
        → Simulates Paired
            (open_file evp sink hashing key aad)
            (open_file evp sink' hashing key aad)
    unfolding open_file
    open_file-Simulates key aad = search (steps, open_file_payload-Simulates)

    pub open_file_with_password-Simulates :
        (password aad : List ℕ)
        → Simulates Paired
            (open_file_with_password evp sink hashing password aad)
            (open_file_with_password evp sink' hashing password aad)
    unfolding open_file_with_password
    open_file_with_password-Simulates password aad = search (steps, open_file_payload-Simulates)
