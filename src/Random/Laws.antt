-- ===== src/Random/Laws.antt =====
-- The loop of `fill_random` fills the whole buffer.
use securekit.Prelude.{
  ℕ, zero, suc, ◌+◌, ◌-◌, ◌*◌, ◌/◌, ◌≤◌, ◌≡◌, true, inl, inr, Bool-cases, List, [], ◌++◌, length,
  length-append, min, ◌==◌, int_max, arith,
}
use securekit.Errors.{ok}
use securekit.Random.{Generator, fill_loop, fill_random, random_bytes}

-- OpenSSL writes as many bytes as it was asked for, when it does not fail.
pub record IsFilling (gen : Generator) : Type 0 where
  pub full :
      (n : ℕ) (s s' : gen.Source) (out : List ℕ)
      → gen.rand_bytes n s ≡ (true, out, s')
      → length out ≡ n

module _ (gen : Generator) (law : IsFilling gen) where
  open gen use {Source}

  length-fill_loop :
      (fuel size : ℕ) (output out : List ℕ) (s s' : Source)
      → size ≤ int_max * fuel
      → fill_loop gen fuel size output s ≡ (ok out, s')
      → length out ≡ length output + size
  unfolding fill_loop
  length-fill_loop zero size output out s s' h e = ground (arith, e, h)
  length-fill_loop (suc fuel) size output out s s' h e = elim (Bool-cases (size == 0)) [
    | inl empty ↦ ground (arith, e)
    | inr more ↦
        let r = gen.rand_bytes (min size int_max) s in
        elim (Bool-cases r.0) [
          | inr failed ↦ absurd (ground (arith, e, more, failed))
          | inl done ↦
              let rest : fill_loop gen fuel (size - min size int_max) (output ++ r.1) r.2
                  ≡ (ok out, s') =
                ground (arith, e, more, done) in
              omega (
                arith,
                law.full (min size int_max) s r.2 r.1 (λ i. (done i, r.1, r.2)),
                length-append output r.1,
                length-fill_loop fuel (size - min size int_max) (output ++ r.1) out r.2 s'
                    (omega arith) rest,
              )
        ]
  ]

  length-fill_random :
      (size : ℕ) (out : List ℕ) (s s' : Source)
      → fill_random gen size s ≡ (ok out, s')
      → length out ≡ size
  unfolding fill_random
  length-fill_random size out s s' e =
      omega (arith, length-fill_loop (size / int_max + 1) size [] out s s' (omega arith) e)

  -- Where the generator fills each buffer it is given, `random_bytes` returns, when it succeeds,
  -- as many bytes as it was asked for, beyond INT_MAX bytes too.
  pub length-random_bytes :
      (size : ℕ) (out : List ℕ) (s s' : Source)
      → random_bytes gen size s ≡ (ok out, s')
      → length out ≡ size
  unfolding random_bytes
  length-random_bytes size out s s' e = elim (Bool-cases (size == 0)) [
    | inl empty ↦ ground (arith, e)
    | inr more ↦
        let filled : fill_random gen size s ≡ (ok out, s') = ground (arith, e, more) in
        length-fill_random size out s s' filled
  ]
