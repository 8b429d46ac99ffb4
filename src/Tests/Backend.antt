-- ===== src/Tests/Backend.antt =====
-- A small backend that meets the laws: the key stream flips the lowest bit, the tag is a checksum.
use securekit.Prelude.{
  ℕ, ◌+◌, ◌-◌, ◌%◌, ◌≡◌, refl, ap, true, some, List, [], ◌∷◌, ◌++◌, length, replicate, bytes_eq,
  ◌==◌, arith, if◌then◌else◌,
}
use securekit.Evp.{Evp, Gcm}

pub record Ctx : Type 0 where
  pub key : List ℕ
  pub nonce : List ℕ
  pub aad : List ℕ
  pub text : List ℕ
  pub tag : List ℕ

abbrev pub flip : ℕ → ℕ
flip b = if b % 2 == 0 then b + 1 else b - 1

abbrev pub flip_all : List ℕ → List ℕ
flip_all [] = []
flip_all (b ∷ p) = flip b ∷ flip_all p

abbrev sum : List ℕ → ℕ
sum [] = 0
sum (b ∷ p) = b + sum p

abbrev pub checksum : List ℕ → List ℕ → List ℕ → List ℕ → List ℕ
checksum k n a t = replicate 16 ((sum k + sum n + sum a + sum t) % 256)

abbrev pub fresh_ctx : List ℕ → List ℕ → List ℕ → List ℕ → Ctx
fresh_ctx k n a t = record { key = k; nonce = n; aad = a; text = t; tag = [] }

abbrev pub toy : Evp
toy = record {
  Ctx = Ctx;
  ctx_new = some (fresh_ctx [] [] [] []);
  has_aes_256_gcm = true;
  encrypt_init_cipher = λ c. (true, c);
  encrypt_init_key = λ k n c. (true, fresh_ctx k n [] []);
  decrypt_init_cipher = λ c. (true, c);
  decrypt_init_key = λ k n c. (true, fresh_ctx k n [] []);
  set_ivlen = λ n c. (true, c);
  aad_update = λ x c. (true, record c { aad = c.aad ++ x });
  encrypt_update = λ p c. (true, flip_all p, record c { text = c.text ++ flip_all p });
  encrypt_final = λ c. (true, [], c);
  get_tag = λ n c. (true, checksum c.key c.nonce c.aad c.text, c);
  decrypt_update = λ p c. (true, flip_all p, record c { text = c.text ++ p });
  set_tag = λ g c. (true, record c { tag = g });
  decrypt_final = λ c. (bytes_eq c.tag (checksum c.key c.nonce c.aad c.text), [], c);
}

flip-flip : (b : ℕ) → flip (flip b) ≡ b
flip-flip b = ground arith

pub flip_all-flip_all : (p : List ℕ) → flip_all (flip_all p) ≡ p
flip_all-flip_all [] = refl
flip_all-flip_all (b ∷ p) = rw (flip-flip b, flip_all-flip_all p)

pub flip_all-append : (p q : List ℕ) → flip_all (p ++ q) ≡ flip_all p ++ flip_all q
flip_all-append [] q = refl
flip_all-append (b ∷ p) q = ap (λ t. flip b ∷ t) (flip_all-append p q)

pub length-flip_all : (p : List ℕ) → length (flip_all p) ≡ length p
length-flip_all [] = refl
length-flip_all (b ∷ p) = omega (arith, length-flip_all p)

abbrev pub toy_gcm : Gcm toy
toy_gcm = record {
  crypt = λ k n i p. flip_all p;
  auth_tag = checksum;
  length-crypt = λ k n i p. length-flip_all p;
  crypt_involutive = λ k n i p. flip_all-flip_all p;
  crypt-append = λ k n i p q. flip_all-append p q;
  length-auth_tag = λ k n a t. refl;
  Encrypting = λ k n a t c. c ≡ fresh_ctx k n a t;
  Decrypting = λ k n a t c. c ≡ fresh_ctx k n a t;
  has_cipher = refl;
  new_context = (fresh_ctx [] [] [] [], refl);
  encrypt_start = λ k n c new hk hn. (c, c, fresh_ctx k n [] [], refl, refl, refl, refl);
  decrypt_start = λ k n c new hk hn. (c, c, fresh_ctx k n [] [], refl, refl, refl, refl);
  encrypt_aad = λ k n a x c h fits. (fresh_ctx k n (a ++ x) [], ap (toy.aad_update x) h, refl);
  decrypt_aad = λ k n a x c h fits. (fresh_ctx k n (a ++ x) [], ap (toy.aad_update x) h, refl);
  encrypt_text =
      λ k n a t p c h fits. (fresh_ctx k n a (t ++ flip_all p), ap (toy.encrypt_update p) h, refl);
  decrypt_text =
      λ k n a t p c h fits. (fresh_ctx k n a (t ++ p), ap (toy.decrypt_update p) h, refl);
  encrypt_end = λ k n a t c h. (fresh_ctx k n a t, fresh_ctx k n a t, ap toy.encrypt_final h, refl);
  decrypt_end = λ k n a t g c h size.
      let set : Ctx = record (fresh_ctx k n a t) { tag = g } in
      (set, set, ap (toy.set_tag g) h, refl);
}
