-- ===== src/Tests/Hashes.antt =====
-- A small backend for hashes and derived keys that meets the laws.
use securekit.Prelude.{
  none, ltb, le→ltb_false, lt→ltb, if◌then◌else◌, ℕ, ◌+◌, ◌%◌, ◌≡◌, refl, ap, true, some, List, [],
  ◌∷◌, ◌++◌, length-replicate, replicate, arith,
}
use securekit.Hash.{
  Hashing, KdfParam, hkdf_failed, digest, extract_and_expand, key, salt, info, sha256, hmac_sha256,
  hkdf_sha256,
}
use securekit.Hash.Laws.{
  IsHashing, max_hkdf, sha256-eq-sha, hmac_sha256-eq-mac, hkdf_sha256-eq-hkdf,
}
use securekit.Errors.{ok, err}

abbrev pub total : List ℕ → ℕ
total [] = 0
total (b ∷ x) = (b + total x) % 256

abbrev pub key_sum : List KdfParam → ℕ
key_sum [] = 0
key_sum (digest name ∷ params) = key_sum params
key_sum (extract_and_expand ∷ params) = key_sum params
key_sum (key k ∷ params) = total k + key_sum params
key_sum (salt s ∷ params) = total s + key_sum params
key_sum (info i ∷ params) = total i + key_sum params

abbrev pub toy_hashing : Hashing
toy_hashing = record {
  Ctx = List ℕ;
  md_ctx_new = some [];
  has_sha256 = true;
  digest_init = λ c. (true, []);
  digest_update = λ x c. (true, c ++ x);
  digest_final = λ c. (true, replicate 32 (total c));
  has_hkdf = true;
  has_kdf_ctx = true;
  kdf_derive = λ params n. if ltb max_hkdf n then none else some (replicate n (key_sum params));
  quick_hmac = λ k x n. some (replicate n (total (k ++ x)));
  scrypt = λ p s n r q m size. some (replicate size (total (p ++ s)));
}

pub same_key : (n a b : ℕ) → a ≡ b → some (replicate n a) ≡ some (replicate n b)
same_key n a b h = ap (λ t. some (replicate n t)) h

abbrev pub toy_hash_laws : IsHashing toy_hashing
toy_hash_laws = record {
  sha = λ x. replicate 32 (total x);
  mac = λ k x. replicate 32 (total (k ++ x));
  hkdf = λ k s i n. replicate n (total k + (total s + (total i + 0)));
  length-sha = λ x. refl;
  length-mac = λ k x. refl;
  length-hkdf = λ k s i n h. length-replicate n (total k + (total s + (total i + 0)));
  has_digest = refl;
  Taken = λ t c. c ≡ t;
  new_context = ([], refl);
  start = λ c new. ([], refl, refl);
  update = λ t x c h. (c ++ x, refl, ap (λ u. u ++ x) h);
  end = λ t c h. ap (toy_hashing.digest_final) h;
  quick = λ k x. refl;
  fetch = refl;
  kdf_context = refl;
  derive = λ k s i n salted informed some_bytes h. rw (le→ltb_false max_hkdf n h) refl;
  derive_unsalted = λ k i n informed some_bytes h.
      rw (le→ltb_false max_hkdf n h)
        (same_key n (total k + (total i + 0)) (total k + (0 + (total i + 0))) (omega arith));
  derive_uninformed = λ k s n salted some_bytes h.
      rw (le→ltb_false max_hkdf n h)
        (same_key n (total k + (total s + 0)) (total k + (total s + (0 + 0))) (omega arith));
  derive_bare = λ k n some_bytes h.
      rw (le→ltb_false max_hkdf n h)
        (same_key n (total k + 0) (total k + (0 + (0 + 0))) (omega arith));
  derive_refuses = λ params n h. rw (lt→ltb max_hkdf n h) refl;
}

sha256-eq-sha_example : sha256 toy_hashing (1 ∷ 2 ∷ []) ≡ ok (replicate 32 3)
sha256-eq-sha_example = sha256-eq-sha toy_hashing toy_hash_laws (1 ∷ 2 ∷ [])

hmac_runs : hmac_sha256 toy_hashing (1 ∷ []) (2 ∷ []) ≡ ok (replicate 32 3)
hmac_runs = hmac_sha256-eq-mac toy_hashing toy_hash_laws (1 ∷ []) (2 ∷ [])

hkdf_refused : hkdf_sha256 toy_hashing (1 ∷ []) [] (2 ∷ []) 8161 ≡ err hkdf_failed
hkdf_refused = hkdf_sha256-eq-hkdf toy_hashing toy_hash_laws (1 ∷ []) [] (2 ∷ []) 8161
