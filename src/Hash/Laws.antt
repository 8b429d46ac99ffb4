-- ===== src/Hash/Laws.antt =====
-- The three functions against SHA-256, HMAC and HKDF, when no call of the backend fails.
use securekit.Prelude.{
  ℕ, zero, suc, ◌*◌, ◌<◌, ◌≤◌, ◌≡◌, ◌≢◌, refl, true, none, some, List, [], ◌∷◌, ◌++◌, length, arith,
  ltb, ltb→lt, Bool-cases, inl, inr, if◌then◌else◌,
}
use securekit.Errors.{ok, err}
use securekit.Hash.{
  Hashing, KdfParam, hkdf_failed, digest, extract_and_expand, key, salt, info, sha256, hkdf_params,
  hkdf_sha256, hmac_sha256,
}

-- What HKDF gives at most: 255 blocks of the digest's size.
abbrev pub max_hkdf : ℕ
max_hkdf = 255 * 32

-- What OpenSSL documents: a context takes a message in by pieces; a derivation of at least one byte
-- and at most 255 blocks reads its parameters, of which an absent salt or info is the empty one, and
-- a longer one is refused. Nothing is asked of a derivation of no bytes, and of an octet string
-- parameter for the salt or the info that holds no bytes.
pub record IsHashing (hashing : Hashing) : Type 1 where
  pub sha : List ℕ → List ℕ
  pub mac : List ℕ → List ℕ → List ℕ
  pub hkdf : List ℕ → List ℕ → List ℕ → ℕ → List ℕ
  pub length-sha : (x : List ℕ) → length (sha x) ≡ 32
  pub length-mac : (k x : List ℕ) → length (mac k x) ≡ 32
  pub length-hkdf : (k s i : List ℕ) (n : ℕ) → n ≤ max_hkdf → length (hkdf k s i n) ≡ n
  pub has_digest : hashing.has_sha256 ≡ true
  pub Taken : List ℕ → hashing.Ctx → Type 0
  pub new_context : (c : hashing.Ctx) × (hashing.md_ctx_new ≡ some c)
  pub start :
      (c : hashing.Ctx)
      → hashing.md_ctx_new ≡ some c
      → (c' : hashing.Ctx) × (hashing.digest_init c ≡ (true, c')) × Taken [] c'
  pub update :
      (t x : List ℕ) (c : hashing.Ctx)
      → Taken t c
      → (c' : hashing.Ctx) × (hashing.digest_update x c ≡ (true, c')) × Taken (t ++ x) c'
  pub end : (t : List ℕ) (c : hashing.Ctx) → Taken t c → hashing.digest_final c ≡ (true, sha t)
  pub quick : (k x : List ℕ) → hashing.quick_hmac k x 32 ≡ some (mac k x)
  pub fetch : hashing.has_hkdf ≡ true
  pub kdf_context : hashing.has_kdf_ctx ≡ true
  pub derive :
      (k s i : List ℕ) (n : ℕ)
      → s ≢ []
      → i ≢ []
      → 0 < n
      → n ≤ max_hkdf
      → hashing.kdf_derive (digest "SHA256" ∷ extract_and_expand ∷ key k ∷ salt s ∷ info i ∷ []) n
        ≡ some (hkdf k s i n)
  pub derive_unsalted :
      (k i : List ℕ) (n : ℕ)
      → i ≢ []
      → 0 < n
      → n ≤ max_hkdf
      → hashing.kdf_derive (digest "SHA256" ∷ extract_and_expand ∷ key k ∷ info i ∷ []) n
        ≡ some (hkdf k [] i n)
  pub derive_uninformed :
      (k s : List ℕ) (n : ℕ)
      → s ≢ []
      → 0 < n
      → n ≤ max_hkdf
      → hashing.kdf_derive (digest "SHA256" ∷ extract_and_expand ∷ key k ∷ salt s ∷ []) n
        ≡ some (hkdf k s [] n)
  pub derive_bare :
      (k : List ℕ) (n : ℕ)
      → 0 < n
      → n ≤ max_hkdf
      → hashing.kdf_derive (digest "SHA256" ∷ extract_and_expand ∷ key k ∷ []) n
        ≡ some (hkdf k [] [] n)
  pub derive_refuses :
      (params : List KdfParam) (n : ℕ) → max_hkdf < n → hashing.kdf_derive params n ≡ none

module _ (hashing : Hashing) (law : IsHashing hashing) where
  open law use {sha, mac, hkdf}

  -- On a backend that meets the laws of OpenSSL's digests, `sha256` returns the digest of its
  -- input, the empty one included.
  pub sha256-eq-sha : (x : List ℕ) → sha256 hashing x ≡ ok (sha x)
  unfolding sha256
  sha256-eq-sha [] =
      let (c, e) = law.new_context in
      let (c1, e1, h1) = law.start c e in
      ground (arith, e, e1, law.has_digest, law.end [] c1 h1, law.length-sha [])
  sha256-eq-sha (b ∷ x) =
      let (c, e) = law.new_context in
      let (c1, e1, h1) = law.start c e in
      let (c2, e2, h2) = law.update [] (b ∷ x) c1 h1 in
      ground (arith, e, e1, e2, law.has_digest, law.end (b ∷ x) c2 h2, law.length-sha (b ∷ x))

  -- The code of a key and an input.
  pub hmac_sha256-eq-mac : (k x : List ℕ) → hmac_sha256 hashing k x ≡ ok (mac k x)
  unfolding hmac_sha256
  hmac_sha256-eq-mac k x = ground (arith, law.quick k x, law.length-mac k x)

  cons≢nil : (b : ℕ) (x : List ℕ) → b ∷ x ≢ []
  cons≢nil b x h = cc

  hkdf_params_lem :
      (k s i : List ℕ) (n : ℕ)
      → 0 < n
      → n ≤ max_hkdf
      → hashing.kdf_derive (hkdf_params k s i) n ≡ some (hkdf k s i n)
  unfolding hkdf_params
  hkdf_params_lem k [] [] n = law.derive_bare k n
  hkdf_params_lem k [] (y ∷ i) n = law.derive_unsalted k (y ∷ i) n (cons≢nil y i)
  hkdf_params_lem k (x ∷ s) [] n = law.derive_uninformed k (x ∷ s) n (cons≢nil x s)
  hkdf_params_lem k (x ∷ s) (y ∷ i) n = law.derive k (x ∷ s) (y ∷ i) n (cons≢nil x s) (cons≢nil y i)

  nil_of_length : (x : List ℕ) → length x ≡ 0 → x ≡ []
  nil_of_length [] h = refl
  nil_of_length (y ∷ x) h = absurd (omega arith)

  pub hkdf_sha256-within :
      (k s i : List ℕ) (n : ℕ) → n ≤ max_hkdf → hkdf_sha256 hashing k s i n ≡ ok (hkdf k s i n)
  unfolding hkdf_sha256
  hkdf_sha256-within k s i zero h =
      ground (arith, nil_of_length (hkdf k s i 0) (law.length-hkdf k s i 0 h))
  hkdf_sha256-within k s i (suc n) h =
      ground (arith, law.fetch, law.kdf_context, hkdf_params_lem k s i (suc n) (omega arith) h)

  hkdf_sha256-beyond :
      (k s i : List ℕ) (n : ℕ) → max_hkdf < n → hkdf_sha256 hashing k s i n ≡ err hkdf_failed
  unfolding hkdf_sha256
  hkdf_sha256-beyond k s i n h =
      ground (arith, h, law.fetch, law.kdf_context, law.derive_refuses (hkdf_params k s i) n h)

  pub hkdf_sha256-eq-hkdf :
      (k s i : List ℕ) (n : ℕ)
      → hkdf_sha256 hashing k s i n
        ≡ (if ltb max_hkdf n then err hkdf_failed else ok (hkdf k s i n))
  hkdf_sha256-eq-hkdf k s i n = elim (Bool-cases (ltb max_hkdf n)) [
    | inl more ↦ rw more (hkdf_sha256-beyond k s i n (ltb→lt max_hkdf n more))
    | inr fits ↦ rw fits (hkdf_sha256-within k s i n (ground (arith, fits)))
  ]
