-- ===== src/FileStream/Format.antt =====
-- The payload of a file (docs/FORMAT.md) as a function of its chunks.
use securekit.Prelude.{
  ℕ, ◌+◌, ◌^◌, ◌<◌, ◌≤◌, ◌≡◌, List, [], ◌∷◌, ◌++◌, length, All, Bool, true, false,
}
use securekit.Evp.{Evp, Gcm}
use securekit.FileFormat.{chunk_size, make_nonce, make_record_header, make_chunk_aad}
use securekit.FileCrypto.Chunks.{sealed}
use securekit.FileStream.{flag_of}

-- The chunks before the last one are full, and the indexes are words.
abbrev pub IsFull : List ℕ → Type 0
IsFull c = length c ≡ chunk_size

abbrev pub IsChunked : ℕ → List (List ℕ) → List ℕ → Type 0
IsChunked i cs last = All IsFull cs × (length last ≤ chunk_size) × (i + length cs < 2 ^ 32)

module _ (evp : Evp) (gcm : Gcm evp) (header prefix k aad : List ℕ) where
  abbrev pub sealed_chunk : ℕ → List ℕ → Bool → List ℕ
  sealed_chunk i p is_final =
      let r = make_record_header i (length p) (flag_of is_final) in
      let c = sealed evp gcm k (make_nonce prefix i) (make_chunk_aad header r aad) p in
      r.serialized ++ (c.ciphertext ++ c.tag)

  unfoldable pub payload : ℕ → List (List ℕ) → List ℕ → List ℕ
  payload i [] last = sealed_chunk i last true
  payload i (c ∷ cs) last = sealed_chunk i c false ++ payload (i + 1) cs last
