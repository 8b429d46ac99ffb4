-- ===== src/Cli/PacketCommands.antt =====
-- What the options of encrypt and decrypt hold when they have been accepted.
use securekit.Prelude.{
  ℕ, ◌-◌, ◌%◌, ◌≡◌, refl, ap, true, false, not, ◌||◌, List, [], length, drop, get_or, bytes_eq,
  arith, ◌⊎◌, inl, inr, Bool-cases,
}
use securekit.Cli.{Outcome, returned}
use securekit.Cli.Values.{key_from_option, aad_from_option}
use securekit.Cli.Usage.{packet_command_usage}
use securekit.Cli.Options.{reject_duplicate, fold_pairs, is_malformed}
use securekit.Cli.Groups.{one_name, is_output, is_key, is_aad, is_packet, is_plaintext}
use securekit.Cli.Once.{
  SetsOnce, count, bit, Each, IsGiven, fold_pairs-Each, fold_pairs-count, fold_pairs-Given,
  checked_inv,
}
use securekit.Cli.PacketOptions.{
  EncryptOptions, no_encrypt_options, encrypt_option, parse_encrypt_options, DecryptOptions,
  no_decrypt_options, decrypt_option, parse_decrypt_options, packet_from_option,
  plaintext_from_option,
}

key_not_plaintext : (o : List ℕ) → is_key o ≡ true → (is_plaintext o ≡ false)
unfolding bytes_eq
key_not_plaintext o h = ground (
  arith,
  h,
  one_name "--key-hex" "--text" o refl,
  one_name "--key-hex" "--in" o refl,
  one_name "--key-file" "--text" o refl,
  one_name "--key-file" "--in" o refl,
)

aad_not_plaintext_key :
    (o : List ℕ) → is_aad o ≡ true → (is_plaintext o ≡ false) × (is_key o ≡ false)
unfolding bytes_eq
aad_not_plaintext_key o h = ground (
  arith,
  h,
  one_name "--aad-text" "--text" o refl,
  one_name "--aad-text" "--in" o refl,
  one_name "--aad-text" "--key-hex" o refl,
  one_name "--aad-text" "--key-file" o refl,
  one_name "--aad-hex" "--text" o refl,
  one_name "--aad-hex" "--in" o refl,
  one_name "--aad-hex" "--key-hex" o refl,
  one_name "--aad-hex" "--key-file" o refl,
)

output_not_plaintext_key_aad :
    (o : List ℕ)
    → is_output o ≡ true
    → (is_plaintext o ≡ false) × (is_key o ≡ false) × (is_aad o ≡ false)
unfolding bytes_eq
output_not_plaintext_key_aad o h = ground (
  arith,
  h,
  one_name "--out" "--text" o refl,
  one_name "--out" "--in" o refl,
  one_name "--out" "--key-hex" o refl,
  one_name "--out" "--key-file" o refl,
  one_name "--out" "--aad-text" o refl,
  one_name "--out" "--aad-hex" o refl,
)

key_not_packet : (o : List ℕ) → is_key o ≡ true → (is_packet o ≡ false)
unfolding bytes_eq
key_not_packet o h = ground (
  arith,
  h,
  one_name "--key-hex" "--packet-hex" o refl,
  one_name "--key-hex" "--packet-file" o refl,
  one_name "--key-file" "--packet-hex" o refl,
  one_name "--key-file" "--packet-file" o refl,
)

aad_not_packet_key : (o : List ℕ) → is_aad o ≡ true → (is_packet o ≡ false) × (is_key o ≡ false)
unfolding bytes_eq
aad_not_packet_key o h = ground (
  arith,
  h,
  one_name "--aad-text" "--packet-hex" o refl,
  one_name "--aad-text" "--packet-file" o refl,
  one_name "--aad-text" "--key-hex" o refl,
  one_name "--aad-text" "--key-file" o refl,
  one_name "--aad-hex" "--packet-hex" o refl,
  one_name "--aad-hex" "--packet-file" o refl,
  one_name "--aad-hex" "--key-hex" o refl,
  one_name "--aad-hex" "--key-file" o refl,
)

output_not_packet_key_aad :
    (o : List ℕ)
    → is_output o ≡ true
    → (is_packet o ≡ false) × (is_key o ≡ false) × (is_aad o ≡ false)
unfolding bytes_eq
output_not_packet_key_aad o h = ground (
  arith,
  h,
  one_name "--out" "--packet-hex" o refl,
  one_name "--out" "--packet-file" o refl,
  one_name "--out" "--key-hex" o refl,
  one_name "--out" "--key-file" o refl,
  one_name "--out" "--aad-text" o refl,
  one_name "--out" "--aad-hex" o refl,
)

module _ (read_file : List ℕ → Outcome (List ℕ)) where
  encrypt_plaintext :
      SetsOnce
        (encrypt_option read_file)
        is_plaintext
        (λ a. a.has_plaintext)
        (λ o v a. plaintext_from_option read_file o v ≡ returned a.plaintext)
  unfolding encrypt_option reject_duplicate
  encrypt_plaintext = record {
    sets = λ o v a a' e h. ground (arith, e, h);
    keeps = λ o v a a' e h. (ground (arith, e, h), λ o' v' holds. ground (arith, e, h, holds));
  }

  encrypt_key :
      SetsOnce
        (encrypt_option read_file)
        is_key
        (λ a. a.has_key)
        (λ o v a. key_from_option read_file o v ≡ returned a.key)
  unfolding encrypt_option reject_duplicate
  encrypt_key = record {
    sets = λ o v a a' e h. ground (arith, e, h, key_not_plaintext o h);
    keeps = λ o v a a' e h. (ground (arith, e, h), λ o' v' holds. ground (arith, e, h, holds));
  }

  encrypt_aad :
      SetsOnce
        (encrypt_option read_file)
        is_aad
        (λ a. a.has_aad)
        (λ o v a. aad_from_option o v ≡ returned a.aad)
  unfolding encrypt_option reject_duplicate
  encrypt_aad = record {
    sets = λ o v a a' e h. ground (arith, e, h, aad_not_plaintext_key o h);
    keeps = λ o v a a' e h. (ground (arith, e, h), λ o' v' holds. ground (arith, e, h, holds));
  }

  encrypt_output :
      SetsOnce (encrypt_option read_file) is_output (λ a. a.has_output) (λ o v a. a.output ≡ v)
  unfolding encrypt_option reject_duplicate
  encrypt_output = record {
    sets = λ o v a a' e h. ground (arith, e, h, output_not_plaintext_key_aad o h);
    keeps = λ o v a a' e h. (ground (arith, e, h), λ o' v' holds. ground (arith, e, h, holds));
  }

  encrypt_known :
      (o v : List ℕ) (a a' : EncryptOptions)
      → encrypt_option read_file o v a ≡ returned a'
      → (is_plaintext o || is_key o || is_aad o || is_output o) ≡ true
  unfolding encrypt_option reject_duplicate
  encrypt_known o v a a' e = ground (arith, e)

  pub record IsEncryptAccepted (argv : List (List ℕ)) (a : EncryptOptions) : Type 0 where
    pub even : (length argv - 2) % 2 ≡ 0
    pub known_only : Each (λ o. is_plaintext o || is_key o || is_aad o || is_output o) (drop 2 argv)
    pub one_plaintext : count is_plaintext (drop 2 argv) ≡ 1
    pub plaintext_given :
        IsGiven is_plaintext
          (drop 2 argv)
          (λ o v. plaintext_from_option read_file o v ≡ returned a.plaintext)
    pub one_key : count is_key (drop 2 argv) ≡ 1
    pub key_given :
        IsGiven is_key (drop 2 argv) (λ o v. key_from_option read_file o v ≡ returned a.key)
    pub one_aad : count is_aad (drop 2 argv) ≡ bit a.has_aad
    pub aad_given :
        (a.has_aad ≡ false)
        ⊎ IsGiven is_aad (drop 2 argv) (λ o v. aad_from_option o v ≡ returned a.aad)
    pub one_output : count is_output (drop 2 argv) ≡ bit a.has_output
    pub output_given :
        (a.has_output ≡ false) ⊎ IsGiven is_output (drop 2 argv) (λ o v. a.output ≡ v)

  pub parse_encrypt_options-IsEncryptAccepted :
      (argv : List (List ℕ)) (a : EncryptOptions)
      → parse_encrypt_options read_file argv ≡ returned a
      → IsEncryptAccepted argv a
  unfolding parse_encrypt_options
  parse_encrypt_options-IsEncryptAccepted argv a e =
      let (even, ran, complete) =
        checked_inv (is_malformed 6 argv) (packet_command_usage (get_or argv 1 []))
          (fold_pairs (encrypt_option read_file) (drop 2 argv) no_encrypt_options)
          (λ b. not b.has_plaintext || not b.has_key) a e in
      let ps = drop 2 argv in
      let s = encrypt_option read_file in
      let plaintext_set : a.has_plaintext ≡ true = ground (arith, complete) in
      let key_set : a.has_key ≡ true = ground (arith, complete) in
      record {
        even = ground (arith, even);
        known_only =
            fold_pairs-Each s (λ o. is_plaintext o || is_key o || is_aad o || is_output o)
              encrypt_known ps no_encrypt_options a ran;
        one_plaintext = omega (
          arith,
          fold_pairs-count s is_plaintext (λ a. a.has_plaintext)
              (λ o v a. plaintext_from_option read_file o v ≡ returned a.plaintext)
              encrypt_plaintext ps no_encrypt_options a ran,
          ap bit plaintext_set,
        );
        plaintext_given =
            fold_pairs-Given s is_plaintext (λ a. a.has_plaintext)
              (λ o v a. plaintext_from_option read_file o v ≡ returned a.plaintext)
              encrypt_plaintext ps no_encrypt_options a ran refl plaintext_set;
        one_key = omega (
          arith,
          fold_pairs-count s is_key (λ a. a.has_key)
              (λ o v a. key_from_option read_file o v ≡ returned a.key) encrypt_key ps
              no_encrypt_options a ran,
          ap bit key_set,
        );
        key_given =
            fold_pairs-Given s is_key (λ a. a.has_key)
              (λ o v a. key_from_option read_file o v ≡ returned a.key) encrypt_key ps
              no_encrypt_options a ran refl key_set;
        one_aad = omega (
          arith,
          fold_pairs-count s is_aad (λ a. a.has_aad) (λ o v a. aad_from_option o v ≡ returned a.aad)
              encrypt_aad ps no_encrypt_options a ran,
        );
        aad_given = elim (Bool-cases a.has_aad) [
          | inl set ↦ inr (
              fold_pairs-Given s is_aad (λ a. a.has_aad)
                (λ o v a. aad_from_option o v ≡ returned a.aad) encrypt_aad ps no_encrypt_options a
                ran refl set)
          | inr unset ↦ inl unset
        ];
        one_output = omega (
          arith,
          fold_pairs-count s is_output (λ a. a.has_output) (λ o v a. a.output ≡ v) encrypt_output ps
              no_encrypt_options a ran,
        );
        output_given = elim (Bool-cases a.has_output) [
          | inl set ↦ inr (
              fold_pairs-Given s is_output (λ a. a.has_output) (λ o v a. a.output ≡ v)
                encrypt_output ps no_encrypt_options a ran refl set)
          | inr unset ↦ inl unset
        ];
      }

  decrypt_packet :
      SetsOnce
        (decrypt_option read_file)
        is_packet
        (λ a. a.has_packet)
        (λ o v a. packet_from_option read_file o v ≡ returned a.packet)
  unfolding decrypt_option reject_duplicate
  decrypt_packet = record {
    sets = λ o v a a' e h. ground (arith, e, h);
    keeps = λ o v a a' e h. (ground (arith, e, h), λ o' v' holds. ground (arith, e, h, holds));
  }

  decrypt_key :
      SetsOnce
        (decrypt_option read_file)
        is_key
        (λ a. a.has_key)
        (λ o v a. key_from_option read_file o v ≡ returned a.key)
  unfolding decrypt_option reject_duplicate
  decrypt_key = record {
    sets = λ o v a a' e h. ground (arith, e, h, key_not_packet o h);
    keeps = λ o v a a' e h. (ground (arith, e, h), λ o' v' holds. ground (arith, e, h, holds));
  }

  decrypt_aad :
      SetsOnce
        (decrypt_option read_file)
        is_aad
        (λ a. a.has_aad)
        (λ o v a. aad_from_option o v ≡ returned a.aad)
  unfolding decrypt_option reject_duplicate
  decrypt_aad = record {
    sets = λ o v a a' e h. ground (arith, e, h, aad_not_packet_key o h);
    keeps = λ o v a a' e h. (ground (arith, e, h), λ o' v' holds. ground (arith, e, h, holds));
  }

  decrypt_output :
      SetsOnce (decrypt_option read_file) is_output (λ a. a.has_output) (λ o v a. a.output ≡ v)
  unfolding decrypt_option reject_duplicate
  decrypt_output = record {
    sets = λ o v a a' e h. ground (arith, e, h, output_not_packet_key_aad o h);
    keeps = λ o v a a' e h. (ground (arith, e, h), λ o' v' holds. ground (arith, e, h, holds));
  }

  decrypt_known :
      (o v : List ℕ) (a a' : DecryptOptions)
      → decrypt_option read_file o v a ≡ returned a'
      → (is_packet o || is_key o || is_aad o || is_output o) ≡ true
  unfolding decrypt_option reject_duplicate
  decrypt_known o v a a' e = ground (arith, e)

  pub record IsDecryptAccepted (argv : List (List ℕ)) (a : DecryptOptions) : Type 0 where
    pub even : (length argv - 2) % 2 ≡ 0
    pub known_only : Each (λ o. is_packet o || is_key o || is_aad o || is_output o) (drop 2 argv)
    pub one_packet : count is_packet (drop 2 argv) ≡ 1
    pub packet_given :
        IsGiven is_packet
          (drop 2 argv)
          (λ o v. packet_from_option read_file o v ≡ returned a.packet)
    pub one_key : count is_key (drop 2 argv) ≡ 1
    pub key_given :
        IsGiven is_key (drop 2 argv) (λ o v. key_from_option read_file o v ≡ returned a.key)
    pub one_aad : count is_aad (drop 2 argv) ≡ bit a.has_aad
    pub aad_given :
        (a.has_aad ≡ false)
        ⊎ IsGiven is_aad (drop 2 argv) (λ o v. aad_from_option o v ≡ returned a.aad)
    pub one_output : count is_output (drop 2 argv) ≡ bit a.has_output
    pub output_given :
        (a.has_output ≡ false) ⊎ IsGiven is_output (drop 2 argv) (λ o v. a.output ≡ v)

  pub parse_decrypt_options-IsDecryptAccepted :
      (argv : List (List ℕ)) (a : DecryptOptions)
      → parse_decrypt_options read_file argv ≡ returned a
      → IsDecryptAccepted argv a
  unfolding parse_decrypt_options
  parse_decrypt_options-IsDecryptAccepted argv a e =
      let (even, ran, complete) =
        checked_inv (is_malformed 6 argv) (packet_command_usage (get_or argv 1 []))
          (fold_pairs (decrypt_option read_file) (drop 2 argv) no_decrypt_options)
          (λ b. not b.has_packet || not b.has_key) a e in
      let ps = drop 2 argv in
      let s = decrypt_option read_file in
      let packet_set : a.has_packet ≡ true = ground (arith, complete) in
      let key_set : a.has_key ≡ true = ground (arith, complete) in
      record {
        even = ground (arith, even);
        known_only =
            fold_pairs-Each s (λ o. is_packet o || is_key o || is_aad o || is_output o)
              decrypt_known ps no_decrypt_options a ran;
        one_packet = omega (
          arith,
          fold_pairs-count s is_packet (λ a. a.has_packet)
              (λ o v a. packet_from_option read_file o v ≡ returned a.packet) decrypt_packet ps
              no_decrypt_options a ran,
          ap bit packet_set,
        );
        packet_given =
            fold_pairs-Given s is_packet (λ a. a.has_packet)
              (λ o v a. packet_from_option read_file o v ≡ returned a.packet) decrypt_packet ps
              no_decrypt_options a ran refl packet_set;
        one_key = omega (
          arith,
          fold_pairs-count s is_key (λ a. a.has_key)
              (λ o v a. key_from_option read_file o v ≡ returned a.key) decrypt_key ps
              no_decrypt_options a ran,
          ap bit key_set,
        );
        key_given =
            fold_pairs-Given s is_key (λ a. a.has_key)
              (λ o v a. key_from_option read_file o v ≡ returned a.key) decrypt_key ps
              no_decrypt_options a ran refl key_set;
        one_aad = omega (
          arith,
          fold_pairs-count s is_aad (λ a. a.has_aad) (λ o v a. aad_from_option o v ≡ returned a.aad)
              decrypt_aad ps no_decrypt_options a ran,
        );
        aad_given = elim (Bool-cases a.has_aad) [
          | inl set ↦ inr (
              fold_pairs-Given s is_aad (λ a. a.has_aad)
                (λ o v a. aad_from_option o v ≡ returned a.aad) decrypt_aad ps no_decrypt_options a
                ran refl set)
          | inr unset ↦ inl unset
        ];
        one_output = omega (
          arith,
          fold_pairs-count s is_output (λ a. a.has_output) (λ o v a. a.output ≡ v) decrypt_output ps
              no_decrypt_options a ran,
        );
        output_given = elim (Bool-cases a.has_output) [
          | inl set ↦ inr (
              fold_pairs-Given s is_output (λ a. a.has_output) (λ o v a. a.output ≡ v)
                decrypt_output ps no_decrypt_options a ran refl set)
          | inr unset ↦ inl unset
        ];
      }
