-- ===== src/Cli/KeyCommands.antt =====
-- What the options of wrap-key and unwrap-key hold when they have been accepted.
use securekit.Prelude.{
  ℕ, ◌-◌, ◌%◌, ◌≡◌, refl, ap, true, false, not, ◌||◌, List, length, drop, bytes_eq, arith, ◌⊎◌, inl,
  inr, Bool-cases,
}
use securekit.Cli.{Outcome, returned}
use securekit.Cli.Values.{key_from_option, wrapping_key_from_option}
use securekit.Cli.Usage.{wrap_key_usage, unwrap_key_usage}
use securekit.Cli.Options.{reject_duplicate, fold_pairs, is_malformed}
use securekit.Cli.Groups.{one_name, is_output, is_key, is_wrapping_key, is_packet}
use securekit.Cli.Once.{
  SetsOnce, count, bit, Each, IsGiven, fold_pairs-Each, fold_pairs-count, fold_pairs-Given,
  checked_inv,
}
use securekit.Cli.PacketOptions.{
  WrapKeyOptions, no_wrap_key_options, wrap_key_option, parse_wrap_key_options, UnwrapKeyOptions,
  no_unwrap_key_options, unwrap_key_option, parse_unwrap_key_options, packet_from_option,
}

wrapping_key_not_key : (o : List ℕ) → is_wrapping_key o ≡ true → (is_key o ≡ false)
unfolding bytes_eq
wrapping_key_not_key o h = ground (
  arith,
  h,
  one_name "--wrapping-key-hex" "--key-hex" o refl,
  one_name "--wrapping-key-hex" "--key-file" o refl,
  one_name "--wrapping-key-file" "--key-hex" o refl,
  one_name "--wrapping-key-file" "--key-file" o refl,
)

output_not_key_wrapping_key :
    (o : List ℕ) → is_output o ≡ true → (is_key o ≡ false) × (is_wrapping_key o ≡ false)
unfolding bytes_eq
output_not_key_wrapping_key o h = ground (
  arith,
  h,
  one_name "--out" "--key-hex" o refl,
  one_name "--out" "--key-file" o refl,
  one_name "--out" "--wrapping-key-hex" o refl,
  one_name "--out" "--wrapping-key-file" o refl,
)

wrapping_key_not_packet : (o : List ℕ) → is_wrapping_key o ≡ true → (is_packet o ≡ false)
unfolding bytes_eq
wrapping_key_not_packet o h = ground (
  arith,
  h,
  one_name "--wrapping-key-hex" "--packet-hex" o refl,
  one_name "--wrapping-key-hex" "--packet-file" o refl,
  one_name "--wrapping-key-file" "--packet-hex" o refl,
  one_name "--wrapping-key-file" "--packet-file" o refl,
)

output_not_packet_wrapping_key :
    (o : List ℕ) → is_output o ≡ true → (is_packet o ≡ false) × (is_wrapping_key o ≡ false)
unfolding bytes_eq
output_not_packet_wrapping_key o h = ground (
  arith,
  h,
  one_name "--out" "--packet-hex" o refl,
  one_name "--out" "--packet-file" o refl,
  one_name "--out" "--wrapping-key-hex" o refl,
  one_name "--out" "--wrapping-key-file" o refl,
)

module _ (read_file : List ℕ → Outcome (List ℕ)) where
  wrap_key_key :
      SetsOnce
        (wrap_key_option read_file)
        is_key
        (λ a. a.has_key)
        (λ o v a. key_from_option read_file o v ≡ returned a.key)
  unfolding wrap_key_option reject_duplicate
  wrap_key_key = record {
    sets = λ o v a a' e h. ground (arith, e, h);
    keeps = λ o v a a' e h. (ground (arith, e, h), λ o' v' holds. ground (arith, e, h, holds));
  }

  wrap_key_wrapping_key :
      SetsOnce
        (wrap_key_option read_file)
        is_wrapping_key
        (λ a. a.has_wrapping_key)
        (λ o v a. wrapping_key_from_option read_file o v ≡ returned a.wrapping_key)
  unfolding wrap_key_option reject_duplicate
  wrap_key_wrapping_key = record {
    sets = λ o v a a' e h. ground (arith, e, h, wrapping_key_not_key o h);
    keeps = λ o v a a' e h. (ground (arith, e, h), λ o' v' holds. ground (arith, e, h, holds));
  }

  wrap_key_output :
      SetsOnce (wrap_key_option read_file) is_output (λ a. a.has_output) (λ o v a. a.output ≡ v)
  unfolding wrap_key_option reject_duplicate
  wrap_key_output = record {
    sets = λ o v a a' e h. ground (arith, e, h, output_not_key_wrapping_key o h);
    keeps = λ o v a a' e h. (ground (arith, e, h), λ o' v' holds. ground (arith, e, h, holds));
  }

  wrap_key_known :
      (o v : List ℕ) (a a' : WrapKeyOptions)
      → wrap_key_option read_file o v a ≡ returned a'
      → (is_key o || is_wrapping_key o || is_output o) ≡ true
  unfolding wrap_key_option reject_duplicate
  wrap_key_known o v a a' e = ground (arith, e)

  pub record IsWrapKeyAccepted (argv : List (List ℕ)) (a : WrapKeyOptions) : Type 0 where
    pub even : (length argv - 2) % 2 ≡ 0
    pub known_only : Each (λ o. is_key o || is_wrapping_key o || is_output o) (drop 2 argv)
    pub one_key : count is_key (drop 2 argv) ≡ 1
    pub key_given :
        IsGiven is_key (drop 2 argv) (λ o v. key_from_option read_file o v ≡ returned a.key)
    pub one_wrapping_key : count is_wrapping_key (drop 2 argv) ≡ 1
    pub wrapping_key_given :
        IsGiven is_wrapping_key
          (drop 2 argv)
          (λ o v. wrapping_key_from_option read_file o v ≡ returned a.wrapping_key)
    pub one_output : count is_output (drop 2 argv) ≡ bit a.has_output
    pub output_given :
        (a.has_output ≡ false) ⊎ IsGiven is_output (drop 2 argv) (λ o v. a.output ≡ v)

  pub parse_wrap_key_options-IsWrapKeyAccepted :
      (argv : List (List ℕ)) (a : WrapKeyOptions)
      → parse_wrap_key_options read_file argv ≡ returned a
      → IsWrapKeyAccepted argv a
  unfolding parse_wrap_key_options
  parse_wrap_key_options-IsWrapKeyAccepted argv a e =
      let (even, ran, complete) =
        checked_inv (is_malformed 6 argv) wrap_key_usage
          (fold_pairs (wrap_key_option read_file) (drop 2 argv) no_wrap_key_options)
          (λ b. not b.has_key || not b.has_wrapping_key) a e in
      let ps = drop 2 argv in
      let s = wrap_key_option read_file in
      let key_set : a.has_key ≡ true = ground (arith, complete) in
      let wrapping_key_set : a.has_wrapping_key ≡ true = ground (arith, complete) in
      record {
        even = ground (arith, even);
        known_only =
            fold_pairs-Each s (λ o. is_key o || is_wrapping_key o || is_output o) wrap_key_known ps
              no_wrap_key_options a ran;
        one_key = omega (
          arith,
          fold_pairs-count s is_key (λ a. a.has_key)
              (λ o v a. key_from_option read_file o v ≡ returned a.key) wrap_key_key ps
              no_wrap_key_options a ran,
          ap bit key_set,
        );
        key_given =
            fold_pairs-Given s is_key (λ a. a.has_key)
              (λ o v a. key_from_option read_file o v ≡ returned a.key) wrap_key_key ps
              no_wrap_key_options a ran refl key_set;
        one_wrapping_key = omega (
          arith,
          fold_pairs-count s is_wrapping_key (λ a. a.has_wrapping_key)
              (λ o v a. wrapping_key_from_option read_file o v ≡ returned a.wrapping_key)
              wrap_key_wrapping_key ps no_wrap_key_options a ran,
          ap bit wrapping_key_set,
        );
        wrapping_key_given =
            fold_pairs-Given s is_wrapping_key (λ a. a.has_wrapping_key)
              (λ o v a. wrapping_key_from_option read_file o v ≡ returned a.wrapping_key)
              wrap_key_wrapping_key ps no_wrap_key_options a ran refl wrapping_key_set;
        one_output = omega (
          arith,
          fold_pairs-count s is_output (λ a. a.has_output) (λ o v a. a.output ≡ v) wrap_key_output
              ps no_wrap_key_options a ran,
        );
        output_given = elim (Bool-cases a.has_output) [
          | inl set ↦ inr (
              fold_pairs-Given s is_output (λ a. a.has_output) (λ o v a. a.output ≡ v)
                wrap_key_output ps no_wrap_key_options a ran refl set)
          | inr unset ↦ inl unset
        ];
      }

  unwrap_key_packet :
      SetsOnce
        (unwrap_key_option read_file)
        is_packet
        (λ a. a.has_packet)
        (λ o v a. packet_from_option read_file o v ≡ returned a.packet)
  unfolding unwrap_key_option reject_duplicate
  unwrap_key_packet = record {
    sets = λ o v a a' e h. ground (arith, e, h);
    keeps = λ o v a a' e h. (ground (arith, e, h), λ o' v' holds. ground (arith, e, h, holds));
  }

  unwrap_key_wrapping_key :
      SetsOnce
        (unwrap_key_option read_file)
        is_wrapping_key
        (λ a. a.has_wrapping_key)
        (λ o v a. wrapping_key_from_option read_file o v ≡ returned a.wrapping_key)
  unfolding unwrap_key_option reject_duplicate
  unwrap_key_wrapping_key = record {
    sets = λ o v a a' e h. ground (arith, e, h, wrapping_key_not_packet o h);
    keeps = λ o v a a' e h. (ground (arith, e, h), λ o' v' holds. ground (arith, e, h, holds));
  }

  unwrap_key_output :
      SetsOnce (unwrap_key_option read_file) is_output (λ a. a.has_output) (λ o v a. a.output ≡ v)
  unfolding unwrap_key_option reject_duplicate
  unwrap_key_output = record {
    sets = λ o v a a' e h. ground (arith, e, h, output_not_packet_wrapping_key o h);
    keeps = λ o v a a' e h. (ground (arith, e, h), λ o' v' holds. ground (arith, e, h, holds));
  }

  unwrap_key_known :
      (o v : List ℕ) (a a' : UnwrapKeyOptions)
      → unwrap_key_option read_file o v a ≡ returned a'
      → (is_packet o || is_wrapping_key o || is_output o) ≡ true
  unfolding unwrap_key_option reject_duplicate
  unwrap_key_known o v a a' e = ground (arith, e)

  pub record IsUnwrapKeyAccepted (argv : List (List ℕ)) (a : UnwrapKeyOptions) : Type 0 where
    pub even : (length argv - 2) % 2 ≡ 0
    pub known_only : Each (λ o. is_packet o || is_wrapping_key o || is_output o) (drop 2 argv)
    pub one_packet : count is_packet (drop 2 argv) ≡ 1
    pub packet_given :
        IsGiven is_packet
          (drop 2 argv)
          (λ o v. packet_from_option read_file o v ≡ returned a.packet)
    pub one_wrapping_key : count is_wrapping_key (drop 2 argv) ≡ 1
    pub wrapping_key_given :
        IsGiven is_wrapping_key
          (drop 2 argv)
          (λ o v. wrapping_key_from_option read_file o v ≡ returned a.wrapping_key)
    pub one_output : count is_output (drop 2 argv) ≡ bit a.has_output
    pub output_given :
        (a.has_output ≡ false) ⊎ IsGiven is_output (drop 2 argv) (λ o v. a.output ≡ v)

  pub parse_unwrap_key_options-IsUnwrapKeyAccepted :
      (argv : List (List ℕ)) (a : UnwrapKeyOptions)
      → parse_unwrap_key_options read_file argv ≡ returned a
      → IsUnwrapKeyAccepted argv a
  unfolding parse_unwrap_key_options
  parse_unwrap_key_options-IsUnwrapKeyAccepted argv a e =
      let (even, ran, complete) =
        checked_inv (is_malformed 6 argv) unwrap_key_usage
          (fold_pairs (unwrap_key_option read_file) (drop 2 argv) no_unwrap_key_options)
          (λ b. not b.has_packet || not b.has_wrapping_key) a e in
      let ps = drop 2 argv in
      let s = unwrap_key_option read_file in
      let packet_set : a.has_packet ≡ true = ground (arith, complete) in
      let wrapping_key_set : a.has_wrapping_key ≡ true = ground (arith, complete) in
      record {
        even = ground (arith, even);
        known_only =
            fold_pairs-Each s (λ o. is_packet o || is_wrapping_key o || is_output o)
              unwrap_key_known ps no_unwrap_key_options a ran;
        one_packet = omega (
          arith,
          fold_pairs-count s is_packet (λ a. a.has_packet)
              (λ o v a. packet_from_option read_file o v ≡ returned a.packet) unwrap_key_packet ps
              no_unwrap_key_options a ran,
          ap bit packet_set,
        );
        packet_given =
            fold_pairs-Given s is_packet (λ a. a.has_packet)
              (λ o v a. packet_from_option read_file o v ≡ returned a.packet) unwrap_key_packet ps
              no_unwrap_key_options a ran refl packet_set;
        one_wrapping_key = omega (
          arith,
          fold_pairs-count s is_wrapping_key (λ a. a.has_wrapping_key)
              (λ o v a. wrapping_key_from_option read_file o v ≡ returned a.wrapping_key)
              unwrap_key_wrapping_key ps no_unwrap_key_options a ran,
          ap bit wrapping_key_set,
        );
        wrapping_key_given =
            fold_pairs-Given s is_wrapping_key (λ a. a.has_wrapping_key)
              (λ o v a. wrapping_key_from_option read_file o v ≡ returned a.wrapping_key)
              unwrap_key_wrapping_key ps no_unwrap_key_options a ran refl wrapping_key_set;
        one_output = omega (
          arith,
          fold_pairs-count s is_output (λ a. a.has_output) (λ o v a. a.output ≡ v) unwrap_key_output
              ps no_unwrap_key_options a ran,
        );
        output_given = elim (Bool-cases a.has_output) [
          | inl set ↦ inr (
              fold_pairs-Given s is_output (λ a. a.has_output) (λ o v a. a.output ≡ v)
                unwrap_key_output ps no_unwrap_key_options a ran refl set)
          | inr unset ↦ inl unset
        ];
      }
