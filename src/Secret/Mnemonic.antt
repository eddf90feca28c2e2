-- ===== src/Secret/Mnemonic.antt =====
-- crates/alknet-secret/src/mnemonic.rs over the crate bip39 (`Crypto`). A mnemonic is its phrase. The
-- phrase of a mnemonic is one that the crate has printed, so `to_seed` parses it again without fail.
use alknet.Prelude.{ℕ, List, [], Option, none, some, Text, Result, map_err}
use alknet.Secret.Crypto.{Crypto}

pub data MnemonicError : Type 0 where
  generation : Text → MnemonicError
  invalid_phrase : Text → MnemonicError

module _ (crypto : Crypto) where
  -- `Mnemonic::generate(word_count)`, over the given randomness
  unfoldable pub generate : ℕ → ℕ → Result Text MnemonicError
  generate word_count entropy = map_err generation (crypto.generate word_count entropy)

  unfoldable pub from_phrase : Text → Result Text MnemonicError
  from_phrase phrase = map_err invalid_phrase (crypto.parse_normalized phrase)

  unfoldable pub to_seed : Text → Option Text → List ℕ
  to_seed phrase none = crypto.to_seed_normalized phrase []
  to_seed phrase (some passphrase) = crypto.to_seed_normalized phrase passphrase
