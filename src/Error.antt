-- ===== src/Error.antt =====
-- crates/alknet-core/src/error.rs: the errors of channels and of the configuration, with an error of
-- input and output in its printed form.
use alknet.Prelude.{Text, text, ◌++◌}

pub data ChannelError : Type 0 where
  target_unreachable channel_closed : ChannelError
  proxy_connect_failed : Text → ChannelError

pub data ConfigError : Type 0 where
  invalid_flag key_file_not_found bind_failed proxy_config_invalid : Text → ConfigError
  incompatible_options : ConfigError

-- Its `Display`.
abbrev pub config_text : ConfigError → Text
config_text (invalid_flag name) = text "invalid flag: " ++ name
config_text (key_file_not_found path) = text "key file not found: " ++ path
config_text (bind_failed e) = text "bind failed"
config_text incompatible_options = text "incompatible options"
config_text (proxy_config_invalid message) = text "invalid proxy config: " ++ message
