-- ===== src/Lib.antt =====
-- alknet: SSH tunnels with a call protocol between services (crates/alknet-core), and a service that
-- derives, caches and uses keys from a mnemonic (crates/alknet-secret).
--
-- Prelude holds what all parts share: numbers, byte strings, results, hash maps as association lists.
-- Net has the network types of the standard library and of ipnetwork as a parameter.
--
-- Secret models crates/alknet-secret/src. Cache is cache.rs; Derivation, Ethereum and Mnemonic are
-- derivation.rs, ethereum.rs and mnemonic.rs; Encryption is encryption.rs; Service is the state and the
-- methods of service.rs, which use all of these; Actor is the lock around that state, poisoned by a
-- panic, and the messages of protocol.rs. The crates of cryptography are the parameter Crypto; the
-- clock, nonces and salts are arguments.
--
-- Call models crates/alknet-core/src/call. Envelope is envelope.rs and response.rs; Frame is frame.rs,
-- with the JSON codec as a parameter and a stream as the list of its reads; Pending is pending.rs;
-- Access is the access control of spec.rs; Registry is registry.rs, context.rs and env.rs.
--
-- Config.Forwarding models crates/alknet-core/src/config/forwarding.rs, Config.AuthPolicy the policy of
-- config/dynamic_config.rs, and Config.Static the making of both configurations in
-- config/static_config.rs. Error has the errors of error.rs.
--
-- Auth models crates/alknet-core/src/auth. Identity is identity.rs; Keys is keys.rs, its lines and, in
-- Load, its files; ServerAuth is server_auth.rs, which repeats the checks of the policy.
--
-- Server models crates/alknet-core/src/server. RateLimit is rate_limit.rs, and Handler the connections
-- of handler.rs, which use it. Listener and Options are the listeners and options of serve.rs; Stealth
-- is stealth.rs and handle_connection; Tasks has the live connections of serve.rs, each handled in a
-- task of its own; Accept is the server of serve.rs, its accept loop and shutdown, which uses all of
-- these. Http is http/auth.rs and http/router.rs, which answer what is not SSH.
--
-- Interface.Pairs models crates/alknet-core/src/interface/pairs.rs, Interface.RawFraming the sessions of
-- interface/raw_framing.rs, over the frames of Call, and Interface.Ssh the connections of
-- interface/ssh.rs, which repeat those of the server.
--
-- Client models crates/alknet-core/src/client. Forward has the specifications of forward.rs; Manager is
-- channel_manager.rs and Session connect.rs, where the crate russh is the parameter of Ssh. Cli is what
-- the subcommands of crates/alknet/src/main.rs check and start. Socks5 is socks5/protocol.rs, the
-- connection handler of socks5/mod.rs, and connect_socks5 of server/channel_proxy.rs.
--
-- Every function is total by structural recursion. Only printing a number n in decimal counts rounds,
-- n + 1 of them, which are enough since each divides by ten; reading a frame recurses on the reads that
-- the stream still has; the accept loop and the reconnect monitors recurse on the events and attempts
-- that they meet. A u32 wraps at 2 ^ 32 as in a release build. A hash map's order of walking is
-- unspecified in Rust, and here the order of its entries, or for the forwards of a client a parameter.
-- Concurrent tasks are a sequence of steps.
--
-- Not modelled: sockets, tasks and channels, the copying of bytes between a channel and its target or
-- session, the SSH protocol, transports, the parsing of the command
-- line, the Node bindings, logging, and the wiping of memory.
pub mod Auth
pub mod Call
pub mod Cli
pub mod Client
pub mod Config
pub mod Error
pub mod Http
pub mod Interface
pub mod Net
pub mod Prelude
pub mod Secret
pub mod Server
pub mod Socks5
