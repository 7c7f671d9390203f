-- ===== src/Lib.antt =====
-- A model of dddns, a dynamic DNS client for Route53, with the theorems about it.
--
-- The program learns the public address of its host and publishes it as the A record of one name. It
-- does so in three forms. The command `update` asks the WAN interface or a web service for the
-- address, compares it with a cache file and with Route53, and upserts it. The command `serve` listens
-- on the router for dyndns requests, checks them, and runs the same update with the address of the WAN
-- interface. A Lambda function does the like behind a gateway, with the address of the sender.
--
-- Which file models what, with paths from the root of the repository:
--   Server/Auth      internal/server/auth.go: `Authenticator.Check` is `check`, a function of the time.
--   Server/Handler   internal/server/handler.go: `ServeHTTP` is `serve_http`, a chain of one function
--                    for each stage, which threads the state (authenticator, entries that the audit log has
--                    taken, status file, stderr, addresses handed to the update). A panic of a hook is
--                    the constructor `panics`, and a write of `emit` may fail.
--   Server/Cidr      internal/server/cidr.go: `IsAllowed`. The handler takes its answer as a parameter.
--   Server/Audit     internal/server/audit.go: a write to the log file, with the rotation.
--   Server/Status    internal/server/status.go: the write through a temporary file, as the stores behind
--                    each call of the operating system, and the read.
--   Server/Lifecycle internal/server/server.go: `NewServer`, `Run` and the two paths; its child Service
--                    has the states that a sequence of requests reaches.
--   Updater          internal/updater/updater.go: `updateWithResolver` is `update_with_resolver`, over
--                    a world of the calls made to the DNS client and the content of the cache file. Its child
--                    Register follows one record through many runs, with answers that are lost.
--   WanIp            internal/wanip/wanip.go: `FromInterface` is `from_interface`.
--   MyIp             internal/commands/myip/myip.go: `GetPublicIP` and `ValidatePublicIP`.
--   Net              addresses and the tests of package net that the two files above call.
--   Config           internal/config/config.go: the records, `Validate`, the defaults; Config/Load has
--                    `Load`.
--   Config/Secure    internal/config/secure_config.go: `SaveSecure` and `LoadSecure`; Config/Migrate has
--                    `MigrateToSecure`.
--   Files            files with modes, for the two above, and internal/constants/permissions.go.
--   Config/Plain     internal/config/config.go: `SavePlaintext`, `CreateDefault` and the text they write.
--   Crypto           internal/crypto/device_crypto.go: the key of the device and the vaults.
--   Dns/Route53      internal/dns/route53.go: the lookup and the upsert.
--   Dns/SigV4        internal/dns/sigv4.go: the signature of a request; its child Queries has the raw
--                    queries by their parameters.
--   Lambda           deploy/aws-lambda/: the handler, the secret cache with `getParameter`, and the
--                    environment of main.go.
--   Profile          internal/profile/profile.go: the detection of the platform, and its paths.
--   BootScript       internal/bootscript/bootscript.go: the scripts of both modes, kept by their lines. A here
--                    document is found by its lines; what a shell expands in a path is not modelled.
--   Cmd/Root         cmd/root.go: `initConfig`, the choice of the configuration file.
--   Cmd/Update       cmd/update.go: the command `update`.
--   Cmd/Wizard       cmd/config.go: the dialogue of `config init`, and the masking of a key.
--   Cmd/SetMode      cmd/config_set_mode.go: the command `config set-mode`.
--   Cmd/RotateSecret cmd/config_rotate_secret.go: the command `config rotate-secret`.
--   Cmd/Serve        cmd/serve.go: `serve`, `serve status` and `serve test`; its child Loopback joins
--                    the client of `serve test` to the handler.
--   Cmd/Secure       cmd/secure.go: `secure enable` and `secure test`.
--   Cmd/Verify       cmd/verify.go: the command `verify` and the report that it prints.
--   Cmd/Check        `config check` of cmd/config.go, and `ip` of cmd/ip.go.
--   Verify           internal/verify/verify.go: the report of what the name servers answer.
--   Prelude          shared types, texts, results, integers and their lemmas; texts are lists of bytes.
--   Tests            the theorems at concrete inputs, and runs of the model.
--
-- The commands use the lower parts as the program does: Cmd/SetMode installs what BootScript writes,
-- Cmd/RotateSecret saves by Config/Secure or Config/Plain and writes its line by Server/Audit, and a
-- running server starts from the state of Server/Lifecycle and steps by the handler.
--
-- A time is a number of nanoseconds, and a TTL or a duration an integer. Functions are by
-- structural recursion, but for the decimal digits of a number in Prelude/Decimal, which have the
-- number and one more as fuel: enough, since each step divides by ten. A mutex makes a check, a
-- cache lookup or a write to the audit log one step, so a sequence of requests is a list.
--
-- What the Go packages and libraries do is a parameter of the definitions that use it: the parsers
-- of addresses, networks, durations and host-port pairs; base64, AES-GCM and the hashes; YAML,
-- JSON and XML; `sort.Slice`, which need not be stable; HTTP, the clock, and which calls of the
-- operating system fail. Of package strings, `EqualFold` folds ASCII and the two letters outside
-- it that fold into ASCII, and the trimming functions know ASCII white space. Package
-- path/filepath is modelled as it is on Unix, in Prelude/FilePath, and the query of a URL in
-- Prelude/Url. Logs, but for the failures that `emit` prints, and printed text are left out. `%d`
-- and `%q` of package fmt are helpers, in Prelude/Decimal and BootScript/Lines. The handler keeps
-- the entries that its audit log has taken and its last status as part of its state, apart from
-- the files of Server/Audit and Server/Status; whether one of the two writes fails is a parameter
-- of each request.
--
-- Not modelled: the set-up of the commands by cobra, and what they print, but for the reports of `verify`
-- and `serve status` and what `serve test` shows; main.go; internal/version, which holds text set at
-- build time; the commands that probe a macOS or Windows device, whose answers are parameters; scripts
-- and deployment outside the Go code.
pub mod Prelude
pub mod Net
pub mod Config
pub mod WanIp
pub mod Dns
pub mod MyIp
pub mod Crypto
pub mod Profile
pub mod Files
pub mod Updater
pub mod Server
pub mod BootScript
pub mod Cmd
pub mod Verify
pub mod Lambda
pub mod Tests
