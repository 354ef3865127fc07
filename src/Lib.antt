-- ===== src/Lib.antt =====
-- The o2ul-portal backend, modelled and verified: roles, accounts, authentication, the shielded
-- wallet, payments, the portal's profiles, presence, files, preferences, notifications and settings,
-- the backfill command, the orchestrator of instances, and the administration handlers.
--
-- The services of internal/application hold the program's logic. They work on repositories, which
-- internal/infrastructure/db implements over the store github.com/AndrewDonelson/strata. The wallet
-- service uses the three packages under pkg. HTTP handlers, commands and adapters wire these parts
-- and do input and output.
--
-- Common       what the models share: Go's errors as values (Errors), maps as association lists
--              (Maps), strings (Text), integers (Int), numbers in text (Numbers), words (Words), and
--              lists.
-- Domain       internal/domain/user.go: roles, CanActAs, CanAssignRole (Role, Role/Order,
--              Role/Assign), and the records of players and reset tokens (Player).
-- Store        the store's table of typed records: Get, Set, Delete and Search, as parameters.
-- Log          the log sink, as the list of its entries.
-- Accounts     UserRepository and PasswordResetRepository of internal/application/interfaces.go with
--              the laws that the services rely on; Users and Resets are the implementations of
--              internal/infrastructure/db/postgres_users.go and postgres_password_reset.go.
-- Auth         internal/application/auth_service.go: Register, Login, RefreshToken (Sessions),
--              ForgotPassword, ResetPassword (Reset).
-- Wallet       pkg/walletguard (Guard), pkg/lightclient (LightClient), pkg/proverclient (Prover) and
--              internal/application/o2ul_wallet_service.go (Service); the header source of
--              internal/application/o2ul_wallet_lightclient_rpc.go (HeaderRpc) and the wiring of
--              o2ul_wallet_defaults.go (Defaults).
-- Payment      internal/application/payment_service.go and the providers of
--              internal/infrastructure/payment (Providers).
-- Portal       the O2UL services with their repositories: o2ul_users_service.go and
--              o2ul_authsync_service.go (Profiles), o2ul_presence_service.go (Presence),
--              o2ul_files_service.go (Files), o2ul_preferences_service.go (Preferences),
--              o2ul_notifications_service.go (Notifications); preferences_service.go (Settings).
-- Backfill     cmd/migrate/o2ul_slice1_backfill.go: the import of a legacy export into the
--              repositories of Portal.
-- Orchestrator internal/infrastructure/orchestrator: the interface Backend, the manager, the adapters
--              that run a command (Commands), and the adapter of local processes (LocalExec), whose
--              goroutines are the steps of LocalExec/Steps.
-- Http         internal/infrastructure/http: middleware/auth.go (Middleware), and of handlers the
--              admin_handler.go (Admin), auth_handler.go (Auth), orchestrator_handler.go (Instances)
--              and o2ul_wallet_handler.go (Wallet).
-- Startup      internal/infrastructure/startup/shutdown_phases.go.
-- Config       internal/infrastructure/config/config.go, with the search for an environment file.
-- Tests        instances of the theorems at concrete inputs, over a table with one row.
--
-- An operation that changes state takes the state and gives back its result with the new state. The
-- result is `ok v` or `err e`, where `e` says which of Go's error values it is. The clock, fresh
-- identifiers, random bytes, hashing, JSON and the remote ends are parameters. A text is a sequence
-- of code points; a byte slice is the text that it encodes.
--
-- Numbers: amounts are natural numbers with the wrap-around of uint64 written out as `% 2 ^ 64`;
-- times in milliseconds are integers without the bounds of int64. The loop of FetchRange runs on
-- fuel, since its counter wraps around; one round for each header and one more is enough below the
-- largest uint64. The room that it makes for the headers first is limited by the Go runtime (the
-- parameter Memory); a longer range ends in a panic, which the router turns into the status 500. That
-- the machine has the memory for what the runtime allows is supposed. The search for an environment
-- file runs on fuel, since filepath.Dir is a parameter; one round for each level and one more is
-- enough. All other loops are structural recursion.
--
-- Times in the store: strata fills in the columns tagged auto_now and auto_now_add itself. What is
-- said of a whole record that was written to such a table is said up to these columns
-- (IsFilledTable, IsUserStore). The theorems of Auth, Payment and Http that suppose IsUserRepository
-- are about a repository that gives back the times it was given.
--
-- Not modelled: the other HTTP handlers, the route table and the signing of tokens, the output that
-- local processes print, the startup probes, the image optimizer, email, logging output, the
-- commands but the backfill, schema registration and migrations, which are input and output or
-- wiring.
pub mod Common
pub mod Domain
pub mod Store
pub mod Log
pub mod Accounts
pub mod Auth
pub mod Wallet
pub mod Payment
pub mod Portal
pub mod Backfill
pub mod Orchestrator
pub mod Http
pub mod Startup
pub mod Config
pub mod Tests
