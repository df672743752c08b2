-- ===== src/Lib.antt =====
-- Verification of the local parental control daemon: the parts of internal/daemon, internal/config,
-- internal/process and internal/webfilter that decide who may use the device, for how long, and
-- which names and processes are blocked, with the client lpctl and the texts of the tray indicator.
--
-- A monitoring iteration (`tick`) reads the clock, the processes and the sessions, charges the
-- elapsed time to the users, locks those who have no time left, terminates applications whose limit
-- is spent, and saves the usage state. A state that cannot be trusted or saved puts the service into
-- a recovery, in which users are locked until an administrator acts. Administrative commands reload
-- the configuration, reset counters and end a recovery; each user may read that user's own status.
-- The domain filter answers DNS queries of a user for blocked names; it runs a server for each user
-- with blocked domains and redirects the user's queries to it by firewall rules.
--
-- Files, with the code that they model:
--   Base, Int, Loop, Dict, Text: shared types and lemmas (signed integers, loops on fuel, maps as
--     association lists, byte strings).
--   Config, Config/Clock, Config/Paths: internal/config/config.go (types; parseClock, AllowedAt;
--     ExecutableMatches, snapExecutableParts, validSnapRevision).
--   Config/Domain, Config/Validate, Config/Executables: NormalizeDomain; defaults and Validate with the
--     helpers that they call; Load, LoadSecure, validateSecureFile, InspectNativeExecutable and
--     validateExecutables, of the same file.
--   Process, Process/Scan, Process/Stat: internal/process/process.go (Info, SameIdentity; Scan, on what the files of
--     each process give; readStartTime, readUID).
--   Daemon/State, Daemon/Store: internal/daemon/state.go (usageState; saveState, the recovery marker,
--     quarantineState), where a durable write is a sequence of steps each of which may fail.
--   Daemon/Load: loadServiceState and loadState of internal/daemon/state.go, on what a file holds.
--   Daemon/Window, Daemon/Accounting: accountingInterval and accountUserInterval of
--     internal/daemon/daemon.go.
--   Daemon/Service: the Service struct, as a record inside Machine with the files and a log of what
--     is asked of the system; enterStateRecovery and lock. World holds what the system answers.
--   Daemon/Terminate: findApplication, terminate, used, add, cancelPendingTerminations.
--   Daemon/Tick, Daemon/Iteration: tick, with its loops in Tick and their order in Iteration
--     (tick, monitor), and retryStatePersistence.
--   Daemon/Status: status, statusForUsers, handleStatus; Daemon/Users: resolveUsers.
--   Daemon/Admin: execute, and recoverState of internal/daemon/state.go.
--   Daemon/Run: New, the calls that change the service, the end of Run, and lives of the service with
--     restarts from its files; its children compare them with three modes (normal, retrying the
--     saving of the state, blocked) and the strength of the marker on the disk.
--   Daemon/Session: internal/daemon/session.go, on the outputs of loginctl.
--   Webfilter: internal/webfilter/dns.go, and filterResponse of internal/webfilter/filter.go;
--     Webfilter/Filter: Apply, Close, nftScript, runNft and systemResolver of the same file, with the
--     servers and the calls of nft recorded in a log. Webfilter/Filter/Script reads the text of the
--     scripts, and Daemon/Session/Properties the outputs of loginctl, line by line.
--   Indicator: Remaining, Label and Tooltip of internal/indicator/status.go.
--   Client: run and call of cmd/lpctl/main.go, with the service at the other end; Client/Discover:
--     cmd/lpctl/discover.go.
--
-- Integers: instants and durations are nanoseconds in ℤ without wrap-around; the int and int64
-- fields of configurations and counters are ℤ as well. Limits are minutes that the validation keeps
-- within a day, far from the bounds of 64 bits. Bytes and sizes of DNS packets are natural numbers.
--
-- Fuel: account_fuel counts the rounds that one interval can need, and the loop is proved to end
-- within it. decode_labels has one round more than the packet has bytes, decode_name the 17 calls
-- that the source allows, matches_from the length of the name, which is proved to be enough.
--
-- Parameters: time zones (Zone), the system's answers (World), the user database (LookupUser), the
-- loaded configuration and the domain filter's success (AdminWorld), the text of a saved
-- state and what its reading accepts (StateReader), what packages strings and unicode do to a text that is not ASCII (Unicode,
-- unicode_fields), the zones and the user database of the validation (Platform), the file system
-- with the JSON decoder (FileSystem), the sockets, nft and resolv.conf (FilterWorld), the outputs of
-- loginctl (LoginWorld), package flag and the connection to the service (ClientWorld), and the
-- directories and the outputs of package managers (Packages). Iteration over a Go map has no fixed order; here a map is a list
-- and is walked in the list's order, and the theorems hold for every list.
--
-- Not modelled: logging, sockets and JSON texts, the listening loops and goroutines (each handler
-- holds the service's mutex, so that the model's steps are atomic), the forwarding of DNS queries to
-- the upstream resolver, the D-Bus part of the tray indicator, and the printing of lpctl: they are
-- input and output, or only format what is modelled.
pub mod Base
pub mod Int
pub mod Loop
pub mod Dict
pub mod Text
pub mod Client
pub mod Config
pub mod Process
pub mod Daemon
pub mod Webfilter
pub mod Indicator
