-- ===== src/Client.antt =====
-- `lpctl`, the administrator's client: `run` and `call` of cmd/lpctl/main.go, with the service at the
-- other end of the connection. What is printed is a value.
pub mod Discover
pub mod Laws
mod Tests
use local_parental_control.Config.{Config, UserConfig}
use local_parental_control.Daemon.Status.{UserStatus}
use local_parental_control.Base.{
  ℕ, List, Option, Bool, some, ◌∷◌, length, none, if◌then◌else◌, ◌+◌, ◌==◌, [], ◌||◌, Result, err,
  ok,
}
use local_parental_control.Text.{Str, codes, str_eq}
use local_parental_control.Dict.{Dict}
use local_parental_control.Daemon.Admin.{AdminWorld, Response, Request, failed, execute}
use local_parental_control.Daemon.Service.{Machine}
use local_parental_control.Config.Validate.{Platform}
use local_parental_control.Config.Executables.{load_secure, FileSystem, LoadProblem}
use local_parental_control.Client.Discover.{Packages, Suggestion, discover_applications}

-- What package `flag` makes of the arguments.
pub record Flags : Type 0 where
  pub config_path : Str
  pub socket_path : Str
  pub show_version : Bool
  pub arguments : List Str

-- The connection to the service: not made, lost after the request was sent, or held to the end.
pub data Link : Type 0 where
  refused lost held : Link

-- The parser of the flags (`none` is an error), what the loading of a configuration and the discovery
-- of applications ask of the system, and the connection to a socket.
pub record ClientWorld : Type 0 where
  pub parse_flags : List Str → Option Flags
  pub platform : Platform
  pub files : FileSystem
  pub packages : Packages
  pub link : Str → Link

pub data Printed : Type 0 where
  flag_problem the_version the_usage invalid_configuration no_discovery no_contact : Printed
  valid_configuration : ℕ → ℕ → Printed
  applications_found : List Suggestion → Printed
  answer : Response → Printed

-- The exit status of the process and what it prints.
pub record Exit : Type 0 where
  pub code : ℕ
  pub printed : Printed

unfoldable pub exits : ℕ → Printed → Exit
exits code printed = record { code = code; printed = printed }

unfoldable pub application_count : Dict Str UserConfig → ℕ
application_count [] = 0
application_count ((name, uc) ∷ users) = length uc.applications + application_count users

unfoldable pub call : Link → AdminWorld → Request → Machine → Machine × Option Response
call refused a req m = (m, none)
call lost a req m = ((execute a req m).0, none)
call held a req m = ((execute a req m).0, some (execute a req m).1)

-- The request of a command without operands.
unfoldable pub plain_request : Str → List Str → Option Request
plain_request command [] = some (record { command = command; user = []; application = [] })
plain_request command _ = none

unfoldable pub reset_request : List Str → Option Request
reset_request (user ∷ []) = some (record { command = codes "reset"; user = user; application = [] })
reset_request (user ∷ application ∷ []) =
    some (record { command = codes "reset"; user = user; application = application })
reset_request _ = none

-- The request of a command with its operands; `none` prints the usage.
unfoldable pub request_for : Str → List Str → Option Request
request_for command operands =
    if (command == codes "status")
      || (command == codes "reload")
      || (command == codes "recover-state")
    then plain_request command operands
    else if command == codes "reset"
    then reset_request operands
    else none

unfoldable pub response_code : Response → ℕ
response_code (failed problem) = 1
response_code _ = 0

unfoldable pub report : Option Response → Exit
report none = exits 1 no_contact
report (some response) = exits (response_code response) (answer response)

unfoldable pub validate_file : Result LoadProblem Config → Exit
validate_file (err problem) = exits 1 invalid_configuration
validate_file (ok config) =
    exits 0 (valid_configuration (length config.users) (application_count config.users))

-- The applications that are found for the keyword, the one operand.
unfoldable pub discover : ClientWorld → List Str → Exit
discover c (keyword ∷ []) = elim (discover_applications c.packages keyword) [
  | none ↦ exits 1 no_discovery
  | some [] ↦ exits 1 (applications_found [])
  | some (found ∷ more) ↦ exits 0 (applications_found (found ∷ more))
]
discover c _ = exits 2 the_usage

unfoldable pub run_command : ClientWorld → AdminWorld → Flags → List Str → Machine → Machine × Exit
run_command c a flags [] m = (m, exits 2 the_usage)
run_command c a flags (command ∷ operands) m =
    if command == codes "validate"
    then (m, validate_file (load_secure c.platform c.files flags.config_path))
    else if command == codes "discover"
    then (m, discover c operands)
    else if command == codes "help"
    then (m, exits 0 the_usage)
    else elim (request_for command operands) [
      | none ↦ (m, exits 2 the_usage)
      | some req ↦ (
        (call (c.link flags.socket_path) a req m).0,
        report (call (c.link flags.socket_path) a req m).1,
      )
    ]

unfoldable pub run : ClientWorld → AdminWorld → List Str → Machine → Machine × Exit
run c a args m = elim (c.parse_flags args) [
  | none ↦ (m, exits 2 flag_problem)
  | some flags ↦
      if flags.show_version
      then (m, exits 0 the_version)
      else run_command c a flags flags.arguments m
]
