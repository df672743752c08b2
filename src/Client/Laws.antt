-- ===== src/Client/Laws.antt =====
-- The client sends only commands that the service knows.
use local_parental_control.Text.{str_eq, str_beq_iff, Str, codes}
use local_parental_control.Client.{
  plain_request, reset_request, request_for, Printed, Exit, discover, validate_file, call, run,
  exits, report, run_command, answer, no_contact, ClientWorld, Link, response_code, Flags, refused,
  lost, held,
}
use local_parental_control.Base.{
  List, ◌≡◌, some, ◌⊎◌, if_cases, ◌∷◌, ◌==◌, [], ◌||◌, inr, Bool, subst, true, sym, inl, false,
  arith, refl, Option-cases, Result, err, ok, ℕ,
}
use local_parental_control.Daemon.Admin.{
  Request, Response, reload, reset_counters, recover_state, AdminWorld, finish_reset,
  finish_recovery, failed, unknown_command, execute, Problem, status_response, done,
}
use local_parental_control.Daemon.Service.{Machine, World, StateRecovery}
use local_parental_control.Config.{Config}
use local_parental_control.Config.Executables.{load_secure, LoadProblem}

-- The commands of the service.
abbrev pub IsServed : Str → Type 0
IsServed command =
    (command ≡ codes "status")
    ⊎ ((command ≡ codes "reload") ⊎ ((command ≡ codes "recover-state") ⊎ (command ≡ codes "reset")))

plain_request-command :
    (command : Str) (operands : List Str) {req : Request}
    → plain_request command operands ≡ some req
    → req.command ≡ command
unfolding plain_request
plain_request-command command [] h = cc
plain_request-command command (o ∷ operands) h = absurd cc

reset_request-command :
    (operands : List Str) {req : Request}
    → reset_request operands ≡ some req
    → req.command ≡ codes "reset"
unfolding reset_request
reset_request-command [] h = absurd cc
reset_request-command (u ∷ []) h = cc
reset_request-command (u ∷ a ∷ []) h = cc
reset_request-command (u ∷ a ∷ o ∷ operands) h = absurd cc

one_of_three : (a b c : Bool) → (a || b || c) ≡ true → (a ≡ true) ⊎ ((b ≡ true) ⊎ (c ≡ true))
one_of_three true b c h = inl refl
one_of_three false true c h = inr (inl refl)
one_of_three false false c h = inr (inr h)

request_for-IsServed :
    (command : Str) (operands : List Str) (req : Request)
    → request_for command operands ≡ some req
    → IsServed req.command
unfolding request_for
request_for-IsServed command operands req =
    if_cases (λ r. r ≡ some req → IsServed req.command)
      ((command == codes "status")
        || (command == codes "reload")
        || (command == codes "recover-state"))
      (λ b h.
        subst IsServed (sym (plain_request-command command operands h))
          (elim (one_of_three (command == codes "status") (command == codes "reload")
            (command == codes "recover-state") b) [
              | inl e ↦ inl ((str_beq_iff command (codes "status")).0 e)
              | inr (inl e) ↦ inr (inl ((str_beq_iff command (codes "reload")).0 e))
              | inr (inr e) ↦ inr (inr (inl ((str_beq_iff command (codes "recover-state")).0 e)))
            ]))
      (λ _.
        if_cases (λ r. r ≡ some req → IsServed req.command) (command == codes "reset")
          (λ _ h. inr (inr (inr (reset_request-command operands h)))) (λ _ h. absurd cc))

-- The answer to a command that the service does not know.
unfoldable pub is_unknown : Response → Bool
is_unknown (failed (unknown_command command)) = true
is_unknown _ = false

reload-is_unknown : (a : AdminWorld) (m : Machine) → is_unknown (reload a m).1 ≡ false
unfolding reload is_unknown
reload-is_unknown a m = ground arith

reset_counters-is_unknown :
    (w : World) (user application : Str) (m : Machine)
    → is_unknown (reset_counters w user application m).1 ≡ false
unfolding reset_counters finish_reset is_unknown
reset_counters-is_unknown w user application m = ground arith

recover_state-is_unknown :
    (w : World) (r : StateRecovery) (m : Machine) → is_unknown (recover_state w r m).1 ≡ false
unfolding recover_state finish_recovery is_unknown
recover_state-is_unknown w r m = ground arith

execute-is_unknown :
    (a : AdminWorld) (req : Request) (m : Machine)
    → IsServed req.command
    → is_unknown (execute a req m).1 ≡ false
unfolding execute is_unknown
execute-is_unknown a req m (inl e) = rw (e, execute) refl
execute-is_unknown a req m (inr (inl e)) = rw (e, execute) (reload-is_unknown a m)
execute-is_unknown a req m (inr (inr (inl e))) = elim (Option-cases m.service.recovery) [
  | inl none_yet ↦ rw (e, execute, none_yet) refl
  | inr (r, some_r) ↦ rw (e, execute, some_r) (recover_state-is_unknown a.world r m)
]
execute-is_unknown a req m (inr (inr (inr e))) =
    rw (e, execute) (reset_counters-is_unknown a.world req.user req.application m)

unfoldable pub is_answer : Printed → Bool
is_answer (answer response) = true
is_answer _ = false

-- The effects of a run on the service: none; one served request whose answer was lost; or one served
-- request, with the answer and the exit status of it.
pub data IsRun (a : AdminWorld) (m : Machine) : Machine × Exit → Type 0 where
  nothing_sent : {e : Exit} → is_answer e.printed ≡ false → IsRun a m (m, e)
  unanswered :
      (req : Request) → IsServed req.command → IsRun a m ((execute a req m).0, exits 1 no_contact)
  answered :
      (req : Request) {m' : Machine} {response : Response} {code : ℕ}
      → IsServed req.command
      → execute a req m ≡ (m', response)
      → is_unknown response ≡ false
      → ((problem : Problem) → response ≡ failed problem → code ≡ 1)
      → (((problem : Problem) → ¬ (response ≡ failed problem)) → code ≡ 0)
      → IsRun a m (m', exits code (answer response))

response_code-failed : (r : Response) (problem : Problem) → r ≡ failed problem → response_code r ≡ 1
unfolding response_code
response_code-failed r problem e = rw (e, response_code) refl

response_code-else :
    (r : Response) → ((problem : Problem) → ¬ (r ≡ failed problem)) → response_code r ≡ 0
unfolding response_code
response_code-else (status_response status) h = refl
response_code-else (done message) h = refl
response_code-else (failed problem) h = absurd (h problem refl)

discover-is_answer :
    (c : ClientWorld) (operands : List Str) → is_answer (discover c operands).printed ≡ false
unfolding discover is_answer exits
discover-is_answer c operands = ground arith

validate_file-is_answer :
    (file : Result LoadProblem Config) → is_answer (validate_file file).printed ≡ false
unfolding validate_file is_answer exits
validate_file-is_answer (err problem) = refl
validate_file-is_answer (ok config) = refl

call-IsRun :
    (link : Link) (a : AdminWorld) (req : Request) (m : Machine)
    → IsServed req.command
    → IsRun a m ((call link a req m).0, report (call link a req m).1)
unfolding call report is_answer exits
call-IsRun refused a req m served = nothing_sent refl
call-IsRun lost a req m served = unanswered req served
call-IsRun held a req m served =
    answered req served refl (execute-is_unknown a req m served)
      (response_code-failed (execute a req m).1) (response_code-else (execute a req m).1)

run_command-IsRun :
    (c : ClientWorld) (a : AdminWorld) (flags : Flags) (arguments : List Str) (m : Machine)
    → IsRun a m (run_command c a flags arguments m)
unfolding run_command exits is_answer
run_command-IsRun c a flags [] m = nothing_sent refl
run_command-IsRun c a flags (command ∷ operands) m =
    if_cases (IsRun a m) (command == codes "validate")
      (λ _.
        nothing_sent (validate_file-is_answer (load_secure c.platform c.files flags.config_path)))
      (λ _.
        if_cases (IsRun a m) (command == codes "discover")
          (λ _. nothing_sent (discover-is_answer c operands))
          (λ _.
            if_cases (IsRun a m) (command == codes "help") (λ _. nothing_sent refl)
              (λ _. elim (Option-cases (request_for command operands)) [
                | inl e ↦ rw (e) (nothing_sent refl)
                | inr (req, e) ↦ rw (e) (
                    call-IsRun (c.link flags.socket_path) a req m
                      (request_for-IsServed command operands req e))
              ])))

-- A run of lpctl changes the service only by the execution of at most one request, of a command that
-- the service knows: it leaves the service as it is and prints no answer; or the service executes the
-- request, and lpctl exits with status 1 where the answer is lost, and otherwise prints the answer,
-- which is never that the command is unknown, and exits with status 1 if the answer is a failure and
-- with status 0 if not.
pub run-IsRun :
    (c : ClientWorld) (a : AdminWorld) (args : List Str) (m : Machine) → IsRun a m (run c a args m)
unfolding run is_answer exits
run-IsRun c a args m = elim (Option-cases (c.parse_flags args)) [
  | inl e ↦ rw (run, e) (nothing_sent refl)
  | inr (flags, e) ↦
      rw (run, e)
        (if_cases (IsRun a m) flags.show_version (λ _. nothing_sent refl)
          (λ _. run_command-IsRun c a flags flags.arguments m))
]
