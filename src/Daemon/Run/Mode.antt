-- ===== src/Daemon/Run/Mode.antt =====
-- The abstract view of the service: it runs, it retries to save its state, or it is blocked until an
-- administrator acts; and the recovery marker on disk.
use local_parental_control.Base.{Option, ◌≡◌, ap, subst, some, sym, if◌then◌else◌, ◌==◌, none, ◌≢◌}
use local_parental_control.Daemon.Service.{Machine, StateRecovery}
use local_parental_control.Daemon.Run.{Call, iteration, administer, stop}
use local_parental_control.Daemon.Store.{Marker, Disk, absent, reset}
use local_parental_control.Daemon.Run.Frame.{IsSameRest}
use local_parental_control.Daemon.Store.Laws.{Weakened, Strengthened, Cleared}
use local_parental_control.Text.{codes, str_eq}

pub data Mode : Type 0 where
  normal retrying blocked : Mode

abbrev pub mode_of : Option StateRecovery → Mode
mode_of none = normal
mode_of (some r) = if r.reset_required then blocked else retrying

abbrev pub mode : Machine → Mode
mode m = mode_of m.service.recovery

pub data Kind : Type 0 where
  by_iteration by_recovery by_other : Kind

abbrev pub kind : Call → Kind
kind (iteration w) = by_iteration
kind (administer a req) = if req.command == codes "recover-state" then by_recovery else by_other
kind (stop w) = by_other

-- What a call of a kind may make of mode `a` and marker `x`. Only an iteration blocks a service that
-- runs, or ends the retrying by itself; a save that fails leads to retrying; nothing but a recovery
-- ends a block.
pub data ViewStep (k : Kind) (a : Mode) (x : Marker) (b : Mode) (y : Marker) : Type 0 where
  stay : b ≡ a → y ≡ x → ViewStep k a x b y
  save_failed : a ≡ normal → b ≡ retrying → Weakened x y → ViewStep k a x b y
  halted : k ≡ by_iteration → a ≡ normal → b ≡ blocked → Strengthened x y → ViewStep k a x b y
  unsaved : k ≡ by_iteration → a ≡ retrying → b ≡ retrying → Cleared x y → ViewStep k a x b y
  saved : k ≡ by_iteration → a ≡ retrying → b ≡ normal → y ≡ absent → ViewStep k a x b y
  unrecovered :
      k ≡ by_recovery
      → a ≢ normal
      → b ≡ a
      → (a ≡ retrying → x ≢ reset → y ≢ reset)
      → ViewStep k a x b y
  recovered : k ≡ by_recovery → b ≡ normal → y ≡ absent → ViewStep k a x b y

-- The step from one machine to another, as the view shows it.
abbrev pub Shows : Kind → Machine → Machine → Type 0
Shows k m n = ViewStep k (mode m) m.disk.marker (mode n) n.disk.marker

pub Shows-same : (k : Kind) {m n : Machine} → IsSameRest m n → Shows k m n
Shows-same k same = stay (ap mode_of same.recovery) (ap Disk.marker same.disk)

pub from_mode :
    {k : Kind} {a b c : Mode} {x y : Marker} → a ≡ c → ViewStep k a x b y → ViewStep k c x b y
from_mode {k} {a} {b} {c} {x} {y} e step = subst (λ d. ViewStep k d x b y) e step

-- Ends with the same rest show the same step.
pub Shows-ends :
    (k : Kind) {m n o p : Machine} → IsSameRest m n → IsSameRest o p → Shows k n o → Shows k m p
Shows-ends k {m} {n} {o} {p} before after step =
    subst (λ r. ViewStep k (mode_of r) m.disk.marker (mode p) p.disk.marker) before.recovery
      (subst (λ d. ViewStep k (mode n) (Disk.marker d) (mode p) p.disk.marker) before.disk
        (subst (λ r. ViewStep k (mode n) n.disk.marker (mode_of r) p.disk.marker)
          (sym after.recovery)
          (subst (λ d. ViewStep k (mode n) n.disk.marker (mode o) (Disk.marker d)) (sym after.disk)
            step)))
