-- ===== src/Process.antt =====
-- Processes of internal/process/process.go: what a scan finds, and signals through a pidfd.
pub mod Scan
pub mod Stat
-- `pidfd` holds the descriptor plus one; zero means that there is none.
use local_parental_control.Base.{ℕ, Bool, nat_eq, ◌&&◌, ◌==◌}
use local_parental_control.Text.{Str, str_eq}

pub record Info : Type 0 where
  pub pid : ℕ
  pub uid : ℕ
  pub executable : Str
  pub start_time : ℕ
  pub pidfd : ℕ

unfoldable pub same_identity : Info → Info → Bool
same_identity p other =
    nat_eq p.pid other.pid
    && nat_eq p.uid other.uid
    && nat_eq p.start_time other.start_time
    && p.executable == other.executable

pub data Signal : Type 0 where
  terminate kill : Signal
