-- ===== src/Config.antt =====
-- The configuration of internal/config/config.go: its types. `int` fields are signed.
pub mod Clock
pub mod Paths
pub mod Domain
pub mod Validate
pub mod Executables
use local_parental_control.Base.{Bool, List}
use local_parental_control.Int.{ℤ}
use local_parental_control.Text.{Str}
use local_parental_control.Dict.{Dict}

pub record Application : Type 0 where
  pub id : Str
  pub name : Str
  pub executables : List Str
  pub daily_minutes : ℤ

pub record UserConfig : Type 0 where
  pub daily_device_minutes : ℤ
  pub continuous_use_minutes : ℤ
  pub break_minutes : ℤ
  pub all_day : Bool
  pub allowed_from : Str
  pub allowed_until : Str
  pub applications : List Application
  pub blocked_domains : List Str

pub record Config : Type 0 where
  pub timezone : Str
  pub poll_interval_seconds : ℤ
  pub termination_grace_seconds : ℤ
  pub users : Dict Str UserConfig
