-- ===== src/Orchestrator/Config/Model.antt =====
-- The validated objects of config.py. A duration is a count of one fixed unit of time, since
-- the program only compares, adds and scales its durations.
use native.Mathlib.Decide.{ℕ_discrete}
use jetty.Prelude.{ℕ, Bool, Option, List, Eq}
use jetty.Prelude.Dict.{Dict}
use jetty.Prelude.Text.{Str}
use jetty.Orchestrator.Config.Toml.{ℤ}

pub record GateConfig : Type 0 where
  pub check : List Str
  pub recheck_seconds : ℕ
  pub timeout_seconds : ℕ
  pub continuous : Bool
  pub close_after : ℕ

pub data Refresh : Type 0 where
  spawn : Refresh
  instance_wide : Refresh

pub record ResolverConfig : Type 0 where
  pub cmd : List Str
  pub provides : List Str
  pub timeout_seconds : ℕ
  pub refresh : Refresh
  pub cache_seconds : ℤ
  pub copy_binaries : Bool
  pub copy_keep_days : ℕ
  pub requires : List Str

pub record ReadyConfig : Type 0 where
  pub http : Option Str
  pub tcp : Option Str
  pub uds : Option Str
  pub path : Option Str
  pub timeout_seconds : ℕ
  pub interval_seconds : ℕ

-- A process's return code: `exited n` is n, and `signalled n` is -n, for n from 1 on.
pub data ExitCode : Type 0 where
  exited : ℕ → ExitCode
  signalled : ℕ → ExitCode

pub exit_code_dec : Discrete ExitCode
exit_code_dec = hlevel ℕ_discrete

instance unfoldable pub exit_code_eq : Eq ExitCode
unfolding exit_code_dec ℕ_discrete
exit_code_eq = record { dec = exit_code_dec }

pub record RestartConfig : Type 0 where
  pub max_restarts : ℕ
  pub window_seconds : ℕ
  pub backoff_initial_seconds : ℕ
  pub backoff_max_seconds : ℕ
  pub no_restart_exit : List ExitCode

pub data StopSignal : Type 0 where
  term int hup : StopSignal

pub record StopConfig : Type 0 where
  pub signal : StopSignal
  pub grace_seconds : ℕ

pub record ServiceConfig : Type 0 where
  pub cmd : List Str
  pub cwd : Option Str
  pub env : Dict Str Str
  pub after : List Str
  pub requires : List Str
  pub ready : ReadyConfig
  pub restart : RestartConfig
  pub stop : StopConfig
  pub watch : List Str

-- A port spec as TOML gives it: an integer or a string.
pub data PortWant : Type 0 where
  number : ℕ → PortWant
  text : Str → PortWant
