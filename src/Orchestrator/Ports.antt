-- ===== src/Orchestrator/Ports.antt =====
-- ports.py: ports that are free on each loopback family, held until the whole batch is done.

pub mod Free
pub mod Apart
pub mod Allocation
mod Tests
use jetty.Prelude.{
  nat_eq, ℕ, zero, suc, ◌+◌, ◌-◌, Bool, true, false, not, Option, none, some, List, [], ◌∷◌, ◌&&◌,
  ◌||◌, eqb, if◌then◌else◌,
}
use jetty.Prelude.Dict.{Dict, get, put}
use jetty.Prelude.Text.{Str, str_eq}
use jetty.Orchestrator.Config.Model.{PortWant}
use jetty.Orchestrator.Config.PortSpec.{PortSpec, auto, range, parse_port_spec}

-- A loopback family: 127.0.0.1 and ::1.
pub data Family : Type 0 where
  inet inet6 : Family

abbrev pub same_family : Family → Family → Bool
same_family inet inet = true
same_family inet inet6 = false
same_family inet6 inet = false
same_family inet6 inet6 = true

-- The probe sockets that are open.
abbrev pub Sockets : Type 0
Sockets = List (Family × ℕ)

unfoldable pub is_held : Family → ℕ → Sockets → Bool
is_held family port [] = false
is_held family port ((f, p) ∷ holds) =
    (same_family family f && eqb port p) || is_held family port holds

-- The host: the families that it can bind, what other programs hold, and the port that the
-- kernel picks for a bind to port 0.
pub record Host : Type 0 where
  pub loopbacks : List Family
  pub taken : Family → ℕ → Bool
  pub pick : Family → Sockets → Option ℕ

-- `PortError`, and the `TypeError` of a want that is no port spec.
pub data PortError : Type 0 where
  no_loopback : PortError
  same_fixed : (name other : Str) (port : ℕ) → PortError
  no_auto : (name : Str) → PortError
  in_use : (name : Str) (port : ℕ) → PortError
  no_free : (name : Str) (low high : ℕ) → PortError
  not_a_spec : (name : Str) → PortError

-- What is returned, or what is raised.
pub data Result (A : Type 0) : Type 0 where
  returned : A → Result A
  raised : PortError → Result A

-- The variables of the loop.
pub record Batch : Type 0 where
  pub allocated : Dict Str ℕ
  pub holds : Sockets
  pub fixed : Dict ℕ Str

module _ (host : Host) where
  -- `_bind_one` for a given port: whether the bind succeeds.
  unfoldable pub can_bind : Family → ℕ → Sockets → Bool
  can_bind family port holds = not (host.taken family port) && not (is_held family port holds)

  -- `_try_bind`: the sockets held afterwards. On a failure those of the port are closed again.
  unfoldable pub try_bind : ℕ → List Family → Sockets → Option Sockets
  try_bind port [] holds = some holds
  try_bind port (family ∷ families) holds =
      let rest = try_bind port families ((family, port) ∷ holds) in
      if can_bind family port holds then rest else none

  -- The loop of `_bind_auto`, for so many attempts. The lead socket stays among the held ones.
  unfoldable pub bind_auto : ℕ → Str → Family → List Family → Sockets → Result (ℕ × Sockets)
  bind_auto zero name lead others holds = raised (no_auto name)
  bind_auto (suc attempts) name lead others holds = elim (host.pick lead holds) [
    | none ↦ raised (no_auto name)
    | some port ↦ elim (try_bind port others ((lead, port) ∷ holds)) [
      | some all_held ↦ returned (port, all_held)
      | none ↦ bind_auto attempts name lead others ((lead, port) ∷ holds)
    ]
  ]

  -- `for candidate in range(low, high + 1)`, with the number of candidates left.
  unfoldable pub scan : ℕ → ℕ → Sockets → Option (ℕ × Sockets)
  scan zero candidate holds = none
  scan (suc left) candidate holds = elim (try_bind candidate host.loopbacks holds) [
    | some held ↦ some (candidate, held)
    | none ↦ scan left (candidate + 1) holds
  ]

  -- The rest of the loop's body for a range.
  unfoldable pub allocate_range : Str → ℕ → ℕ → Batch → Result Batch
  allocate_range name low high b = elim (scan (high + 1 - low) low b.holds) [
    | some (port, held) ↦
        returned (record b { allocated = put b.allocated name port; holds = held })
    | none ↦ raised (if eqb low high then in_use name low else no_free name low high)
  ]

  -- Two ports that are fixed to the same number are an error of their own.
  unfoldable pub allocate_fixed : Str → ℕ → ℕ → Batch → Result Batch
  allocate_fixed name low high b =
      let fixed = record b { fixed = put b.fixed low name } in
      if eqb low high
      then elim (get b.fixed low) [
        | some other ↦ raised (same_fixed name other low)
        | none ↦ allocate_range name low high fixed
      ]
      else allocate_range name low high b

  -- The body of the loop.
  unfoldable pub allocate_one : Family → List Family → Str × PortWant → Batch → Result Batch
  allocate_one lead others (name, want) b = elim (parse_port_spec want) as (λ _. Result Batch) [
    | none ↦ raised (not_a_spec name)
    | some auto ↦ elim (bind_auto 64 name lead others b.holds) [
      | raised e ↦ raised e
      | returned (port, held) ↦
          returned (record b { allocated = put b.allocated name port; holds = held })
    ]
    | some (range low high) ↦ allocate_fixed name low high b
  ]

  unfoldable pub allocate_all : Family → List Family → Dict Str PortWant → Batch → Result Batch
  allocate_all lead others [] b = returned b
  allocate_all lead others (entry ∷ spec) b = elim (allocate_one lead others entry b) [
    | raised e ↦ raised e
    | returned b' ↦ allocate_all lead others spec b'
  ]

  -- `allocate_ports`: the batch at its end, of which `allocated` is returned.
  unfoldable pub allocate_ports : Dict Str PortWant → Result Batch
  allocate_ports spec = elim host.loopbacks [
    | [] ↦ raised no_loopback
    | lead ∷ others ↦
        allocate_all lead others spec (record { allocated = []; holds = []; fixed = [] })
  ]
