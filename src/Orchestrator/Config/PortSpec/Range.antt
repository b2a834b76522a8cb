-- ===== src/Orchestrator/Config/PortSpec/Range.antt =====
-- What `parse_port_spec` accepts, and the ranges that it returns.
use jetty.Prelude.{ℕ, ◌≤◌, Bool, true, some, ◌≡◌, arith}
use jetty.Prelude.Text.{Str, str_eq, codes, partition, isdigit, int}
use jetty.Orchestrator.Config.Model.{PortWant, number, text}
use jetty.Orchestrator.Config.PortSpec.{
  PortSpec, auto, range, fixed_port, bounded_range, parse_port_spec,
}

-- A range of ports: not empty, from 1 to 65535.
abbrev pub IsPortRange : PortSpec → Type 0
IsPortRange auto = Unit
IsPortRange (range low high) = (1 ≤ low) × (low ≤ high) × (high ≤ 65535)

fixed_port-IsPortRange :
    (port : ℕ) {spec : PortSpec} → fixed_port port ≡ some spec → IsPortRange spec
unfolding fixed_port
fixed_port-IsPortRange port {spec = auto} h = tt
fixed_port-IsPortRange port {spec = range low high} h = ground arith

bounded_range-IsPortRange :
    (l h : Str) (valid : Bool) {spec : PortSpec}
    → bounded_range l h valid ≡ some spec
    → IsPortRange spec
unfolding bounded_range
bounded_range-IsPortRange l h valid {spec = auto} e = tt
bounded_range-IsPortRange l h valid {spec = range low high} e = ground arith

-- Whatever a port spec says, the range that is returned is not empty and lies within 1 to 65535.
pub parse_port_spec-IsPortRange :
    (want : PortWant) {spec : PortSpec} → parse_port_spec want ≡ some spec → IsPortRange spec
unfolding parse_port_spec
parse_port_spec-IsPortRange (number port) h = fixed_port-IsPortRange port h
parse_port_spec-IsPortRange (text want) {spec} h = ground (
  arith,
  fixed_port-IsPortRange (int want) {spec = spec},
  bounded_range-IsPortRange (partition b'-' want).before (partition b'-' want).after
      (isdigit (partition b'-' want).after) {spec = spec},
  bounded_range-IsPortRange (partition b'+' want).before (codes "65535") true {spec = spec},
)
