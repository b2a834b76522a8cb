-- ===== src/Orchestrator/Config/PortSpec.antt =====
-- `parse_port_spec` of config.py.
pub mod Range
pub mod Forms
use jetty.Prelude.{
  ℕ, Bool, true, false, Option, none, some, List, [], ◌∷◌, ◌==◌, ◌&&◌, ◌||◌, not, leb,
  if◌then◌else◌,
}
use jetty.Prelude.Text.{Str, str_eq, codes, Cut, partition, isdigit, int}
use jetty.Orchestrator.Config.Model.{PortWant, number, text}

-- "auto", or an inclusive range of candidates.
pub data PortSpec : Type 0 where
  auto : PortSpec
  range : (low high : ℕ) → PortSpec

-- `(port, port) if 1 <= port <= 65535 else None`
unfoldable pub fixed_port : ℕ → Option PortSpec
fixed_port port = if leb 1 port && leb port 65535 then some (range port port) else none

-- From `if not (low_s.isdigit() and high_valid)` on.
unfoldable pub bounded_range : Str → Str → Bool → Option PortSpec
bounded_range low_s high_s high_valid =
    if not (isdigit low_s && high_valid)
    then none
    else if not (leb 1 (int low_s) && leb (int low_s) (int high_s) && leb (int high_s) 65535)
    then none
    else some (range (int low_s) (int high_s))

unfoldable pub parse_port_text : Str → Option PortSpec
unfolding fixed_port bounded_range
parse_port_text want =
    let dash = partition b'-' want in
    let plus = partition b'+' want in
    if want == codes "auto"
    then some auto
    else if isdigit want
    then fixed_port (int want)
    else if dash.found
    then bounded_range dash.before dash.after (isdigit dash.after)
    else if not plus.found || not (plus.after == [])
    then none
    else bounded_range plus.before (codes "65535") true

unfoldable pub parse_port_spec : PortWant → Option PortSpec
unfolding parse_port_text
parse_port_spec (number port) = fixed_port port
parse_port_spec (text want) = parse_port_text want
