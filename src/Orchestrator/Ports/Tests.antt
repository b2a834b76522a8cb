-- ===== src/Orchestrator/Ports/Tests.antt =====
-- A host with both families, and a batch that passes over a port that is taken.
use jetty.Prelude.{
  ℕ, Bool, false, not, none, some, [], ◌∷◌, ◌≡◌, refl, arith, ◌&&◌, eqb, nat_eq, Distinct,
  if◌then◌else◌, Bool-cases, inl, inr,
}
use jetty.Prelude.Dict.{Dict, keys, get, put}
use jetty.Prelude.Text.{Str, str_eq, codes, partition, int_from}
use jetty.Orchestrator.Config.Model.{PortWant, number, text}
use jetty.Orchestrator.Config.PortSpec.{parse_port_spec, parse_port_text, fixed_port, bounded_range}
use jetty.Orchestrator.Ports.{
  Family, inet, inet6, is_held, Host, returned, Batch, can_bind, try_bind, bind_auto, scan,
  allocate_range, allocate_fixed, allocate_one, allocate_all, allocate_ports,
}
use jetty.Orchestrator.Ports.Free.{IsKernel}
use jetty.Orchestrator.Ports.Allocation.{Allocation, allocate_ports-Allocation}

abbrev taken : Family → ℕ → Bool
taken inet port = false
taken inet6 port = eqb port 8000

-- This kernel picks 40000 as long as it is free.
abbrev host : Host
host = record {
  loopbacks = inet ∷ inet6 ∷ [];
  taken = taken;
  pick = λ f holds. if not (taken f 40000) && not (is_held f 40000 holds) then some 40000 else none;
}

abbrev spec : Dict Str PortWant
spec =
    (codes "web", text (codes "8000-8020"))
    ∷ (codes "db", text (codes "auto"))
    ∷ (codes "api", number 8080)
    ∷ []

abbrev batch : Batch
batch = record {
  allocated = (codes "web", 8001) ∷ (codes "db", 40000) ∷ (codes "api", 8080) ∷ [];
  holds =
      (inet6, 8080)
      ∷ (inet, 8080)
      ∷ (inet6, 40000)
      ∷ (inet, 40000)
      ∷ (inet6, 8001)
      ∷ (inet, 8001)
      ∷ [];
  fixed = (8080, codes "api") ∷ [];
}

host-IsKernel : IsKernel host
host-IsKernel f holds port h =
    elim (Bool-cases (not (taken f 40000) && not (is_held f 40000 holds))) [
      | inl e ↦ ground arith
      | inr e ↦ absurd (ground arith)
    ]

spec-Distinct : Distinct (keys spec)
unfolding str_eq
spec-Distinct = (refl, (refl, (refl, tt)))

allocate_ports-spec : allocate_ports host spec ≡ returned batch
unfolding allocate_ports allocate_all allocate_one allocate_fixed allocate_range scan bind_auto
    try_bind can_bind is_held parse_port_spec parse_port_text fixed_port bounded_range str_eq get
    put nat_eq partition int_from
allocate_ports-spec = refl

allocate_ports-Allocation_example : Allocation host spec batch
allocate_ports-Allocation_example =
    allocate_ports-Allocation host host-IsKernel spec spec-Distinct allocate_ports-spec
