-- ===== src/Orchestrator/Ports/Allocation.antt =====
-- What a batch that succeeds has allocated.
use mathlib.Core.Path.{subst}
use jetty.Prelude.{
  ℕ, false, some, List, [], ◌∷◌, ◌≡◌, ◌⊎◌, inl, inr, refl, ap, sym, ◌∙◌, ◌==◌, arith, contains,
  Distinct, nat_eq, if◌then◌else◌, List-cases,
}
use jetty.Prelude.Dict.{Dict, keys, get, get-put}
use jetty.Prelude.Text.{Str, str_eq}
use jetty.Orchestrator.Config.Model.{PortWant}
use jetty.Orchestrator.Config.PortSpec.{parse_port_spec}
use jetty.Orchestrator.Ports.{
  Family, Host, PortError, Result, returned, raised, Batch, allocate_one, allocate_all,
  allocate_ports,
}
use jetty.Orchestrator.Ports.Free.{IsKernel}
use jetty.Orchestrator.Ports.Apart.{WantedBy, Sound, Step, Sound-put, allocate_one-Step}

-- Each entry of the spec has a port, and the one that it asks for.
abbrev pub AllWanted : Dict Str PortWant → Dict Str ℕ → Type 0
AllWanted [] allocated = Unit
AllWanted ((name, want) ∷ spec) allocated =
    ((port : ℕ) × (get allocated name ≡ some port) × WantedBy (parse_port_spec want) port)
    × AllWanted spec allocated

-- The ports of a batch: as wanted, free on every family, and different from each other.
pub record Allocation (host : Host) (spec : Dict Str PortWant) (b : Batch) : Type 0 where
  pub wanted : AllWanted spec b.allocated
  pub sound : Sound host host.loopbacks b.allocated b.holds

-- The rest of a batch: it keeps what is allocated, and adds the entries of the rest.
record Rest (host : Host) (families : List Family) (spec : Dict Str PortWant) (b b' : Batch)
    : Type 0 where
  pub all_wanted : AllWanted spec b'.allocated
  pub sound : Sound host families b'.allocated b'.holds
  pub others : (n : Str) → contains (keys spec) n ≡ false → get b'.allocated n ≡ get b.allocated n

Result-cases :
    (r : Result Batch) → ((b : Batch) × (r ≡ returned b)) ⊎ ((e : PortError) × (r ≡ raised e))
Result-cases (returned b) = inl (b, refl)
Result-cases (raised e) = inr (e, refl)

Step-Rest :
    (host : Host) (families : List Family) (name : Str) (want : PortWant) (spec : Dict Str PortWant)
    (b next b' : Batch)
    → contains (keys spec) name ≡ false
    → Step host families name want b next
    → Rest host families spec next b'
    → Rest host families ((name, want) ∷ spec) b b'
Step-Rest host families name want spec b next b' new step rest =
    let stored : (n : Str)
        → get next.allocated n ≡ (if n == name then some step.port else get b.allocated n) =
      λ n. ap (λ (x : Dict Str ℕ). get x n) step.stored ∙ get-put b.allocated name n step.port in
    record {
      all_wanted = (
        (step.port, rest.others name new ∙ ground (arith, stored name), step.wanted),
        rest.all_wanted,
      );
      sound = rest.sound;
      others = λ n out. rest.others n (ground arith) ∙ ground (arith, stored n);
    }

allocate_all-Rest :
    (host : Host) (kernel : IsKernel host) (lead : Family) (others : List Family)
    (spec : Dict Str PortWant) (b : Batch) {b' : Batch}
    → host.loopbacks ≡ lead ∷ others
    → Distinct (keys spec)
    → Sound host (lead ∷ others) b.allocated b.holds
    → allocate_all host lead others spec b ≡ returned b'
    → Rest host (lead ∷ others) spec b b'
unfolding allocate_all
allocate_all-Rest host kernel lead others [] b {b'} fam d s h =
    let same : b' ≡ b = ground arith in
    record {
      all_wanted = tt;
      sound = subst (λ (x : Batch). Sound host (lead ∷ others) x.allocated x.holds) (sym same) s;
      others = λ n e. ap (λ (x : Batch). get x.allocated n) same;
    }
allocate_all-Rest host kernel lead others ((name, want) ∷ spec) b {b'} fam d s h =
    elim (Result-cases (allocate_one host lead others (name, want) b)) [
      | inr (error, e) ↦ absurd (ground arith)
      | inl (next, e) ↦
          let step = allocate_one-Step host kernel lead others name want b fam e in
          let next_sound : Sound host (lead ∷ others) next.allocated next.holds =
            subst (λ x. Sound host (lead ∷ others) x next.holds) (sym step.stored)
              (Sound-put host lead others b.allocated b.holds next.holds name step.port s
                step.bound) in
          let later : allocate_all host lead others spec next ≡ returned b' = ground arith in
          Step-Rest host (lead ∷ others) name want spec b next b' d.0 step
            (allocate_all-Rest host kernel lead others spec next fam d.1 next_sound later)
    ]

Sound-empty : (host : Host) (families : List Family) → Sound host families [] []
unfolding get
Sound-empty host families = record {
  free = λ name port e f m. absurd (ground arith);
  apart = λ n m port e e'. absurd (ground arith);
}

-- If `allocate_ports` returns, for a spec without repeated names and a kernel that picks only
-- free ports, then each name has a port that its spec asks for, the ports are different from
-- each other, and each is held on every loopback family, where no other program has it.
pub allocate_ports-Allocation :
    (host : Host) (kernel : IsKernel host) (spec : Dict Str PortWant) {b : Batch}
    → Distinct (keys spec)
    → allocate_ports host spec ≡ returned b
    → Allocation host spec b
unfolding allocate_ports
allocate_ports-Allocation host kernel spec {b} d h = elim (List-cases host.loopbacks) [
  | inl e ↦ absurd (ground arith)
  | inr (lead, others, e) ↦
      let start : Batch = record { allocated = []; holds = []; fixed = [] } in
      let loop : allocate_all host lead others spec start ≡ returned b = ground arith in
      let rest =
        allocate_all-Rest host kernel lead others spec start e d (Sound-empty host (lead ∷ others))
          loop in
      record {
        wanted = rest.all_wanted;
        sound = subst (λ x. Sound host x b.allocated b.holds) (sym e) rest.sound;
      }
]
