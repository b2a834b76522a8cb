-- ===== src/Orchestrator/Ports/Apart.antt =====
-- What one entry of a batch does: its port is free, and apart from those before it.
use mathlib.Core.Path.{subst}
use jetty.Prelude.{
  ℕ, ◌+◌, ◌-◌, ◌≤◌, true, false, Option, none, some, List, ◌∷◌, ◌≡◌, ◌⊎◌, inl, inr, refl, ap, sym,
  ◌∙◌, eqb, arith, nat_eq, Bool-cases, Option-cases,
}
use jetty.Prelude.Dict.{Dict, get, put, get-put}
use jetty.Prelude.Text.{Str, str_eq}
use jetty.Orchestrator.Config.Model.{PortWant}
use jetty.Orchestrator.Config.PortSpec.{PortSpec, auto, range, parse_port_spec}
use jetty.Orchestrator.Ports.{
  Family, Sockets, is_held, Host, Result, returned, raised, bind_auto, scan, Batch, allocate_range,
  allocate_fixed, allocate_one,
}
use jetty.Orchestrator.Config.PortSpec.Range.{parse_port_spec-IsPortRange}
use jetty.Orchestrator.Ports.Free.{IsKernel, Among, Bound, scan-Bound, bind_auto-Bound}

-- Whether a port is what a spec asks for.
abbrev pub WantedBy : Option PortSpec → ℕ → Type 0
WantedBy none port = ⊥
WantedBy (some auto) port = Unit
WantedBy (some (range low high)) port = (low ≤ port) × (port ≤ high)

module _ (host : Host) where
  -- The allocated ports are held on each family, where no other program has them, and are
  -- different from each other.
  pub record Sound (families : List Family) (allocated : Dict Str ℕ) (holds : Sockets)
      : Type 0 where
    pub free :
        (name : Str) (port : ℕ)
        → get allocated name ≡ some port
        → (f : Family) → Among f families
        → (host.taken f port ≡ false) × (is_held f port holds ≡ true)
    pub apart :
        (n m : Str) (port : ℕ) → get allocated n ≡ some port → get allocated m ≡ some port → n ≡ m

  -- What one entry of the spec does to the batch.
  pub record Step (families : List Family) (name : Str) (want : PortWant) (b b' : Batch)
      : Type 0 where
    pub port : ℕ
    pub bound : Bound host port families b.holds b'.holds
    pub stored : b'.allocated ≡ put b.allocated name port
    pub wanted : WantedBy (parse_port_spec want) port

  get-put-cases :
      (d : Dict Str ℕ) (name n : Str) (new port : ℕ)
      → get (put d name new) n ≡ some port
      → ((n ≡ name) × (new ≡ port)) ⊎ (get d n ≡ some port)
  get-put-cases d name n new port h = elim (str_eq.dec n name) [
    | yes q ↦ inl (q, ground (arith, get-put d name n new))
    | no q ↦ inr (ground (arith, get-put d name n new))
  ]

  pub Sound-put :
      (lead : Family) (others : List Family) (allocated : Dict Str ℕ) (before after : Sockets)
      (name : Str) (new : ℕ)
      → Sound (lead ∷ others) allocated before
      → Bound host new (lead ∷ others) before after
      → Sound (lead ∷ others) (put allocated name new) after
  Sound-put lead others allocated before after name new s b = record {
    free = λ n port h f m. elim (get-put-cases allocated name n new port h) [
      | inl (q, e) ↦
          subst (λ x. (host.taken f x ≡ false) × (is_held f x after ≡ true)) e
            (b.untaken f m, b.holding f m)
      | inr old ↦ let known = s.free n port old f m in (known.0, b.kept f port known.1)
    ];
    apart = λ n m port hn hm. elim (get-put-cases allocated name n new port hn) [
      | inl (q, e) ↦ elim (get-put-cases allocated name m new port hm) [
        | inl (q', e') ↦ q ∙ sym q'
        | inr old ↦ absurd (clash m port e old)
      ]
      | inr old ↦ elim (get-put-cases allocated name m new port hm) [
        | inl (q', e') ↦ absurd (clash n port e' old)
        | inr old' ↦ s.apart n m port old old'
      ]
    ];
  }
    where
      clash : (m : Str) (port : ℕ) → new ≡ port → get allocated m ≡ some port → ⊥
      clash m port e old =
          let held = (s.free m port old lead (inl refl)).1 in
          let unheld = subst (λ x. is_held lead x before ≡ false) e (b.unheld lead (inl refl)) in
          ground (arith, held, unheld)

  allocate_range-Step :
      (families : List Family) (name : Str) (low high : ℕ) (want : PortWant) (b b₀ : Batch)
      {b' : Batch}
      → host.loopbacks ≡ families
      → parse_port_spec want ≡ some (range low high)
      → low ≤ high
      → (b.allocated ≡ b₀.allocated) × (b.holds ≡ b₀.holds)
      → allocate_range host name low high b ≡ returned b'
      → Step families name want b₀ b'
  unfolding allocate_range
  allocate_range-Step families name low high want b b₀ {b'} fam p ordered same h =
      elim (Option-cases (scan host (high + 1 - low) low b.holds)) [
        | inl e ↦ absurd (ground arith)
        | inr ((port, held), e) ↦
            let found = scan-Bound host (high + 1 - low) low b.holds e in
            let holds : b'.holds ≡ held = ground arith in
            let now : b'.allocated ≡ put b.allocated name port = ground arith in
            record {
              port = port;
              bound =
                  subst (λ x. Bound host port families x b'.holds) same.1
                    (subst (λ x. Bound host port families b.holds x) (sym holds)
                      (subst (λ x. Bound host port x b.holds held) fam found.2));
              stored = now ∙ ap (λ (d : Dict Str ℕ). put d name port) same.0;
              wanted = rw p (found.0, omega (arith, found.1, ordered));
            }
      ]

  allocate_fixed-Step :
      (families : List Family) (name : Str) (low high : ℕ) (want : PortWant) (b : Batch)
      {b' : Batch}
      → host.loopbacks ≡ families
      → parse_port_spec want ≡ some (range low high)
      → low ≤ high
      → allocate_fixed host name low high b ≡ returned b'
      → Step families name want b b'
  unfolding allocate_fixed
  allocate_fixed-Step families name low high want b {b'} fam p ordered h =
      let noted = record b { fixed = put b.fixed low name } in
      elim (Bool-cases (eqb low high)) [
        | inr e ↦
            allocate_range-Step families name low high want b b fam p ordered (refl, refl)
              (ground arith)
        | inl e ↦ elim (Option-cases (get b.fixed low)) [
          | inr (other, f) ↦ absurd (ground arith)
          | inl f ↦
              allocate_range-Step families name low high want noted b fam p ordered (refl, refl)
                (ground arith)
        ]
      ]

  pub allocate_one-Step :
      (kernel : IsKernel host) (lead : Family) (others : List Family) (name : Str) (want : PortWant)
      (b : Batch) {b' : Batch}
      → host.loopbacks ≡ lead ∷ others
      → allocate_one host lead others (name, want) b ≡ returned b'
      → Step (lead ∷ others) name want b b'
  unfolding allocate_one
  allocate_one-Step kernel lead others name want b {b'} fam h = by_spec (parse_port_spec want) refl
    where
      by_spec :
          (o : Option PortSpec) → parse_port_spec want ≡ o → Step (lead ∷ others) name want b b'
      by_spec none p = absurd (ground arith)
      by_spec (some (range low high)) p =
          allocate_fixed-Step (lead ∷ others) name low high want b fam p
            (parse_port_spec-IsPortRange want p).1 (ground arith)
      by_spec (some auto) p = picked (bind_auto host 64 name lead others b.holds) refl
        where
          picked :
              (r : Result (ℕ × Sockets))
              → bind_auto host 64 name lead others b.holds ≡ r
              → Step (lead ∷ others) name want b b'
          picked (raised error) e = absurd (ground arith)
          picked (returned (port, held)) e =
              let holds : b'.holds ≡ held = ground arith in
              record {
                port = port;
                bound =
                    subst (λ x. Bound host port (lead ∷ others) b.holds x) (sym holds)
                      (bind_auto-Bound host kernel 64 name lead others b.holds e);
                stored = ground arith;
                wanted = rw p tt;
              }
