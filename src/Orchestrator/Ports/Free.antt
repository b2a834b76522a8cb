-- ===== src/Orchestrator/Ports/Free.antt =====
-- What a bind holds: the port on every family, where nobody else had it.
use mathlib.Core.Option.{some-injective}
use mathlib.Core.Path.{subst}
use jetty.Prelude.{
  ℕ, zero, suc, ◌+◌, ◌≤◌, ◌<◌, true, false, some, List, [], ◌∷◌, ◌≡◌, ◌⊎◌, inl, inr, arith, nat_eq,
  Bool-cases, Option-cases,
}
use jetty.Prelude.Text.{Str, str_eq}
use jetty.Orchestrator.Ports.{
  Family, inet, inet6, Sockets, is_held, Host, returned, can_bind, try_bind, bind_auto, scan,
}

-- What the kernel promises: a port that it picks is neither taken nor held in that family.
abbrev pub IsKernel : Host → Type 0
IsKernel host =
    (family : Family) (holds : Sockets) (port : ℕ)
    → host.pick family holds ≡ some port
    → (host.taken family port ≡ false) × (is_held family port holds ≡ false)

is_held-cons :
    (family f : Family) (port p : ℕ) (holds : Sockets)
    → is_held family port holds ≡ true
    → is_held family port ((f, p) ∷ holds) ≡ true
unfolding is_held
is_held-cons family f port p holds h = ground arith

is_held-head :
    (family : Family) (port : ℕ) (holds : Sockets)
    → is_held family port ((family, port) ∷ holds) ≡ true
unfolding is_held
is_held-head inet port holds = ground arith
is_held-head inet6 port holds = ground arith

is_held-tail :
    (family f : Family) (port p : ℕ) (holds : Sockets)
    → is_held family port ((f, p) ∷ holds) ≡ false
    → is_held family port holds ≡ false
unfolding is_held
is_held-tail family f port p holds h = ground arith

abbrev pub Among : Family → List Family → Type 0
Among f [] = ⊥
Among f (g ∷ families) = (f ≡ g) ⊎ Among f families

module _ (host : Host) where
  -- The sockets of one port: held on each of the families, on which nobody held it before.
  pub record Bound (port : ℕ) (families : List Family) (before after : Sockets) : Type 0 where
    pub kept : (f : Family) (p : ℕ) → is_held f p before ≡ true → is_held f p after ≡ true
    pub holding : (f : Family) → Among f families → is_held f port after ≡ true
    pub untaken : (f : Family) → Among f families → host.taken f port ≡ false
    pub unheld : (f : Family) → Among f families → is_held f port before ≡ false

  can_bind-free :
      (f : Family) (port : ℕ) (holds : Sockets)
      → can_bind host f port holds ≡ true
      → (host.taken f port ≡ false) × (is_held f port holds ≡ false)
  unfolding can_bind
  can_bind-free f port holds h = ground arith

  -- One socket more at the front.
  Bound-cons :
      (port : ℕ) (g : Family) (families : List Family) (before after : Sockets)
      → host.taken g port ≡ false
      → is_held g port before ≡ false
      → Bound port families ((g, port) ∷ before) after
      → Bound port (g ∷ families) before after
  Bound-cons port g families before after free unheld b = record {
    kept = λ f p h. b.kept f p (is_held-cons f g p port before h);
    holding = λ f m. elim m [
      | inl e ↦ rw e (b.kept g port (is_held-head g port before))
      | inr m' ↦ b.holding f m'
    ];
    untaken = λ f m. elim m [ inl e ↦ rw e free | inr m' ↦ b.untaken f m' ];
    unheld = λ f m. elim m [
      | inl e ↦ rw e unheld
      | inr m' ↦ is_held-tail f g port port before (b.unheld f m')
    ];
  }

  pub try_bind-Bound :
      (port : ℕ) (families : List Family) (before : Sockets) {after : Sockets}
      → try_bind host port families before ≡ some after
      → Bound port families before after
  unfolding try_bind
  try_bind-Bound port [] before {after} h = record {
    kept = λ f p e. subst (λ x. is_held f p x ≡ true) (some-injective before after h) e;
    holding = λ f m. absurd m;
    untaken = λ f m. absurd m;
    unheld = λ f m. absurd m;
  }
  try_bind-Bound port (g ∷ families) before {after} h =
      elim (Bool-cases (can_bind host g port before)) [
        | inr e ↦ absurd (ground arith)
        | inl e ↦
            let free = can_bind-free g port before e in
            Bound-cons port g families before after free.0 free.1
              (try_bind-Bound port families ((g, port) ∷ before) (ground arith))
      ]

  -- The ports below that a scan passes over cannot be bound.
  pub scan-Bound :
      (left low : ℕ) (before : Sockets) {port : ℕ} {after : Sockets}
      → scan host left low before ≡ some (port, after)
      → (low ≤ port) × (port < low + left) × Bound port host.loopbacks before after
  unfolding scan
  scan-Bound zero low before h = absurd (ground arith)
  scan-Bound (suc left) low before {port} {after} h =
      elim (Option-cases (try_bind host low host.loopbacks before)) [
        | inl e ↦
            let later : scan host left (low + 1) before ≡ some (port, after) = ground arith in
            let found = scan-Bound left (low + 1) before later in
            (omega (arith, found.0), omega (arith, found.1), found.2)
        | inr (held, e) ↦
            let same : low ≡ port = ground arith in
            (
              omega arith,
              omega arith,
              subst (λ x. Bound x host.loopbacks before after) same
                  (try_bind-Bound low host.loopbacks before (ground arith)),
            )
      ]

  Bound-earlier :
      (port : ℕ) (g : Family) (p : ℕ) (families : List Family) (before after : Sockets)
      → Bound port families ((g, p) ∷ before) after
      → Bound port families before after
  Bound-earlier port g p families before after b = record {
    kept = λ f q h. b.kept f q (is_held-cons f g q p before h);
    holding = b.holding;
    untaken = b.untaken;
    unheld = λ f m. is_held-tail f g port p before (b.unheld f m);
  }

  pub bind_auto-Bound :
      (kernel : IsKernel host) (attempts : ℕ) (name : Str) (lead : Family) (others : List Family)
      (before : Sockets) {port : ℕ} {after : Sockets}
      → bind_auto host attempts name lead others before ≡ returned (port, after)
      → Bound port (lead ∷ others) before after
  unfolding bind_auto
  bind_auto-Bound kernel zero name lead others before h = absurd (ground arith)
  bind_auto-Bound kernel (suc attempts) name lead others before {port} {after} h =
      elim (Option-cases (host.pick lead before)) [
        | inl e ↦ absurd (ground arith)
        | inr (p, e) ↦ elim (Option-cases (try_bind host p others ((lead, p) ∷ before))) [
          | inl e' ↦
              let later : bind_auto host attempts name lead others ((lead, p) ∷ before)
                  ≡ returned (port, after) =
                ground arith in
              Bound-earlier port lead p (lead ∷ others) before after
                (bind_auto-Bound kernel attempts name lead others ((lead, p) ∷ before) later)
          | inr (held, e') ↦
              let same : p ≡ port = ground arith in
              let all_held : try_bind host p others ((lead, p) ∷ before) ≡ some after =
                ground arith in
              let free = kernel lead before p e in
              subst (λ x. Bound x (lead ∷ others) before after) same
                (Bound-cons p lead others before after free.0 free.1
                  (try_bind-Bound p others ((lead, p) ∷ before) all_held))
        ]
      ]
