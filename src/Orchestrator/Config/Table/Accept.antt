-- ===== src/Orchestrator/Config/Table/Accept.antt =====
-- What the accessors of `_Table` accept.
use jetty.Prelude.{ℕ, ◌≤◌, ◌<◌, Bool, true, false, ◌≡◌, refl, arith, length}
use jetty.Prelude.Text.{Str}
use jetty.Orchestrator.Config.Toml.{Fields}
use jetty.Orchestrator.Config.Table.{
  ParseError, Table, Taken, took, raised, Parser, pure, ◌>>=◌, guard, at, pop, over_zero,
  take_number, take_signed, within, from_zero, take_int, take_str_list, take_argv, take_nested,
  nested, take_table,
}
use jetty.Orchestrator.Config.Table.Keys.{>>=-eq-took}

-- Every value that `p` gives has the property.
pub record Gives {ℓ} {A : Type ℓ} (P : A → Type 0) (p : Parser A) : Type ℓ where
  pub gives : (t t' : Table) (a : A) → p t ≡ took a t' → P a

pub Gives-bind {ℓ κ} :
    {A : Type ℓ} {B : Type κ} (P : A → Type 0) (Q : B → Type 0) (p : Parser A) (f : A → Parser B)
    → Gives P p
    → ((a : A) → P a → Gives Q (f a))
    → Gives Q (p >>= f)
Gives-bind P Q p f gp gf = record {
  gives = λ t t' b h.
      let (a, s, e, e') = >>=-eq-took (p t) f h in (gf a (gp.gives t s a e)).gives s t' b e';
}

-- A step whose value does not matter.
pub Gives-skip {ℓ κ} :
    {A : Type ℓ} {B : Type κ} (Q : B → Type 0) (p : Parser A) (f : A → Parser B)
    → ((a : A) → Gives Q (f a))
    → Gives Q (p >>= f)
Gives-skip Q p f gf = record {
  gives = λ t t' b h. let (a, s, e, e') = >>=-eq-took (p t) f h in (gf a).gives s t' b e';
}

pub Gives-pure {ℓ} : {A : Type ℓ} (P : A → Type 0) (a : A) → P a → Gives P (pure a)
Gives-pure P a q = record { gives = λ t t' b h. ground arith }

pub Gives-guard : (b : Bool) (e : ParseError) → Gives (λ _. b ≡ true) (guard b e)
Gives-guard true e = record { gives = λ t t' a h. refl }
Gives-guard false e = record { gives = λ t t' a h. cc }

pub Gives-take_number :
    (quarter : ℕ) (key : Str) (d : ℕ) → Gives (λ n. 0 < n) (take_number quarter key d over_zero)
unfolding take_number take_signed pop
Gives-take_number quarter key d = record { gives = λ t t' a h. ground arith }

-- A number that may be 0.
pub Gives-take_signed :
    (quarter : ℕ) (key : Str) (d : ℕ)
    → Gives (λ x. within from_zero x ≡ true) (take_signed quarter key d from_zero)
unfolding take_signed pop
Gives-take_signed quarter key d = record { gives = λ t t' a h. ground arith }

pub Gives-take_int : (key : Str) (d least : ℕ) → Gives (λ n. least ≤ n) (take_int key d least)
unfolding take_int pop
Gives-take_int key d least = record { gives = λ t t' a h. ground arith }

pub Gives-take_str_list : (key : Str) (n : ℕ) → Gives (λ ss. n ≤ length ss) (take_str_list key n)
unfolding take_str_list pop
Gives-take_str_list key n = record { gives = λ t t' a h. ground arith }

pub Gives-take_argv : (key : Str) (n : ℕ) → Gives (λ ss. n ≤ length ss) (take_argv key n)
unfolding take_argv
Gives-take_argv key n = record {
  gives = λ t t' a h. ground (arith, (Gives-take_str_list key n).gives);
}

nested-eq-took {ℓ} :
    {A : Type ℓ} (p : Parser A) (key : Str) (d : Fields) (t : Table) {t' : Table} {a : A}
    → nested p key d t ≡ took a t'
    → (s : Table) × (p (record { raw = d; place = at t.place key }) ≡ took a s)
unfolding nested
nested-eq-took {A = A} p key d t {t' = t'} {a = a} h =
    of_result (p (record { raw = d; place = at t.place key })) h
  where
    of_result :
        (r : Taken A)
        → (elim r as (λ _. Taken A) [ took x s ↦ took x t | raised e ↦ raised e ]) ≡ took a t'
        → (s : Table) × (r ≡ took a s)
    of_result (took x s) e = (s, cc)
    of_result (raised x) e = cc

pub Gives-take_nested {ℓ} :
    {A : Type ℓ} (P : A → Type 0) (p : Parser A) (key : Str)
    → Gives P p
    → Gives P (take_nested p key)
Gives-take_nested P p key gp = Gives-skip P (take_table key) (λ d. nested p key d) in_place
  where
    in_place : (d : Fields) → Gives P (nested p key d)
    in_place d = record {
      gives = λ t t' a h. let (s, e) = nested-eq-took p key d t h in gp.gives _ s a e;
    }
