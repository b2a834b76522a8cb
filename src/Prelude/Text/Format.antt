-- ===== src/Prelude/Text/Format.antt =====
-- `string.Formatter().parse`: the field names of a template, character by character. `none` is
-- the `ValueError` of a malformed template.
use Prim.Native.Nat.{ℕ, zero, suc}
use mathlib.Core.Option
use mathlib.Core.Option.{Option, none, some}
use mathlib.Core.List.{List, [], ◌∷◌, ◌++◌}
use jetty.Prelude.Tests.{if◌then◌else◌, eqb}
use jetty.Prelude.Text.{Str}

-- Where the parser stands: in literal text, behind a brace, in a field's name (or in brackets
-- within it), at or behind a conversion, or in a format spec with so many braces open.
pub data Mode : Type 0 where
  literal opened closed : Mode
  name bracket conversion converted : (field : Str) → Mode
  spec : (field : Str) → ℕ → Mode

-- A character of a field's name.
unfoldable pub name_step : Str → ℕ → Option Mode
name_step field c =
    if eqb c b'{'
    then none
    else if eqb c b'['
    then some (bracket (field ++ c ∷ []))
    else if eqb c b'!'
    then some (conversion field)
    else if eqb c b':'
    then some (spec field zero)
    else some (name (field ++ c ∷ []))

-- One more character: the new mode, and the name of a field that it ends.
pub data Step : Type 0 where
  fail : Step
  go : Mode → Step
  emit : Str → Step

abbrev in_name : Str → ℕ → Step
in_name field c =
    if eqb c b'}' then emit field else elim (name_step field c) [ none ↦ fail | some m ↦ go m ]

unfoldable pub step : Mode → ℕ → Step
unfolding name_step
step literal c = if eqb c b'{' then go opened else if eqb c b'}' then go closed else go literal
step opened c = if eqb c b'{' then go literal else in_name [] c
step closed c = if eqb c b'}' then go literal else fail
step (name field) c = in_name field c
step (bracket field) c =
    if eqb c b']' then go (name (field ++ c ∷ [])) else go (bracket (field ++ c ∷ []))
step (conversion field) c = go (converted field)
step (converted field) c =
    if eqb c b'}' then emit field else if eqb c b':' then go (spec field zero) else fail
step (spec field depth) c =
    if eqb c b'{'
    then go (spec field (suc depth))
    else if eqb c b'}'
    then elim depth [ zero ↦ emit field | suc d ↦ go (spec field d) ]
    else go (spec field depth)

-- The template must end in literal text.
abbrev at_end : Mode → Option (List Str)
at_end literal = some []
at_end _ = none

unfoldable pub fields_from : Mode → Str → Option (List Str)
unfolding step
fields_from m [] = at_end m
fields_from m (c ∷ s) = elim (step m c) [
  | fail ↦ none
  | go m' ↦ fields_from m' s
  | emit field ↦ Option.map (λ fs. field ∷ fs) (fields_from literal s)
]

abbrev pub template_fields : Str → Option (List Str)
template_fields s = fields_from literal s
