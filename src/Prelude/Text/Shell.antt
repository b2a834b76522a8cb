-- ===== src/Prelude/Text/Shell.antt =====
-- `shlex.split`: the words of a text, as a POSIX shell splits it.
use Prim.Native.Nat.{ℕ}
use mathlib.Core.Option
use mathlib.Core.Option.{Option, none, some}
use mathlib.Core.Bool.{Bool, ◌||◌}
use mathlib.Core.List.{List, [], ◌∷◌, ◌++◌}
use jetty.Prelude.Tests.{if◌then◌else◌, eqb}
use jetty.Prelude.Text.{Str}

-- Where the reader stands: between words, in a word, in quotes, or behind a backslash (in a word,
-- or in double quotes). It carries the word so far.
pub data Mode : Type 0 where
  between : Mode
  word quoted_once quoted_twice escaped escaped_twice : Str → Mode

abbrev pub is_blank : ℕ → Bool
is_blank c = eqb c 32 || eqb c 9 || eqb c 13 || eqb c 10

abbrev start_or_go : Str → ℕ → Mode
start_or_go w c =
    if eqb c b'\''
    then quoted_once w
    else if eqb c b'"'
    then quoted_twice w
    else if eqb c b'\\'
    then escaped w
    else word (w ++ (c ∷ []))

-- One more character: the new mode, and the word that it ends.
unfoldable pub shell_step : Mode → ℕ → Option Str × Mode
shell_step between c = (none, if is_blank c then between else start_or_go [] c)
shell_step (word w) c = if is_blank c then (some w, between) else (none, start_or_go w c)
shell_step (quoted_once w) c = (none, if eqb c b'\'' then word w else quoted_once (w ++ (c ∷ [])))
shell_step (quoted_twice w) c = (
  none,
  if eqb c b'"'
      then word w
      else if eqb c b'\\'
      then escaped_twice w
      else quoted_twice (w ++ (c ∷ [])),
)
shell_step (escaped w) c = (none, word (w ++ (c ∷ [])))
shell_step (escaped_twice w) c =
    (none, quoted_twice (w ++ (if eqb c b'"' || eqb c b'\\' then c ∷ [] else b'\\' ∷ c ∷ [])))

-- The text must not end in quotes or behind a backslash.
abbrev at_end : Mode → Option (List Str)
at_end between = some []
at_end (word w) = some (w ∷ [])
at_end _ = none

abbrev with_word : Option Str → Option (List Str) → Option (List Str)
with_word none rest = rest
with_word (some w) rest = Option.map (λ ws. w ∷ ws) rest

unfoldable pub shell_from : Mode → Str → Option (List Str)
unfolding shell_step
shell_from m [] = at_end m
shell_from m (c ∷ s) = let next = shell_step m c in with_word next.0 (shell_from next.1 s)

-- `none` is the `ValueError`.
abbrev pub shell_split : Str → Option (List Str)
shell_split s = shell_from between s
