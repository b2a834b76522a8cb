-- ===== src/Prelude/Text/Space.antt =====
-- Python's `strip`, `splitlines` and `split` at white space.
use Prim.Native.Nat.{ℕ}
use mathlib.Core.Bool.{Bool, ◌&&◌, ◌||◌}
use mathlib.Core.Option.{Option, none, some}
use mathlib.Core.List.{List, [], ◌∷◌, ◌++◌, reverse}
use jetty.Prelude.Tests.{if◌then◌else◌, leb, eqb}
use jetty.Prelude.Text.{Str, starts_with}

-- `c.isspace()`
abbrev pub is_space : ℕ → Bool
is_space c =
    (leb 9 c && leb c 13)
    || (leb 28 c && leb c 32)
    || eqb c 133
    || eqb c 160
    || eqb c 5760
    || (leb 8192 c && leb c 8202)
    || eqb c 8232
    || eqb c 8233
    || eqb c 8239
    || eqb c 8287
    || eqb c 12288

-- What `splitlines` cuts at.
abbrev pub is_break : ℕ → Bool
is_break c =
    (leb 10 c && leb c 13) || (leb 28 c && leb c 30) || eqb c 133 || eqb c 8232 || eqb c 8233

unfoldable pub lstrip : Str → Str
lstrip [] = []
lstrip (c ∷ s) = let rest = lstrip s in if is_space c then rest else c ∷ s

unfoldable pub strip : Str → Str
strip s = reverse (lstrip (reverse (lstrip s)))

abbrev pub onto_line : ℕ → List Str → List Str
onto_line c [] = (c ∷ []) ∷ []
onto_line c (line ∷ lines) = (c ∷ line) ∷ lines

-- A carriage return with a line feed is one cut.
unfoldable pub splitlines : Str → List Str
splitlines [] = []
splitlines (c ∷ s) =
    let rest = splitlines s in
    if eqb c 13 && starts_with s (10 ∷ [])
    then rest
    else if is_break c
    then [] ∷ rest
    else onto_line c rest

-- `s.split()`: the words, with no empty one. A word that has begun is carried along.
unfoldable pub words_from : Option Str → Str → List Str
words_from none [] = []
words_from (some word) [] = word ∷ []
words_from none (c ∷ s) = words_from (if is_space c then none else some (c ∷ [])) s
words_from (some word) (c ∷ s) =
    let ends = words_from none s in
    let goes_on = words_from (some (word ++ (c ∷ []))) s in
    if is_space c then word ∷ ends else goes_on

abbrev pub words : Str → List Str
words s = words_from none s
