-- ===== src/Orchestrator/Console.antt =====
-- console.py: the lines that are put together from the chunks of a stream.
pub mod Chunks
mod Tests
use mathlib.Core.List.{reverse, map}
use jetty.Prelude.{
  ℕ, Bool, true, false, Option, none, some, List, [], ◌∷◌, ◌++◌, eqb, if◌then◌else◌,
}
use jetty.Prelude.Text.{Str}

abbrev pub Bytes : Type 0
Bytes = List ℕ

-- `s.split(c)`, for a separator of one byte.
abbrev pub prepend : ℕ → List Bytes → List Bytes
prepend a [] = (a ∷ []) ∷ []
prepend a (line ∷ lines) = (a ∷ line) ∷ lines

unfoldable pub split : ℕ → Bytes → List Bytes
split c [] = [] ∷ []
split c (a ∷ s) = let rest = split c s in if eqb a c then [] ∷ rest else prepend a rest

-- `lines.pop()`: what is left, and the last one.
unfoldable pub pop : List Bytes → List Bytes × Bytes
pop [] = ([], [])
pop (line ∷ []) = ([], line)
pop (line ∷ next ∷ lines) = let rest = pop (next ∷ lines) in (line ∷ rest.0, rest.1)

abbrev drop_all : ℕ → Str → Str
drop_all c [] = []
drop_all c (a ∷ s) = let rest = drop_all c s in if eqb a c then rest else a ∷ s

-- `s.rstrip(c)`
unfoldable pub rstrip : ℕ → Str → Str
rstrip c s = reverse (drop_all c (reverse s))

pub record LineBuffer : Type 0 where
  pub partial : Bytes

abbrev pub new_buffer : LineBuffer
new_buffer = record { partial = [] }

-- Over `bytes.decode` with replacement.
module _ (decode : Bytes → Str) where
  abbrev pub shown : Bytes → Str
  shown line = rstrip 13 (decode line)

  unfoldable pub feed : LineBuffer → Bytes → List Str × LineBuffer
  feed b chunk =
      let cut = pop (split 10 (b.partial ++ chunk)) in (map shown cut.0, record { partial = cut.1 })

  unfoldable pub flush : LineBuffer → Option Str × LineBuffer
  flush b = elim b.partial [
    | [] ↦ (none, b)
    | a ∷ line ↦ (some (decode (a ∷ line)), record { partial = [] })
  ]

  -- All the lines of a stream that comes in these chunks, with what `flush` gives at its end.
  unfoldable pub lines_of : LineBuffer → List Bytes → List Str × Option Str
  lines_of b [] = ([], (flush b).0)
  lines_of b (chunk ∷ chunks) =
      let fed = feed b chunk in let rest = lines_of fed.1 chunks in (fed.0 ++ rest.0, rest.1)
