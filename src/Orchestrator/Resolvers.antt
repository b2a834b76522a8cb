-- ===== src/Orchestrator/Resolvers.antt =====
-- resolvers.py: `parse_output`, which reads what the script of a resolver prints.
pub mod Lines
pub mod Named
mod Tests
use jetty.Prelude.{
  ℕ, Bool, true, false, not, Option, none, some, List, [], ◌∷◌, ◌==◌, ◌&&◌, ◌||◌, keep, contains,
  nonempty, if◌then◌else◌,
}
use jetty.Prelude.Dict.{Dict, has, put}
use jetty.Prelude.Text.{Str, str_eq, partition}
use jetty.Prelude.Text.Space.{strip}
use jetty.Orchestrator.Resolvers.Lines.{output_lines}

-- The reasons of `ResolveError` that `parse_output` gives.
pub data ResolveError : Type 0 where
  unparseable : (line : Str) → ResolveError
  unknown_name : (key : Str) → ResolveError
  twice : (key : Str) → ResolveError
  missing : (names : List Str) → ResolveError

pub data Parsed : Type 0 where
  returned : Dict Str Str → Parsed
  raised : ResolveError → Parsed

abbrev pub key_of : Str → Str
key_of line = strip (partition b'=' line).before

abbrev pub value_of : Str → Str
value_of line = strip (partition b'=' line).after

-- `not sep or not key or not value`
unfoldable pub malformed : Str → Bool
malformed line = not (partition b'=' line).found || (key_of line == [] || value_of line == [])

-- `for line in lines`
unfoldable pub read_lines : List Str → Dict Str Str → List Str → Parsed
read_lines provides out [] = returned out
read_lines provides out (line ∷ lines) =
    let rest = read_lines provides (put out (key_of line) (value_of line)) lines in
    if malformed line
    then raised (unparseable line)
    else if not (contains provides (key_of line))
    then raised (unknown_name (key_of line))
    else if has out (key_of line)
    then raised (twice (key_of line))
    else rest

abbrev pub missing_of : List Str → Dict Str Str → List Str
missing_of provides out = keep (λ p. not (has out p)) provides

-- From `missing` on.
unfoldable pub check_missing : List Str → Parsed → Parsed
check_missing provides (raised e) = raised e
check_missing provides (returned out) =
    if nonempty (missing_of provides out)
    then raised (missing (missing_of provides out))
    else returned out

unfoldable pub read_all : List Str → List Str → Parsed
read_all provides lines = check_missing provides (read_lines provides [] lines)

-- The form with just a path, for one name and one line without "=".
unfoldable pub parse_lines : List Str → List Str → Parsed
parse_lines (name ∷ []) (line ∷ []) =
    if not (partition b'=' line).found
    then returned ((name, line) ∷ [])
    else read_all (name ∷ []) (line ∷ [])
parse_lines provides lines = read_all provides lines

unfoldable pub parse_output : List Str → Str → Parsed
parse_output provides stdout = parse_lines provides (output_lines stdout)
