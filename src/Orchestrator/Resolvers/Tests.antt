-- ===== src/Orchestrator/Resolvers/Tests.antt =====
-- The output of a resolver of two names, and the theorem at this input.
use jetty.Prelude.{List, [], ◌∷◌, ◌++◌, ◌≡◌, refl}
use jetty.Prelude.Dict.{get, put}
use jetty.Prelude.Text.{Str, str_eq, codes, partition, starts_with}
use jetty.Orchestrator.Resolvers.{
  returned, malformed, read_lines, check_missing, read_all, parse_lines, parse_output,
}
use jetty.Prelude.Text.Space.{lstrip, strip, splitlines}
use jetty.Orchestrator.Resolvers.Lines.{output_lines}
use jetty.Orchestrator.Resolvers.Named.{Answer, parse_output-Answer}

abbrev provides : List Str
provides = codes "api" ∷ codes "db" ∷ []

abbrev stdout : Str
stdout =
    codes "# release" ++ (13 ∷ 10 ∷ codes " db = /b ") ++ (10 ∷ 10 ∷ codes "api=/a") ++ (10 ∷ [])

parse_output-release :
    parse_output provides stdout
    ≡ returned ((codes "db", codes "/b") ∷ (codes "api", codes "/a") ∷ [])
unfolding parse_output parse_lines read_all check_missing read_lines malformed output_lines
    splitlines strip lstrip starts_with partition str_eq get put
parse_output-release = refl

parse_output-Answer_example :
    Answer provides
      (output_lines stdout)
      ((codes "db", codes "/b") ∷ (codes "api", codes "/a") ∷ [])
parse_output-Answer_example = parse_output-Answer provides stdout parse_output-release
