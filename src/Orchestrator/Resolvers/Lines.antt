-- ===== src/Orchestrator/Resolvers/Lines.antt =====
-- The lines of a resolver's output.
use jetty.Prelude.{not, List, ◌∷◌, [], ◌&&◌, keep, nonempty, map}
use jetty.Prelude.Text.{Str, starts_with}
use jetty.Prelude.Text.Space.{lstrip, strip, splitlines}

-- `lines`: stripped, without blank lines and comments.
unfoldable pub output_lines : Str → List Str
output_lines stdout =
    map strip
      (keep (λ l. nonempty (strip l) && not (starts_with (lstrip l) (35 ∷ []))) (splitlines stdout))
