-- ===== src/Orchestrator/Console/Tests.antt =====
-- A line that comes in two chunks, and the theorem at this input.
use jetty.Prelude.{[], ◌∷◌, ◌++◌, ◌≡◌, some, refl}
use jetty.Prelude.Text.{Str, codes}
use jetty.Orchestrator.Console.{Bytes, split, pop, rstrip, new_buffer, feed, flush, lines_of}
use jetty.Orchestrator.Console.Chunks.{whole, lines_of-whole}

-- A codec for the tests: each byte is a code point.
abbrev latin : Bytes → Str
latin line = line

lines_of-chunks :
    lines_of latin new_buffer (codes "ab" ∷ (codes "c" ++ (13 ∷ 10 ∷ codes "de")) ∷ [])
    ≡ (codes "abc" ∷ [], some (codes "de"))
unfolding lines_of feed flush split pop rstrip
lines_of-chunks = refl

lines_of-whole_example :
    lines_of latin new_buffer (codes "ab" ∷ (codes "c" ++ (13 ∷ 10 ∷ codes "de")) ∷ [])
    ≡ lines_of latin new_buffer
        (whole (codes "ab" ∷ (codes "c" ++ (13 ∷ 10 ∷ codes "de")) ∷ []) ∷ [])
lines_of-whole_example =
    lines_of-whole latin new_buffer (codes "ab") ((codes "c" ++ (13 ∷ 10 ∷ codes "de")) ∷ [])
