-- ===== src/Prelude/Text/Case.antt =====
-- `lower`, `upper` and `in` on texts in ASCII.
use Prim.Native.Nat.{ℕ, ◌+◌, ◌-◌}
use mathlib.Core.Bool.{Bool, ◌&&◌, ◌||◌}
use mathlib.Core.List.{[], ◌∷◌, map}
use jetty.Prelude.Tests.{if◌then◌else◌, leb}
use jetty.Prelude.Text.{Str, starts_with}

abbrev pub lower_char : ℕ → ℕ
lower_char c = if leb b'A' c && leb c b'Z' then c + 32 else c

abbrev pub upper_char : ℕ → ℕ
upper_char c = if leb b'a' c && leb c b'z' then c - 32 else c

unfoldable pub lower : Str → Str
lower s = map lower_char s

unfoldable pub upper : Str → Str
upper s = map upper_char s

-- `part in s`
unfoldable pub has_part : Str → Str → Bool
has_part [] part = starts_with [] part
has_part (c ∷ s) part = starts_with (c ∷ s) part || has_part s part
