-- ===== src/Modules/Paging/Tests.antt =====
-- A client's walk through three rows.
use jetty.Prelude.{ℕ, List, [], ◌∷◌, ◌≡◌, some, refl}
use jetty.Prelude.Text.Decimal.{digits, py_int, signed, plain_digits}
use jetty.Prelude.Text.Space.{strip, lstrip}
use jetty.Prelude.Text.{int_from}
use jetty.Modules.Paging.{paginate, read_token}
use jetty.Modules.Paging.Walk.{walk, Walked, walk-paginate}

abbrev three : List ℕ
three = 1 ∷ 2 ∷ 3 ∷ []

walk-three : walk 3 three 2 [] ≡ some ((1 ∷ 2 ∷ []) ∷ (3 ∷ []) ∷ [])
unfolding walk paginate read_token digits py_int signed plain_digits strip lstrip int_from
walk-three = refl

walk-paginate_example : Walked (walk 4 three 2 []) three 2
walk-paginate_example = walk-paginate three 2
