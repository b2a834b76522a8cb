-- ===== src/Core/Headers/Tests.antt =====
-- A request with a repeated header, and the theorems at concrete inputs.
use jetty.Prelude.{[], ◌∷◌, ◌≡◌, refl}
use jetty.Prelude.Text.{Str, str_eq, codes}
use jetty.Core.Headers.{
  Json, end, item, string, array, Headers, returned, pair_of, headers_of, entries, from_wire,
  to_wire, sole,
}
use jetty.Core.Headers.Wire.{IsLower, AreNames, from_wire-to_wire}
use jetty.Core.Headers.Sole.{Verdict, sole-Verdict}

-- A lowercasing for the tests: of texts that are lowercase already.
abbrev same : Str → Str
same s = s

same-IsLower : IsLower same
same-IsLower = record { again = λ s. refl; kept = λ s full e. full e }

abbrev pair : Str → Str → Json
pair name value = array (item (string name) (item (string value) end))

abbrev request : Json
request =
    array (item (pair (codes "user") (codes "ann")) (item (pair (codes "user") (codes "bob")) end))

abbrev headers : Headers
headers = record { pairs = (codes "user", codes "ann") ∷ (codes "user", codes "bob") ∷ [] }

from_wire-request : from_wire same request ≡ returned headers
unfolding from_wire entries pair_of headers_of str_eq
from_wire-request = refl

from_wire-to_wire_example :
    AreNames same headers.pairs × (from_wire same (to_wire headers) ≡ returned headers)
from_wire-to_wire_example = from_wire-to_wire same same-IsLower request from_wire-request

sole-Verdict_example : Verdict (codes "user") headers.pairs (sole same headers (codes "user"))
sole-Verdict_example = sole-Verdict same headers (codes "user")
