-- ===== src/Modules/IssueTracker/Query.antt =====
-- `_match` and `list_issues`: the query language of the mock driver, and its orders.
pub mod Order
use jetty.Prelude.{
  ℕ, ◌+◌, Bool, true, false, not, Option, none, some, List, [], ◌∷◌, ◌++◌, ◌==◌, ◌&&◌, ◌||◌, leb,
  contains, length, sorted, if◌then◌else◌,
}
use jetty.Prelude.Dict.{Dict, values}
use jetty.Prelude.Text.{Str, str_eq, str_le, codes, partition}
use jetty.Prelude.Text.Case.{lower, upper, has_part}
use jetty.Prelude.Text.Decimal.{str_of}
use jetty.Prelude.Text.Space.{words}
use jetty.Modules.Paging.{Page, paginate}
use jetty.Modules.IssueTracker.{Issue}

abbrev pub statuses : List Str
statuses =
    codes "NEW"
    ∷ codes "ASSIGNED"
    ∷ codes "ACCEPTED"
    ∷ codes "FIXED"
    ∷ codes "VERIFIED"
    ∷ codes "NOT_REPRODUCIBLE"
    ∷ codes "INTENDED_BEHAVIOR"
    ∷ codes "OBSOLETE"
    ∷ codes "INFEASIBLE"
    ∷ codes "DUPLICATE"
    ∷ codes "INACTIVE"
    ∷ []

abbrev pub open_statuses : List Str
open_statuses = codes "NEW" ∷ codes "ASSIGNED" ∷ codes "ACCEPTED" ∷ []

abbrev pub priorities : List Str
priorities = codes "P0" ∷ codes "P1" ∷ codes "P2" ∷ codes "P3" ∷ codes "P4" ∷ []

-- What `_match` makes of an issue, or of one term: an answer, or `DriverRejects`.
pub data Verdict : Type 0 where
  answer : Bool → Verdict
  unknown_status : Str → Verdict
  unknown_priority : Str → Verdict
  unsupported : Str → Verdict

unfoldable pub match_status : Issue → Str → Verdict
match_status i value =
    if value == codes "open"
    then answer (contains open_statuses i.status)
    else if value == codes "closed"
    then answer (not (contains open_statuses i.status))
    else if contains statuses (upper value)
    then answer (i.status == upper value)
    else unknown_status value

unfoldable pub match_assignee : Issue → Str → Bool
match_assignee i value =
    value == lower i.assignee || value == (partition b'@' (lower i.assignee)).before

unfoldable pub match_priority : Issue → Str → Verdict
match_priority i value =
    if not (contains priorities (upper value))
    then unknown_priority value
    else answer (i.priority == upper value)

-- One term.
unfoldable pub match_term : Issue → Str → Verdict
match_term i term =
    let cut = partition b':' term in
    let field = lower cut.before in
    let value = lower cut.after in
    if not cut.found
    then answer (has_part (lower i.title) (lower term))
    else if field == codes "componentid"
    then answer (str_of i.component_id == value)
    else if field == codes "status"
    then match_status i value
    else if field == codes "assignee"
    then answer (match_assignee i value)
    else if field == codes "p"
    then match_priority i value
    else unsupported cut.before

-- The loop of `_match`: the first term that fails decides, or rejects the query.
unfoldable pub match_terms : Issue → List Str → Verdict
match_terms i [] = answer true
match_terms i (term ∷ terms) = elim (match_term i term) [
  | answer true ↦ match_terms i terms
  | answer false ↦ answer false
  | unknown_status v ↦ unknown_status v
  | unknown_priority v ↦ unknown_priority v
  | unsupported v ↦ unsupported v
]

-- `[i for i in issues if match(i)]`, or the rejection that one of the issues meets.
pub data Rows : Type 0 where
  rows : List Issue → Rows
  rejects : Verdict → Rows

abbrev pub with_row : Issue → Rows → Rows
with_row i (rows l) = rows (i ∷ l)
with_row i (rejects v) = rejects v

unfoldable pub matching : List Str → List Issue → Rows
matching terms [] = rows []
matching terms (i ∷ issues) = elim (match_terms i terms) [
  | answer true ↦ with_row i (matching terms issues)
  | answer false ↦ matching terms issues
  | unknown_status v ↦ rejects (unknown_status v)
  | unknown_priority v ↦ rejects (unknown_priority v)
  | unsupported v ↦ rejects (unsupported v)
]

-- `_SORT_FIELDS`
pub data SortField : Type 0 where
  priority severity created modified assignee : SortField

unfoldable pub key_le : SortField → Issue → Issue → Bool
key_le priority i j = str_le i.priority j.priority
key_le severity i j = str_le i.severity j.severity
key_le created i j = leb i.created j.created
key_le modified i j = leb i.modified j.modified
key_le assignee i j = str_le i.assignee j.assignee

-- An order, or its reverse: a sort in reverse keeps the order of equal rows, too.
unfoldable pub order_le : SortField × Bool → Issue → Issue → Bool
order_le (field, false) i j = key_le field i j
order_le (field, true) i j = key_le field j i

abbrev pub id_le : Issue → Issue → Bool
id_le i j = leb i.issue_id j.issue_id

-- The sorts, from the last field to the first.
unfoldable pub sort_rows : List (SortField × Bool) → List Issue → List Issue
sort_rows [] l = sorted id_le l
sort_rows (key ∷ order_by) l = sorted (order_le key) (sort_rows order_by l)

abbrev pub page_of : List Issue → Page → Option (List Issue × Str × ℕ)
page_of l page = elim (paginate l page) [
  | none ↦ none
  | some (window, next) ↦ some (window, next, length l)
]

-- `list_issues` of the issues, by the words of the query: a page, the next token and the total.
-- `none` stands for `DriverRejects`.
unfoldable pub list_issues :
    List Str → List (SortField × Bool) → Page → Dict ℕ Issue → Option (List Issue × Str × ℕ)
list_issues terms order_by page issues = elim (matching terms (values issues)) [
  | rejects v ↦ none
  | rows l ↦ page_of (sort_rows order_by l) page
]

abbrev pub terms_of : Str → List Str
terms_of query = words query
