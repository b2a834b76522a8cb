-- ===== src/Modules/IssueTracker/Tests.antt =====
-- A tracker with one issue, and the theorems at concrete inputs.
use jetty.Prelude.{
  true, false, none, some, List, [], ◌∷◌, ◌≡◌, refl, ◌==◌, nat_eq, sorted, insert_sorted,
}
use jetty.Prelude.Dict.{get, put}
use jetty.Prelude.Text.{Str, str_eq, codes, partition, starts_with}
use jetty.Prelude.Text.Case.{lower, upper, has_part}
use jetty.Prelude.Text.Decimal.{digits}
use jetty.Modules.Paging.{Page, paginate, read_token}
use jetty.Modules.IssueTracker.{id, item_eq, Issue, IssueCreate, IssueModify}
use jetty.Modules.IssueTracker.Fields.{
  status, scalar_of, get_scalar, set_scalar, collection_of, get_items, set_items, apply_sets,
  apply_deltas, edit_items, proceed,
}
use jetty.Modules.IssueTracker.Mock.{
  Tracker, done, rejected, bad_field, store, insert_issue, edit_issue, create_comment, note_update,
  add_comment, conclude, finish, modify_issue,
}
use jetty.Modules.IssueTracker.History.{Outcome, modify_issue-Outcome}
use jetty.Modules.IssueTracker.Partial.{modify_issue-partial}
use jetty.Modules.IssueTracker.Query.{
  priority, match_status, match_assignee, match_priority, match_term, match_terms, matching, key_le,
  order_le, sort_rows, list_issues,
}
use jetty.Modules.IssueTracker.Query.Order.{Listed, list_issues-Listed}

abbrev empty : Tracker
empty = record {
  identity = codes "jetty";
  next_id = 1001;
  components = 7 ∷ [];
  issues = [];
  comments = [];
  updates = [];
  relationships = [];
}

abbrev request : IssueCreate
request = record {
  component_id = 7;
  title = codes "Disk full";
  status = codes "NEW";
  type = codes "BUG";
  priority = codes "P1";
  severity = codes "S2";
  description = [];
  assignee = codes "ann@x";
}

abbrev tracker : Tracker
tracker = (insert_issue 50 request (codes "jetty") empty).1

abbrev issue : Issue
issue = (insert_issue 50 request (codes "jetty") empty).0

abbrev fix : IssueModify
fix = record {
  sets = (codes "status", codes "FIXED") ∷ [];
  add = (codes "hotlistIds", id 3 ∷ []) ∷ [];
  remove = [];
  comment = some (codes "done");
}

issue_there : get tracker.issues 1001 ≡ some issue
unfolding insert_issue put get nat_eq
issue_there = refl

abbrev fixed : Issue
fixed = record issue { status = codes "FIXED"; hotlist_ids = id 3 ∷ []; modified = 71 }

modify_issue-fix : (modify_issue 60 71 1001 fix tracker).0 ≡ done (some fixed)
unfolding modify_issue edit_issue finish conclude add_comment create_comment note_update
    insert_issue apply_sets apply_deltas edit_items proceed scalar_of get_scalar set_scalar
    collection_of get_items set_items put get nat_eq str_eq item_eq
modify_issue-fix = refl

modify_issue-Outcome_example :
    Outcome 1001 fix issue tracker (modify_issue 60 71 1001 fix tracker).1 fixed
modify_issue-Outcome_example =
    modify_issue-Outcome 60 71 1001 fix tracker issue fixed issue_there modify_issue-fix

status_known : scalar_of (codes "status") ≡ some status
unfolding scalar_of str_eq
status_known = refl

owner_unknown : scalar_of (codes "owner") ≡ none
unfolding scalar_of str_eq
owner_unknown = refl

status_new : (get_scalar status issue == codes "FIXED") ≡ false
unfolding get_scalar insert_issue str_eq
status_new = refl

modify_issue-partial_example :
    modify_issue 60 71 1001
      (record fix { sets = (codes "status", codes "FIXED") ∷ (codes "owner", codes "bob") ∷ [] })
      tracker
    ≡ (
      rejected (bad_field (codes "owner")),
      store 1001 (set_scalar status (codes "FIXED") issue) tracker,
    )
modify_issue-partial_example =
    modify_issue-partial (codes "status") (codes "owner") (codes "FIXED") (codes "bob") status issue
      status_known owner_unknown status_new 60 71 1001 fix tracker issue_there

abbrev page : Page
page = record { size = 10; token = [] }

abbrev terms : List Str
terms = codes "disk" ∷ codes "status:open" ∷ codes "assignee:ann" ∷ []

list_issues-open :
    list_issues terms ((priority, true) ∷ []) page tracker.issues ≡ some (issue ∷ [], [], 1)
unfolding list_issues matching match_terms match_term match_status match_assignee match_priority
    insert_issue sort_rows order_le key_le sorted insert_sorted paginate read_token partition lower
    upper has_part starts_with digits str_eq put nat_eq
list_issues-open = refl

list_issues-Listed_example :
    Listed terms ((priority, true) ∷ []) page tracker.issues (issue ∷ []) [] 1
list_issues-Listed_example =
    list_issues-Listed terms ((priority, true) ∷ []) page tracker.issues list_issues-open
