-- ===== src/Modules/IssueTracker/Fields.antt =====
-- `_SCALAR_FIELDS`, `_COLLECTION_FIELDS`, and the edits that `modify_issue` makes to an issue.
pub mod Replay
use jetty.Prelude.{
  ℕ, Bool, true, false, not, Option, none, some, List, [], ◌∷◌, ◌++◌, ◌==◌, contains, if◌then◌else◌,
}
use jetty.Prelude.Dict.{Dict}
use jetty.Prelude.Text.{Str, str_eq, codes}
use jetty.Modules.IssueTracker.{Item, item_eq, Issue, Change, set_to, added, removed}

pub data Scalar : Type 0 where
  status priority severity title type assignee verifier : Scalar

unfoldable pub scalar_of : Str → Option Scalar
scalar_of name =
    if name == codes "status"
    then some status
    else if name == codes "priority"
    then some priority
    else if name == codes "severity"
    then some severity
    else if name == codes "title"
    then some title
    else if name == codes "type"
    then some type
    else if name == codes "assignee"
    then some assignee
    else if name == codes "verifier"
    then some verifier
    else none

-- `getattr`, `setattr` on a scalar field.
unfoldable pub get_scalar : Scalar → Issue → Str
get_scalar status i = i.status
get_scalar priority i = i.priority
get_scalar severity i = i.severity
get_scalar title i = i.title
get_scalar type i = i.type
get_scalar assignee i = i.assignee
get_scalar verifier i = i.verifier

unfoldable pub set_scalar : Scalar → Str → Issue → Issue
set_scalar status v i = record i { status = v }
set_scalar priority v i = record i { priority = v }
set_scalar severity v i = record i { severity = v }
set_scalar title v i = record i { title = v }
set_scalar type v i = record i { type = v }
set_scalar assignee v i = record i { assignee = v }
set_scalar verifier v i = record i { verifier = v }

pub data Collection : Type 0 where
  ccs hotlist_ids blocked_by : Collection

unfoldable pub collection_of : Str → Option Collection
collection_of name =
    if name == codes "ccs"
    then some ccs
    else if name == codes "hotlistIds"
    then some hotlist_ids
    else if name == codes "blockedByIssueIds"
    then some blocked_by
    else none

unfoldable pub get_items : Collection → Issue → List Item
get_items ccs i = i.ccs
get_items hotlist_ids i = i.hotlist_ids
get_items blocked_by i = i.blocked_by

unfoldable pub set_items : Collection → List Item → Issue → Issue
set_items ccs l i = record i { ccs = l }
set_items hotlist_ids l i = record i { hotlist_ids = l }
set_items blocked_by l i = record i { blocked_by = l }

-- `current.remove(value)`: the first one.
unfoldable pub remove_first : List Item → Item → List Item
remove_first [] a = []
remove_first (x ∷ xs) a = let rest = remove_first xs a in if a == x then xs else x ∷ rest

-- The issue after some edits, what changed, and the field that was rejected, if one was. An edit
-- that was made before a field is rejected stays.
pub record Edit : Type 0 where
  pub issue : Issue
  pub changes : List Change
  pub rejected : Option Str

abbrev pub noted : Change → Edit → Edit
noted c e = record e { changes = c ∷ e.changes }

-- The loop over `req.sets`.
unfoldable pub apply_sets : Dict Str Str → Issue → Edit
apply_sets [] i = record { issue = i; changes = []; rejected = none }
apply_sets ((field, value) ∷ sets) i = elim (scalar_of field) [
  | none ↦ record { issue = i; changes = []; rejected = some field }
  | some attr ↦
      let same = apply_sets sets i in
      let changed =
        noted (set_to field (get_scalar attr i) value)
          (apply_sets sets (set_scalar attr value i)) in
      if get_scalar attr i == value then same else changed
]

-- The loop over the values of one collection.
unfoldable pub edit_items : Bool → Str → Collection → List Item → Issue → Issue × List Change
edit_items removing field attr [] i = (i, [])
edit_items true field attr (v ∷ values) i =
    let same = edit_items true field attr values i in
    let rest =
      edit_items true field attr values (set_items attr (remove_first (get_items attr i) v) i) in
    if contains (get_items attr i) v then (rest.0, removed field v ∷ rest.1) else same
edit_items false field attr (v ∷ values) i =
    let same = edit_items false field attr values i in
    let rest =
      edit_items false field attr values (set_items attr (get_items attr i ++ (v ∷ [])) i) in
    if not (contains (get_items attr i) v) then (rest.0, added field v ∷ rest.1) else same

-- The loop over `deltas`.
unfoldable pub apply_deltas : Bool → Dict Str (List Item) → Issue → Edit
apply_deltas removing [] i = record { issue = i; changes = []; rejected = none }
apply_deltas removing ((field, values) ∷ deltas) i = elim (collection_of field) [
  | none ↦ record { issue = i; changes = []; rejected = some field }
  | some attr ↦
      let edited = edit_items removing field attr values i in
      let rest = apply_deltas removing deltas edited.0 in
      record rest { changes = edited.1 ++ rest.changes }
]

-- One loop after another: the second runs if the first rejects nothing.
unfoldable pub proceed : Option Str → Edit → (Issue → Edit) → Edit
proceed (some field) e f = e
proceed none e f = let next = f e.issue in record next { changes = e.changes ++ next.changes }

abbrev pub then_edit : Edit → (Issue → Edit) → Edit
then_edit e f = proceed e.rejected e f
