-- ===== src/Modules/IssueTracker/Mock.antt =====
-- The state of `MockIssueTrackerDriver`, and the operations that change it. The clock's readings
-- are arguments.
use jetty.Prelude.{
  ℕ, ◌+◌, ◌-◌, max, not, Bool, true, false, Option, none, some, List, [], ◌∷◌, ◌++◌, ◌==◌, ◌&&◌,
  ◌||◌, eqb, any, contains, ltb, length, nonempty, nat_eq, if◌then◌else◌,
}
use jetty.Prelude.Dict.{Dict, get, get_or, has, put}
use jetty.Prelude.Text.{Str, str_eq}
use jetty.Modules.IssueTracker.{
  id, item_eq, Issue, IssueCreate, IssueModify, Comment, Change, IssueUpdate, Relationship,
}
use jetty.Modules.IssueTracker.Fields.{Edit, apply_sets, apply_deltas, then_edit, remove_first}

pub record Tracker : Type 0 where
  pub identity : Str
  pub next_id : ℕ
  pub components : List ℕ
  pub issues : Dict ℕ Issue
  pub comments : Dict ℕ (List Comment)
  pub updates : Dict ℕ (List IssueUpdate)
  pub relationships : Dict ℕ (List Relationship)

-- `DriverRejects`, by its reasons.
pub data Rejection : Type 0 where
  no_component : ℕ → Rejection
  bad_field : Str → Rejection
  no_target : ℕ → Rejection
  related_already : Rejection
  no_issue : ℕ → Rejection

-- `key_error` is the `KeyError` of an issue whose comments or updates are missing.
pub data Reply (A : Type 0) : Type 0 where
  done : A → Reply A
  rejected : Rejection → Reply A
  key_error : Reply A

-- `_insert`
unfoldable pub insert_issue : ℕ → IssueCreate → Str → Tracker → Issue × Tracker
insert_issue now req reporter t =
    let issue : Issue = record {
      issue_id = t.next_id;
      component_id = req.component_id;
      title = req.title;
      type = req.type;
      status = req.status;
      priority = req.priority;
      severity = req.severity;
      reporter = reporter;
      assignee = req.assignee;
      verifier = [];
      ccs = [];
      hotlist_ids = [];
      blocked_by = [];
      blocking = [];
      created = now;
      modified = now;
      description = req.description;
    } in
    let first : Comment = record {
      issue_id = t.next_id;
      number = 1;
      text = req.description;
      author = reporter;
    } in
    (
      issue,
      record t {
        next_id = t.next_id + 1;
        issues = put t.issues t.next_id issue;
        comments = put t.comments t.next_id (first ∷ []);
        updates = put t.updates t.next_id [];
      },
    )

-- `_touch`
abbrev pub touch : ℕ → Issue → Issue
touch now i = record i { modified = max now (i.modified + 1) }

abbrev pub store : ℕ → Issue → Tracker → Tracker
store issue_id i t = record t { issues = put t.issues issue_id i }

unfoldable pub create_issue : ℕ → IssueCreate → Tracker → Reply Issue × Tracker
create_issue now req t =
    if contains t.components req.component_id
    then (let made = insert_issue now req t.identity t in (done made.0, made.1))
    else (rejected (no_component req.component_id), t)

unfoldable pub create_comment : ℕ → ℕ → Str → Tracker → Reply (Option Comment) × Tracker
create_comment now issue_id text t = elim (get t.issues issue_id) [
  | none ↦ (done none, t)
  | some i ↦ elim (get t.comments issue_id) [
    | none ↦ (key_error, t)
    | some rows ↦
        let comment : Comment = record {
          issue_id = issue_id;
          number = length rows + 1;
          text = text;
          author = t.identity;
        } in
        (
          done (some comment),
          record t {
            comments = put t.comments issue_id (rows ++ (comment ∷ []));
            issues = put t.issues issue_id (touch now i);
          },
        )
  ]
]

-- The edits of `modify_issue`, before its comment.
unfoldable pub edit_issue : IssueModify → Issue → Edit
edit_issue req i =
    then_edit (then_edit (apply_sets req.sets i) (apply_deltas false req.add))
      (apply_deltas true req.remove)

-- What is left once the edits and the comment are made: the history and the time.
unfoldable pub note_update : ℕ → ℕ → List Change → ℕ → Tracker → Reply (Option Issue) × Tracker
note_update now issue_id changes comment_number t = elim (get t.issues issue_id) [
  | none ↦ (key_error, t)
  | some i ↦
      if nonempty changes || ltb 0 comment_number
      then elim (get t.updates issue_id) [
        | none ↦ (key_error, store issue_id (touch now i) t)
        | some history ↦
            let update : IssueUpdate = record {
              author = t.identity;
              timestamp = (touch now i).modified;
              changes = changes;
              comment_number = comment_number;
            } in
            (
              done (some (touch now i)),
              record (store issue_id (touch now i) t) {
                updates = put t.updates issue_id (history ++ (update ∷ []));
              },
            )
      ]
      else (done (some i), t)
]

abbrev number_of : Reply (Option Comment) → Reply ℕ
number_of (done (some comment)) = done comment.number
number_of (done none) = key_error
number_of (rejected r) = rejected r
number_of key_error = key_error

-- `if req.comment is not None`: the number of the comment, 0 for none.
unfoldable pub add_comment : ℕ → ℕ → Option Str → Tracker → Reply ℕ × Tracker
add_comment now issue_id none t = (done 0, t)
add_comment now issue_id (some text) t =
    let made = create_comment now issue_id text t in (number_of made.0, made.1)

unfoldable pub conclude : ℕ → ℕ → List Change → Reply ℕ → Tracker → Reply (Option Issue) × Tracker
conclude now issue_id changes (done number) t = note_update now issue_id changes number t
conclude now issue_id changes (rejected r) t = (rejected r, t)
conclude now issue_id changes key_error t = (key_error, t)

-- From `comment_number = 0` on, if no field was rejected.
unfoldable pub finish :
    ℕ → ℕ → ℕ → IssueModify → Edit → Option Str → Tracker → Reply (Option Issue) × Tracker
finish now now' issue_id req e (some field) t = (rejected (bad_field field), t)
finish now now' issue_id req e none t =
    let commented = add_comment now issue_id req.comment t in
    conclude now' issue_id e.changes commented.0 commented.1

-- `modify_issue`: the clock is read for the comment and again for the update.
unfoldable pub modify_issue : ℕ → ℕ → ℕ → IssueModify → Tracker → Reply (Option Issue) × Tracker
modify_issue now now' issue_id req t = elim (get t.issues issue_id) [
  | none ↦ (done none, t)
  | some i ↦
      let e = edit_issue req i in
      finish now now' issue_id req e e.rejected (store issue_id e.issue t)
]

-- `rows[number - 1].text = text`, for a number from 1 on; `none` out of range.
unfoldable pub set_text : ℕ → Str → List Comment → Option (List Comment × Comment)
set_text n text [] = none
set_text n text (c ∷ rows) =
    let changed = record c { text = text } in
    if eqb n 1 then some (changed ∷ rows, changed) else elim (set_text (n - 1) text rows) [
      | none ↦ none
      | some (rows', found) ↦ some (c ∷ rows', found)
    ]

unfoldable pub update_comment : ℕ → ℕ → ℕ → Str → Tracker → Option Comment × Tracker
update_comment now issue_id number text t = elim (get t.issues issue_id) [
  | none ↦ (none, t)
  | some i ↦ elim (set_text number text (get_or t.comments issue_id [])) [
    | none ↦ (none, t)
    | some (rows, comment) ↦
        let described = if eqb number 1 then record i { description = text } else i in
        (
          some comment,
          record t {
            comments = put t.comments issue_id rows;
            issues = put t.issues issue_id (touch now described);
          },
        )
  ]
]

unfoldable pub create_relationship :
    ℕ → ℕ → Relationship → Tracker → Reply (Option Relationship) × Tracker
create_relationship now issue_id rel t = elim (get t.issues issue_id) [
  | none ↦ (done none, t)
  | some i ↦
      let rows = get_or t.relationships issue_id [] in
      let known =
        any
          (λ (r : Relationship). eqb r.target_issue_id rel.target_issue_id && (r.type == rel.type))
          rows in
      if not (has t.issues rel.target_issue_id)
      then (rejected (no_target rel.target_issue_id), t)
      else if known
      then (
        rejected related_already,
        record t { relationships = put t.relationships issue_id rows },
      )
      else (
        done (some rel),
        record t {
          relationships = put t.relationships issue_id (rows ++ (rel ∷ []));
          issues = put t.issues issue_id (touch now i);
        },
      )
]

unfoldable pub create_hotlist_entry : ℕ → ℕ → ℕ → Tracker → Reply Unit × Tracker
create_hotlist_entry now hotlist_id issue_id t = elim (get t.issues issue_id) [
  | none ↦ (rejected (no_issue issue_id), t)
  | some i ↦ if contains i.hotlist_ids (id hotlist_id) then (done tt, t) else (
    done tt,
    store issue_id (touch now (record i { hotlist_ids = i.hotlist_ids ++ (id hotlist_id ∷ []) })) t,
  )
]

unfoldable pub delete_hotlist_entry : ℕ → ℕ → ℕ → Tracker → Bool × Tracker
delete_hotlist_entry now hotlist_id issue_id t = elim (get t.issues issue_id) [
  | none ↦ (false, t)
  | some i ↦
      if contains i.hotlist_ids (id hotlist_id)
      then (
        true,
        store issue_id
            (touch now (record i { hotlist_ids = remove_first i.hotlist_ids (id hotlist_id) })) t,
      )
      else (false, t)
]
