-- ===== src/Modules/IssueTracker/Partial.antt =====
-- A modification that is rejected may have been made in part.
use jetty.Prelude.{ℕ, true, false, none, some, [], ◌∷◌, ◌==◌, ◌≡◌, refl, ap, ◌∙◌, nat_eq, if_false}
use jetty.Prelude.Dict.{get}
use jetty.Prelude.Text.{Str, str_eq}
use jetty.Modules.IssueTracker.{Issue, IssueModify, set_to}
use jetty.Modules.IssueTracker.Fields.{
  Scalar, scalar_of, get_scalar, set_scalar, Edit, noted, apply_sets, apply_deltas, proceed,
  then_edit,
}
use jetty.Modules.IssueTracker.Mock.{
  Tracker, rejected, bad_field, store, edit_issue, finish, modify_issue,
}

module _ (field bad value other : Str) (attr : Scalar) (i : Issue)
    (known : scalar_of field ≡ some attr) (unknown : scalar_of bad ≡ none)
    (new : (get_scalar attr i == value) ≡ false) where
  abbrev partly : Edit
  partly = record {
    issue = set_scalar attr value i;
    changes = set_to field (get_scalar attr i) value ∷ [];
    rejected = some bad;
  }

  apply_sets-partial : apply_sets ((field, value) ∷ (bad, other) ∷ []) i ≡ partly
  unfolding apply_sets
  apply_sets-partial =
      let stopped : apply_sets ((bad, other) ∷ []) (set_scalar attr value i)
          ≡ record { issue = set_scalar attr value i; changes = []; rejected = some bad } =
        rw (unknown, apply_sets) refl in
      rw (known, apply_sets) (if_false _ _ new)
      ∙ ap (noted (set_to field (get_scalar attr i) value)) stopped

  edit_issue-partial :
      (req : IssueModify)
      → edit_issue (record req { sets = (field, value) ∷ (bad, other) ∷ [] }) i ≡ partly
  unfolding edit_issue proceed
  edit_issue-partial req =
      ap (λ e. then_edit (then_edit e (apply_deltas false req.add)) (apply_deltas true req.remove))
        apply_sets-partial

  -- A modification that sets a field to a new value and then names a field that cannot be set is
  -- rejected, but the issue keeps the new value, with the time and the history that it had.
  pub modify_issue-partial :
      (now now' issue_id : ℕ) (req : IssueModify) (t : Tracker)
      → get t.issues issue_id ≡ some i
      → modify_issue now now' issue_id (record req { sets = (field, value) ∷ (bad, other) ∷ [] }) t
        ≡ (rejected (bad_field bad), store issue_id (set_scalar attr value i) t)
  unfolding modify_issue finish
  modify_issue-partial now now' issue_id req t g =
      rw (g, modify_issue)
        (ap
          (λ (e : Edit).
            finish now now' issue_id (record req { sets = (field, value) ∷ (bad, other) ∷ [] }) e
              e.rejected (store issue_id e.issue t))
          (edit_issue-partial req))
