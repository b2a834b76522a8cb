-- ===== src/Modules/IssueTracker/Edited.antt =====
-- What the edits of `modify_issue` leave in an issue: the recorded changes lead to it, and its
-- time of modification is not touched.
use jetty.Prelude.{
  true, false, List, [], ◌∷◌, ◌≡◌, refl, ap, sym, ◌∙◌, inl, inr, nat_eq, Option-cases,
}
use jetty.Prelude.Text.{Str}
use jetty.Modules.IssueTracker.{Issue, IssueModify, Change, set_to, added, removed}
use jetty.Modules.IssueTracker.Fields.{
  Scalar, status, priority, severity, title, type, assignee, verifier, scalar_of, set_scalar, ccs,
  hotlist_ids, blocked_by, collection_of, set_items, apply_sets, apply_deltas, then_edit,
}
use jetty.Modules.IssueTracker.Fields.Replay.{
  Leads, replay, replay_change, EditLeads, apply_sets-Leads, apply_deltas-Leads, then_edit-Leads,
}
use jetty.Modules.IssueTracker.Mock.{edit_issue}

pub edit_issue-Leads : (req : IssueModify) (i : Issue) → EditLeads i (edit_issue req i)
unfolding edit_issue
edit_issue-Leads req i =
    then_edit-Leads i (then_edit (apply_sets req.sets i) (apply_deltas false req.add))
      (apply_deltas true req.remove)
      (then_edit-Leads i (apply_sets req.sets i) (apply_deltas false req.add)
        (apply_sets-Leads req.sets i) (apply_deltas-Leads false req.add))
      (apply_deltas-Leads true req.remove)

-- No change touches the time.
modified-set_scalar :
    (attr : Scalar) (v : Str) (i : Issue) → (set_scalar attr v i).modified ≡ i.modified
unfolding set_scalar
modified-set_scalar status v i = refl
modified-set_scalar priority v i = refl
modified-set_scalar severity v i = refl
modified-set_scalar title v i = refl
modified-set_scalar type v i = refl
modified-set_scalar assignee v i = refl
modified-set_scalar verifier v i = refl

modified-replay_change : (c : Change) (i : Issue) → (replay_change c i).modified ≡ i.modified
unfolding replay_change set_items
modified-replay_change (set_to field old new) i = elim (Option-cases (scalar_of field)) [
  | inl e ↦ rw (e, replay_change) refl
  | inr (attr, e) ↦ rw (e, replay_change) (modified-set_scalar attr new i)
]
modified-replay_change (added field v) i = elim (Option-cases (collection_of field)) [
  | inl e ↦ rw (e, replay_change) refl
  | inr (ccs, e) ↦ rw (e, replay_change) refl
  | inr (hotlist_ids, e) ↦ rw (e, replay_change) refl
  | inr (blocked_by, e) ↦ rw (e, replay_change) refl
]
modified-replay_change (removed field v) i = elim (Option-cases (collection_of field)) [
  | inl e ↦ rw (e, replay_change) refl
  | inr (ccs, e) ↦ rw (e, replay_change) refl
  | inr (hotlist_ids, e) ↦ rw (e, replay_change) refl
  | inr (blocked_by, e) ↦ rw (e, replay_change) refl
]

modified-replay : (cs : List Change) (i : Issue) → (replay cs i).modified ≡ i.modified
modified-replay [] i = refl
modified-replay (c ∷ cs) i = modified-replay cs (replay_change c i) ∙ modified-replay_change c i

pub modified-Leads : {cs : List Change} {i j : Issue} → Leads cs i j → j.modified ≡ i.modified
modified-Leads {cs} {i} l = sym (ap (λ (x : Issue). x.modified) l.replayed) ∙ modified-replay cs i
