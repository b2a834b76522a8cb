-- ===== src/Modules/IssueTracker/Fields/Replay.antt =====
-- The changes that an edit notes lead from the issue before to the issue after.
use mathlib.Core.Path.{subst}
use jetty.Prelude.{
  Bool, true, false, not, Option, none, some, List, [], ◌∷◌, ◌++◌, ◌≡◌, ◌≢◌, refl, ap, sym, ◌∙◌,
  inl, inr, ◌==◌, contains, arith, if_rule, if_true, if_false, Bool-cases, Option-cases,
}
use jetty.Prelude.Dict.{Dict}
use jetty.Prelude.Text.{Str, str_eq}
use jetty.Modules.IssueTracker.{Item, item_eq, Issue, Change, set_to, added, removed}
use jetty.Modules.IssueTracker.Fields.{
  Scalar, scalar_of, get_scalar, set_scalar, Collection, collection_of, get_items, set_items,
  remove_first, Edit, noted, apply_sets, edit_items, apply_deltas, proceed, then_edit,
}

-- What a noted change does to an issue.
unfoldable pub replay_change : Change → Issue → Issue
replay_change (set_to field old new) i = elim (scalar_of field) [
  | none ↦ i
  | some attr ↦ set_scalar attr new i
]
replay_change (added field v) i = elim (collection_of field) [
  | none ↦ i
  | some attr ↦ set_items attr (get_items attr i ++ (v ∷ [])) i
]
replay_change (removed field v) i = elim (collection_of field) [
  | none ↦ i
  | some attr ↦ set_items attr (remove_first (get_items attr i) v) i
]

abbrev pub replay : List Change → Issue → Issue
replay [] i = i
replay (c ∷ changes) i = replay changes (replay_change c i)

-- A note that is true of the issue that it changes: the field had the old value, and has another
-- one now; the item was not there, or was there.
unfoldable pub IsTrue : Change → Issue → Type 0
IsTrue (set_to field old new) i =
    (attr : Scalar) × (scalar_of field ≡ some attr) × (get_scalar attr i ≡ old) × (old ≢ new)
IsTrue (added field v) i =
    (attr : Collection) × (collection_of field ≡ some attr)
    × (contains (get_items attr i) v ≡ false)
IsTrue (removed field v) i =
    (attr : Collection) × (collection_of field ≡ some attr) × (contains (get_items attr i) v ≡ true)

abbrev pub AreTrue : List Change → Issue → Type 0
AreTrue [] i = Unit
AreTrue (c ∷ changes) i = IsTrue c i × AreTrue changes (replay_change c i)

-- True notes that lead from one issue to another.
pub record Leads (changes : List Change) (i i' : Issue) : Type 0 where
  pub true_notes : AreTrue changes i
  pub replayed : replay changes i ≡ i'

Leads-nil : (i : Issue) → Leads [] i i
Leads-nil i = record { true_notes = tt; replayed = refl }

Leads-cons :
    (c : Change) (changes : List Change) (i j k : Issue)
    → IsTrue c i
    → replay_change c i ≡ j
    → Leads changes j k
    → Leads (c ∷ changes) i k
Leads-cons c changes i j k t e l = record {
  true_notes = (t, subst (AreTrue changes) (sym e) l.true_notes);
  replayed = ap (replay changes) e ∙ l.replayed;
}

Leads-append :
    (cs ds : List Change) (i j k : Issue) → Leads cs i j → Leads ds j k → Leads (cs ++ ds) i k
Leads-append [] ds i j k l m = record {
  true_notes = subst (AreTrue ds) (sym l.replayed) m.true_notes;
  replayed = ap (replay ds) l.replayed ∙ m.replayed;
}
Leads-append (c ∷ cs) ds i j k l m =
    Leads-cons c (cs ++ ds) i (replay_change c i) k l.true_notes.0 refl (
      Leads-append cs ds (replay_change c i) j k
        (record { true_notes = l.true_notes.1; replayed = l.replayed }) m)

apply_sets-same :
    (field v : Str) (sets : Dict Str Str) (i : Issue) (attr : Scalar)
    → scalar_of field ≡ some attr
    → (get_scalar attr i == v) ≡ true
    → apply_sets ((field, v) ∷ sets) i ≡ apply_sets sets i
unfolding apply_sets
apply_sets-same field v sets i attr e q = rw (e, apply_sets) (if_true _ _ q)

apply_sets-set :
    (field v : Str) (sets : Dict Str Str) (i : Issue) (attr : Scalar)
    → scalar_of field ≡ some attr
    → (get_scalar attr i == v) ≡ false
    → apply_sets ((field, v) ∷ sets) i
      ≡ noted (set_to field (get_scalar attr i) v) (apply_sets sets (set_scalar attr v i))
unfolding apply_sets
apply_sets-set field v sets i attr e q = rw (e, apply_sets) (if_false _ _ q)

-- What an edit of an issue notes leads to the issue that it leaves.
abbrev pub EditLeads : Issue → Edit → Type 0
EditLeads i e = Leads e.changes i e.issue

pub apply_sets-Leads : (sets : Dict Str Str) (i : Issue) → EditLeads i (apply_sets sets i)
unfolding apply_sets IsTrue replay_change set_scalar
apply_sets-Leads [] i = Leads-nil i
apply_sets-Leads ((field, v) ∷ sets) i = elim (Option-cases (scalar_of field)) [
  | inl e ↦ rw (e, apply_sets) (Leads-nil i)
  | inr (attr, e) ↦ elim (Bool-cases (get_scalar attr i == v)) [
    | inl q ↦
        subst (EditLeads i) (sym (apply_sets-same field v sets i attr e q))
          (apply_sets-Leads sets i)
    | inr q ↦
        let j = set_scalar attr v i in
        let rest = apply_sets sets j in
        subst (EditLeads i) (sym (apply_sets-set field v sets i attr e q)) (
          Leads-cons (set_to field (get_scalar attr i) v) rest.changes i j rest.issue
            (attr, e, refl, ground arith) (rw (e, replay_change) refl) (apply_sets-Leads sets j))
  ]
]

-- The same for the edits of a collection.
abbrev PairLeads : Issue → Issue × List Change → Type 0
PairLeads i e = Leads e.1 i e.0

edit_items-Leads :
    (removing : Bool) (field : Str) (attr : Collection) (values : List Item) (i : Issue)
    → collection_of field ≡ some attr
    → PairLeads i (edit_items removing field attr values i)
unfolding edit_items IsTrue replay_change set_items
edit_items-Leads removing field attr [] i e = Leads-nil i
edit_items-Leads true field attr (v ∷ values) i e =
    let j = set_items attr (remove_first (get_items attr i) v) i in
    let rest = edit_items true field attr values j in
    if_rule (PairLeads i) (contains (get_items attr i) v)
      (λ there.
        Leads-cons (removed field v) rest.1 i j rest.0 (attr, e, there) (rw (e, replay_change) refl)
          (edit_items-Leads true field attr values j e))
      (λ _. edit_items-Leads true field attr values i e)
edit_items-Leads false field attr (v ∷ values) i e =
    let j = set_items attr (get_items attr i ++ (v ∷ [])) i in
    let rest = edit_items false field attr values j in
    if_rule (PairLeads i) (not (contains (get_items attr i) v))
      (λ absent.
        Leads-cons (added field v) rest.1 i j rest.0 (attr, e, ground arith)
          (rw (e, replay_change) refl) (edit_items-Leads false field attr values j e))
      (λ _. edit_items-Leads false field attr values i e)

pub apply_deltas-Leads :
    (removing : Bool) (deltas : Dict Str (List Item)) (i : Issue)
    → EditLeads i (apply_deltas removing deltas i)
unfolding apply_deltas
apply_deltas-Leads removing [] i = Leads-nil i
apply_deltas-Leads removing ((field, values) ∷ deltas) i =
    elim (Option-cases (collection_of field)) [
      | inl e ↦ rw (e, apply_deltas) (Leads-nil i)
      | inr (attr, e) ↦
          let edited = edit_items removing field attr values i in
          let rest = apply_deltas removing deltas edited.0 in
          rw (e, apply_deltas)
            (Leads-append edited.1 rest.changes i edited.0 rest.issue
              (edit_items-Leads removing field attr values i e)
              (apply_deltas-Leads removing deltas edited.0))
    ]

pub then_edit-Leads :
    (i : Issue) (e : Edit) (f : Issue → Edit)
    → EditLeads i e
    → ((j : Issue) → EditLeads j (f j))
    → EditLeads i (then_edit e f)
unfolding proceed
then_edit-Leads i e f l m = by_rejected e.rejected
  where
    by_rejected : (o : Option Str) → EditLeads i (proceed o e f)
    by_rejected (some field) = l
    by_rejected none =
        Leads-append e.changes (f e.issue).changes i e.issue (f e.issue).issue l (m e.issue)
