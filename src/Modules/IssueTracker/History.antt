-- ===== src/Modules/IssueTracker/History.antt =====
-- What `modify_issue` leaves behind: the history tells how the issue changed.
use mathlib.Core.Path.{subst}
use jetty.Prelude.{
  ℕ, ◌+◌, ◌≤◌, ◌<◌, true, false, Option, none, some, List, [], ◌∷◌, ◌++◌, ◌≡◌, refl, ap, sym, ◌∙◌,
  inl, inr, ◌||◌, ltb, length, nonempty, arith, nat_eq, if_true, if_false, Bool-cases, Option-cases,
}
use jetty.Prelude.Dict.{Dict, get, put, get-put_self}
use jetty.Prelude.Text.{Str}
use jetty.Modules.IssueTracker.{Issue, IssueModify, Comment, Change, IssueUpdate}
use jetty.Modules.IssueTracker.Fields.{Edit}
use jetty.Modules.IssueTracker.Fields.Replay.{Leads, EditLeads}
use jetty.Modules.IssueTracker.Mock.{
  Tracker, Rejection, Reply, done, rejected, key_error, touch, store, create_comment, edit_issue,
  note_update, add_comment, conclude, finish, modify_issue,
}
use jetty.Modules.IssueTracker.Edited.{edit_issue-Leads, modified-Leads}

-- What `modify_issue` does to an issue: nothing at all, or changes with an update that tells them.
pub data Outcome (issue_id : ℕ) (req : IssueModify) (i : Issue) (t t' : Tracker) (i' : Issue)
    : Type 0 where
  quiet :
      i' ≡ i
      → req.comment ≡ none
      → get t'.issues issue_id ≡ some i
      → get t'.updates issue_id ≡ get t.updates issue_id
      → Outcome issue_id req i t t' i'
  noted :
      (j : Issue) (update : IssueUpdate) (history : List IssueUpdate)
      → Leads update.changes i j
      → i' ≡ record j { modified = update.timestamp }
      → i.modified < update.timestamp
      → get t'.issues issue_id ≡ some i'
      → get t.updates issue_id ≡ some history
      → get t'.updates issue_id ≡ some (history ++ (update ∷ []))
      → Outcome issue_id req i t t' i'

-- The update that `note_update` writes.
abbrev update_of : ℕ → Issue → List Change → ℕ → Tracker → IssueUpdate
update_of now k changes n t = record {
  author = t.identity;
  timestamp = (touch now k).modified;
  changes = changes;
  comment_number = n;
}

abbrev noting :
    ℕ → ℕ → Issue → List IssueUpdate → IssueUpdate → Tracker → Reply (Option Issue) × Tracker
noting now issue_id k history update t = (
  done (some (touch now k)),
  record (store issue_id (touch now k) t) {
    updates = put t.updates issue_id (history ++ (update ∷ []));
  },
)

note_update-writes :
    (now issue_id : ℕ) (changes : List Change) (n : ℕ) (t : Tracker) (k : Issue)
    (history : List IssueUpdate)
    → get t.issues issue_id ≡ some k
    → (nonempty changes || ltb 0 n) ≡ true
    → get t.updates issue_id ≡ some history
    → note_update now issue_id changes n t
      ≡ noting now issue_id k history (update_of now k changes n t) t
unfolding note_update
note_update-writes now issue_id changes n t k history e b u =
    rw (e, note_update) (if_true _ _ b ∙ rw (u, note_update) refl)

note_update-fails :
    (now issue_id : ℕ) (changes : List Change) (n : ℕ) (t : Tracker) (k : Issue)
    → get t.issues issue_id ≡ some k
    → (nonempty changes || ltb 0 n) ≡ true
    → get t.updates issue_id ≡ none
    → (note_update now issue_id changes n t).0 ≡ key_error
unfolding note_update
note_update-fails now issue_id changes n t k e b u =
    rw (e, note_update)
      (ap (λ (r : Reply (Option Issue) × Tracker). r.0) (if_true _ _ b) ∙ rw (u, note_update) refl)

note_update-quiet :
    (now issue_id : ℕ) (changes : List Change) (n : ℕ) (t : Tracker) (k : Issue)
    → get t.issues issue_id ≡ some k
    → (nonempty changes || ltb 0 n) ≡ false
    → note_update now issue_id changes n t ≡ (done (some k), t)
unfolding note_update
note_update-quiet now issue_id changes n t k e b = rw (e, note_update) (if_false _ _ b)

done-injective : {A : Type 0} {a b : A} → done (some a) ≡ done (some b) → a ≡ b
done-injective h = cc

-- An update that follows edits from `i` to `j`, where a comment may have touched the issue since.
note-noted :
    (now issue_id : ℕ) (req : IssueModify) (changes : List Change) (n : ℕ) (t t₁ : Tracker)
    (i j k i' : Issue)
    → Leads changes i j
    → k ≡ record j { modified = k.modified }
    → j.modified ≤ k.modified
    → get t₁.issues issue_id ≡ some k
    → t₁.updates ≡ t.updates
    → (nonempty changes || ltb 0 n) ≡ true
    → (note_update now issue_id changes n t₁).0 ≡ done (some i')
    → Outcome issue_id req i t (note_update now issue_id changes n t₁).1 i'
note-noted now issue_id req changes n t t₁ i j k i' l shape later e same b h =
    elim (Option-cases (get t₁.updates issue_id)) [
      | inl u ↦ absurd (clash (sym (note_update-fails now issue_id changes n t₁ k e b u) ∙ h))
      | inr (history, u) ↦
          let update = update_of now k changes n t₁ in
          let made = note_update-writes now issue_id changes n t₁ k history e b u in
          let now_is : touch now k ≡ i' =
            done-injective (sym (ap (λ (r : Reply (Option Issue) × Tracker). r.0) made) ∙ h) in
          subst (λ (r : Reply (Option Issue) × Tracker). Outcome issue_id req i t r.1 i') (sym made)
            (noted j update history l (sym now_is ∙ ap (touch now) shape)
              (omega (arith, later, modified-Leads l))
              (get-put_self t₁.issues issue_id (touch now k) ∙ ap some now_is)
              (ap (λ (d : Dict ℕ (List IssueUpdate)). get d issue_id) (sym same) ∙ u)
              (get-put_self t₁.updates issue_id (history ++ (update ∷ []))))
    ]
  where
    clash : key_error ≡ done (some i') → ⊥
    clash q = cc

-- Without a comment.
finish-plain :
    (now issue_id : ℕ) (req : IssueModify) (t t₁ : Tracker) (i : Issue) (e : Edit) (i' : Issue)
    → EditLeads i e
    → get t₁.issues issue_id ≡ some e.issue
    → t₁.updates ≡ t.updates
    → req.comment ≡ none
    → (note_update now issue_id e.changes 0 t₁).0 ≡ done (some i')
    → Outcome issue_id req i t (note_update now issue_id e.changes 0 t₁).1 i'
finish-plain now issue_id req t t₁ i e i' l g same c h =
    elim (Bool-cases (nonempty e.changes || ltb 0 0)) [
      | inl b ↦
          note-noted now issue_id req e.changes 0 t t₁ i e.issue e.issue i' l refl (omega arith) g
            same b h
      | inr b ↦
          let made = note_update-quiet now issue_id e.changes 0 t₁ e.issue g b in
          let now_is : e.issue ≡ i' =
            done-injective (sym (ap (λ (r : Reply (Option Issue) × Tracker). r.0) made) ∙ h) in
          let unchanged : i ≡ e.issue = no_changes e.changes (ground arith) l in
          subst (λ (r : Reply (Option Issue) × Tracker). Outcome issue_id req i t r.1 i') (sym made)
            (quiet (sym now_is ∙ sym unchanged) c (g ∙ ap some (sym unchanged))
              (ap (λ (d : Dict ℕ (List IssueUpdate)). get d issue_id) same))
    ]
  where
    no_changes : (cs : List Change) → nonempty cs ≡ false → Leads cs i e.issue → i ≡ e.issue
    no_changes [] b l' = l'.replayed
    no_changes (x ∷ cs) b l' = cc

abbrev commented : ℕ → ℕ → Str → Issue → List Comment → Tracker → Tracker
commented now issue_id text k rows t =
    let comment : Comment = record {
      issue_id = issue_id;
      number = length rows + 1;
      text = text;
      author = t.identity;
    } in
    record t {
      comments = put t.comments issue_id (rows ++ (comment ∷ []));
      issues = put t.issues issue_id (touch now k);
    }

add_comment-missing :
    (now issue_id : ℕ) (text : Str) (t : Tracker) (k : Issue)
    → get t.issues issue_id ≡ some k
    → get t.comments issue_id ≡ none
    → add_comment now issue_id (some text) t ≡ (key_error, t)
unfolding add_comment create_comment
add_comment-missing now issue_id text t k g c = rw (g, c, create_comment) refl

add_comment-adds :
    (now issue_id : ℕ) (text : Str) (t : Tracker) (k : Issue) (rows : List Comment)
    → get t.issues issue_id ≡ some k
    → get t.comments issue_id ≡ some rows
    → add_comment now issue_id (some text) t
      ≡ (done (length rows + 1), commented now issue_id text k rows t)
unfolding add_comment create_comment
add_comment-adds now issue_id text t k rows g c = rw (g, c, create_comment) refl

-- With a comment.
finish-commented :
    (now now' issue_id : ℕ) (req : IssueModify) (text : Str) (t t₁ : Tracker) (i : Issue) (e : Edit)
    (i' : Issue)
    → EditLeads i e
    → get t₁.issues issue_id ≡ some e.issue
    → t₁.updates ≡ t.updates
    → (let made = add_comment now issue_id (some text) t₁ in
        (conclude now' issue_id e.changes made.0 made.1).0 ≡ done (some i')
        → Outcome issue_id req i t (conclude now' issue_id e.changes made.0 made.1).1 i')
unfolding conclude
finish-commented now now' issue_id req text t t₁ i e i' l g same =
    elim (Option-cases (get t₁.comments issue_id)) [
      | inl c ↦
          subst P (sym (add_comment-missing now issue_id text t₁ e.issue g c))
            (λ h. absurd (clash h))
      | inr (rows, c) ↦
          let t₂ = commented now issue_id text e.issue rows t₁ in
          subst P (sym (add_comment-adds now issue_id text t₁ e.issue rows g c)) (
            note-noted now' issue_id req e.changes (length rows + 1) t t₂ i e.issue
              (touch now e.issue) i' l refl (omega arith)
              (get-put_self t₁.issues issue_id (touch now e.issue)) same
              (counted e.changes (length rows)))
    ]
  where
    P : Reply ℕ × Tracker → Type 0
    P made =
        (conclude now' issue_id e.changes made.0 made.1).0 ≡ done (some i')
        → Outcome issue_id req i t (conclude now' issue_id e.changes made.0 made.1).1 i'

    clash : key_error ≡ done (some i') → ⊥
    clash q = cc

    counted : (cs : List Change) (n : ℕ) → (nonempty cs || ltb 0 (n + 1)) ≡ true
    counted cs n = ground arith

-- If `modify_issue` answers with an issue, then either nothing changed, the history included, and
-- there was no comment; or the time grew strictly, and the history got one more update, with that
-- time, whose changes are true of the issue before, one after the other, and lead to the issue
-- after but for its time.
pub modify_issue-Outcome :
    (now now' issue_id : ℕ) (req : IssueModify) (t : Tracker) (i i' : Issue)
    → get t.issues issue_id ≡ some i
    → (modify_issue now now' issue_id req t).0 ≡ done (some i')
    → Outcome issue_id req i t (modify_issue now now' issue_id req t).1 i'
unfolding modify_issue finish conclude add_comment
modify_issue-Outcome now now' issue_id req t i i' g =
    subst P (sym (rw (g, modify_issue) refl)) (by_rejected e.rejected)
  where
    e : Edit
    e = edit_issue req i

    t₁ : Tracker
    t₁ = store issue_id e.issue t

    P : Reply (Option Issue) × Tracker → Type 0
    P r = r.0 ≡ done (some i') → Outcome issue_id req i t r.1 i'

    clash : {r : Rejection} → rejected r ≡ done (some i') → ⊥
    clash q = cc

    by_comment :
        (o : Option Str)
        → req.comment ≡ o
        → P (
            conclude now' issue_id e.changes
              (add_comment now issue_id o t₁).0
              (add_comment now issue_id o t₁).1)
    by_comment none c h =
        finish-plain now' issue_id req t t₁ i e i' (edit_issue-Leads req i)
          (get-put_self t.issues issue_id e.issue) refl c h
    by_comment (some text) c h =
        finish-commented now now' issue_id req text t t₁ i e i' (edit_issue-Leads req i)
          (get-put_self t.issues issue_id e.issue) refl h

    by_rejected : (o : Option Str) → P (finish now now' issue_id req e o t₁)
    by_rejected (some field) h = absurd (clash h)
    by_rejected none h = by_comment req.comment refl h
