-- ===== src/Modules/IssueTracker/Query/Order.antt =====
-- What `list_issues` answers: the issues that match, in the order asked for.
use mathlib.Core.List.{Perm}
use mathlib.Core.List.Perm
use mathlib.Core.Path.{subst}
use jetty.Prelude.{
  ℕ, Bool, true, false, some, List, [], ◌∷◌, ◌≡◌, refl, ap, sym, ◌∙◌, ◌⊎◌, inl, inr, keep, length,
  leb, sorted-perm, arith, Option-cases,
}
use jetty.Prelude.Dict.{Dict, values}
use jetty.Prelude.Sorting.{
  Pairwise, All, Lex, IsOrder, sorted-Pairwise, str_le-IsOrder, leb-IsOrder, IsOrder-on,
  IsOrder-reverse,
}
use jetty.Prelude.Text.{Str, str_le}
use jetty.Modules.Paging.{Page, paginate}
use jetty.Modules.IssueTracker.{Issue}
use jetty.Modules.IssueTracker.Query.{
  Verdict, answer, unknown_status, unknown_priority, unsupported, match_terms, Rows, rows, rejects,
  matching, SortField, priority, severity, created, modified, assignee, key_le, order_le, id_le,
  sort_rows, page_of, list_issues,
}

abbrev pub is_match : List Str → Issue → Bool
is_match terms i = elim (match_terms i terms) [ answer b ↦ b | _ ↦ false ]

-- By the first field, where that is equal by the next, and last by the id.
abbrev pub Before : List (SortField × Bool) → Issue → Issue → Type 0
Before [] = Lex id_le (λ i j. Unit {0})
Before (key ∷ order_by) = Lex (order_le key) (Before order_by)

-- A page of the matching issues in order, with their number.
pub record Listed (terms : List Str) (order_by : List (SortField × Bool)) (page : Page)
    (issues : Dict ℕ Issue) (window : List Issue) (next : Str) (total : ℕ) : Type 0 where
  pub all_rows : List Issue
  pub matching_rows : Perm all_rows (keep (is_match terms) (values issues))
  pub in_order : Pairwise (Before order_by) all_rows
  pub counted : total ≡ length all_rows
  pub paged : paginate all_rows page ≡ some (window, next)

order_le-IsOrder : (key : SortField × Bool) → IsOrder (order_le key)
unfolding order_le key_le
order_le-IsOrder (priority, false) = IsOrder-on (λ (i : Issue). i.priority) str_le str_le-IsOrder
order_le-IsOrder (severity, false) = IsOrder-on (λ (i : Issue). i.severity) str_le str_le-IsOrder
order_le-IsOrder (created, false) = IsOrder-on (λ (i : Issue). i.created) leb leb-IsOrder
order_le-IsOrder (modified, false) = IsOrder-on (λ (i : Issue). i.modified) leb leb-IsOrder
order_le-IsOrder (assignee, false) = IsOrder-on (λ (i : Issue). i.assignee) str_le str_le-IsOrder
order_le-IsOrder (priority, true) =
    IsOrder-reverse _ (IsOrder-on (λ (i : Issue). i.priority) str_le str_le-IsOrder)
order_le-IsOrder (severity, true) =
    IsOrder-reverse _ (IsOrder-on (λ (i : Issue). i.severity) str_le str_le-IsOrder)
order_le-IsOrder (created, true) =
    IsOrder-reverse _ (IsOrder-on (λ (i : Issue). i.created) leb leb-IsOrder)
order_le-IsOrder (modified, true) =
    IsOrder-reverse _ (IsOrder-on (λ (i : Issue). i.modified) leb leb-IsOrder)
order_le-IsOrder (assignee, true) =
    IsOrder-reverse _ (IsOrder-on (λ (i : Issue). i.assignee) str_le str_le-IsOrder)

Pairwise-any : (l : List Issue) → Pairwise (λ i j. Unit {0}) l
Pairwise-any [] = tt
Pairwise-any (i ∷ l) = (All-any l, Pairwise-any l)
  where
    All-any : (m : List Issue) → All (λ j. Unit {0}) m
    All-any [] = tt
    All-any (j ∷ m) = (tt, All-any m)

sort_rows-Pairwise :
    (order_by : List (SortField × Bool)) (l : List Issue)
    → Pairwise (Before order_by) (sort_rows order_by l)
unfolding sort_rows
sort_rows-Pairwise [] l =
    sorted-Pairwise id_le (IsOrder-on (λ (i : Issue). i.issue_id) leb leb-IsOrder) (λ i j. Unit {0})
      l (Pairwise-any l)
sort_rows-Pairwise (key ∷ order_by) l =
    sorted-Pairwise (order_le key) (order_le-IsOrder key) (Before order_by) (sort_rows order_by l)
      (sort_rows-Pairwise order_by l)

sort_rows-perm :
    (order_by : List (SortField × Bool)) (l : List Issue) → Perm (sort_rows order_by l) l
unfolding sort_rows
sort_rows-perm [] l = sorted-perm id_le l
sort_rows-perm (key ∷ order_by) l =
    Perm.trans (sorted-perm (order_le key) (sort_rows order_by l)) (sort_rows-perm order_by l)

Rows-cases : (r : Rows) → ((l : List Issue) × (r ≡ rows l)) ⊎ ((v : Verdict) × (r ≡ rejects v))
Rows-cases (rows l) = inl (l, refl)
Rows-cases (rejects v) = inr (v, refl)

-- A verdict that is an answer, or one that rejects the query.
data Kind : Verdict → Type 0 where
  yes_answer : Kind (answer true)
  no_answer : Kind (answer false)
  rejection :
      {v : Verdict}
      → ((terms : List Str) (i : Issue) (issues : List Issue)
          → match_terms i terms ≡ v
          → matching terms (i ∷ issues) ≡ rejects v)
      → Kind v

kind : (v : Verdict) → Kind v
unfolding matching
kind (answer true) = yes_answer
kind (answer false) = no_answer
kind (unknown_status s) = rejection (λ terms i issues e. rw (e, matching) refl)
kind (unknown_priority s) = rejection (λ terms i issues e. rw (e, matching) refl)
kind (unsupported s) = rejection (λ terms i issues e. rw (e, matching) refl)

matching-keep :
    (terms : List Str) (issues : List Issue) {l : List Issue}
    → matching terms issues ≡ rows l
    → l ≡ keep (is_match terms) issues
unfolding matching
matching-keep terms [] h = ground arith
matching-keep terms (i ∷ issues) {l} h =
    by_kind (kind (match_terms i terms)) refl (λ m. matching-keep terms issues {l = m})
  where
    clash : {v : Verdict} → rejects v ≡ rows l → ⊥
    clash q = cc

    by_kind :
        {v : Verdict}
        → Kind v
        → match_terms i terms ≡ v
        → ((m : List Issue) → matching terms issues ≡ rows m → m ≡ keep (is_match terms) issues)
        → l ≡ keep (is_match terms) (i ∷ issues)
    by_kind (rejection r) e ih = absurd (clash (sym (r terms i issues e) ∙ h))
    by_kind no_answer e ih = ih l (ground arith) ∙ ground arith
    by_kind yes_answer e ih = elim (Rows-cases (matching terms issues)) [
      | inl (m, q) ↦
          let taken : l ≡ i ∷ m = ground arith in taken ∙ (ap (λ r. i ∷ r) (ih m q) ∙ ground arith)
      | inr (v, q) ↦ absurd (ground arith)
    ]

paged_rows :
    (terms : List Str) (order_by : List (SortField × Bool)) (page : Page) (issues : Dict ℕ Issue)
    (l : List Issue) {window : List Issue} {next : Str} {total : ℕ}
    → Perm l (keep (is_match terms) (values issues))
    → Pairwise (Before order_by) l
    → page_of l page ≡ some (window, next, total)
    → Listed terms order_by page issues window next total
paged_rows terms order_by page issues l {window} {next} {total} perm ordered h =
    elim (Option-cases (paginate l page)) [
      | inl p ↦ absurd (ground arith)
      | inr ((w, n), p) ↦
          let first : w ≡ window = ground arith in
          let second : n ≡ next = ground arith in
          record {
            all_rows = l;
            matching_rows = perm;
            in_order = ordered;
            counted = ground arith;
            paged = p ∙ (ap (λ x. some (x, n)) first ∙ ap (λ x. some (window, x)) second);
          }
    ]

-- If `list_issues` answers, it answers with the page asked for of all issues that match every
-- term, in lexicographic order by the fields asked for and last by id, and with their number.
pub list_issues-Listed :
    (terms : List Str) (order_by : List (SortField × Bool)) (page : Page) (issues : Dict ℕ Issue)
    {window : List Issue} {next : Str} {total : ℕ}
    → list_issues terms order_by page issues ≡ some (window, next, total)
    → Listed terms order_by page issues window next total
unfolding list_issues
list_issues-Listed terms order_by page issues {window} {next} {total} h =
    elim (Rows-cases (matching terms (values issues))) [
      | inr (v, e) ↦ absurd (ground arith)
      | inl (l, e) ↦
          let here : page_of (sort_rows order_by l) page ≡ some (window, next, total) =
            sym (rw (e, list_issues) refl) ∙ h in
          paged_rows terms order_by page issues (sort_rows order_by l)
            (subst (λ m. Perm (sort_rows order_by l) m) (matching-keep terms (values issues) e)
              (sort_rows-perm order_by l))
            (sort_rows-Pairwise order_by l) here
    ]
