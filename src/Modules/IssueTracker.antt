-- ===== src/Modules/IssueTracker.antt =====
-- The issue tracker's mock driver, src/jetty/modules/issuetracker: its data (driver.py) here, its
-- operations (mock.py) in the modules below. A time is a count of microseconds.
pub mod Fields
pub mod Mock
pub mod Query
pub mod Edited
pub mod History
pub mod Partial
mod Tests
use native.Mathlib.Decide.{ℕ_discrete}
use jetty.Prelude.{ℕ, Bool, Option, List, Eq, nat_eq}
use jetty.Prelude.Dict.{Dict}
use jetty.Prelude.Text.{Str}

-- What a collection of an issue holds: user names or ids.
pub data Item : Type 0 where
  user : Str → Item
  id : ℕ → Item

pub item_dec : Discrete Item
item_dec = hlevel ℕ_discrete

instance unfoldable pub item_eq : Eq Item
unfolding item_dec ℕ_discrete
item_eq = record { dec = item_dec }

pub record Issue : Type 0 where
  pub issue_id : ℕ
  pub component_id : ℕ
  pub title : Str
  pub type : Str
  pub status : Str
  pub priority : Str
  pub severity : Str
  pub reporter : Str
  pub assignee : Str
  pub verifier : Str
  pub ccs : List Item
  pub hotlist_ids : List Item
  pub blocked_by : List Item
  pub blocking : List Item
  pub created : ℕ
  pub modified : ℕ
  pub description : Str

pub record IssueCreate : Type 0 where
  pub component_id : ℕ
  pub title : Str
  pub status : Str
  pub type : Str
  pub priority : Str
  pub severity : Str
  pub description : Str
  pub assignee : Str

-- Every field that can be set holds a string.
pub record IssueModify : Type 0 where
  pub sets : Dict Str Str
  pub add : Dict Str (List Item)
  pub remove : Dict Str (List Item)
  pub comment : Option Str

pub record Comment : Type 0 where
  pub issue_id : ℕ
  pub number : ℕ
  pub text : Str
  pub author : Str

-- What a change was from and to: a string of a scalar field, or an item that came or went.
pub data Change : Type 0 where
  set_to : (field old new : Str) → Change
  added : (field : Str) → Item → Change
  removed : (field : Str) → Item → Change

pub record IssueUpdate : Type 0 where
  pub author : Str
  pub timestamp : ℕ
  pub changes : List Change
  pub comment_number : ℕ

pub record Relationship : Type 0 where
  pub target_issue_id : ℕ
  pub type : Str
