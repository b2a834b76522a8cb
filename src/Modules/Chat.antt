-- ===== src/Modules/Chat.antt =====
-- The chat mock driver, src/jetty/modules/chat: its data (driver.py) here, its operations (mock.py)
-- in the modules below. A time is a count of microseconds, as the driver rounds it.
pub mod Mock
pub mod Messages
pub mod Created
pub mod Create
pub mod Names
pub mod Index
pub mod Kept
pub mod Reach
mod Tests
use native.Mathlib.Decide.{ℕ_discrete}
use jetty.Prelude.{ℕ, Bool, Option, List, Eq, nat_eq}
use jetty.Prelude.Text.{Str}
use jetty.Modules.Paging.{Page}

-- 0 is no bound, and an empty thread is the whole space.
pub record MessageQuery : Type 0 where
  pub page : Page
  pub after : ℕ
  pub before : ℕ
  pub thread : Str
  pub descending : Bool

pub record MessageSearch : Type 0 where
  pub filter : Str
  pub page : Page
  pub descending : Bool

pub record Space : Type 0 where
  pub name : Str
  pub display_name : Str
  pub space_type : Str

pub record SpaceCreate : Type 0 where
  pub display_name : Str
  pub space_type : Str

pub record Member : Type 0 where
  pub name : Str
  pub user : Str
  pub user_type : Str

pub record Attachment : Type 0 where
  pub content_name : Str
  pub content_type : Str

pub record Quote : Type 0 where
  pub name : Str
  pub last_update_time : ℕ
  pub text : Str

pub record QuoteRequest : Type 0 where
  pub name : Str
  pub last_update_time : ℕ

-- An `update_time` of 0 says that the message was never edited.
pub record Message : Type 0 where
  pub name : Str
  pub sender : Str
  pub sender_type : Str
  pub thread : Str
  pub text : Str
  pub create_time : ℕ
  pub update_time : ℕ
  pub attachments : List Attachment
  pub quoted : Option Quote

-- REPLY_NEW, REPLY_FALLBACK, REPLY_OR_FAIL
pub data ReplyMode : Type 0 where
  reply_new reply_fallback reply_or_fail : ReplyMode

pub record MessageCreate : Type 0 where
  pub text : Str
  pub thread : Str
  pub thread_key : Str
  pub reply : ReplyMode
  pub quote : Option QuoteRequest
  pub attachments : List Str

pub record Reaction : Type 0 where
  pub name : Str
  pub user : Str
  pub emoji : Str

pub record Upload : Type 0 where
  pub filename : Str
  pub content_type : Str
  pub size : ℕ
  pub content : List ℕ

-- A space and a caller's key for a thread in it.
pub record ThreadKey : Type 0 where
  pub space : Str
  pub key : Str

pub thread_key_dec : Discrete ThreadKey
thread_key_dec = hlevel ℕ_discrete

instance unfoldable pub thread_key_eq : Eq ThreadKey
unfolding thread_key_dec ℕ_discrete
thread_key_eq = record { dec = thread_key_dec }
