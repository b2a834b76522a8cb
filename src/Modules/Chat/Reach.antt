-- ===== src/Modules/Chat/Reach.antt =====
-- The states that the operations on messages reach.
use mathlib.Core.Path.{subst}
use jetty.Prelude.{ℕ, ◌≤◌, Option, none, [], ◌≡◌, ◌≢◌, refl, sym, arith, Distinct}
use jetty.Prelude.Dict.{get, get_or}
use jetty.Prelude.Text.{Str, str_eq}
use jetty.Modules.Chat.{MessageCreate, Upload, SpaceCreate, MessageQuery, thread_key_eq}
use jetty.Modules.Chat.Names.{slashes}
use jetty.Modules.Chat.Mock.{Chat, failed, lookup_error, create_space, insert}
use jetty.Modules.Chat.Messages.{
  list_messages, create_message, patch_message, delete_message, create_reaction, delete_reaction,
  upload_attachment,
}
use jetty.Modules.Chat.Index.{IsIndexed, IsIndexed-same, list_messages-found}
use jetty.Modules.Chat.Kept.{
  insert-IsIndexed, create_message-IsIndexed, patch_message-IsIndexed, delete_message-IsIndexed,
}

-- A driver starts without messages, is seeded by `_insert`, and then serves requests. Messages are
-- made in spaces whose names have one slash, as those of the driver have.
pub data Reachable : Chat → Type 0 where
  start : (c : Chat) → c.messages ≡ [] → c.order ≡ [] → Reachable c
  seeded :
      (now : ℕ) (space sender text : Str) (c : Chat)
      → slashes space ≡ 1
      → Reachable c
      → Reachable (insert now space sender text [] [] none c).1
  created :
      (now : ℕ) (space : Str) (req : MessageCreate) (c : Chat)
      → slashes space ≡ 1
      → Reachable c
      → Reachable (create_message now space req c).1
  patched :
      (now : ℕ) (name : Str) (text : Option Str) (c : Chat)
      → Reachable c
      → Reachable (patch_message now name text c).1
  removed : (name : Str) (c : Chat) → Reachable c → Reachable (delete_message name c).1
  reacted :
      (message unicode : Str) (c : Chat)
      → Reachable c
      → Reachable (create_reaction message unicode c).1
  unreacted : (name : Str) (c : Chat) → Reachable c → Reachable (delete_reaction name c).1
  uploaded :
      (space : Str) (upload : Upload) (c : Chat)
      → Reachable c
      → Reachable (upload_attachment space upload c).1
  opened : (req : SpaceCreate) (c : Chat) → Reachable c → Reachable (create_space req c).1

-- Operations that leave messages and orders alone.
abbrev Aside : Chat → Chat → Type 0
Aside c d = (d.messages ≡ c.messages) × (d.order ≡ c.order) × (c.counter ≤ d.counter)

Aside-IsIndexed : (c d : Chat) → Aside c d → IsIndexed c → IsIndexed d
Aside-IsIndexed c d a i = IsIndexed-same c d a.0 a.1 a.2 i

create_reaction-Aside :
    (message unicode : Str) (c : Chat) → Aside c (create_reaction message unicode c).1
unfolding create_reaction
create_reaction-Aside message unicode c = (refl, refl, omega arith)

delete_reaction-Aside : (name : Str) (c : Chat) → Aside c (delete_reaction name c).1
unfolding delete_reaction
delete_reaction-Aside name c = ground arith

upload_attachment-Aside :
    (space : Str) (upload : Upload) (c : Chat) → Aside c (upload_attachment space upload c).1
unfolding upload_attachment
upload_attachment-Aside space upload c = ground arith

create_space-Aside : (req : SpaceCreate) (c : Chat) → Aside c (create_space req c).1
unfolding create_space
create_space-Aside req c = (refl, refl, omega arith)

start-IsIndexed : (c : Chat) → c.messages ≡ [] → c.order ≡ [] → IsIndexed c
unfolding get
start-IsIndexed c m o = record {
  listed = λ s n. ground arith;
  once = λ s. subst (λ x. Distinct (get_or x s [])) (sym o) tt;
  fresh = λ s k one l. ground arith;
}

-- In every state that the driver reaches, the orders and the messages agree.
pub Reachable-IsIndexed : (c : Chat) → Reachable c → IsIndexed c
Reachable-IsIndexed _ (start c m o) = start-IsIndexed c m o
Reachable-IsIndexed _ (seeded now space sender text c one r) =
    insert-IsIndexed now space sender text [] [] none c one (Reachable-IsIndexed c r)
Reachable-IsIndexed _ (created now space req c one r) =
    create_message-IsIndexed now space req c one (Reachable-IsIndexed c r)
Reachable-IsIndexed _ (patched now name text c r) =
    patch_message-IsIndexed now name text c (Reachable-IsIndexed c r)
Reachable-IsIndexed _ (removed name c r) =
    (delete_message-IsIndexed name c (Reachable-IsIndexed c r)).1
Reachable-IsIndexed _ (reacted message unicode c r) =
    Aside-IsIndexed c _ (create_reaction-Aside message unicode c) (Reachable-IsIndexed c r)
Reachable-IsIndexed _ (unreacted name c r) =
    Aside-IsIndexed c _ (delete_reaction-Aside name c) (Reachable-IsIndexed c r)
Reachable-IsIndexed _ (uploaded space upload c r) =
    Aside-IsIndexed c _ (upload_attachment-Aside space upload c) (Reachable-IsIndexed c r)
Reachable-IsIndexed _ (opened req c r) =
    Aside-IsIndexed c _ (create_space-Aside req c) (Reachable-IsIndexed c r)

-- In a state that the driver reaches, neither listing a space nor deleting a message fails on a
-- lookup.
pub reached-no_lookup_error :
    (c : Chat) (space name : Str) (query : MessageQuery)
    → Reachable c
    → (list_messages space query c ≢ failed lookup_error)
      × ((delete_message name c).0 ≢ failed lookup_error)
reached-no_lookup_error c space name query r =
    let i = Reachable-IsIndexed c r in
    (list_messages-found space query c i, (delete_message-IsIndexed name c i).0)
