-- ===== src/Modules/Chat/Mock.antt =====
-- The state of `MockChatDriver` and its operations. The clock's readings are arguments.
use jetty.Prelude.{
  ℕ, zero, suc, ◌+◌, not, Option, none, some, List, [], ◌∷◌, ◌++◌, ◌==◌, eqb, nat_eq, nonempty, any,
  sorted, if◌then◌else◌,
}
use jetty.Prelude.Dict.{Dict, keys, get, get_or, has, put}
use jetty.Prelude.Text.{Str, str_eq, str_le, codes}
use jetty.Prelude.Text.Decimal.{str_of}
use jetty.Modules.Paging.{Page, paginate}
use jetty.Modules.Chat.{
  Space, SpaceCreate, Member, Attachment, Quote, Message, Reaction, Upload, ThreadKey,
  thread_key_eq,
}

-- `counter` is the next number that `_counter` gives.
pub record Chat : Type 0 where
  pub identity : Str
  pub counter : ℕ
  pub spaces : Dict Str Space
  pub members : Dict Str (List Member)
  pub messages : Dict Str Message
  pub order : Dict Str (List Str)
  pub threads : List Str
  pub thread_keys : Dict ThreadKey Str
  pub thread_roots : Dict Str Str
  pub reactions : Dict Str (List Reaction)
  pub uploads : Dict Str Upload

-- `DriverRejects`, by its reasons; `ThreadNotFound`; and the `KeyError` or `ValueError` of a message
-- that is in one table and not in the other.
pub data Failure : Type 0 where
  bad_token no_quoted stale_quote foreign_quote no_upload no_space : Failure
  thread_not_found : Failure
  lookup_error : Failure

pub data Reply {ℓ} (A : Type ℓ) : Type ℓ where
  done : A → Reply A
  failed : Failure → Reply A

-- `_new_thread`: the thread and the new state.
unfoldable pub new_thread : Str → Chat → Str × Chat
new_thread space c =
    let thread = space ++ (codes "/threads/t" ++ str_of c.counter) in
    (thread, record c { counter = c.counter + 1; threads = thread ∷ c.threads })

-- `setdefault`, for a value that is not changed afterwards.
abbrev pub set_default : Dict Str Str → Str → Str → Dict Str Str
set_default d k v = if has d k then d else put d k v

abbrev pub message_name : Str → ℕ → Str
message_name space n = space ++ (codes "/messages/m" ++ str_of n)

-- `_insert`, from where the thread is known.
unfoldable pub insert_in :
    ℕ → Str → Str → Str → Str → Str → List Attachment → Option Quote → Chat → Message × Chat
insert_in now space sender text thread sender_type attachments quoted c =
    let message : Message = record {
      name = message_name space c.counter;
      sender = sender;
      sender_type = sender_type;
      thread = thread;
      text = text;
      create_time = now;
      update_time = 0;
      attachments = attachments;
      quoted = quoted;
    } in
    (
      message,
      record c {
        counter = c.counter + 1;
        messages = put c.messages message.name message;
        order = put c.order space (get_or c.order space [] ++ (message.name ∷ []));
        thread_roots = set_default c.thread_roots thread message.name;
      },
    )

-- `_insert`
unfoldable pub insert :
    ℕ → Str → Str → Str → Str → List Attachment → Option Quote → Chat → Message × Chat
unfolding insert_in new_thread
insert now space sender text thread attachments quoted c =
    let started = new_thread space c in
    if nonempty thread
    then insert_in now space sender text thread (codes "HUMAN") attachments quoted c
    else insert_in now space sender text started.0 (codes "HUMAN") attachments quoted started.1

-- `"/".join(resource.split("/")[:2])`: the text before the slash number `n`, counted from 1.
unfoldable pub before_slash : ℕ → Str → Str
before_slash n [] = []
before_slash zero (c ∷ s) = []
before_slash (suc n) (c ∷ s) =
    let here = c ∷ before_slash (suc n) s in
    let past = c ∷ before_slash n s in if eqb c b'/' then (if eqb n 0 then [] else past) else here

-- `_space_of`
abbrev pub space_of : Str → Str
space_of resource = before_slash 2 resource

-- Pages.
abbrev pub page_of {ℓ} : {A : Type ℓ} → List A → Page → Reply (List A × Str)
page_of rows page = elim (paginate rows page) [ none ↦ failed bad_token | some p ↦ done p ]

-- `list_spaces`, where `spaces` holds each space under its name.
abbrev pub spaces_of : List Str → Dict Str Space → List Space
spaces_of [] d = []
spaces_of (n ∷ ns) d = elim (get d n) as (λ _. List Space) [
  | none ↦ spaces_of ns d
  | some s ↦ s ∷ spaces_of ns d
]

unfoldable pub list_spaces : Page → Chat → Reply (List Space × Str)
list_spaces page c = page_of (spaces_of (sorted str_le (keys c.spaces)) c.spaces) page

unfoldable pub get_space : Str → Chat → Option Space
get_space space c = get c.spaces space

unfoldable pub create_space : SpaceCreate → Chat → Space × Chat
create_space req c =
    let name = codes "spaces/mock" ++ str_of c.counter in
    let created : Space = record {
      name = name;
      display_name = req.display_name;
      space_type = req.space_type;
    } in
    let first : Member = record {
      name = name ++ codes "/members/1";
      user = c.identity;
      user_type = codes "HUMAN";
    } in
    (
      created,
      record c {
        counter = c.counter + 1;
        spaces = put c.spaces name created;
        members = put c.members name (first ∷ []);
      },
    )

-- The loop of `find_direct_message`; each space is stored under its own name.
unfoldable pub find_direct : Str → List Space → Dict Str (List Member) → Option Space
find_direct user [] members = none
find_direct user (space ∷ spaces) members =
    let rest = find_direct user spaces members in
    if not (space.space_type == codes "DIRECT_MESSAGE")
    then rest
    else if any (λ (m : Member). m.user == user) (get_or members space.name [])
    then some space
    else rest

unfoldable pub find_direct_message : Str → Chat → Option Space
unfolding find_direct
find_direct_message user c =
    find_direct user (spaces_of (sorted str_le (keys c.spaces)) c.spaces) c.members

unfoldable pub list_members : Str → Page → Chat → Reply (List Member × Str)
list_members space page c = page_of (get_or c.members space []) page
