-- ===== src/Modules/Chat/Tests.antt =====
-- Runs of the chat driver, and the theorems at concrete inputs.
use jetty.Prelude.{
  true, false, none, some, [], ◌∷◌, ◌++◌, ◌≡◌, ◌≢◌, ◌⊎◌, refl, arith, contains, nonempty,
}
use jetty.Prelude.Dict.{get, get_or, put}
use jetty.Prelude.Text.{Str, str_eq, codes}
use jetty.Prelude.Text.Decimal.{digits}
use jetty.Modules.Chat.{
  ThreadKey, Message, MessageCreate, reply_fallback, reply_or_fail, thread_key_eq,
}
use jetty.Modules.Chat.Mock.{
  Chat, done, failed, no_quoted, lookup_error, insert, insert_in, new_thread,
}
use jetty.Modules.Chat.Messages.{
  resolve_thread, resolve_quote, resolve_attachments, create_in, create_message, get_message,
  latest, is_stale, is_root,
}
use jetty.Modules.Chat.{MessageQuery}
use jetty.Modules.Chat.Messages.{delete_message, list_messages}
use jetty.Prelude.Dict.{remove}
use jetty.Modules.Chat.Mock.{before_slash}
use jetty.Modules.Chat.Index.{IsIndexed}
use jetty.Modules.Chat.Reach.{
  Reachable, start, seeded, created, removed, Reachable-IsIndexed, reached-no_lookup_error,
}
use jetty.Modules.Chat.Created.{SameContent}
use jetty.Modules.Chat.Create.{
  create_message-failed, create_message-stored, create_message-in_thread, create_message-quoted,
}

abbrev room : Str
room = codes "spaces/a"

abbrev nothing : Chat
nothing = record {
  identity = codes "users/jetty";
  counter = 1;
  spaces = [];
  members = [];
  messages = [];
  order = [];
  threads = [];
  thread_keys = [];
  thread_roots = [];
  reactions = [];
  uploads = [];
}

abbrev hello : Message
hello = record {
  name = codes "spaces/a/messages/m2";
  sender = codes "users/seed";
  sender_type = codes "HUMAN";
  thread = codes "spaces/a/threads/t1";
  text = codes "hello";
  create_time = 10;
  update_time = 0;
  attachments = [];
  quoted = none;
}

abbrev greeted : Chat
greeted = record nothing {
  counter = 3;
  messages = (codes "spaces/a/messages/m2", hello) ∷ [];
  order = (room, codes "spaces/a/messages/m2" ∷ []) ∷ [];
  threads = codes "spaces/a/threads/t1" ∷ [];
  thread_roots = (codes "spaces/a/threads/t1", codes "spaces/a/messages/m2") ∷ [];
}

greet : insert 10 room (codes "users/seed") (codes "hello") [] [] none nothing ≡ (hello, greeted)
unfolding insert insert_in new_thread digits put get
greet = refl

abbrev answer : MessageCreate
answer = record {
  text = codes "hi";
  thread = codes "spaces/a/threads/t1";
  thread_key = [];
  reply = reply_or_fail;
  quote = some (record { name = codes "spaces/a/messages/m2"; last_update_time = 11 });
  attachments = [];
}

abbrev hi : Message
hi = record {
  name = codes "spaces/a/messages/m3";
  sender = codes "users/jetty";
  sender_type = codes "HUMAN";
  thread = codes "spaces/a/threads/t1";
  text = codes "hi";
  create_time = 20;
  update_time = 0;
  attachments = [];
  quoted =
      some (record {
        name = codes "spaces/a/messages/m2";
        last_update_time = 10;
        text = codes "hello";
      });
}

abbrev answered : Chat
answered = record greeted {
  counter = 4;
  messages = (codes "spaces/a/messages/m2", hello) ∷ (codes "spaces/a/messages/m3", hi) ∷ [];
  order = (room, codes "spaces/a/messages/m2" ∷ codes "spaces/a/messages/m3" ∷ []) ∷ [];
}

create_answer : create_message 20 room answer greeted ≡ (done hi, answered)
unfolding create_message resolve_thread str_eq create_in resolve_quote get resolve_attachments
    digits put
create_answer = refl

-- A thread key is new, and the message quoted does not exist.
abbrev misquoted : MessageCreate
misquoted = record answer {
  thread = [];
  thread_key = codes "k";
  reply = reply_fallback;
  quote = some (record { name = codes "spaces/a/messages/m9"; last_update_time = 11 });
}

-- The thread is there afterwards, although the create was refused.
abbrev half_way : Chat
half_way = record greeted {
  counter = 4;
  threads = codes "spaces/a/threads/t3" ∷ codes "spaces/a/threads/t1" ∷ [];
  thread_keys = (record { space = room; key = codes "k" }, codes "spaces/a/threads/t3") ∷ [];
}

create_misquoted : create_message 20 room misquoted greeted ≡ (failed no_quoted, half_way)
unfolding create_message resolve_thread new_thread str_eq create_in resolve_quote get digits put
create_misquoted = refl

-- A strict reply to the key of the refused create is accepted.
strict_after_refusal :
    resolve_thread room (record misquoted { reply = reply_or_fail }) half_way
    ≡ (done (codes "spaces/a/threads/t3"), half_way)
unfolding resolve_thread get thread_key_eq
strict_after_refusal = refl

create_message-failed_example : SameContent greeted half_way
create_message-failed_example = create_message-failed 20 room misquoted greeted create_misquoted

create_message-stored_example :
    (get_message (codes "spaces/a/messages/m3") answered ≡ some hi)
    × (get_or answered.order room [] ≡ get_or greeted.order room [] ++ (hi.name ∷ []))
    × (hi.text ≡ codes "hi")
    × (hi.sender ≡ codes "users/jetty")
create_message-stored_example = create_message-stored 20 room answer greeted create_answer

-- A strict reply by the key of the refused create.
abbrev keyed : MessageCreate
keyed = record misquoted { reply = reply_or_fail; quote = none }

abbrev by_key : Message
by_key = record hi {
  name = codes "spaces/a/messages/m4";
  thread = codes "spaces/a/threads/t3";
  quoted = none;
}

abbrev keyed_to : Chat
keyed_to = record half_way {
  counter = 5;
  messages = (codes "spaces/a/messages/m2", hello) ∷ (codes "spaces/a/messages/m4", by_key) ∷ [];
  order = (room, codes "spaces/a/messages/m2" ∷ codes "spaces/a/messages/m4" ∷ []) ∷ [];
  thread_roots =
      (codes "spaces/a/threads/t1", codes "spaces/a/messages/m2")
      ∷ (codes "spaces/a/threads/t3", codes "spaces/a/messages/m4")
      ∷ [];
}

create_keyed : create_message 20 room keyed half_way ≡ (done by_key, keyed_to)
unfolding create_message resolve_thread str_eq create_in get resolve_attachments digits put
    thread_key_eq
create_keyed = refl

keys-named : (k : ThreadKey) (t : Str) → get half_way.thread_keys k ≡ some t → nonempty t ≡ true
unfolding get
keys-named k t h = ground arith

create_message-in_thread_example :
    ((nonempty keyed.thread ≡ true)
      × (codes "spaces/a/threads/t3" ≡ keyed.thread)
      × (contains half_way.threads keyed.thread ≡ true))
    ⊎ ((nonempty keyed.thread ≡ false)
        × (get half_way.thread_keys (record { space = room; key = codes "k" })
            ≡ some (codes "spaces/a/threads/t3")))
create_message-in_thread_example =
    create_message-in_thread 20 room keyed half_way {m = by_key} {d = keyed_to} refl refl keys-named
      create_keyed

all-threaded : (n : Str) (o : Message) → get_message n greeted ≡ some o → nonempty o.thread ≡ true
unfolding get_message get
all-threaded n o h = ground arith

create_message-quoted_example :
    (original : Message) × (get_message (codes "spaces/a/messages/m2") greeted ≡ some original)
    × (hi.quoted
        ≡ some (record {
          name = original.name;
          last_update_time = latest original;
          text = original.text;
        }))
    × (is_stale (latest original) 11 ≡ false)
    × ((original.thread ≡ hi.thread) ⊎ (is_root original greeted ≡ true))
create_message-quoted_example =
    create_message-quoted 20 room answer
      (record { name = codes "spaces/a/messages/m2"; last_update_time = 11 }) greeted all-threaded
      refl create_answer

-- A driver that is seeded, answers, and deletes the message that it was seeded with.
abbrev seeded_driver : Chat
seeded_driver = (insert 10 room (codes "users/seed") (codes "hello") [] [] none nothing).1

abbrev thinned : Chat
thinned =
    (delete_message (codes "spaces/a/messages/m2")
      (create_message 20 room answer seeded_driver).1).1

thinned-Reachable : Reachable thinned
thinned-Reachable =
    removed (codes "spaces/a/messages/m2") (create_message 20 room answer seeded_driver).1 (
      created 20 room answer seeded_driver refl (
        seeded 10 room (codes "users/seed") (codes "hello") nothing refl (start nothing refl refl)))

thinned_messages : thinned.messages ≡ (codes "spaces/a/messages/m3", hi) ∷ []
unfolding delete_message create_message insert insert_in new_thread digits put get resolve_thread
    str_eq create_in resolve_quote resolve_attachments before_slash remove
thinned_messages = refl

Reachable-IsIndexed_example : IsIndexed thinned
Reachable-IsIndexed_example = Reachable-IsIndexed thinned thinned-Reachable

abbrev first_page : MessageQuery
first_page = record {
  page = record { size = 1; token = [] };
  after = 0;
  before = 0;
  thread = [];
  descending = true;
}

reached-no_lookup_error_example :
    (list_messages room first_page thinned ≢ failed lookup_error)
    × ((delete_message (codes "spaces/a/messages/m3") thinned).0 ≢ failed lookup_error)
reached-no_lookup_error_example =
    reached-no_lookup_error thinned room (codes "spaces/a/messages/m3") first_page thinned-Reachable
