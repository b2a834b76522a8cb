-- ===== src/Modules/Chat/Kept.antt =====
-- The operations that change messages keep the orders in agreement with them.
use mathlib.Core.Path.{subst}
use jetty.Prelude.{
  ℕ, ◌≤◌, true, false, not, Option, none, some, List, [], ◌≡◌, ◌≢◌, inl, inr, refl, sym, ap, ◌∙◌,
  arith, ◌==◌, ◌&&◌, if◌then◌else◌, nonempty, Bool-cases, Option-cases, contains, Distinct,
}
use jetty.Prelude.Dict.{Dict, get, get_or, has, put, remove, get-remove}
use jetty.Prelude.Text.{Str, str_eq}
use jetty.Modules.Chat.{Attachment, Quote, Message, MessageCreate, thread_key_eq}
use jetty.Modules.Chat.Names.{slashes}
use jetty.Modules.Chat.Mock.{
  Chat, Reply, done, failed, lookup_error, insert, new_thread, message_name, space_of,
}
use jetty.Modules.Chat.Messages.{
  create_message, with_thread, resolve_thread, patch_message, delete_message, remove_first,
}
use jetty.Modules.Chat.Created.{
  Created, refused, made, create_in-Created, resolve_thread-SameContent,
}
use jetty.Modules.Chat.Index.{
  IsIndexed, IsIndexed-same, insert_in-IsIndexed, remove_first-contains, remove_first-Distinct,
  remove_first-found, get_or-put-if, has-put,
}

resolve_thread-counts :
    (space : Str) (req : MessageCreate) (c : Chat)
    → c.counter ≤ (resolve_thread space req c).1.counter
unfolding resolve_thread new_thread
resolve_thread-counts space req c = ground arith

pub insert-IsIndexed :
    (now : ℕ) (space sender text thread : Str) (attachments : List Attachment)
    (quoted : Option Quote) (c : Chat)
    → slashes space ≡ 1
    → IsIndexed c
    → IsIndexed (insert now space sender text thread attachments quoted c).1
unfolding insert
insert-IsIndexed now space sender text thread attachments quoted c one i =
    elim (Bool-cases (nonempty thread)) [
      | inl e ↦ rw e (insert_in-IsIndexed now space sender text thread _ attachments quoted c one i)
      | inr e ↦ rw e (
          insert_in-IsIndexed now space sender text (new_thread space c).0 _ attachments quoted
            (new_thread space c).1 one
            (IsIndexed-same c (new_thread space c).1 refl refl (unfold new_thread in omega arith)
              i))
    ]

Created-IsIndexed :
    (now : ℕ) (space : Str) (req : MessageCreate) (thread : Str) (c : Chat) {r : Reply Message}
    {d : Chat}
    → slashes space ≡ 1
    → Created now space req thread c r d
    → IsIndexed c
    → IsIndexed d
Created-IsIndexed now space req thread c one (refused e) i = i
Created-IsIndexed now space req thread c one (made q a x) i =
    insert-IsIndexed now space c.identity req.text thread a q c one i

pub create_message-IsIndexed :
    (now : ℕ) (space : Str) (req : MessageCreate) (c : Chat)
    → slashes space ≡ 1
    → IsIndexed c
    → IsIndexed (create_message now space req c).1
unfolding create_message
create_message-IsIndexed now space req c one i =
    by_thread (resolve_thread space req c).0 (resolve_thread space req c).1 (
      IsIndexed-same c (resolve_thread space req c).1 (resolve_thread-SameContent space req c).0
        (resolve_thread-SameContent space req c).1 (resolve_thread-counts space req c) i)
  where
    by_thread :
        (r : Reply Str) (b : Chat) → IsIndexed b → IsIndexed (with_thread now space req r b).1
    by_thread (failed e) b j = j
    by_thread (done thread) b j =
        Created-IsIndexed now space req thread b one (create_in-Created now space req thread b) j

pub patch_message-IsIndexed :
    (now : ℕ) (name : Str) (text : Option Str) (c : Chat)
    → IsIndexed c
    → IsIndexed (patch_message now name text c).1
unfolding patch_message
patch_message-IsIndexed now name none c i = i
patch_message-IsIndexed now name (some new) c i = by_found (get c.messages name) refl
  where
    by_found :
        (o : Option Message)
        → get c.messages name ≡ o
        → IsIndexed
            (elim o as (λ _. Option Message × Chat) [
              | none ↦ (none, c)
              | some m ↦
                  let edited = record m { text = new; update_time = now } in
                  (some edited, record c { messages = put c.messages name edited })
            ]).1
    by_found none e = i
    by_found (some m) e = record {
      listed = λ s n. i.listed s n ∙ ap (λ x. x && (space_of n == s)) (same n);
      once = i.once;
      fresh = λ s k one l. sym (same (message_name s k)) ∙ i.fresh s k one l;
    }
      where
        same :
            (n : Str)
            → has c.messages n
              ≡ has (put c.messages name (record m { text = new; update_time = now })) n
        same n =
            ground (arith, has-put c.messages name n (record m { text = new; update_time = now }))

has-remove :
    {A : Type 0} (d : Dict Str A) (k j : Str) → has (remove d k) j ≡ (has d j && not (j == k))
has-remove d k j = ground (arith, get-remove d k j)

-- The state after a message is deleted, whose space keeps the names of `rest`.
abbrev deleted : Str → List Str → Chat → Chat
deleted name rest c = record c {
  messages = remove c.messages name;
  order = put c.order (space_of name) rest;
  reactions = remove c.reactions name;
}

deleted-IsIndexed :
    (name : Str) (rest : List Str) (c : Chat)
    → remove_first name (get_or c.order (space_of name) []) ≡ some rest
    → IsIndexed c
    → IsIndexed (deleted name rest c)
deleted-IsIndexed name rest c h i = record {
  listed = λ s n.
      ap (λ x. contains x n) (get_or-put-if c.order (space_of name) s rest)
      ∙ (in_order s n ∙ sym (ap (λ x. x && (space_of n == s)) (has-remove c.messages name n)));
  once = λ s. subst Distinct (sym (get_or-put-if c.order (space_of name) s rest)) (distinct s);
  fresh = λ s k one l.
      has-remove c.messages name (message_name s k) ∙ ground (arith, i.fresh s k one l);
}
  where
    in_order :
        (s n : Str)
        → contains (if s == space_of name then rest else get_or c.order s []) n
          ≡ ((has c.messages n && not (n == name)) && (space_of n == s))
    in_order s n =
        let here : n ≡ name → space_of n ≡ space_of name = λ r. ap space_of r in
        ground (
          arith,
          i.listed s n,
          i.listed (space_of name) n,
          here,
          remove_first-contains name n (get_or c.order (space_of name) []) (i.once (space_of name))
              h,
        )

    distinct : (s : Str) → Distinct (if s == space_of name then rest else get_or c.order s [])
    distinct s = elim (Bool-cases (s == space_of name)) [
      | inl e ↦ rw e (
          remove_first-Distinct name (get_or c.order (space_of name) []) (i.once (space_of name)) h)
      | inr e ↦ rw e (i.once s)
    ]

-- How `delete_message` ends on a message that there is: the name is in the order of its space.
delete_message-found :
    (name : Str) (c : Chat)
    → IsIndexed c
    → has c.messages name ≡ true
    → (rest : List Str) × (remove_first name (get_or c.order (space_of name) []) ≡ some rest)
      × (delete_message name c ≡ (done true, deleted name rest c))
unfolding delete_message
delete_message-found name c i h = elim (Option-cases (get c.order (space_of name))) [
  | inl e ↦ absurd (ground (arith, i.listed (space_of name) name))
  | inr (names, e) ↦ elim (Option-cases (remove_first name names)) [
    | inl f ↦
        absurd (remove_first-found name names (ground (arith, i.listed (space_of name) name)) f)
    | inr (rest, f) ↦ (rest, ground arith, rw (h, e, f, delete_message) refl)
  ]
]

delete_message-missing :
    (name : Str) (c : Chat) → has c.messages name ≡ false → delete_message name c ≡ (done false, c)
unfolding delete_message
delete_message-missing name c h = rw (h, delete_message) refl

pub delete_message-IsIndexed :
    (name : Str) (c : Chat)
    → IsIndexed c
    → ((delete_message name c).0 ≢ failed lookup_error) × IsIndexed (delete_message name c).1
delete_message-IsIndexed name c i = elim (Bool-cases (has c.messages name)) [
  | inl h ↦
      let (rest, f, e) = delete_message-found name c i h in
      subst (λ p. (p.0 ≢ failed lookup_error) × IsIndexed p.1) (sym e)
        (λ q. cc, deleted-IsIndexed name rest c f i)
  | inr h ↦
      let e = delete_message-missing name c h in
      subst (λ p. (p.0 ≢ failed lookup_error) × IsIndexed p.1) (sym e) (λ q. cc, i)
]
