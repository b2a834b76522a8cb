-- ===== src/Modules/Chat/Created.antt =====
-- How `create_message` ends once its thread is known, and what `_insert` adds.
use mathlib.Core.Path.{subst}
use jetty.Prelude.{
  ℕ, true, Option, some, List, [], ◌∷◌, ◌++◌, ◌≡◌, inl, inr, refl, arith, nonempty, Bool-cases,
}
use jetty.Prelude.Dict.{Dict, get_or, put, get-put_self}
use jetty.Prelude.Text.{Str, str_eq}
use jetty.Modules.Chat.{Attachment, Quote, Message, MessageCreate, thread_key_eq}
use jetty.Modules.Chat.Mock.{Chat, Failure, Reply, done, failed, insert, insert_in, new_thread}
use jetty.Modules.Chat.Messages.{
  resolve_thread, quote_of, resolve_attachments, create_in, get_message,
}

-- Two states that differ in the threads and the counter at most.
abbrev pub SameContent : Chat → Chat → Type 0
SameContent c d =
    (d.messages ≡ c.messages)
    × (d.order ≡ c.order)
    × (d.thread_roots ≡ c.thread_roots)
    × (d.reactions ≡ c.reactions)
    × (d.uploads ≡ c.uploads)
    × (d.spaces ≡ c.spaces)
    × (d.members ≡ c.members)
    × (d.identity ≡ c.identity)

pub resolve_thread-SameContent :
    (space : Str) (req : MessageCreate) (c : Chat) → SameContent c (resolve_thread space req c).1
unfolding resolve_thread new_thread
resolve_thread-SameContent space req c = ground arith

pub new_thread-SameContent : (space : Str) (c : Chat) → SameContent c (new_thread space c).1
unfolding new_thread
new_thread-SameContent space c = (refl, refl, refl, refl, refl, refl, refl, refl)

-- How `create_in` ends.
pub data Created (now : ℕ) (space : Str) (req : MessageCreate) (thread : Str) (c : Chat)
    : Reply Message → Chat → Type 0 where
  refused : (e : Failure) → Created now space req thread c (failed e) c
  made :
      (quoted : Option Quote) (attachments : List Attachment)
      → quote_of req.quote thread c ≡ done quoted
      → Created now space req thread c
          (done (insert now space c.identity req.text thread attachments quoted c).0)
          (insert now space c.identity req.text thread attachments quoted c).1

pub create_in-Created :
    (now : ℕ) (space : Str) (req : MessageCreate) (thread : Str) (c : Chat)
    → Created now space req thread c
        (create_in now space req thread c).0
        (create_in now space req thread c).1
unfolding create_in
create_in-Created now space req thread c =
    by_quote (quote_of req.quote thread c) (resolve_attachments req.attachments c) refl
  where
    by_quote :
        (q : Reply (Option Quote)) (a : Reply (List Attachment))
        → quote_of req.quote thread c ≡ q
        → (let ending = (elim q as (λ _. Reply Message × Chat) [
          | failed e ↦ (failed e, c)
          | done quoted ↦ elim a as (λ _. Reply Message × Chat) [
            | failed e ↦ (failed e, c)
            | done attachments ↦
                let new = insert now space c.identity req.text thread attachments quoted c in
                (done new.0, new.1)
          ]
        ]) in
            Created now space req thread c ending.0 ending.1)
    by_quote (failed e) a h = refused e
    by_quote (done quoted) (failed e) h = refused e
    by_quote (done quoted) (done attachments) h = made quoted attachments h

-- What `_insert` adds: `d` holds the message m of the space, in the thread asked for.
abbrev pub Inserted : Str → MessageCreate → Str → Option Quote → Message → Chat → Chat → Type 0
Inserted space req thread quoted m c d =
    (get_message m.name d ≡ some m)
    × (get_or d.order space [] ≡ get_or c.order space [] ++ (m.name ∷ []))
    × (m.text ≡ req.text)
    × (m.sender ≡ c.identity)
    × (m.quoted ≡ quoted)
    × (nonempty thread ≡ true → m.thread ≡ thread)

done-injective {ℓ} : {A : Type ℓ} {a b : A} → done a ≡ done b → a ≡ b
done-injective h = cc

get_or-put {ℓ} : {A : Type ℓ} (d : Dict Str A) (k : Str) (v w : A) → get_or (put d k v) k w ≡ v
get_or-put d k v w = rw (get-put_self d k v, get_or) refl

insert-Inserted :
    (now : ℕ) (space : Str) (req : MessageCreate) (thread : Str) (attachments : List Attachment)
    (quoted : Option Quote) (c : Chat)
    → Inserted space req thread quoted
        (insert now space c.identity req.text thread attachments quoted c).0
        c
        (insert now space c.identity req.text thread attachments quoted c).1
unfolding insert insert_in new_thread get_message
insert-Inserted now space req thread attachments quoted c = elim (Bool-cases (nonempty thread)) [
  | inl e ↦ rw e (get-put_self _ _ _, get_or-put _ _ _ _, refl, refl, refl, λ _. refl)
  | inr e ↦ rw e (get-put_self _ _ _, get_or-put _ _ _ _, refl, refl, refl, λ h. cc)
]

pub Created-failed :
    (now : ℕ) (space : Str) (req : MessageCreate) (thread : Str) (c : Chat) {r : Reply Message}
    {d : Chat} {e : Failure}
    → Created now space req thread c r d
    → r ≡ failed e
    → SameContent c d
Created-failed now space req thread c (refused x) h =
    (refl, refl, refl, refl, refl, refl, refl, refl)
Created-failed now space req thread c (made q a x) h = cc

pub Created-done :
    (now : ℕ) (space : Str) (req : MessageCreate) (thread : Str) (c : Chat) {r : Reply Message}
    {d : Chat} {m : Message}
    → Created now space req thread c r d
    → r ≡ done m
    → (quoted : Option Quote) × (quote_of req.quote thread c ≡ done quoted)
      × Inserted space req thread quoted m c d
Created-done now space req thread c (refused x) h = cc
Created-done now space req thread c {d = d} {m = m} (made quoted a x) h = (
  quoted,
  x,
  subst (λ n. Inserted space req thread quoted n c d) (done-injective h)
      (insert-Inserted now space req thread a quoted c),
)
