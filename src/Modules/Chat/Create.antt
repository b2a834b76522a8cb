-- ===== src/Modules/Chat/Create.antt =====
-- What `create_message` does, accepted or refused.
use mathlib.Core.Path.{subst}
use jetty.Prelude.{
  ℕ, true, false, ◌||◌, Option, some, [], ◌∷◌, ◌++◌, ◌≡◌, ◌⊎◌, inl, inr, refl, sym, ap, ◌∙◌, arith,
  nonempty, contains, Option-cases,
}
use jetty.Prelude.Dict.{get, get_or}
use jetty.Prelude.Text.{Str, str_eq}
use jetty.Modules.Chat.{
  ThreadKey, Quote, QuoteRequest, Message, MessageCreate, reply_or_fail, thread_key_eq,
}
use jetty.Modules.Chat.Mock.{Chat, Failure, Reply, done, failed}
use jetty.Modules.Chat.Messages.{
  resolve_thread, resolve_quote, quote_of, create_in, with_thread, create_message, get_message,
  is_root, latest, is_stale,
}
use jetty.Modules.Chat.Created.{
  SameContent, resolve_thread-SameContent, create_in-Created, Created-failed, Created-done,
  Inserted,
}

abbrev same_twice : (b c d : Chat) → SameContent b c → SameContent c d → SameContent b d
same_twice b c d s t =
    (t.0 ∙ s.0, t.1 ∙ s.1, t.2 ∙ s.2, t.3 ∙ s.3, t.4 ∙ s.4, t.5 ∙ s.5, t.6 ∙ s.6, t.7 ∙ s.7)

-- A create that is refused, for its thread, its quote or an attachment, adds no message, and
-- changes no message, order, reaction, upload, space or member.
pub create_message-failed :
    (now : ℕ) (space : Str) (req : MessageCreate) (c : Chat) {e : Failure} {d : Chat}
    → create_message now space req c ≡ (failed e, d)
    → SameContent c d
unfolding create_message
create_message-failed now space req c {e = e} {d = d} h =
    by_thread (resolve_thread space req c).0 (resolve_thread space req c).1
      (resolve_thread-SameContent space req c) h
  where
    by_thread :
        (r : Reply Str) (b : Chat)
        → SameContent c b
        → with_thread now space req r b ≡ (failed e, d)
        → SameContent c d
    by_thread (failed x) b s q = subst (SameContent c) (ap (λ p. p.1) q) s
    by_thread (done thread) b s q = subst (SameContent c) (ap (λ p. p.1) q) (
        same_twice c b (create_in now space req thread b).1 s (
          Created-failed now space req thread b (create_in-Created now space req thread b)
            (ap (λ p. p.0) q)))

-- The thread and the state in which a message that is accepted was made.
create_message-inversion :
    (now : ℕ) (space : Str) (req : MessageCreate) (c : Chat) {m : Message} {d : Chat}
    → create_message now space req c ≡ (done m, d)
    → (thread : Str) × (b : Chat) × (resolve_thread space req c ≡ (done thread, b))
      × (quoted : Option Quote) × (quote_of req.quote thread b ≡ done quoted)
      × Inserted space req thread quoted m b d
unfolding create_message
create_message-inversion now space req c {m = m} {d = d} h =
    by_thread (resolve_thread space req c).0 (resolve_thread space req c).1 refl h
  where
    by_thread :
        (r : Reply Str) (b : Chat)
        → resolve_thread space req c ≡ (r, b)
        → with_thread now space req r b ≡ (done m, d)
        → (thread : Str) × (b : Chat) × (resolve_thread space req c ≡ (done thread, b))
          × (quoted : Option Quote) × (quote_of req.quote thread b ≡ done quoted)
          × Inserted space req thread quoted m b d
    by_thread (failed x) b s q = cc
    by_thread (done thread) b s q =
        let (quoted, x, i) =
          Created-done now space req thread b (create_in-Created now space req thread b)
            (ap (λ p. p.0) q) in
        (thread, b, s, quoted, x, subst (Inserted space req thread quoted m b) (ap (λ p. p.1) q) i)

resolved-SameContent :
    (space : Str) (req : MessageCreate) (c : Chat) {r : Reply Str} {b : Chat}
    → resolve_thread space req c ≡ (r, b)
    → SameContent c b
resolved-SameContent space req c s =
    subst (λ p. SameContent c p.1) s (resolve_thread-SameContent space req c)

-- A message that is accepted can be fetched under its name, stands last in the order of its space,
-- and has the text asked for and the driver's identity as its sender.
pub create_message-stored :
    (now : ℕ) (space : Str) (req : MessageCreate) (c : Chat) {m : Message} {d : Chat}
    → create_message now space req c ≡ (done m, d)
    → (get_message m.name d ≡ some m)
      × (get_or d.order space [] ≡ get_or c.order space [] ++ (m.name ∷ []))
      × (m.text ≡ req.text)
      × (m.sender ≡ c.identity)
create_message-stored now space req c {m = m} h =
    let (thread, b, s, quoted, x, i) = create_message-inversion now space req c h in
    let same = resolved-SameContent space req c s in
    (i.0, i.1 ∙ ap (λ o. get_or o space [] ++ (m.name ∷ [])) same.1, i.2, i.3 ∙ same.7)

-- Where the thread of a strict reply comes from: it is the thread asked for, which is known, or the
-- one that the thread key stands for already.
abbrev IsKnownThread : Str → MessageCreate → Chat → Str → Type 0
IsKnownThread space req c thread =
    ((nonempty req.thread ≡ true) × (thread ≡ req.thread) × (contains c.threads req.thread ≡ true))
    ⊎ ((nonempty req.thread ≡ false)
        × (get c.thread_keys (record { space = space; key = req.thread_key }) ≡ some thread))

strict_thread :
    (space : Str) (req : MessageCreate) (c : Chat) {thread : Str} {b : Chat}
    → req.reply ≡ reply_or_fail
    → (nonempty req.thread || nonempty req.thread_key) ≡ true
    → resolve_thread space req c ≡ (done thread, b)
    → IsKnownThread space req c thread
unfolding resolve_thread
strict_thread space req c r n h = ground arith

IsKnownThread-nonempty :
    (space : Str) (req : MessageCreate) (c : Chat) {thread : Str}
    → ((k : ThreadKey) (t : Str) → get c.thread_keys k ≡ some t → nonempty t ≡ true)
    → IsKnownThread space req c thread
    → nonempty thread ≡ true
IsKnownThread-nonempty space req c stored (inl k) = subst (λ t. nonempty t ≡ true) (sym (k.1)) (k.0)
IsKnownThread-nonempty space req c stored (inr k) = stored _ _ k.1

-- Where no thread key stands for an empty name: a reply that names a thread or a thread key, and must
-- not start a thread, is accepted only into a thread that was there before: the thread that it names,
-- which was known, or, when it names none, the thread that its key stood for.
pub create_message-in_thread :
    (now : ℕ) (space : Str) (req : MessageCreate) (c : Chat) {m : Message} {d : Chat}
    → req.reply ≡ reply_or_fail
    → (nonempty req.thread || nonempty req.thread_key) ≡ true
    → ((k : ThreadKey) (t : Str) → get c.thread_keys k ≡ some t → nonempty t ≡ true)
    → create_message now space req c ≡ (done m, d)
    → IsKnownThread space req c m.thread
create_message-in_thread now space req c r n stored h =
    let (thread, b, s, quoted, x, i) = create_message-inversion now space req c h in
    let k = strict_thread space req c r n s in
    subst (IsKnownThread space req c) (sym (i.5 (IsKnownThread-nonempty space req c stored k))) k

quote_of-done :
    (q : QuoteRequest) (thread : Str) (c : Chat) {quoted : Option Quote}
    → quote_of (some q) thread c ≡ done quoted
    → (original : Message) × (get c.messages q.name ≡ some original)
      × (quoted
          ≡ some (record {
            name = original.name;
            last_update_time = latest original;
            text = original.text;
          }))
      × (is_stale (latest original) q.last_update_time ≡ false)
      × ((original.thread ≡ thread) ⊎ (is_root original c ≡ true))
unfolding resolve_quote
quote_of-done q thread c h = elim (Option-cases (get c.messages q.name)) [
  | inl e ↦ absurd (ground arith)
  | inr (m, e) ↦ (m, e, ground arith, ground arith, ground arith)
]

is_root-same :
    (o : Message) (c b : Chat) → b.thread_roots ≡ c.thread_roots → is_root o b ≡ is_root o c
is_root-same o c b e = rw e refl

-- A message that is accepted with a quote carries the text and the time of the latest version of
-- the message quoted, which is in the same thread or is the root of its own. Every message stored
-- before is in a thread.
pub create_message-quoted :
    (now : ℕ) (space : Str) (req : MessageCreate) (q : QuoteRequest) (c : Chat) {m : Message}
    {d : Chat}
    → ((n : Str) (o : Message) → get_message n c ≡ some o → nonempty o.thread ≡ true)
    → req.quote ≡ some q
    → create_message now space req c ≡ (done m, d)
    → (original : Message) × (get_message q.name c ≡ some original)
      × (m.quoted
          ≡ some (record {
            name = original.name;
            last_update_time = latest original;
            text = original.text;
          }))
      × (is_stale (latest original) q.last_update_time ≡ false)
      × ((original.thread ≡ m.thread) ⊎ (is_root original c ≡ true))
unfolding get_message
create_message-quoted now space req q c {m = m} threads w h =
    let (thread, b, s, quoted, x, i) = create_message-inversion now space req c h in
    let same = resolved-SameContent space req c s in
    let (o, e, p, fresh, place) =
      quote_of-done q thread b (subst (λ y. quote_of y thread b ≡ done quoted) w x) in
    let at : get c.messages q.name ≡ some o = ap (λ y. get y q.name) (sym same.0) ∙ e in
    let near : o.thread ≡ thread → (o.thread ≡ m.thread) ⊎ (is_root o c ≡ true) =
      λ t. inl (t ∙ sym (i.5 (subst (λ y. nonempty y ≡ true) t (threads q.name o at)))) in
    (
      o,
      at,
      i.4 ∙ p,
      fresh,
      elim place [ inl t ↦ near t | inr r ↦ inr (sym (is_root-same o c b same.2) ∙ r) ],
    )
