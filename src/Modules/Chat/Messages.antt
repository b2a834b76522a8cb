-- ===== src/Modules/Chat/Messages.antt =====
-- Messages, reactions and uploads of `MockChatDriver`.
use jetty.Prelude.{
  ℕ, ◌+◌, ◌-◌, Bool, true, false, not, Option, none, some, List, [], ◌∷◌, ◌++◌, ◌==◌, ◌&&◌, ◌||◌,
  eqb, ltb, leb, nat_eq, contains, nonempty, keep, sorted, if◌then◌else◌,
}
use jetty.Prelude.Dict.{Dict, values, get, get_or, has, put, remove}
use jetty.Prelude.Text.{Str, str_eq, codes, starts_with}
use jetty.Prelude.Text.Case.{lower, has_part}
use jetty.Prelude.Text.Decimal.{str_of}
use jetty.Modules.Paging.{Page}
use jetty.Modules.Chat.{
  MessageQuery, MessageSearch, Attachment, Quote, QuoteRequest, Message, reply_new, reply_or_fail,
  MessageCreate, Reaction, Upload, ThreadKey, thread_key_eq,
}
use jetty.Modules.Chat.Mock.{
  Chat, no_quoted, stale_quote, foreign_quote, no_upload, no_space, thread_not_found, lookup_error,
  Reply, done, failed, new_thread, insert, page_of, space_of,
}

-- `[self._messages[n] for n in names]`; `none` is the `KeyError`.
unfoldable pub rows_of : Dict Str Message → List Str → Option (List Message)
rows_of messages [] = some []
rows_of messages (n ∷ ns) = elim (rows_of messages ns) [
  | none ↦ none
  | some ms ↦ elim (get messages n) [ none ↦ none | some m ↦ some (m ∷ ms) ]
]

-- The three filters of `list_messages`.
abbrev pub is_wanted : MessageQuery → Message → Bool
is_wanted query m =
    (not (nonempty query.thread) || (m.thread == query.thread))
    && ((eqb query.after 0 || ltb query.after m.create_time)
        && (eqb query.before 0 || ltb m.create_time query.before))

-- The order of `sort` by `create_time`, which is stable both ways.
abbrev pub in_time : Bool → Message → Message → Bool
in_time descending a b =
    if descending then leb b.create_time a.create_time else leb a.create_time b.create_time

unfoldable pub list_messages : Str → MessageQuery → Chat → Reply (List Message × Str)
unfolding rows_of
list_messages space query c = elim (rows_of c.messages (get_or c.order space [])) [
  | none ↦ failed lookup_error
  | some rows ↦ page_of (sorted (in_time query.descending) (keep (is_wanted query) rows)) query.page
]

unfoldable pub get_message : Str → Chat → Option Message
get_message name c = get c.messages name

unfoldable pub search_messages : MessageSearch → Chat → Reply (List Message × Str)
search_messages req c =
    page_of
      (sorted (in_time req.descending)
        (keep (λ (m : Message). has_part (lower m.text) (lower req.filter)) (values c.messages)))
      req.page

-- `_resolve_thread`: the thread, or an empty text for a new one, and the new state.
unfoldable pub resolve_thread : Str → MessageCreate → Chat → Reply Str × Chat
unfolding new_thread
resolve_thread space req c =
    let key : ThreadKey = record { space = space; key = req.thread_key } in
    let started = new_thread space c in
    let absent = elim req.reply as (λ _. Bool) [ reply_or_fail ↦ true | _ ↦ false ] in
    let fresh = elim req.reply as (λ _. Bool) [ reply_new ↦ true | _ ↦ false ] in
    if fresh || not (nonempty req.thread || nonempty req.thread_key)
    then (done [], c)
    else if nonempty req.thread
    then (
      if contains c.threads req.thread
          then done req.thread
          else if absent
          then failed thread_not_found
          else done [],
      c,
    )
    else elim (get c.thread_keys key) [
      | some thread ↦ (done thread, c)
      | none ↦ if absent then (failed thread_not_found, c) else (
        done started.0,
        record (started.1) { thread_keys = put c.thread_keys key started.0 },
      )
    ]

abbrev pub latest : Message → ℕ
latest m = if eqb m.update_time 0 then m.create_time else m.update_time

-- `abs(current - last) > 1e-6`, in microseconds. The source subtracts two floats, so two times that
-- are one microsecond apart may count as different there; the model takes them as equal.
abbrev pub is_stale : ℕ → ℕ → Bool
is_stale current last = ltb 1 ((current - last) + (last - current))

abbrev pub is_root : Message → Chat → Bool
is_root m c = elim (get c.thread_roots m.thread) as (λ _. Bool) [
  | none ↦ false
  | some n ↦ n == m.name
]

-- `_resolve_quote`
unfoldable pub resolve_quote : QuoteRequest → Str → Chat → Reply Quote
resolve_quote quote thread c = elim (get c.messages quote.name) [
  | none ↦ failed no_quoted
  | some m ↦
      if is_stale (latest m) quote.last_update_time
      then failed stale_quote
      else if not (m.thread == thread) && not (is_root m c)
      then failed foreign_quote
      else done (record { name = m.name; last_update_time = latest m; text = m.text })
]

abbrev pub quote_of : Option QuoteRequest → Str → Chat → Reply (Option Quote)
quote_of none thread c = done none
quote_of (some quote) thread c = elim (resolve_quote quote thread c) [
  | failed e ↦ failed e
  | done q ↦ done (some q)
]

-- `_resolve_attachment`, for each reference.
unfoldable pub resolve_attachments : List Str → Chat → Reply (List Attachment)
resolve_attachments [] c = done []
resolve_attachments (ref ∷ refs) c =
    let rest = resolve_attachments refs c in
    elim (get c.uploads ref) [
      | none ↦ failed no_upload
      | some upload ↦ elim rest [
        | failed e ↦ failed e
        | done more ↦
            done
              (record { content_name = upload.filename; content_type = upload.content_type } ∷ more)
      ]
    ]

-- `create_message`, from where the thread is known.
unfoldable pub create_in : ℕ → Str → MessageCreate → Str → Chat → Reply Message × Chat
unfolding insert
create_in now space req thread c =
    elim (quote_of req.quote thread c) as (λ _. Reply Message × Chat) [
      | failed e ↦ (failed e, c)
      | done quoted ↦ elim (resolve_attachments req.attachments c) as (λ _. Reply Message × Chat) [
        | failed e ↦ (failed e, c)
        | done attachments ↦
            let made = insert now space c.identity req.text thread attachments quoted c in
            (done made.0, made.1)
      ]
    ]

abbrev pub with_thread : ℕ → Str → MessageCreate → Reply Str → Chat → Reply Message × Chat
with_thread now space req (failed e) c = (failed e, c)
with_thread now space req (done thread) c = create_in now space req thread c

unfoldable pub create_message : ℕ → Str → MessageCreate → Chat → Reply Message × Chat
create_message now space req c =
    let resolved = resolve_thread space req c in with_thread now space req resolved.0 resolved.1

unfoldable pub patch_message : ℕ → Str → Option Str → Chat → Option Message × Chat
patch_message now name none c = (get c.messages name, c)
patch_message now name (some new) c = elim (get c.messages name) [
  | none ↦ (none, c)
  | some m ↦
      let edited = record m { text = new; update_time = now } in
      (some edited, record c { messages = put c.messages name edited })
]

-- `list.remove`, by the first occurrence; `none` is the `ValueError`.
unfoldable pub remove_first : Str → List Str → Option (List Str)
remove_first n [] = none
remove_first n (x ∷ xs) =
    let rest = remove_first n xs in
    if n == x then some xs else elim rest [ none ↦ none | some ys ↦ some (x ∷ ys) ]

-- The message is gone from `_messages` even where the lookup of its space fails.
unfoldable pub delete_message : Str → Chat → Reply Bool × Chat
unfolding remove_first
delete_message name c =
    let popped = record c { messages = remove c.messages name } in
    if not (has c.messages name)
    then (done false, c)
    else elim (get c.order (space_of name)) as (λ _. Reply Bool × Chat) [
      | none ↦ (failed lookup_error, popped)
      | some names ↦ elim (remove_first name names) as (λ _. Reply Bool × Chat) [
        | none ↦ (failed lookup_error, popped)
        | some rest ↦ (
          done true,
          record popped {
            order = put c.order (space_of name) rest;
            reactions = remove c.reactions name;
          },
        )
      ]
    ]

unfoldable pub create_reaction : Str → Str → Chat → Reaction × Chat
create_reaction message unicode c =
    let reaction : Reaction = record {
      name = message ++ (codes "/reactions/r" ++ str_of c.counter);
      user = c.identity;
      emoji = unicode;
    } in
    (
      reaction,
      record c {
        counter = c.counter + 1;
        reactions = put c.reactions message (get_or c.reactions message [] ++ (reaction ∷ []));
      },
    )

unfoldable pub list_reactions : Str → Page → Chat → Reply (List Reaction × Str)
list_reactions message page c = page_of (get_or c.reactions message []) page

-- `name.rsplit("/reactions/", 1)[0]`: `none` where the separator is missing.
unfoldable pub before_reactions : Str → Option Str
before_reactions [] = none
before_reactions (x ∷ s) = elim (before_reactions s) [
  | some d ↦ some (x ∷ d)
  | none ↦ if starts_with (x ∷ s) (codes "/reactions/") then some [] else none
]

unfoldable pub message_of : Str → Str
unfolding before_reactions
message_of name = elim (before_reactions name) [ none ↦ name | some message ↦ message ]

-- The loop of `delete_reaction`; `none` where no reaction has the name.
unfoldable pub without_reaction : Str → List Reaction → Option (List Reaction)
without_reaction name [] = none
without_reaction name (r ∷ rows) =
    let rest = without_reaction name rows in
    if r.name == name then some rows else elim rest [ none ↦ none | some more ↦ some (r ∷ more) ]

unfoldable pub delete_reaction : Str → Chat → Bool × Chat
unfolding message_of without_reaction
delete_reaction name c =
    elim (without_reaction name (get_or c.reactions (message_of name) [])) as (λ _. Bool × Chat) [
      | none ↦ (false, c)
      | some rows ↦ (true, record c { reactions = put c.reactions (message_of name) rows })
    ]

unfoldable pub upload_attachment : Str → Upload → Chat → Reply Str × Chat
upload_attachment space upload c =
    let ref = space ++ (codes "/attachments/up" ++ str_of c.counter) in
    if not (has c.spaces space)
    then (failed no_space, c)
    else (done ref, record c { counter = c.counter + 1; uploads = put c.uploads ref upload })
