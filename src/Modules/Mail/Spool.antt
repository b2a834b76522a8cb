-- ===== src/Modules/Mail/Spool.antt =====
-- driver.py and spool.py of the mail module: delivery is a file in a directory. SHA-256, of which
-- the driver takes the first digits, and the file system's writes are parameters.
pub mod Ways
pub mod Traces
pub mod Once
use mathlib.Core.List.{reverse}
use jetty.Prelude.{
  ℕ, Bool, true, false, not, Option, none, some, List, [], ◌∷◌, ◌++◌, ◌==◌, ◌&&◌, ◌||◌, keep,
  nonempty, take, if◌then◌else◌,
}
use jetty.Prelude.Dict.{Dict, get, put}
use jetty.Prelude.Text.{Str, str_eq, codes, partition, starts_with}

pub record MailSend : Type 0 where
  pub idempotency_key : Str
  pub from_addr : Str
  pub to : List Str
  pub subject : Str
  pub text : Str
  pub cc : List Str
  pub bcc : List Str
  pub reply_to : List Str
  pub html : Str
  pub thread_key : Str
  pub tags : List Str
  pub dry_run : Bool

pub record SendResult : Type 0 where
  pub message_id : Str
  pub deduped : Bool

pub data SendError : Type 0 where
  unavailable : SendError
  rate_limited : ℕ → SendError
  sender_not_permitted : Str → SendError
  unroutable : List Str → SendError

pub data Reply : Type 0 where
  sent : SendResult → Reply
  raised : SendError → Reply

-- A spool file: the message's fields, its id and the time. What is empty is left out of the JSON.
pub record Row : Type 0 where
  pub message : MailSend
  pub message_id : Str
  pub accepted_at : Str

-- A file that parses as a row with both keys; a file that parses as a list, a number or a text,
-- whose keys are a `TypeError`; or any other file, which the program skips.
pub data Content : Type 0 where
  row : Row → Content
  not_an_object : Content
  other : Content

pub record Spool : Type 0 where
  pub sender : Str
  pub domain : Str
  pub fail : Str
  pub files : Dict Str Content
  -- idempotency key -> message id
  pub seen : Dict Str Str

-- `_strip_plus`
unfoldable pub strip_plus : Str → Str
strip_plus address =
    let cut = partition b'@' address in (partition b'+' cut.before).before ++ (b'@' ∷ cut.after)

-- `a.rpartition("@")[2]`: what follows the last @, or all of it.
unfoldable pub after_at : Str → Str
after_at a = reverse (partition b'@' (reverse a)).before

abbrev pub recipients : MailSend → List Str
recipients msg = msg.to ++ (msg.cc ++ msg.bcc)

unfoldable pub unroutable_of : Spool → MailSend → List Str
unroutable_of s msg =
    if nonempty s.domain then keep (λ a. not (after_at a == s.domain)) (recipients msg) else []

-- How writing the spool file ends: complete, not begun, or broken off.
pub data Writing : Type 0 where
  written not_opened broken_off : Writing

unfoldable pub ends_with : Str → Str → Bool
ends_with s suffix = starts_with (reverse s) (reverse suffix)

-- The loop of `__init__`: every row in a .json file is remembered; `none` is the `TypeError`.
unfoldable pub boot_from : Dict Str Str → Dict Str Content → Option (Dict Str Str)
boot_from seen [] = some seen
boot_from seen ((name, other) ∷ files) = boot_from seen files
boot_from seen ((name, not_an_object) ∷ files) =
    let rest = boot_from seen files in if ends_with name (codes ".json") then none else rest
boot_from seen ((name, row r) ∷ files) =
    boot_from
      (if ends_with name (codes ".json")
        then put seen r.message.idempotency_key r.message_id
        else seen)
      files

unfoldable pub boot : (sender domain fail : Str) → Dict Str Content → Option Spool
boot sender domain fail files = elim (boot_from [] files) [
  | none ↦ none
  | some seen ↦
      some (record { sender = sender; domain = domain; fail = fail; files = files; seen = seen })
]

-- The driver over the digest and the clock's text.
module _ (digest : Str → Str) where
  abbrev pub id_of : Str → Str
  id_of key = codes "<" ++ (digest key ++ codes "@jetty-mail>")

  abbrev pub file_of : Str → Str
  file_of key = digest key ++ codes ".json"

  -- From the look at `_seen` on.
  unfoldable pub deliver : Str → Writing → MailSend → Spool → Reply × Spool
  deliver now writing msg s =
      let key = msg.idempotency_key in
      elim (get s.seen key) [
        | some existing ↦ (sent (record { message_id = existing; deduped = true }), s)
        | none ↦ elim writing as (λ _. Reply × Spool) [
          | not_opened ↦ (raised unavailable, s)
          | broken_off ↦ (raised unavailable, record s { files = put s.files (file_of key) other })
          | written ↦ (
            sent (record { message_id = id_of key; deduped = false }),
            record s {
              files =
                  put s.files (file_of key)
                    (row (record { message = msg; message_id = id_of key; accepted_at = now }));
              seen = put s.seen key (id_of key);
            },
          )
        ]
      ]

  -- `send`
  unfoldable pub send : Str → Writing → MailSend → Spool → Reply × Spool
  send now writing msg s =
      let bad = unroutable_of s msg in
      if s.fail == codes "503"
      then (raised unavailable, s)
      else if s.fail == codes "429"
      then (raised (rate_limited 60), s)
      else if nonempty s.sender && not (strip_plus msg.from_addr == strip_plus s.sender)
      then (raised (sender_not_permitted s.sender), s)
      else if s.fail == codes "422" || nonempty bad
      then (raised (unroutable (if nonempty bad then bad else take 1 (recipients msg))), s)
      else if msg.dry_run
      then (sent (record { message_id = codes "<dry-run@jetty-mail>"; deduped = false }), s)
      else deliver now writing msg s
