-- ===== src/Modules/Mail/Spool/Traces.antt =====
-- What a send leaves behind.
use jetty.Prelude.{
  Bool, true, false, not, none, some, List, [], ◌++◌, ◌==◌, ◌≡◌, ◌≢◌, ◌⊎◌, inl, inr, refl, ap, sym,
  ◌∙◌, ◌&&◌, ◌||◌, contains, contains-append, contains-keep, nonempty, arith, Bool-cases,
  Option-cases,
}
use jetty.Prelude.Dict.{get, put}
use jetty.Prelude.Text.{Str, str_eq, codes}
use jetty.Modules.Mail.Spool.{
  MailSend, SendError, unavailable, sender_not_permitted, unroutable, Reply, sent, raised, Spool,
  strip_plus, after_at, unroutable_of, recipients, Writing, written, not_opened, broken_off,
  deliver, send, row, other, id_of, file_of,
}
use jetty.Modules.Mail.Spool.Ways.{Way, forced, foreign, astray, tried, delivered, send-Way}

-- An address of the message, in copy and blind copy too.
abbrev pub is_recipient : MailSend → Str → Bool
is_recipient msg a = contains msg.to a || (contains msg.cc a || contains msg.bcc a)

-- The sender is the pinned one, up to what follows a plus, and every recipient is in the domain,
-- where these are configured.
pub record IsPermitted (msg : MailSend) (s : Spool) : Type 0 where
  pub sender : (nonempty s.sender ≡ false) ⊎ (strip_plus msg.from_addr ≡ strip_plus s.sender)
  pub routable :
      (a : Str) → is_recipient msg a ≡ true → (nonempty s.domain ≡ false) ⊎ (after_at a ≡ s.domain)

contains-recipients : (msg : MailSend) (a : Str) → contains (recipients msg) a ≡ is_recipient msg a
contains-recipients msg a =
    contains-append msg.to (msg.cc ++ msg.bcc) a
    ∙ ap (λ b. contains msg.to a || b) (contains-append msg.cc msg.bcc a)

contains-unroutable :
    (s : Spool) (msg : MailSend) (a : Str)
    → contains (unroutable_of s msg) a
      ≡ (nonempty s.domain && (is_recipient msg a && not (after_at a == s.domain)))
unfolding unroutable_of
contains-unroutable s msg a = ground (
  arith,
  contains-keep (λ x. not (after_at x == s.domain)) (recipients msg) a,
  contains-recipients msg a,
)

pinned :
    (s : Spool) (msg : MailSend)
    → (nonempty s.sender && not (strip_plus msg.from_addr == strip_plus s.sender)) ≡ false
    → (nonempty s.sender ≡ false) ⊎ (strip_plus msg.from_addr ≡ strip_plus s.sender)
pinned s msg h = elim (Bool-cases (nonempty s.sender)) [
  | inl e ↦ inr (ground arith)
  | inr e ↦ inl e
]

within_domain :
    (s : Spool) (msg : MailSend) (a : Str)
    → unroutable_of s msg ≡ []
    → is_recipient msg a ≡ true
    → (nonempty s.domain ≡ false) ⊎ (after_at a ≡ s.domain)
within_domain s msg a h r =
    let none_left : (nonempty s.domain && (is_recipient msg a && not (after_at a == s.domain)))
        ≡ false =
      sym (contains-unroutable s msg a) ∙ ap (λ l. contains l a) h in
    elim (Bool-cases (nonempty s.domain)) [ inl e ↦ inr (ground arith) | inr e ↦ inl e ]

module _ (digest : Str → Str) (now : Str) where
  -- What `send` answers and what the spool holds afterwards.
  pub data Outcome (writing : Writing) (msg : MailSend) (s : Spool) : Reply × Spool → Type 0 where
    -- A failure that the configuration forces.
    forced_failure : (e : SendError) → nonempty s.fail ≡ true → Outcome writing msg s (raised e, s)
    wrong_sender :
        nonempty s.sender ≡ true
        → strip_plus msg.from_addr ≢ strip_plus s.sender
        → Outcome writing msg s (raised (sender_not_permitted s.sender), s)
    -- The answer names exactly the recipients outside the domain, and there is one.
    outside :
        (bad : List Str)
        → nonempty bad ≡ true
        → ((a : Str)
            → contains bad a
              ≡ (nonempty s.domain && (is_recipient msg a && not (after_at a == s.domain))))
        → Outcome writing msg s (raised (unroutable bad), s)
    dry :
        IsPermitted msg s
        → msg.dry_run ≡ true
        → Outcome writing msg s
            (sent (record { message_id = codes "<dry-run@jetty-mail>"; deduped = false }), s)
    repeated :
        (existing : Str)
        → IsPermitted msg s
        → msg.dry_run ≡ false
        → get s.seen msg.idempotency_key ≡ some existing
        → Outcome writing msg s (sent (record { message_id = existing; deduped = true }), s)
    not_begun :
        IsPermitted msg s
        → msg.dry_run ≡ false
        → writing ≡ not_opened
        → get s.seen msg.idempotency_key ≡ none
        → Outcome writing msg s (raised unavailable, s)
    -- The file is left without its end, and the key is not remembered.
    cut_short :
        IsPermitted msg s
        → msg.dry_run ≡ false
        → writing ≡ broken_off
        → get s.seen msg.idempotency_key ≡ none
        → Outcome writing msg s (
          raised unavailable,
          record s { files = put s.files (file_of digest msg.idempotency_key) other },
        )
    accepted :
        IsPermitted msg s
        → msg.dry_run ≡ false
        → writing ≡ written
        → get s.seen msg.idempotency_key ≡ none
        → Outcome writing msg s (
          sent (record { message_id = id_of digest msg.idempotency_key; deduped = false }),
          record s {
            files = put s.files (file_of digest msg.idempotency_key) (
                row (record {
                  message = msg;
                  message_id = id_of digest msg.idempotency_key;
                  accepted_at = now;
                }));
            seen = put s.seen msg.idempotency_key (id_of digest msg.idempotency_key);
          },
        )

  deliver-Outcome :
      (writing : Writing) (msg : MailSend) (s : Spool)
      → IsPermitted msg s
      → msg.dry_run ≡ false
      → Outcome writing msg s (deliver digest now writing msg s)
  unfolding deliver
  deliver-Outcome not_opened msg s p d = elim (Option-cases (get s.seen msg.idempotency_key)) [
    | inl e ↦ rw (e, deliver) (not_begun p d refl e)
    | inr (x, e) ↦ rw (e, deliver) (repeated x p d e)
  ]
  deliver-Outcome broken_off msg s p d = elim (Option-cases (get s.seen msg.idempotency_key)) [
    | inl e ↦ rw (e, deliver) (cut_short p d refl e)
    | inr (x, e) ↦ rw (e, deliver) (repeated x p d e)
  ]
  deliver-Outcome written msg s p d = elim (Option-cases (get s.seen msg.idempotency_key)) [
    | inl e ↦ rw (e, deliver) (accepted p d refl e)
    | inr (x, e) ↦ rw (e, deliver) (repeated x p d e)
  ]

  permitted :
      (msg : MailSend) (s : Spool)
      → unroutable_of s msg ≡ []
      → (nonempty s.sender && not (strip_plus msg.from_addr == strip_plus s.sender)) ≡ false
      → IsPermitted msg s
  permitted msg s r p = record {
    sender = pinned s msg p;
    routable = λ a m. within_domain s msg a r m;
  }

  Way-Outcome :
      (writing : Writing) (msg : MailSend) (s : Spool) (x : Reply × Spool)
      → Way digest now writing msg s x
      → Outcome writing msg s x
  Way-Outcome writing msg s _ (forced e f) = forced_failure e f
  Way-Outcome writing msg s _ (foreign f) = wrong_sender (ground arith) (λ q. absurd (ground arith))
  Way-Outcome writing msg s _ (astray f) =
      outside (unroutable_of s msg) f (contains-unroutable s msg)
  Way-Outcome writing msg s _ (tried d r p) = dry (permitted msg s r p) d
  Way-Outcome writing msg s _ (delivered d r p) =
      deliver-Outcome writing msg s (permitted msg s r p) d

  -- `send` leaves the spool as it is when it refuses: for a forced failure, for a sender who is not
  -- the pinned one, for recipients outside the domain, all of whom it names, and for a file that
  -- cannot be opened. It leaves the spool as it is after a dry run and for a key that it remembers.
  -- Else, only for the pinned sender and only when every recipient in To, Cc and Bcc is in the
  -- domain, it writes the file of the whole message and remembers its key; where the write breaks
  -- off, it answers that it is unavailable, a file that is no row stays behind, and the key is not
  -- remembered.
  pub send-Outcome :
      (writing : Writing) (msg : MailSend) (s : Spool)
      → Outcome writing msg s (send digest now writing msg s)
  send-Outcome writing msg s =
      Way-Outcome writing msg s (send digest now writing msg s) (send-Way digest now writing msg s)
