-- ===== src/Modules/Mail/Tests.antt =====
-- A spool with a pinned sender, and the theorems at concrete inputs.
use jetty.Prelude.{false, some, [], ◌∷◌, ◌≡◌, refl}
use jetty.Prelude.Dict.{get}
use jetty.Prelude.Text.{Str, str_eq, codes, partition}
use jetty.Modules.Mail.Spool.{
  MailSend, sent, Spool, boot, written, broken_off, send, deliver, unroutable_of, id_of, strip_plus,
  after_at, boot_from,
}
use jetty.Modules.Mail.Spool.Traces.{Outcome, send-Outcome}
use jetty.Modules.Mail.Spool.Once.{Call, call, calls, Answered, resend-Answered}

-- A digest for the tests: the text itself.
abbrev plain : Str → Str
plain key = key

abbrev spool : Spool
spool = record {
  sender = codes "bot@corp.test";
  domain = codes "corp.test";
  fail = [];
  files = [];
  seen = [];
}

boot_empty : boot (codes "bot@corp.test") (codes "corp.test") [] [] ≡ some spool
unfolding boot boot_from
boot_empty = refl

abbrev mail : Str → MailSend
mail key = record {
  idempotency_key = key;
  from_addr = codes "bot+thread@corp.test";
  to = codes "ann@corp.test" ∷ [];
  subject = codes "hi";
  text = codes "there";
  cc = [];
  bcc = [];
  reply_to = [];
  html = [];
  thread_key = [];
  tags = [];
  dry_run = false;
}

abbrev first : Call
first = record { now = codes "1"; writing = written; message = mail (codes "k1") }

abbrev second : Call
second = record { now = codes "2"; writing = written; message = mail (codes "k2") }

abbrev broken : Call
broken = record { now = codes "2"; writing = broken_off; message = mail (codes "k3") }

first_sent :
    (call plain first spool).0
    ≡ sent (record { message_id = id_of plain (codes "k1"); deduped = false })
unfolding send deliver unroutable_of str_eq strip_plus partition after_at get
first_sent = refl

resend-Answered_example :
    Answered plain
      (id_of plain (codes "k1"))
      (calls plain (second ∷ broken ∷ []) (call plain first spool).1)
      (call plain first (calls plain (second ∷ broken ∷ []) (call plain first spool).1))
resend-Answered_example =
    resend-Answered plain first first (second ∷ broken ∷ []) spool refl first_sent refl refl

send-Outcome_example :
    Outcome plain
      (codes "1")
      written
      (mail (codes "k1"))
      spool
      (send plain (codes "1") written (mail (codes "k1")) spool)
send-Outcome_example = send-Outcome plain (codes "1") written (mail (codes "k1")) spool
