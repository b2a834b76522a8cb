-- ===== src/Modules/Mail/Spool/Once.antt =====
-- A message goes out once: what a key has been answered with, it is answered with again.
use jetty.Prelude.{
  true, false, none, some, List, [], ◌∷◌, ◌≡◌, ◌≢◌, ◌⊎◌, inl, inr, refl, ap, sym, ◌∙◌, arith,
  if_true, Option-cases,
}
use jetty.Prelude.Dict.{Dict, get, put, get-put}
use jetty.Prelude.Text.{Str, str_eq}
use jetty.Modules.Mail.Spool.{
  MailSend, SendResult, SendError, unavailable, Reply, sent, raised, Spool, Writing, written,
  not_opened, broken_off, id_of, deliver, send,
}
use jetty.Modules.Mail.Spool.Ways.{Way, forced, foreign, astray, tried, delivered, send-Way}

-- One call of `send`, with the clock and the end of the write that it meets.
pub record Call : Type 0 where
  pub now : Str
  pub writing : Writing
  pub message : MailSend

module _ (digest : Str → Str) where
  abbrev pub call : Call → Spool → Reply × Spool
  call c s = send digest c.now c.writing c.message s

  abbrev pub calls : List Call → Spool → Spool
  calls [] s = s
  calls (c ∷ cs) s = calls cs (call c s).1

  deliver-known :
      (now : Str) (writing : Writing) (msg : MailSend) (s : Spool) {old : Str}
      → get s.seen msg.idempotency_key ≡ some old
      → deliver digest now writing msg s ≡ (sent (record { message_id = old; deduped = true }), s)
  unfolding deliver
  deliver-known now writing msg s e = rw (e, deliver) refl

  deliver-written :
      (now : Str) (msg : MailSend) (s : Spool)
      → get s.seen msg.idempotency_key ≡ none
      → ((deliver digest now written msg s).1.seen
          ≡ put s.seen msg.idempotency_key (id_of digest msg.idempotency_key))
        × ((deliver digest now written msg s).0
            ≡ sent (record { message_id = id_of digest msg.idempotency_key; deduped = false }))
  unfolding deliver
  deliver-written now msg s e = rw (e, deliver) (refl, refl)

  deliver-broken :
      (now : Str) (writing : Writing) (msg : MailSend) (s : Spool)
      → get s.seen msg.idempotency_key ≡ none
      → writing ≢ written
      → ((deliver digest now writing msg s).1.seen ≡ s.seen)
        × ((deliver digest now writing msg s).0 ≡ raised unavailable)
  unfolding deliver
  deliver-broken now written msg s e n = absurd (n refl)
  deliver-broken now not_opened msg s e n = rw (e, deliver) (refl, refl)
  deliver-broken now broken_off msg s e n = rw (e, deliver) (refl, refl)

  put-seen :
      (seen : Dict Str Str) (key k id new : Str)
      → get seen key ≡ none
      → get seen k ≡ some id
      → get (put seen key new) k ≡ some id
  put-seen seen key k id new e h =
      rw get-put (elim (str_eq.dec k key) [ yes q ↦ absurd (ground arith) | no q ↦ ground arith ])

  deliver-seen :
      (now : Str) (writing : Writing) (msg : MailSend) (s : Spool) (k id : Str)
      → get s.seen k ≡ some id
      → get (deliver digest now writing msg s).1.seen k ≡ some id
  deliver-seen now writing msg s k id h =
      fresh_or_known (Option-cases (get s.seen msg.idempotency_key)) writing
    where
      fresh_or_known :
          (get s.seen msg.idempotency_key ≡ none)
            ⊎ ((old : Str) × (get s.seen msg.idempotency_key ≡ some old))
          → (w : Writing) → get (deliver digest now w msg s).1.seen k ≡ some id
      fresh_or_known (inr (old, e)) w =
          ap (λ (x : Reply × Spool). get x.1.seen k) (deliver-known now w msg s e) ∙ h
      fresh_or_known (inl e) written =
          ap (λ (d : Dict Str Str). get d k) (deliver-written now msg s e).0
          ∙ put-seen s.seen msg.idempotency_key k id (id_of digest msg.idempotency_key) e h
      fresh_or_known (inl e) not_opened =
          ap (λ (d : Dict Str Str). get d k) (deliver-broken now not_opened msg s e (λ q. cc)).0 ∙ h
      fresh_or_known (inl e) broken_off =
          ap (λ (d : Dict Str Str). get d k) (deliver-broken now broken_off msg s e (λ q. cc)).0 ∙ h

  seen-kept :
      {now : Str} {writing : Writing} {msg : MailSend} {s : Spool} {x : Reply × Spool} (k id : Str)
      → Way digest now writing msg s x
      → get s.seen k ≡ some id
      → get x.1.seen k ≡ some id
  seen-kept k id (forced e f) h = h
  seen-kept k id (foreign f) h = h
  seen-kept k id (astray f) h = h
  seen-kept k id (tried d r p) h = h
  seen-kept {now} {writing} {msg} {s} k id (delivered d r p) h =
      deliver-seen now writing msg s k id h

  calls-seen :
      (cs : List Call) (s : Spool) (k id : Str)
      → get s.seen k ≡ some id
      → get (calls cs s).seen k ≡ some id
  calls-seen [] s k id h = h
  calls-seen (c ∷ cs) s k id h =
      calls-seen cs (call c s).1 k id
        (seen-kept k id (send-Way digest c.now c.writing c.message s) h)

  -- A reply that changes nothing: the id of the earlier message, or a refusal.
  unfoldable pub Answered : Str → Spool → Reply × Spool → Type 0
  Answered id s x =
      (x.1 ≡ s)
      × ((x.0 ≡ sent (record { message_id = id; deduped = true }))
          ⊎ ((e : SendError) × (x.0 ≡ raised e)))

  answered :
      {now : Str} {writing : Writing} {msg : MailSend} {s : Spool} {x : Reply × Spool} {id : Str}
      → Way digest now writing msg s x
      → msg.dry_run ≡ false
      → get s.seen msg.idempotency_key ≡ some id
      → Answered id s x
  unfolding Answered
  answered (forced e f) wet h = (refl, inr (_, refl))
  answered (foreign f) wet h = (refl, inr (_, refl))
  answered (astray f) wet h = (refl, inr (_, refl))
  answered (tried d r p) wet h = absurd (ground arith)
  answered {now} {writing} {msg} {s} (delivered d r p) wet h =
      rw (deliver-known now writing msg s h) (refl, inl refl)

  abbrev id_in : Reply → Str
  id_in (sent r) = r.message_id
  id_in (raised e) = []

  deliver-accepted :
      (now : Str) (writing : Writing) (msg : MailSend) (s : Spool) {r : SendResult}
      → (deliver digest now writing msg s).0 ≡ sent r
      → get (deliver digest now writing msg s).1.seen msg.idempotency_key ≡ some r.message_id
  deliver-accepted now writing msg s {r} h =
      fresh_or_known (Option-cases (get s.seen msg.idempotency_key)) writing h
    where
      raised-sent : {e : SendError} → raised e ≡ sent r → ⊥
      raised-sent q = cc

      key : Str
      key = msg.idempotency_key

      fresh_or_known :
          (get s.seen key ≡ none) ⊎ ((old : Str) × (get s.seen key ≡ some old))
          → (w : Writing) → (deliver digest now w msg s).0 ≡ sent r
          → get (deliver digest now w msg s).1.seen key ≡ some r.message_id
      fresh_or_known (inr (old, e)) w q =
          let known = deliver-known now w msg s e in
          ap (λ (x : Reply × Spool). get x.1.seen key) known
          ∙ (e ∙ ap some (ap id_in (sym (ap (λ (x : Reply × Spool). x.0) known) ∙ q)))
      fresh_or_known (inl e) written q =
          let new = deliver-written now msg s e in
          ap (λ (d : Dict Str Str). get d key) new.0
          ∙ (get-put s.seen key key (id_of digest key)
              ∙ (if_true (some (id_of digest key)) (get s.seen key) (ground arith)
                  ∙ ap some (ap id_in (sym new.1 ∙ q))))
      fresh_or_known (inl e) not_opened q =
          let failed = (deliver-broken now not_opened msg s e (λ q'. cc)).1 in
          absurd (raised-sent (sym failed ∙ q))
      fresh_or_known (inl e) broken_off q =
          let failed = (deliver-broken now broken_off msg s e (λ q'. cc)).1 in
          absurd (raised-sent (sym failed ∙ q))

  accepted :
      {now : Str} {writing : Writing} {msg : MailSend} {s : Spool} {x : Reply × Spool}
      {r : SendResult}
      → Way digest now writing msg s x
      → msg.dry_run ≡ false
      → x.0 ≡ sent r
      → get x.1.seen msg.idempotency_key ≡ some r.message_id
  accepted (forced e f) wet h = cc
  accepted (foreign f) wet h = cc
  accepted (astray f) wet h = cc
  accepted (tried d r p) wet h = absurd (ground arith)
  accepted {now} {writing} {msg} {s} (delivered d r p) wet h = deliver-accepted now writing msg s h

  -- Once a message that is no dry run has been accepted, then after any further sends a message
  -- with its key that is no dry run leaves the spool as it is and is answered with the same
  -- message id, marked as a duplicate, unless it is refused.
  pub resend-Answered :
      (first again : Call) (between : List Call) (s : Spool) {r : SendResult}
      → first.message.dry_run ≡ false
      → (call first s).0 ≡ sent r
      → again.message.dry_run ≡ false
      → again.message.idempotency_key ≡ first.message.idempotency_key
      → Answered r.message_id
          (calls between (call first s).1)
          (call again (calls between (call first s).1))
  resend-Answered first again between s {r} wet ok wet_again same =
      let s' = calls between (call first s).1 in
      let there : get (call first s).1.seen first.message.idempotency_key ≡ some r.message_id =
        accepted (send-Way digest first.now first.writing first.message s) wet ok in
      answered (send-Way digest again.now again.writing again.message s') wet_again (
        rw same
          (calls-seen between (call first s).1 first.message.idempotency_key r.message_id there))
