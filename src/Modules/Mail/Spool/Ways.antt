-- ===== src/Modules/Mail/Spool/Ways.antt =====
-- The ways that a send takes through its tests.
use jetty.Prelude.{
  Bool, true, false, not, List, [], ◌∷◌, ◌==◌, ◌≡◌, refl, ◌&&◌, ◌||◌, nonempty, take, inl, inr,
  Bool-cases, if_true, if◌then◌else◌, arith, if_rule,
}
use jetty.Prelude.Text.{Str, str_eq, codes}
use jetty.Modules.Mail.Spool.{
  MailSend, SendError, unavailable, rate_limited, sender_not_permitted, Reply, sent, raised, Spool,
  strip_plus, unroutable, unroutable_of, recipients, Writing, deliver, send,
}

or-right : (x y : Bool) → (x || y) ≡ false → y ≡ false
or-right x y h = ground arith

module _ (digest : Str → Str) (now : Str) where
  -- `send` refuses with its tests, answers a dry run, or goes on to the delivery.
  pub data Way (writing : Writing) (msg : MailSend) (s : Spool) : Reply × Spool → Type 0 where
    forced : (e : SendError) → nonempty s.fail ≡ true → Way writing msg s (raised e, s)
    foreign :
        (nonempty s.sender && not (strip_plus msg.from_addr == strip_plus s.sender)) ≡ true
        → Way writing msg s (raised (sender_not_permitted s.sender), s)
    astray :
        nonempty (unroutable_of s msg) ≡ true
        → Way writing msg s (raised (unroutable (unroutable_of s msg)), s)
    tried :
        msg.dry_run ≡ true
        → unroutable_of s msg ≡ []
        → (nonempty s.sender && not (strip_plus msg.from_addr == strip_plus s.sender)) ≡ false
        → Way writing msg s
            (sent (record { message_id = codes "<dry-run@jetty-mail>"; deduped = false }), s)
    delivered :
        msg.dry_run ≡ false
        → unroutable_of s msg ≡ []
        → (nonempty s.sender && not (strip_plus msg.from_addr == strip_plus s.sender)) ≡ false
        → Way writing msg s (deliver digest now writing msg s)

  nonempty-false : (l : List Str) → nonempty l ≡ false → l ≡ []
  nonempty-false [] h = refl
  nonempty-false (x ∷ l) h = cc

  named : (s part : Str) → (s == part) ≡ true → nonempty part ≡ true → nonempty s ≡ true
  named s part e n = ground arith

  unroutable-Way :
      (writing : Writing) (msg : MailSend) (s : Spool)
      → (s.fail == codes "422" || nonempty (unroutable_of s msg)) ≡ true
      → Way writing msg s (
        raised (
            unroutable (
              if nonempty (unroutable_of s msg)
              then unroutable_of s msg
              else take 1 (recipients msg))),
        s,
      )
  unroutable-Way writing msg s h = elim (Bool-cases (nonempty (unroutable_of s msg))) [
    | inl e ↦ rw (if_true (unroutable_of s msg) (take 1 (recipients msg)) e) (astray e)
    | inr e ↦
        let f : (s.fail == codes "422") ≡ true = ground arith in
        forced _ (named s.fail (codes "422") f refl)
  ]

  pub send-Way :
      (writing : Writing) (msg : MailSend) (s : Spool)
      → Way writing msg s (send digest now writing msg s)
  unfolding send
  send-Way writing msg s =
      if_rule (Way writing msg s) (s.fail == codes "503")
        (λ e. forced unavailable (named s.fail (codes "503") e refl))
        λ _.
          if_rule (Way writing msg s) (s.fail == codes "429")
            (λ e. forced (rate_limited 60) (named s.fail (codes "429") e refl))
            λ _.
              if_rule (Way writing msg s)
                (nonempty s.sender && not (strip_plus msg.from_addr == strip_plus s.sender)) foreign
                λ p.
                  if_rule (Way writing msg s)
                    (s.fail == codes "422" || nonempty (unroutable_of s msg))
                    (unroutable-Way writing msg s)
                    λ (q : (s.fail == codes "422" || nonempty (unroutable_of s msg)) ≡ false).
                      let none_bad =
                        nonempty-false (unroutable_of s msg)
                          (or-right (s.fail == codes "422") (nonempty (unroutable_of s msg)) q) in
                      if_rule (Way writing msg s) msg.dry_run (λ d. tried d none_bad p)
                        λ d. delivered d none_bad p
