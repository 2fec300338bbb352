-- ===== src/Messaging/Publisher/Confirmations.antt =====
-- The channel of confirmations that a publisher of internal/messaging/rabbitmq/publisher.go keeps for
-- all its messages. `publishWithConfirmation` reads what comes next from it and does not compare the
-- delivery tag.
use stockflow_erp_mock.Common.{
  ℕ, suc, ◌+◌, ◌-◌, ◌≤◌, ◌≡◌, refl, Bool, List, [], ◌∷◌, if◌then◌else◌, arith,
}
use stockflow_erp_mock.Messaging.Publisher.{
  Confirmation, refused, channel_closed, not_acknowledged, timed_out, acknowledged,
}

-- The messages that were sent, and the confirmations that were read. The broker confirms the
-- messages in the order in which they were sent, each once.
pub record Session : Type 0 where
  pub sent : ℕ
  pub read : ℕ

-- What a call meets: the client does not send, the wait ends before a confirmation comes, the channel
-- of confirmations is closed, or the call reads one.
pub data Wait : Type 0 where
  client_refuses times_out channel_closes reads : Wait

abbrev pub confirmation_of : Bool → Confirmation
confirmation_of ack = if ack then acknowledged else not_acknowledged

module _ (acks : ℕ → Bool) where
  -- A call of `publishWithConfirmation`, where `acks n` is the broker's answer to the nth message.
  unfoldable pub await_confirmation : Wait → Session → Confirmation × Session
  await_confirmation client_refuses s = (refused, s)
  await_confirmation times_out s = (timed_out, record s { sent = suc s.sent })
  await_confirmation channel_closes s = (channel_closed, record s { sent = suc s.sent })
  await_confirmation reads s =
      (confirmation_of (acks (suc s.read)), record { sent = suc s.sent; read = suc s.read })

  -- The session after some calls, the last one first.
  abbrev pub session : List Wait → Session
  session [] = record { sent = 0; read = 0 }
  session (w ∷ ws) = (await_confirmation w (session ws)).1

  -- The calls that have sent a message and read no confirmation.
  abbrev pub unanswered : List Wait → ℕ
  unanswered [] = 0
  unanswered (times_out ∷ ws) = suc (unanswered ws)
  unanswered (channel_closes ∷ ws) = suc (unanswered ws)
  unanswered (_ ∷ ws) = unanswered ws

  unread : (ws : List Wait) → (session ws).sent ≡ (session ws).read + unanswered ws
  unfolding await_confirmation
  unread [] = omega arith
  unread (client_refuses ∷ ws) = unread ws
  unread (times_out ∷ ws) = ground (arith, unread ws)
  unread (channel_closes ∷ ws) = ground (arith, unread ws)
  unread (reads ∷ ws) = ground (arith, unread ws)

  -- Where the broker confirms in order, a call that reads a confirmation takes the answer to the
  -- message as many places before its own as calls have sent a message and read no confirmation,
  -- having timed out or met a closed channel: its own answer if none has.
  pub await_confirmation_lem :
      (ws : List Wait)
      → (unanswered ws ≤ (session ws).sent)
        × ((await_confirmation reads (session ws)).0
            ≡ confirmation_of (acks (suc (session ws).sent - unanswered ws)))
  unfolding await_confirmation
  await_confirmation_lem ws =
      let e = unread ws in
      let at : suc (session ws).read ≡ suc (session ws).sent - unanswered ws = omega (arith, e) in
      (omega (arith, e), rw at refl)
