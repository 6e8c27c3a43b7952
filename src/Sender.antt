-- ===== src/Sender.antt =====
-- internal/domain/sender.go and internal/sender/sender.go: the interface of a sender and its five
-- implementations. They only write to the log, which is not modelled, so they leave the world.
pub mod Masking
use Prim.Native.String.{len}
use notification_system.Base.{
  ℕ, ◌-◌, String, Option, none, some, List, [], ◌∷◌, ◌++◌, length, take, drop, ltb, leb, ◌==◌, ◌<>◌,
  if◌then◌else◌,
}
use notification_system.Failure.{Failure, other}
use notification_system.Effect.{Exec, pure, panic}
use notification_system.Domain.{
  Channel, Notification, channel_ios, channel_android, channel_sms, channel_email,
}

pub record Sender (W : Type 0) : Type 0 where
  pub channel : Channel
  pub send : Notification → Exec W (Option Failure)

module _ {W : Type 0} where
  unfoldable pub mock_send : Notification → Exec W (Option Failure)
  mock_send n = pure none

  -- The log line slices the token, `n.RecipientToken[:8]`, and a slice past the end panics.
  unfoldable pub apns_send : Notification → Exec W (Option Failure)
  apns_send n =
      if n.recipient_token == ""
      then pure (some (other ("apns: notification " <> n.id <> " has no device token")))
      else if ltb (len n.recipient_token) 8
      then panic
      else pure none

  unfoldable pub fcm_send : Notification → Exec W (Option Failure)
  fcm_send n =
      if n.recipient_token == ""
      then pure (some (other ("fcm: notification " <> n.id <> " has no device token")))
      else pure none

  unfoldable pub sms_send : Notification → Exec W (Option Failure)
  sms_send n =
      if n.recipient_phone == ""
      then pure (some (other ("sms: notification " <> n.id <> " has no phone number")))
      else pure none

  unfoldable pub email_send : Notification → Exec W (Option Failure)
  email_send n =
      if n.recipient_email == ""
      then pure (some (other ("email: notification " <> n.id <> " has no email address")))
      else pure none

  abbrev pub mock_sender : Channel → Sender W
  mock_sender channel = record { channel = channel; send = mock_send }

  abbrev pub apns_sender : Sender W
  apns_sender = record { channel = channel_ios; send = apns_send }

  abbrev pub fcm_sender : Sender W
  fcm_sender = record { channel = channel_android; send = fcm_send }

  abbrev pub sms_sender : Sender W
  sms_sender = record { channel = channel_sms; send = sms_send }

  abbrev pub email_sender : Sender W
  email_sender = record { channel = channel_email; send = email_send }

abbrev stars : List ℕ
stars = b'*' ∷ b'*' ∷ b'*' ∷ b'*' ∷ []

-- The bytes of `mask(s)`, which goes into the log lines.
unfoldable pub mask : List ℕ → List ℕ
mask s = if leb (length s) 4 then stars else take 2 s ++ (stars ++ drop (length s - 2) s)
