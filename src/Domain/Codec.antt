-- ===== src/Domain/Codec.antt =====
-- json.Marshal and json.Unmarshal of a `Notification`, by the tags of its struct.
pub mod RoundTrip
use notification_system.Base.{String, Bool, Option, none, some, List, ◌++◌, ◌==◌, if◌then◌else◌}
use notification_system.Domain.{Notification, Payload, Time}
use notification_system.Json.{
  Json, null, text, object, Members, end, member, Bytes, TimeFormat, same_name, into_text, entries,
  of_entries,
}

abbrev payload_json : Payload → Json
payload_json none = null
payload_json (some es) = object (of_entries es)

-- `omitempty`: an empty text and a nil pointer give no member.
unfoldable pub unless_empty : String → String → Members → Members
unless_empty key s ms = if s == "" then ms else member key (text s) ms

-- Decoding into the map, which keeps the entries that it has.
abbrev pub into_payload : Json → Payload → Option Payload
into_payload null old = some none
into_payload (object ms) none = elim (entries ms) [ none ↦ none | some es ↦ some (some es) ]
into_payload (object ms) (some old) = elim (entries ms) [
  | none ↦ none
  | some es ↦ some (some (old ++ es))
]
into_payload _ old = none

abbrev set_to {ℓ} : {A : Type ℓ} → Option A → (A → Notification) → Option Notification
set_to none f = none
set_to (some a) f = some (f a)

abbrev pub zero_notification : Notification
zero_notification = record {
  id = "";
  user_id = "";
  channel = "";
  template_id = "";
  payload = none;
  status = "";
  created_at = 0;
  scheduled_at = none;
  recipient_email = "";
  recipient_phone = "";
  recipient_token = "";
}

module _ (tf : TimeFormat) where
  unfoldable pub unless_nil : String → Option Time → Members → Members
  unless_nil key none ms = ms
  unless_nil key (some t) ms = member key (text (tf.format t)) ms

  unfoldable pub marshal : Notification → Json
  marshal n = object (
      member "id" (text n.id) (
        member "user_id" (text n.user_id) (
          member "channel" (text n.channel) (
            member "template_id" (text n.template_id) (
              member "payload" (payload_json n.payload) (
                member "status" (text n.status) (
                  member "created_at" (text (tf.format n.created_at)) (
                    unless_nil "scheduled_at" n.scheduled_at (
                      unless_empty "recipient_email" n.recipient_email (
                        unless_empty "recipient_phone" n.recipient_phone
                          (unless_empty "recipient_token" n.recipient_token end)))))))))))

  abbrev into_time : Json → Time → Option Time
  into_time null old = some old
  into_time (text s) old = tf.parse s
  into_time _ old = none

  abbrev into_pointer : Json → Option (Option Time)
  into_pointer null = some none
  into_pointer (text s) = elim (tf.parse s) [ none ↦ none | some t ↦ some (some t) ]
  into_pointer _ = none

  -- One member, into the field that its name fits.
  unfoldable pub assign : String → Json → Notification → Option Notification
  assign key v n =
      if same_name key "id"
      then set_to (into_text v n.id) (λ s. record n { id = s })
      else if same_name key "user_id"
      then set_to (into_text v n.user_id) (λ s. record n { user_id = s })
      else if same_name key "channel"
      then set_to (into_text v n.channel) (λ s. record n { channel = s })
      else if same_name key "template_id"
      then set_to (into_text v n.template_id) (λ s. record n { template_id = s })
      else if same_name key "payload"
      then set_to (into_payload v n.payload) (λ p. record n { payload = p })
      else if same_name key "status"
      then set_to (into_text v n.status) (λ s. record n { status = s })
      else if same_name key "created_at"
      then set_to (into_time v n.created_at) (λ t. record n { created_at = t })
      else if same_name key "scheduled_at"
      then set_to (into_pointer v) (λ t. record n { scheduled_at = t })
      else if same_name key "recipient_email"
      then set_to (into_text v n.recipient_email) (λ s. record n { recipient_email = s })
      else if same_name key "recipient_phone"
      then set_to (into_text v n.recipient_phone) (λ s. record n { recipient_phone = s })
      else if same_name key "recipient_token"
      then set_to (into_text v n.recipient_token) (λ s. record n { recipient_token = s })
      else some n

  -- A member of the wrong type makes the whole an error.
  unfoldable pub decode_members : Members → Notification → Option Notification
  decode_members end n = some n
  decode_members (member key v ms) n = elim (assign key v n) [
    | none ↦ none
    | some n' ↦ decode_members ms n'
  ]

  -- `json.Unmarshal(data, &n)` into a zero struct; `none` where it returns an error.
  unfoldable pub unmarshal : Bytes → Option Notification
  unmarshal none = none
  unmarshal (some null) = some zero_notification
  unmarshal (some (object ms)) = decode_members ms zero_notification
  unmarshal _ = none
