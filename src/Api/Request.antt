-- ===== src/Api/Request.antt =====
-- The body of POST /api/v1/notify.
use notification_system.Base.{String, Bool, Option, none, some, ◌||◌, ◌==◌, if◌then◌else◌}
use notification_system.Domain.{
  Channel, Payload, channel_ios, channel_android, channel_sms, channel_email,
}
use notification_system.Json.{Json, null, object, Members, end, member, Bytes, same_name, into_text}
use notification_system.Domain.Codec.{into_payload}

pub record SendRequest : Type 0 where
  pub user_id : String
  pub channel : String
  pub template_id : String
  pub payload : Payload

abbrev set_to {ℓ} : {A : Type ℓ} → Option A → (A → SendRequest) → Option SendRequest
set_to none f = none
set_to (some a) f = some (f a)

assign : String → Json → SendRequest → Option SendRequest
assign key v r =
    if same_name key "user_id"
    then set_to (into_text v r.user_id) (λ s. record r { user_id = s })
    else if same_name key "channel"
    then set_to (into_text v r.channel) (λ s. record r { channel = s })
    else if same_name key "template_id"
    then set_to (into_text v r.template_id) (λ s. record r { template_id = s })
    else if same_name key "payload"
    then set_to (into_payload v r.payload) (λ p. record r { payload = p })
    else some r

decode : Members → SendRequest → Option SendRequest
decode end r = some r
decode (member key v ms) r = elim (assign key v r) [ none ↦ none | some r' ↦ decode ms r' ]

abbrev zero_request : SendRequest
zero_request = record { user_id = ""; channel = ""; template_id = ""; payload = none }

-- `json.NewDecoder(r.Body).Decode(&req)`; `none` where it returns an error.
unfoldable pub decode_request : Bytes → Option SendRequest
unfolding decode assign
decode_request none = none
decode_request (some null) = some zero_request
decode_request (some (object ms)) = decode ms zero_request
decode_request _ = none

unfoldable pub lacks_field : SendRequest → Bool
lacks_field r = r.user_id == "" || (r.channel == "" || r.template_id == "")

unfoldable pub valid_channel : Channel → Bool
valid_channel channel =
    channel == channel_ios
    || (channel == channel_android || (channel == channel_sms || channel == channel_email))
