-- ===== src/Cache/Codec.antt =====
-- json.Marshal and json.Unmarshal of a `User` and of `UserPreferences`, whose fields have no tags.
use notification_system.Base.{String, false, Option, none, some, ◌≡◌, refl, if◌then◌else◌}
use notification_system.Domain.{User, UserPreferences}
use notification_system.Json.{
  Json, null, bool, text, object, Members, end, member, Bytes, same_name, into_text, into_bool,
}

unfoldable pub marshal_user : User → Json
marshal_user u = object (
    member "ID" (text u.id) (
      member "Email" (text u.email) (
        member "Phone" (text u.phone)
          (member "DeviceToken" (text u.device_token) (member "Platform" (text u.platform) end)))))

unfoldable pub marshal_preferences : UserPreferences → Json
marshal_preferences p = object (
    member "UserID" (text p.user_id) (
      member "EmailEnabled" (bool p.email_enabled) (
        member "SMSEnabled" (bool p.sms_enabled) (member "PushEnabled" (bool p.push_enabled) end))))

abbrev set_to {ℓ κ} : {A : Type ℓ} {B : Type κ} → Option A → (A → B) → Option B
set_to none f = none
set_to (some a) f = some (f a)

assign_user : String → Json → User → Option User
assign_user key v u =
    if same_name key "ID"
    then set_to (into_text v u.id) (λ s. record u { id = s })
    else if same_name key "Email"
    then set_to (into_text v u.email) (λ s. record u { email = s })
    else if same_name key "Phone"
    then set_to (into_text v u.phone) (λ s. record u { phone = s })
    else if same_name key "DeviceToken"
    then set_to (into_text v u.device_token) (λ s. record u { device_token = s })
    else if same_name key "Platform"
    then set_to (into_text v u.platform) (λ s. record u { platform = s })
    else some u

decode_user : Members → User → Option User
decode_user end u = some u
decode_user (member key v ms) u = elim (assign_user key v u) [
  | none ↦ none
  | some u' ↦ decode_user ms u'
]

assign_preferences : String → Json → UserPreferences → Option UserPreferences
assign_preferences key v p =
    if same_name key "UserID"
    then set_to (into_text v p.user_id) (λ s. record p { user_id = s })
    else if same_name key "EmailEnabled"
    then set_to (into_bool v p.email_enabled) (λ b. record p { email_enabled = b })
    else if same_name key "SMSEnabled"
    then set_to (into_bool v p.sms_enabled) (λ b. record p { sms_enabled = b })
    else if same_name key "PushEnabled"
    then set_to (into_bool v p.push_enabled) (λ b. record p { push_enabled = b })
    else some p

decode_preferences : Members → UserPreferences → Option UserPreferences
decode_preferences end p = some p
decode_preferences (member key v ms) p = elim (assign_preferences key v p) [
  | none ↦ none
  | some p' ↦ decode_preferences ms p'
]

abbrev zero_user : User
zero_user = record { id = ""; email = ""; phone = ""; device_token = ""; platform = "" }

abbrev zero_preferences : UserPreferences
zero_preferences = record {
  user_id = "";
  email_enabled = false;
  sms_enabled = false;
  push_enabled = false;
}

unfoldable pub unmarshal_user : Bytes → Option User
unfolding decode_user assign_user
unmarshal_user none = none
unmarshal_user (some null) = some zero_user
unmarshal_user (some (object ms)) = decode_user ms zero_user
unmarshal_user _ = none

unfoldable pub unmarshal_preferences : Bytes → Option UserPreferences
unfolding decode_preferences assign_preferences
unmarshal_preferences none = none
unmarshal_preferences (some null) = some zero_preferences
unmarshal_preferences (some (object ms)) = decode_preferences ms zero_preferences
unmarshal_preferences _ = none

pub unmarshal_user-marshal_user : (u : User) → unmarshal_user (some (marshal_user u)) ≡ some u
unfolding unmarshal_user marshal_user same_name into_text
unmarshal_user-marshal_user u = refl

pub unmarshal_preferences-marshal_preferences :
    (p : UserPreferences) → unmarshal_preferences (some (marshal_preferences p)) ≡ some p
unfolding unmarshal_preferences marshal_preferences same_name into_text into_bool
unmarshal_preferences-marshal_preferences p = refl
