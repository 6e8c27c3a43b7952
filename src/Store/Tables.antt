-- ===== src/Store/Tables.antt =====
-- The SQL of internal/store/postgres.go: the tables, and what each statement and query does.
-- A column that may be NULL is an `Option`, except in `delivery_logs`, where the only statement
-- that inserts gives every column a value.
use notification_system.Base.{
  ◌-◌, ◌%◌, String, Bool, false, ◌&&◌, ◌||◌, ◌==◌, Option, none, some, List, [], ◌∷◌, ◌++◌, ◌≡◌,
  map, if◌then◌else◌,
}
use notification_system.Domain.{
  Notification, User, UserPreferences, DeliveryLog, Channel, Status, Time, Payload, status_sent,
}

pub record UserRow : Type 0 where
  pub id : String
  pub email : String
  pub phone : Option String
  pub device_token : Option String
  pub platform : Option String

pub record PreferencesRow : Type 0 where
  pub user_id : String
  pub email_enabled : Option Bool
  pub sms_enabled : Option Bool
  pub push_enabled : Option Bool

pub record NotificationRow : Type 0 where
  pub id : String
  pub user_id : String
  pub channel : Channel
  pub template_id : String
  pub payload : Payload
  pub status : Status
  pub created_at : Option Time

pub record Tables : Type 0 where
  pub users : List UserRow
  pub user_preferences : List PreferencesRow
  pub notifications : List NotificationRow
  pub delivery_logs : List DeliveryLog

-- The statements that the program executes, with their parameters.
pub data Statement : Type 0 where
  insert_notification : Notification → Statement
  update_notification : Status → String → Statement
  insert_delivery_log : DeliveryLog → Statement
  update_delivery_log : Status → String → String → Statement
  create_schema : Statement

-- A TIMESTAMPTZ keeps microseconds of a time in nanoseconds.
unfoldable pub microseconds : Time → Time
microseconds t = t - t % 1000

-- The seven columns of the INSERT: the scheduled time and the recipient are not stored. The texts of
-- the two UUID columns are in canonical form, which the column leaves as it is.
unfoldable pub row_of : Notification → NotificationRow
row_of n = record {
  id = n.id;
  user_id = n.user_id;
  channel = n.channel;
  template_id = n.template_id;
  payload = n.payload;
  status = n.status;
  created_at = some (microseconds n.created_at);
}

unfoldable pub set_status : Status → String → NotificationRow → NotificationRow
set_status status id row = if row.id == id then record row { status = status } else row

unfoldable pub set_delivery : Status → String → String → DeliveryLog → DeliveryLog
set_delivery status message id log =
    if log.id == id then record log { status = status; error_message = message } else log

-- `CREATE … IF NOT EXISTS` changes no row.
unfoldable pub apply : Statement → Tables → Tables
unfolding row_of
apply (insert_notification n) t = record t { notifications = t.notifications ++ row_of n ∷ [] }
apply (update_notification status id) t = record t {
  notifications = map (set_status status id) t.notifications;
}
apply (insert_delivery_log log) t = record t { delivery_logs = t.delivery_logs ++ log ∷ [] }
apply (update_delivery_log status message id) t = record t {
  delivery_logs = map (set_delivery status message id) t.delivery_logs;
}
apply create_schema t = t

unfoldable pub find_user : String → List UserRow → Option UserRow
find_user id [] = none
find_user id (r ∷ rs) = if r.id == id then some r else find_user id rs

unfoldable pub find_notification : String → List NotificationRow → Option NotificationRow
find_notification id [] = none
find_notification id (r ∷ rs) = if r.id == id then some r else find_notification id rs

unfoldable pub find_row_of : String → List PreferencesRow → Option PreferencesRow
find_row_of id [] = none
find_row_of id (r ∷ rs) = if r.user_id == id then some r else find_row_of id rs

unfoldable pub find_log : String → List DeliveryLog → Option DeliveryLog
find_log id [] = none
find_log id (r ∷ rs) = if r.id == id then some r else find_log id rs

-- `SELECT EXISTS (… WHERE notification_id = $1 AND status = 'sent')`.
unfoldable pub has_sent : String → List DeliveryLog → Bool
has_sent id [] = false
has_sent id (r ∷ rs) = r.notification_id == id && r.status == status_sent || has_sent id rs

-- The keys of the schema: an inserted row has a new id, and what it refers to is there.
abbrev pub Admissible : Statement → Tables → Type 0
Admissible (insert_notification n) t =
    (find_notification n.id t.notifications ≡ none)
    × ((u : UserRow) × (find_user n.user_id t.users ≡ some u))
Admissible (insert_delivery_log log) t =
    (find_log log.id t.delivery_logs ≡ none)
    × ((r : NotificationRow) × (find_notification log.notification_id t.notifications ≡ some r))
Admissible _ t = Unit

-- What `Scan` makes of a row: no value where a column that the program reads is NULL.
unfoldable pub scan_user : UserRow → Option User
scan_user r = elim r.phone [
  | none ↦ none
  | some phone ↦ elim r.device_token [
    | none ↦ none
    | some token ↦ elim r.platform [
      | none ↦ none
      | some platform ↦ some (record {
        id = r.id;
        email = r.email;
        phone = phone;
        device_token = token;
        platform = platform;
      })
    ]
  ]
]

unfoldable pub scan_notification : NotificationRow → Option Notification
scan_notification r = elim r.created_at [
  | none ↦ none
  | some created ↦ some (record {
    id = r.id;
    user_id = r.user_id;
    channel = r.channel;
    template_id = r.template_id;
    payload = r.payload;
    status = r.status;
    created_at = created;
    scheduled_at = none;
    recipient_email = "";
    recipient_phone = "";
    recipient_token = "";
  })
]

unfoldable pub scan_preferences : PreferencesRow → Option UserPreferences
scan_preferences r = elim r.email_enabled [
  | none ↦ none
  | some email ↦ elim r.sms_enabled [
    | none ↦ none
    | some sms ↦ elim r.push_enabled [
      | none ↦ none
      | some push ↦ some (record {
        user_id = r.user_id;
        email_enabled = email;
        sms_enabled = sms;
        push_enabled = push;
      })
    ]
  ]
]
