-- ===== src/Domain/Codec/RoundTrip.antt =====
-- What a worker decodes is what the API server encoded.
use notification_system.Base.{
  String, Option, none, some, List, [], ◌∷◌, ◌==◌, ◌≡◌, refl, ap, ◌∙◌, inl, inr, eq_iff, Bool-cases,
  arith,
}
use notification_system.Domain.{Notification, Payload, Time}
use notification_system.Json.{
  Json, text, Members, end, member, TimeFormat, same_name, into_text, entries, of_entries,
}
use notification_system.Domain.Codec.{
  payload_json, unless_empty, unless_nil, marshal, assign, decode_members, unmarshal,
  zero_notification,
}

entries-of_entries : (es : List (String × String)) → entries (of_entries es) ≡ some es
unfolding entries of_entries
entries-of_entries [] = refl
entries-of_entries ((key, s) ∷ es) = rw (entries-of_entries es)

module _ (tf : TimeFormat) (parse-format : (t : Time) → tf.parse (tf.format t) ≡ some t) where
  decode-member :
      (key : String) (v : Json) (ms : Members) (n m : Notification)
      → assign tf key v n ≡ some m
      → decode_members tf (member key v ms) n ≡ decode_members tf ms m
  unfolding decode_members
  decode-member key v ms n m h = rw (h, decode_members)

  -- A member that `omitempty` leaves out is one that the zero value stands for.
  decode-unless_empty :
      (key s : String) (ms : Members) (n : Notification) (set : String → Notification)
      → ((t : String) → assign tf key (text t) n ≡ some (set t))
      → set "" ≡ n
      → decode_members tf (unless_empty key s ms) n ≡ decode_members tf ms (set s)
  unfolding unless_empty
  decode-unless_empty key s ms n set h zero = elim (Bool-cases (s == "")) [
    | inl e ↦ rw (e, (eq_iff s "").0 e, zero) refl
    | inr e ↦ rw e (decode-member key (text s) ms n (set s) (h s))
  ]

  decode-unless_nil :
      (o : Option Time) (ms : Members) (n : Notification)
      → n.scheduled_at ≡ none
      → decode_members tf (unless_nil tf "scheduled_at" o ms) n
        ≡ decode_members tf ms (record n { scheduled_at = o })
  unfolding unless_nil assign same_name
  decode-unless_nil none ms n h = ap (λ o. decode_members tf ms (record n { scheduled_at = o })) h
  decode-unless_nil (some t) ms n h =
      decode-member "scheduled_at" (text (tf.format t)) ms n (record n { scheduled_at = some t })
        (ground (arith, parse-format t))

  -- The fields that are always there.
  abbrev plain : Notification → Notification
  plain n = record n {
    scheduled_at = none;
    recipient_email = "";
    recipient_phone = "";
    recipient_token = "";
  }

  assign-payload :
      (p : Payload) (n : Notification)
      → n.payload ≡ none
      → assign tf "payload" (payload_json p) n ≡ some (record n { payload = p })
  unfolding assign same_name
  assign-payload none n h = refl
  assign-payload (some es) n h = rw (h, entries-of_entries es)

  optional : Notification → Members
  optional n = unless_nil tf "scheduled_at" n.scheduled_at (
      unless_empty "recipient_email" n.recipient_email (
        unless_empty "recipient_phone" n.recipient_phone
          (unless_empty "recipient_token" n.recipient_token end)))

  decode-end : (n : Notification) → decode_members tf end n ≡ some n
  unfolding decode_members
  decode-end n = refl

  decode-optional : (n : Notification) → decode_members tf (optional n) (plain n) ≡ some n
  unfolding optional assign same_name into_text
  decode-optional n =
      decode-unless_nil n.scheduled_at _ (plain n) refl
      ∙ (decode-unless_empty "recipient_email" n.recipient_email _ _
            (λ s. record (plain n) { scheduled_at = n.scheduled_at; recipient_email = s })
            (λ t. refl) refl
          ∙ (decode-unless_empty "recipient_phone" n.recipient_phone _ _
                (λ s. record n { recipient_phone = s; recipient_token = "" }) (λ t. refl) refl
              ∙ (decode-unless_empty "recipient_token" n.recipient_token end _
                    (λ s. record n { recipient_token = s }) (λ t. refl) refl
                  ∙ decode-end n)))

  -- The members before the optional ones, decoded one after the other.
  abbrev fourth : Notification → Notification
  fourth n = record zero_notification {
    id = n.id;
    user_id = n.user_id;
    channel = n.channel;
    template_id = n.template_id;
  }

  decode-four :
      (n : Notification) (ms : Members)
      → decode_members tf
          (member "id" (text n.id) (
            member "user_id"
              (text n.user_id)
              (member "channel" (text n.channel) (member "template_id" (text n.template_id) ms))))
          zero_notification
        ≡ decode_members tf ms (fourth n)
  unfolding decode_members assign same_name into_text
  decode-four n ms = refl

  decode-three :
      (n : Notification) (ms : Members)
      → decode_members tf
          (member "payload" (payload_json n.payload) (
            member "status"
              (text n.status)
              (member "created_at" (text (tf.format n.created_at)) ms)))
          (fourth n)
        ≡ decode_members tf ms (plain n)
  unfolding assign same_name into_text
  decode-three n ms =
      decode-member "payload" _ _ _ _ (assign-payload n.payload (fourth n) refl)
      ∙ (decode-member "status" _ _ _ (record (plain n) { created_at = 0 }) refl
          ∙ decode-member "created_at" _ _ _ (plain n) (rw parse-format))

  -- Where the time format reads back what it writes, decoding what was encoded gives the
  -- notification back, every field of it.
  pub unmarshal-marshal : (n : Notification) → unmarshal tf (some (marshal tf n)) ≡ some n
  unfolding unmarshal marshal optional
  unmarshal-marshal n = decode-four n _ ∙ (decode-three n (optional n) ∙ decode-optional n)
