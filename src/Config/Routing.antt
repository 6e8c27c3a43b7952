-- ===== src/Config/Routing.antt =====
-- Where the configuration sends each channel.
use notification_system.Base.{
  ℕ, String, Option, some, ◌<>◌, eq_iff, ◌≡◌, ◌↔◌, ◌⊎◌, inl, inr, sym, ◌∙◌, some_inj, arith,
}
use notification_system.Failure.{ok}
use notification_system.Config.{Config, ChannelRouting, default_routing, to, route, load}

abbrev pub OneOf : String → Type 0
OneOf channel =
    ((channel ≡ "ios") ⊎ (channel ≡ "android")) ⊎ ((channel ≡ "sms") ⊎ (channel ≡ "email"))

route-OneOf :
    (channel : String) (r : ChannelRouting) → route channel default_routing ≡ some r → OneOf channel
unfolding route
route-OneOf channel r h = ground (
  arith,
  eq_iff "ios" channel,
  eq_iff "android" channel,
  eq_iff "sms" channel,
  eq_iff "email" channel,
)

route_of_OneOf :
    (channel : String)
    → OneOf channel
    → route channel default_routing ≡ some (to ("worker-" <> channel))
unfolding route
route_of_OneOf channel (inl (inl e)) = rw e
route_of_OneOf channel (inl (inr e)) = rw e
route_of_OneOf channel (inr (inl e)) = rw e
route_of_OneOf channel (inr (inr e)) = rw e

load-routing :
    (getenv : String → String) (parse_duration : String → Option ℕ) (c : Config)
    → load getenv parse_duration ≡ ok c
    → c.kafka.routing ≡ default_routing
unfolding load
load-routing getenv parse_duration c h = ground arith

-- Whatever the environment holds, a channel has a route in a loaded configuration exactly when it
-- is one of the four. All routes have the topic "notifications" and the partition 0, and each has
-- the consumer group of its channel: four groups read one topic, so each gets every message.
pub load-route_iff :
    (getenv : String → String) (parse_duration : String → Option ℕ) (c : Config) (channel : String)
    (r : ChannelRouting)
    → load getenv parse_duration ≡ ok c
    → (route channel c.kafka.routing ≡ some r) ↔ (
        OneOf channel
        × (r ≡ record { topic = "notifications"; partition = 0; group_id = "worker-" <> channel }))
load-route_iff getenv parse_duration c channel r h = rw (load-routing getenv parse_duration c h) (
  λ e.
      let known = route-OneOf channel r e in
      (known, some_inj (sym e ∙ route_of_OneOf channel known)),
  λ e. rw e.1 (route_of_OneOf channel e.0),
)
