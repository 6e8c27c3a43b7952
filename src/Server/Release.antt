-- ===== src/Server/Release.antt =====
-- What the server process opens it closes.
use notification_system.Base.{
  ◌+◌, Option, none, some, ◌≡◌, refl, ◌∙◌, inl, inr, Option-cases, arith,
}
use notification_system.Failure.{Failure, Result, ok, err, wrap}
use notification_system.Effect.{Outcome, returns, call, ◌>>=◌}
use notification_system.Config
use notification_system.Config.{load}
use notification_system.Kafka.{Broker}
use notification_system.Redis.{Redis}
use notification_system.Store.{migrate}
use notification_system.Store.Connection.{Pool}
use notification_system.Store.Opening
use notification_system.Store.Opening.{PoolConfig}
use notification_system.Server.{
  Stop, server_of, handler_of, listen_failed, closed, signalled, HttpServer, Platform, after_listen,
  serve, after_redis_ping, after_migrate, after_connect, after_load, run,
}
use notification_system.Server.Laws.{Held, IsSteady, PlatformLaws}

module _ {W : Type 0} (held : W → Held) where
  -- The call returned, and left open what was open before.
  pub record Balanced {A : Type 0} (h : Held) (q : Outcome A × W) : Type 0 where
    pub answer : A
    pub returned : q.0 ≡ returns answer
    pub released : held q.1 ≡ h

  -- With a client that is open: nothing is left, or the client where it did not answer.
  pub data Client (h : Held) (q : Outcome (Option Failure) × W) : Type 0 where
    clean : (e : Option Failure) → q.0 ≡ returns e → held q.1 ≡ h → Client h q
    client_left :
        (e : Failure)
        → q.0 ≡ returns (some (wrap "connect to redis" e))
        → held q.1 ≡ record h { clients = h.clients + 1 }
        → Client h q

  -- From what was held to what is held at the end: nothing more, or what did not answer a ping.
  pub data Leaves (h : Held) (q : Outcome (Option Failure) × W) : Type 0 where
    nothing : (e : Option Failure) → q.0 ≡ returns e → held q.1 ≡ h → Leaves h q
    a_client :
        (e : Failure)
        → q.0 ≡ returns (some (wrap "connect to redis" e))
        → held q.1 ≡ record h { clients = h.clients + 1 }
        → Leaves h q
    a_pool :
        (e : Failure)
        → q.0 ≡ returns (some (wrap "connect to postgres" (wrap "store: ping database" e)))
        → held q.1 ≡ record h { pools = h.pools + 1 }
        → Leaves h q

module _ {W : Type 0} (p : Platform W) (held : W → Held) (laws : PlatformLaws p held) where
  after_listen-Balanced :
      (server : HttpServer W) (s : Stop) (w : W)
      → Balanced held (held w) (after_listen p server s w)
  unfolding after_listen
  after_listen-Balanced server (listen_failed e) w = record {
    answer = _;
    returned = refl;
    released = refl;
  }
  after_listen-Balanced server closed w = record { answer = _; returned = refl; released = refl }
  after_listen-Balanced server signalled w = elim (Option-cases (p.shutdown server w).0) [
    | inl e ↦ rw e (record { answer = _; returned = refl; released = laws.shutdown_keeps server w })
    | inr (f, e) ↦
        rw e (record { answer = _; returned = refl; released = laws.shutdown_keeps server w })
  ]

  writer_back :
      (writer : Broker W) (h : Held) (w : W)
      → held w ≡ record h { writers = h.writers + 1 }
      → held (p.close_writer writer w) ≡ h
  writer_back writer h w e = rw (laws.writer_closed writer w, e) (ground arith)

  client_back :
      (rdb : Redis W) (h : Held) (w : W)
      → held w ≡ record h { clients = h.clients + 1 }
      → held (p.close_redis rdb w) ≡ h
  client_back rdb h w e = rw (laws.client_closed rdb w, e) (ground arith)

  pool_back :
      (db : Pool W) (h : Held) (w : W)
      → held w ≡ record h { pools = h.pools + 1 }
      → held (p.driver.close db w) ≡ h
  pool_back db h w e = rw (laws.pool_closed db w, e) (ground arith)

  listened :
      (server : HttpServer W) (w : W)
      → Balanced held (held w) ((call (p.listen server) >>= after_listen p server) w)
  listened server w =
      let (s, x) = p.listen server w in
      let b = after_listen-Balanced server s x in
      record {
        answer = b.answer;
        returned = b.returned;
        released = b.released ∙ laws.listen_keeps server w;
      }

  serve-Balanced :
      (cfg : Config.Config) (db : Pool W) (rdb : Redis W) (w : W)
      → Balanced held (held w) (serve p cfg db rdb w)
  unfolding serve
  serve-Balanced cfg db rdb w =
      let (writer, x) = p.new_writer cfg.kafka.broker_addr w in
      let opened = laws.writer_opened cfg.kafka.broker_addr w in
      let b = listened (server_of p cfg (handler_of p cfg db rdb writer)) x in
      record {
        answer = b.answer;
        returned = b.returned;
        released = writer_back writer (held w) _ (b.released ∙ opened);
      }

  after_migrate-Client :
      (cfg : Config.Config) (db : Pool W) (m : Option Failure) (w : W)
      → Client held (held w) (after_migrate p cfg db m w)
  unfolding after_migrate after_redis_ping
  after_migrate-Client cfg db (some e) w = clean _ refl refl
  after_migrate-Client cfg db none w =
      let (rdb, x) = p.new_client cfg.redis w in
      let y = (p.ping_redis rdb x).1 in
      let opened : held y ≡ record (held w) { clients = (held w).clients + 1 } =
        laws.client_ping rdb x ∙ laws.client_opened cfg.redis w in
      elim (Option-cases (p.ping_redis rdb x).0) [
        | inl e ↦
            let b = serve-Balanced cfg db rdb y in
            rw e (clean b.answer b.returned (client_back rdb (held w) _ (b.released ∙ opened)))
        | inr (f, e) ↦ rw e (client_left f refl opened)
      ]

  pub migrate-keeps : (db : Pool W) → IsSteady held db → (w : W) → held (migrate db w).1 ≡ held w
  unfolding migrate
  migrate-keeps db steady w = steady _ w

  leaves_after :
      (db : Pool W) (h h' : Held) (q : Outcome (Option Failure) × W)
      → h' ≡ record h { pools = h.pools + 1 }
      → Client held h' q
      → Leaves held h (q.0, p.driver.close db q.1)
  leaves_after db h h' q k (clean e r c) = nothing e r (pool_back db h q.1 (c ∙ k))
  leaves_after db h h' q k (client_left e r c) =
      a_client e r (rw (laws.pool_closed db q.1, c, k) (ground arith))

  -- With a pool that is open: the client at most is left.
  connected :
      (cfg : Config.Config) (db : Pool W) (h : Held) (w : W)
      → IsSteady held db
      → held w ≡ record h { pools = h.pools + 1 }
      → Leaves held h (after_connect p cfg (ok db) w)
  unfolding after_connect migrate
  connected cfg db h w steady opened =
      let x = (migrate db w).1 in
      leaves_after db h (held x) (after_migrate p cfg db _ x) (migrate-keeps db steady w ∙ opened)
        (after_migrate-Client cfg db _ x)

  created :
      (cfg : Config.Config) (h : Held) (r : Result (Pool W)) (w : W)
      → ((db : Pool W) → r ≡ ok db → held w ≡ record h { pools = h.pools + 1 })
      → ((db : Pool W) → r ≡ ok db → IsSteady held db)
      → ((e : Failure) → r ≡ err e → held w ≡ h)
      → Leaves held h ((Opening.after_create p.driver r >>= after_connect p cfg) w)
  unfolding Opening.after_create
  created cfg h (err e) w good steady bad = unfold after_connect in nothing _ refl (bad e refl)
  created cfg h (ok db) w good steady bad =
      let opened = laws.pool_ping db w ∙ good db refl in
      elim (Option-cases (p.driver.ping db w).0) [
        | inl e ↦ rw e (connected cfg db h _ (steady db refl) opened)
        | inr (f, e) ↦ rw e (unfold after_connect in a_pool f refl opened)
      ]

  parsed :
      (cfg : Config.Config) (r : Result PoolConfig) (w : W)
      → Leaves held
          (held w)
          ((Opening.after_parse p.driver cfg.postgres r >>= after_connect p cfg) w)
  unfolding Opening.after_parse
  parsed cfg (err e) w = unfold after_connect in nothing _ refl refl
  parsed cfg (ok c) w =
      created cfg (held w) _ _ (λ db. laws.pool_opened _ w db) (λ db. laws.pool_steady _ w db)
        (λ e. laws.pool_refused _ w e)

  -- `run` returns on every path, an error or nil, and closes what it has opened, with two
  -- exceptions: a pool that does not answer its first ping, and a client of Redis that does not,
  -- stay open, each under the error that says so.
  pub run-Leaves : (w : W) → Leaves held (held w) (run p w)
  unfolding run after_load load Opening.new
  run-Leaves w = parsed _ _ w
