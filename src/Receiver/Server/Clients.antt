-- ===== src/Receiver/Server/Clients.antt =====
-- What holds of the TCP sender's sockets and buffers over all its clients.
use zyndra.Base.{
  ℕ, ◌+◌, ◌==◌, ◌<◌, ◌≡◌, refl, ap, ◌∙◌, arith, Bool, true, false, List, [], ◌∷◌, if◌then◌else◌,
  Bool-cases, inl, inr,
}
use zyndra.Txrx.Net.Tcp.{Answer, Status, ok, error, waiting}
use zyndra.Receiver.{empty_pool, receive}
use zyndra.Receiver.Tcp.{serve_round, after_send, send_bytes}
use zyndra.Receiver.Slots.{receive_counts}
use zyndra.Receiver.Server.{
  Place, unopened, accepting, serving, sending, returned, exited, Server, Event, receives, opens,
  accepts, serves, open_server, accept_client, end_round, serve_client, at_place, serve_all,
  fresh_server,
}

-- A client is connected.
abbrev pub has_client : Place → Bool
has_client serving = true
has_client sending = true
has_client place = false

abbrev pub client_sockets : Place → ℕ
client_sockets place = if has_client place then 1 else 0

-- The buffer that a `send` holds.
abbrev pub held : Place → ℕ
held sending = 1
held place = 0

-- The flag of the connection, the client's socket and the buffers agree with the thread's place.
pub record IsConsistent (buf_cnt : ℕ) (s : Server) : Type 0 where
  pub active : s.connection_active ≡ has_client s.place
  pub one_client : s.clients ≡ client_sockets s.place
  pub buffers : s.pool.slot_free + s.pool.slot_used + held s.place ≡ buf_cnt

module _ (cnt b size : ℕ) where
  end_round-IsConsistent :
      (st : Status) (bytes : List ℕ) (s : Server)
      → s.place ≡ serving
      → 0 < s.pool.slot_used
      → IsConsistent cnt s
      → IsConsistent cnt (end_round cnt b size st bytes (after_send cnt st s.pool) s)
  unfolding end_round after_send
  end_round-IsConsistent ok bytes s at busy v = record {
    active = v.active;
    one_client = v.one_client;
    buffers = omega (arith, v.buffers, busy);
  }
  end_round-IsConsistent error bytes s at busy v = record {
    active = refl;
    one_client = omega (arith, v.one_client, ap client_sockets at);
    buffers = omega (arith, v.buffers, busy, ap held at);
  }
  end_round-IsConsistent waiting bytes s at busy v = record {
    active = v.active ∙ ap has_client at;
    one_client = v.one_client ∙ ap client_sockets at;
    buffers = omega (arith, v.buffers, busy, ap held at);
  }

  serve_client-IsConsistent :
      (rs : List Answer) (s : Server)
      → s.place ≡ serving
      → IsConsistent cnt s
      → IsConsistent cnt (serve_client cnt b size rs s)
  unfolding serve_client serve_round
  serve_client-IsConsistent rs s at v = elim (Bool-cases (s.pool.slot_used == 0)) [
    | inl idle ↦ rw idle v
    | inr busy ↦
        let (st, bytes) = send_bytes (s.pool.slots s.pool.out_nr) rs in
        rw busy (end_round-IsConsistent st bytes s at (ground (arith, busy)) v)
  ]

  receive-IsConsistent :
      (wr : ℕ) (ring : ℕ → ℕ) (s : Server)
      → IsConsistent cnt s
      → IsConsistent cnt (record s { pool = receive cnt b size wr ring s.pool })
  receive-IsConsistent wr ring s v = record {
    active = v.active;
    one_client = v.one_client;
    buffers = omega (arith, (receive_counts cnt b size wr ring s.pool).1, v.buffers);
  }

  open_server-IsConsistent :
      (socket_ok bind_ok : Bool) (s : Server)
      → s.place ≡ unopened
      → IsConsistent cnt s
      → IsConsistent cnt (open_server cnt b size socket_ok bind_ok s)
  unfolding open_server
  open_server-IsConsistent socket_ok bind_ok s at v = ground (arith, v, at)

  accept_client-IsConsistent :
      (accepted : Bool) (s : Server)
      → s.place ≡ accepting
      → IsConsistent cnt s
      → IsConsistent cnt (accept_client cnt b size accepted s)
  unfolding accept_client
  accept_client-IsConsistent accepted s at v = ground (arith, v, at)

  at_place-IsConsistent :
      (e : Event cnt b size) (place : Place) (s : Server)
      → s.place ≡ place
      → IsConsistent cnt s
      → IsConsistent cnt (at_place cnt b size e place s)
  unfolding at_place
  at_place-IsConsistent (receives wr ring) unopened s at v = receive-IsConsistent wr ring s v
  at_place-IsConsistent (receives wr ring) accepting s at v = receive-IsConsistent wr ring s v
  at_place-IsConsistent (receives wr ring) serving s at v = receive-IsConsistent wr ring s v
  at_place-IsConsistent (receives wr ring) sending s at v = receive-IsConsistent wr ring s v
  at_place-IsConsistent (receives wr ring) returned s at v = receive-IsConsistent wr ring s v
  at_place-IsConsistent (receives wr ring) exited s at v = v
  at_place-IsConsistent (opens socket_ok bind_ok) unopened s at v =
      open_server-IsConsistent socket_ok bind_ok s at v
  at_place-IsConsistent (opens socket_ok bind_ok) accepting s at v = v
  at_place-IsConsistent (opens socket_ok bind_ok) serving s at v = v
  at_place-IsConsistent (opens socket_ok bind_ok) sending s at v = v
  at_place-IsConsistent (opens socket_ok bind_ok) returned s at v = v
  at_place-IsConsistent (opens socket_ok bind_ok) exited s at v = v
  at_place-IsConsistent (accepts accepted) unopened s at v = v
  at_place-IsConsistent (accepts accepted) accepting s at v =
      accept_client-IsConsistent accepted s at v
  at_place-IsConsistent (accepts accepted) serving s at v = v
  at_place-IsConsistent (accepts accepted) sending s at v = v
  at_place-IsConsistent (accepts accepted) returned s at v = v
  at_place-IsConsistent (accepts accepted) exited s at v = v
  at_place-IsConsistent (serves rs) unopened s at v = v
  at_place-IsConsistent (serves rs) accepting s at v = v
  at_place-IsConsistent (serves rs) serving s at v = serve_client-IsConsistent rs s at v
  at_place-IsConsistent (serves rs) sending s at v = v
  at_place-IsConsistent (serves rs) returned s at v = v
  at_place-IsConsistent (serves rs) exited s at v = v

  serve_all-IsConsistent :
      (es : List (Event cnt b size)) (s : Server)
      → IsConsistent cnt s
      → IsConsistent cnt (serve_all cnt b size es s)
  unfolding serve_all
  serve_all-IsConsistent [] s v = v
  serve_all-IsConsistent (e ∷ es) s v =
      serve_all-IsConsistent es (at_place cnt b size e s.place s)
        (at_place-IsConsistent e s.place s refl v)

  -- In every order of the main loop's rounds and the sender's calls, over any number of clients
  -- that come and go, and with any failing call: `connection_active` is set just while a client is
  -- connected, at most one client socket is open, and no buffer of the pool is lost: each is free,
  -- in use, or held by the `send` that has not returned.
  pub serve_all-fresh_server :
      (es : List (Event cnt b size)) (slots : ℕ → List ℕ)
      → IsConsistent cnt (serve_all cnt b size es (fresh_server (empty_pool slots cnt)))
  unfolding fresh_server empty_pool
  serve_all-fresh_server es slots =
      serve_all-IsConsistent es (fresh_server (empty_pool slots cnt))
        (record { active = refl; one_client = refl; buffers = omega arith })
