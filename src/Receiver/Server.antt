-- ===== src/Receiver/Server.antt =====
-- The life of the senders' sockets in ad9361_rx.c: `transmit_thread_tcp` over its clients, and the
-- set-up of `transmit_thread_udp`.
pub mod Clients
use zyndra.Base.{
  ℕ, ◌+◌, ◌-◌, ◌==◌, Bool, true, false, List, [], ◌∷◌, ◌++◌, Option, none, some, if◌then◌else◌,
}
use zyndra.Txrx.Net.Tcp.{Answer, Status, ok, error, waiting}
use zyndra.Receiver.{Pool, receive}
use zyndra.Receiver.Tcp.{serve_round}

-- Where the thread is: before its socket, at `accept`, in the loop over the blocks for a client, in
-- a `send` that has not returned, returned, or gone with the process by `exit(1)`.
pub data Place : Type 0 where
  unopened accepting serving sending returned exited : Place

-- `clients` counts the client sockets that are open; `sent` is what the present client has got.
pub record Server : Type 0 where
  pub place : Place
  pub pool : Pool
  pub connection_active : Bool
  pub clients : ℕ
  pub sent : List ℕ

module _ (buf_cnt buf_size rx_buf_size : ℕ) where
  -- A step of either thread, with the answers of the system: `socket`, `bind`, `accept`, and the
  -- calls of `send` for a block.
  pub data Event : Type 0 where
    receives : ℕ → (ℕ → ℕ) → Event
    opens : Bool → Bool → Event
    accepts : Bool → Event
    serves : List Answer → Event

  -- `socket`, `bind` and `listen`.
  unfoldable pub open_server : Bool → Bool → Server → Server
  open_server socket_ok bind_ok s =
      if socket_ok
      then (if bind_ok then record s { place = accepting } else record s { place = exited })
      else record s { place = returned }

  -- The next client starts at buffer 0.
  unfoldable pub accept_client : Bool → Server → Server
  accept_client accepted s =
      if accepted
      then record s {
        place = serving;
        pool = record s.pool { out_nr = 0 };
        connection_active = true;
        clients = s.clients + 1;
        sent = [];
      }
      else record s { place = exited }

  -- After a round: on an error the client is closed.
  unfoldable pub end_round : Status → List ℕ → Pool → Server → Server
  end_round ok bytes p s = record s { pool = p; sent = s.sent ++ bytes }
  end_round error bytes p s = record s {
    place = accepting;
    pool = p;
    connection_active = false;
    clients = s.clients - 1;
    sent = s.sent ++ bytes;
  }
  end_round waiting bytes p s = record s { place = sending; pool = p; sent = s.sent ++ bytes }

  abbrev pub after_round : Option (Status × List ℕ × Pool) → Server → Server
  after_round none s = s
  after_round (some (st, bytes, p)) s = end_round st bytes p s

  unfoldable pub serve_client : List Answer → Server → Server
  serve_client rs s = after_round (serve_round buf_cnt rs s.pool) s

  -- An event that the thread is not at changes nothing.
  unfoldable pub at_place : Event → Place → Server → Server
  at_place e exited s = s
  at_place (receives wr ring) place s = record s {
    pool = receive buf_cnt buf_size rx_buf_size wr ring s.pool;
  }
  at_place (opens socket_ok bind_ok) unopened s = open_server socket_ok bind_ok s
  at_place (accepts accepted) accepting s = accept_client accepted s
  at_place (serves rs) serving s = serve_client rs s
  at_place e place s = s

  unfoldable pub serve_all : List Event → Server → Server
  serve_all [] s = s
  serve_all (e ∷ es) s = serve_all es (at_place e s.place s)

unfoldable pub fresh_server : Pool → Server
fresh_server p = record {
  place = unopened;
  pool = p;
  connection_active = false;
  clients = 0;
  sent = [];
}

-- What `transmit_thread_udp` does before its loop: the sockets that it opens and closes, and
-- whether it gets to the loop. `address_ok` is that of `inet_pton`.
pub data SocketAct : Type 0 where
  opened closed : SocketAct

unfoldable pub udp_socket : Bool → Bool → Bool × List SocketAct
udp_socket socket_ok address_ok =
    if socket_ok
    then (if address_ok then (true, opened ∷ []) else (false, opened ∷ closed ∷ []))
    else (false, [])
