-- ===== src/Txrx/Net/Listen.antt =====
-- `tcp_listen` and `tcp_accept` of net.c, over the answers of the socket calls.
use zyndra.Base.{
  ℕ, ◌≡◌, refl, Bool, true, false, not, List, [], ◌∷◌, ◌++◌, Option, none, some, if◌then◌else◌, ltb,
}

-- The calls made on a socket.
pub data SocketCall : Type 0 where
  reuse_address listen_one close_socket no_delay : SocketCall
  bind_port send_buffer receive_buffer : ℕ → SocketCall

-- The socket that is returned, if any, and the calls, oldest first. The first two arguments are what
-- `socket` returns and whether `bind` succeeds.
unfoldable pub tcp_listen : Option ℕ → Bool → ℕ → Option ℕ × List SocketCall
tcp_listen none binds port = (none, [])
tcp_listen (some server) binds port =
    if not binds
    then (none, reuse_address ∷ bind_port port ∷ close_socket ∷ [])
    else (some server, reuse_address ∷ bind_port port ∷ listen_one ∷ [])

-- The first argument is what `accept` returns. No caller gives a negative size.
unfoldable pub tcp_accept : Option ℕ → ℕ → ℕ → Bool → Option ℕ × List SocketCall
tcp_accept none sndbuf rcvbuf nodelay = (none, [])
tcp_accept (some client) sndbuf rcvbuf nodelay = (
  some client,
  (if ltb 0 sndbuf then send_buffer sndbuf ∷ [] else [])
      ++ ((if ltb 0 rcvbuf then receive_buffer rcvbuf ∷ [] else [])
          ++ (if nodelay then no_delay ∷ [] else [])),
)

-- Whether a socket that `socket` returned is still open after the calls.
abbrev pub left_open : List SocketCall → Bool
left_open [] = true
left_open (close_socket ∷ calls) = false
left_open (call ∷ calls) = left_open calls

-- A socket that is got is left open exactly when it is returned.
pub tcp_listen-left_open :
    (server : ℕ) (binds : Bool) (port : ℕ)
    → (left_open (tcp_listen (some server) binds port).1 ≡ binds)
      × ((tcp_listen (some server) binds port).0 ≡ (if binds then some server else none))
unfolding tcp_listen
tcp_listen-left_open server true port = (refl, refl)
tcp_listen-left_open server false port = (refl, refl)
