-- ===== src/Receiver/Tcp.antt =====
-- The TCP sender of ad9361_rx.c: its rounds with the answers of the socket, and what a client gets
-- of the FPGA's stream.
pub mod Flow
pub mod Stream
use zyndra.Base.{ℕ, ◌+◌, ◌-◌, ◌%◌, ◌==◌, List, Option, none, some, if◌then◌else◌, add32}
use zyndra.Txrx.Net.Tcp.{Answer, Status, ok, error, waiting}
use zyndra.Txrx.Net.Tcp
use zyndra.Receiver.{Pool}

-- `tcp_send` of ad9361_rx.c has the code of that of net.c.
unfoldable pub send_bytes : List ℕ → List Answer → Status × List ℕ
send_bytes = Tcp.tcp_send

module _ (buf_cnt : ℕ) where
  -- The pool after the send: the slot is given back, and the sender goes on at the next buffer, or
  -- leaves the client, or is still in `send`.
  unfoldable pub after_send : Status → Pool → Pool
  after_send ok s = record s {
    slot_used = s.slot_used - 1;
    slot_free = s.slot_free + 1;
    out_nr = (s.out_nr + 1) % buf_cnt;
    send_cnt = add32 s.send_cnt 1;
  }
  after_send error s = record s {
    slot_used = s.slot_used - 1;
    slot_free = s.slot_free + 1;
    out_nr = 0;
  }
  after_send waiting s = record s { slot_used = s.slot_used - 1 }

  -- One round of the inner loop of `transmit_thread_tcp`: how the send ends, the bytes that the
  -- socket takes, and the pool; none where the thread waits for a block.
  unfoldable pub serve_round : List Answer → Pool → Option (Status × List ℕ × Pool)
  serve_round rs s =
      let (st, sent) = send_bytes (s.slots s.out_nr) rs in
      if s.slot_used == 0 then none else some (st, sent, after_send st s)
