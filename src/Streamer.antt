-- ===== src/Streamer.antt =====
-- The kernel driver ad936x-tcp, which sends the receive ring to a TCP client.
pub mod Order
pub mod Turns
pub mod Content
pub mod Ctrl
pub mod Listen
pub mod Attach
mod Tests
use zyndra.Base.{ℕ, zero, suc, ◌+◌, List, [], ◌∷◌, ◌++◌, take, drop, ltb, leb, if◌then◌else◌, add32}
use zyndra.Ring.{ringbuf_used}

-- The registers, and their byte offsets, that this driver assumes.
pub data Reg : Type 0 where
  info fifo ctrl drop_cnt rx_buf_base rx_buf_size rx_buf_wr : Reg

unfoldable pub offset : Reg → ℕ
offset info = 0x00
offset fifo = 0x04
offset ctrl = 0x08
offset drop_cnt = 0x0C
offset rx_buf_base = 0x10
offset rx_buf_size = 0x14
offset rx_buf_wr = 0x1C

abbrev pub ctrl_enable : ℕ
ctrl_enable = 1

abbrev pub ctrl_reset : ℕ
ctrl_reset = 2

pub data Effect : Type 0 where
  writel : Reg → ℕ → Effect
  sync_for_cpu : ℕ → ℕ → Effect
  slept : Effect

-- `struct ad936x_tcp`, with what the driver has done, the newest first.
pub record Streamer : Type 0 where
  pub rxbuf_phys : ℕ
  pub rxbuf_size : ℕ
  pub rd_ptr : ℕ
  pub effects : List Effect

unfoldable pub fpga_reset_and_enable : Streamer → Streamer
fpga_reset_and_enable p = record p {
  rd_ptr = 0;
  effects =
      writel ctrl ctrl_enable
      ∷ writel rx_buf_size p.rxbuf_size
      ∷ writel rx_buf_base p.rxbuf_phys
      ∷ writel ctrl 0
      ∷ writel ctrl ctrl_reset
      ∷ p.effects;
}

unfoldable pub fpga_disable : Streamer → Streamer
fpga_disable p = record p { effects = writel ctrl 0 ∷ p.effects }

-- One answer of `kernel_sendmsg`: it takes so many bytes, at most those offered, or fails.
pub data Sent : Type 0 where
  moved : ℕ → Sent
  failed : Sent

-- `send_waits`: the answers given so far do not finish the send.
pub data SendEnd : Type 0 where
  send_ok send_failed send_waits : SendEnd

-- The result, and the bytes that the socket has taken. An answer of 0 is an error.
unfoldable pub ksock_send : List ℕ → List Sent → SendEnd × List ℕ
ksock_send [] answers = (send_ok, [])
ksock_send (x ∷ xs) [] = (send_waits, [])
ksock_send (x ∷ xs) (failed ∷ answers) = (send_failed, [])
ksock_send (x ∷ xs) (moved zero ∷ answers) = (send_failed, [])
ksock_send (x ∷ xs) (moved (suc n) ∷ answers) =
    let (end, sent) = ksock_send (drop n xs) answers in (end, x ∷ (take n xs ++ sent))

-- One round of the loop: the value of `rx_buf_wr`, the bytes in the ring, the socket's answers.
pub record Round : Type 0 where
  pub wr_ptr : ℕ
  pub ring : ℕ → ℕ
  pub answers : List Sent

-- The bytes of the ring from an offset on.
unfoldable pub bytes_at : (ℕ → ℕ) → ℕ → ℕ → List ℕ
bytes_at ring off zero = []
bytes_at ring off (suc n) = ring off ∷ bytes_at ring (off + 1) n

unfoldable pub advance : ℕ → Streamer → Streamer
advance block_size p =
    let next = add32 p.rd_ptr block_size in
    record p { rd_ptr = if leb p.rxbuf_size next then 0 else next }

-- Why the loop is left: the thread is asked to stop, the client is gone, or it waits in a send.
pub data Ended : Type 0 where
  stopped disconnected waits : Ended

-- What has been sent: offsets in the ring and bytes.
abbrev pub Output : Type 0
Output = List (ℕ × List ℕ)

pub data Turn : Type 0 where
  go_on : Output → Streamer → Turn
  finish : Ended → Output → Streamer → Turn

-- The end of a round, after the send.
unfoldable pub after_send : ℕ → SendEnd → List ℕ → Streamer → Turn
after_send block_size send_ok sent p = go_on ((p.rd_ptr, sent) ∷ []) (advance block_size p)
after_send block_size send_failed sent p = finish disconnected ((p.rd_ptr, sent) ∷ []) p
after_send block_size send_waits sent p = finish waits ((p.rd_ptr, sent) ∷ []) p

unfoldable pub turn : ℕ → Round → Streamer → Turn
turn block_size r p =
    let (end, sent) = ksock_send (bytes_at r.ring p.rd_ptr block_size) r.answers in
    let synced = record p {
      effects = sync_for_cpu (add32 p.rxbuf_phys p.rd_ptr) block_size ∷ p.effects;
    } in
    if ltb (ringbuf_used p.rd_ptr r.wr_ptr p.rxbuf_size) block_size
    then go_on [] (record p { effects = slept ∷ p.effects })
    else after_send block_size end sent synced

-- The rounds until `kthread_should_stop`. `resume` is the loop after a round.
unfoldable pub resume : (Streamer → Ended × Output × Streamer) → Turn → Ended × Output × Streamer
resume rest (finish why out q) = (why, out, q)
resume rest (go_on out q) = let (why, more, q') = rest q in (why, out ++ more, q')

unfoldable pub stream_loop : ℕ → List Round → Streamer → Ended × Output × Streamer
stream_loop block_size [] p = (stopped, [], p)
stream_loop block_size (r ∷ rs) p = resume (stream_loop block_size rs) (turn block_size r p)

-- A thread that waits in a send has not come to the end of the function.
unfoldable pub leave : Ended → Streamer → Streamer
leave waits p = p
leave why p = fpga_disable p

unfoldable pub stream_to_client : ℕ → List Round → Streamer → Ended × Output × Streamer
stream_to_client block_size rs p =
    let (why, out, q) = stream_loop block_size rs (fpga_reset_and_enable p) in
    (why, out, leave why q)
