-- ===== src/Receiver.antt =====
-- The receiver application ad9361-rx/files/ad9361_rx.c: the main loop copies blocks from the FPGA's
-- ring into a pool of buffers, and a thread sends them.
pub mod Copy
mod Slots
pub mod Fifo
pub mod Reconnect
pub mod Tcp
pub mod Server
pub mod Status
pub mod Setup
pub mod Udp
mod Tests
mod TcpTests
use zyndra.Base.{
  ℕ, zero, suc, ◌+◌, ◌-◌, ◌%◌, ◌==◌, List, [], ◌∷◌, ◌++◌, ltb, if◌then◌else◌, Option, none, some,
  add32, sub32,
}
use zyndra.Ring.{ringbuf_used}
use zyndra.Txrx.Prbs.{update}

-- `memcpy` from the ring.
unfoldable pub bytes_at : (ℕ → ℕ) → ℕ → ℕ → List ℕ
bytes_at ring off zero = []
bytes_at ring off (suc n) = ring off ∷ bytes_at ring (off + 1) n

-- The copy of one block, in two parts where it goes round the end of the ring.
unfoldable pub copy_block : (ℕ → ℕ) → ℕ → ℕ → ℕ → List ℕ
copy_block ring size rd_ptr n =
    let before_wrap = sub32 size rd_ptr in
    if ltb before_wrap n
    then bytes_at ring rd_ptr before_wrap ++ bytes_at ring 0 (n - before_wrap)
    else bytes_at ring rd_ptr n

-- The two semaphores by their counts, the pool, both threads' positions in it, and the counters.
pub record Pool : Type 0 where
  pub slots : ℕ → List ℕ
  pub slot_free : ℕ
  pub slot_used : ℕ
  pub in_nr : ℕ
  pub out_nr : ℕ
  pub rd_ptr : ℕ
  pub wait_cnt : ℕ
  pub lost_bytes : ℕ
  pub pass_cnt : ℕ
  pub send_cnt : ℕ

-- The state before the main loop.
unfoldable pub empty_pool : (ℕ → List ℕ) → ℕ → Pool
empty_pool slots buf_cnt = record {
  slots = slots;
  slot_free = buf_cnt;
  slot_used = 0;
  in_nr = 0;
  out_nr = 0;
  rd_ptr = 0;
  wait_cnt = 0;
  lost_bytes = 0;
  pass_cnt = 0;
  send_cnt = 0;
}

module _ (buf_cnt buf_size rx_buf_size : ℕ) where
  -- A free slot takes the next block.
  unfoldable pub fill : (ℕ → ℕ) → Pool → Pool
  fill ring s = record s {
    slot_free = s.slot_free - 1;
    slots = update s.slots s.in_nr (copy_block ring rx_buf_size s.rd_ptr buf_size);
    rd_ptr = add32 s.rd_ptr buf_size % rx_buf_size;
    slot_used = s.slot_used + 1;
    in_nr = (s.in_nr + 1) % buf_cnt;
    pass_cnt = add32 s.pass_cnt 1;
  }

  -- One round of the main loop, at a value of `rx_buf_wr` and a content of the ring.
  unfoldable pub receive : ℕ → (ℕ → ℕ) → Pool → Pool
  receive wr_ptr ring s =
      let available = ringbuf_used s.rd_ptr wr_ptr rx_buf_size in
      if ltb available buf_size
      then record s { wait_cnt = add32 s.wait_cnt 1 }
      else if s.slot_free == 0
      then record s { lost_bytes = add32 s.lost_bytes available; rd_ptr = wr_ptr }
      else fill ring s

  -- One round of the loop of `transmit_thread_tcp` whose send succeeds, from `sem_wait` to the
  -- counter: what is sent, or none where the thread waits. The slot is given back after the send.
  unfoldable pub transmit : Pool → Option (List ℕ × Pool)
  transmit s =
      if s.slot_used == 0
      then none
      else some (
        s.slots s.out_nr,
        record s {
          slot_used = s.slot_used - 1;
          slot_free = s.slot_free + 1;
          out_nr = (s.out_nr + 1) % buf_cnt;
          send_cnt = add32 s.send_cnt 1;
        },
      )

  -- A round of either thread.
  pub data Event : Type 0 where
    receives : ℕ → (ℕ → ℕ) → Event
    transmits : Event

  -- The blocks sent, oldest first, in an order of rounds.
  unfoldable pub run : List Event → Pool → List (List ℕ) × Pool
  run [] s = ([], s)
  run (receives wr ring ∷ es) s = run es (receive wr ring s)
  run (transmits ∷ es) s = elim (transmit s) [
    | none ↦ run es s
    | some (x, t) ↦ (let (sent, u) = run es t in (x ∷ sent, u))
  ]
