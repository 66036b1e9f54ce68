-- ===== src/Axi/Tx/Room.antt =====
-- The room that a successful `write` leaves, and what it does on each branch.
use zyndra.Base.{ℕ, ◌^◌, ◌≤◌, ◌<◌, ◌≡◌, ◌≢◌, arith, true, false}
use zyndra.Ring.{ringbuf_used}
use zyndra.Axi.State.{Priv, ret}
use zyndra.Axi.Write.{WriteCall, sizeof_tx_write, has_room, publish, write}

module _ (b : ℕ) (c : WriteCall) (p : Priv) where
  -- A call that blocks or fails, for whatever reason, leaves the driver's state and the hardware
  -- as they were.
  pub write-unchanged : (write b c p).0 ≢ ret sizeof_tx_write → (write b c p).1 ≡ p
  unfolding write
  write-unchanged h = ground arith

  -- A successful call had a write pointer inside the mapped ring, room by the driver's test and a
  -- device that is not closing, and does nothing but publish the pointer.
  pub write-checked :
      (write b c p).0 ≡ ret sizeof_tx_write
      → (c.wr < p.txbuf_size)
        × (has_room b c.wr c.tx_rd p.txbuf_size ≡ true)
        × (p.closing ≡ false)
        × ((write b c p).1 ≡ publish c.wr p)
  unfolding write
  write-checked h = ground arith

  -- After a successful call on a ring of at least one block, the next block's worth of bytes past
  -- the new write pointer holds no byte that the FPGA has still to read: every such offset is at
  -- least as far from the read pointer as the write pointer is.
  pub write-room :
      b ≤ p.txbuf_size
      → p.txbuf_size < 2 ^ 32
      → c.tx_rd < p.txbuf_size
      → (write b c p).0 ≡ ret sizeof_tx_write
      → (x : ℕ) → x < p.txbuf_size
      → ringbuf_used c.wr x p.txbuf_size < b
      → ringbuf_used c.tx_rd c.wr p.txbuf_size ≤ ringbuf_used c.tx_rd x p.txbuf_size
  unfolding has_room ringbuf_used
  write-room block_le small rd_in done x x_in free = ground (arith, write-checked done)
