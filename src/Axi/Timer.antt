-- ===== src/Axi/Timer.antt =====
-- `ad936x_axi_timer`, the periodic callback that counts the blocks that the FPGA has completed.
use zyndra.Base.{ℕ, ◌/◌, ◌%◌, ◌∷◌, ltb, if◌then◌else◌, add32, mul32}
use zyndra.Ring.{ringbuf_used}
use zyndra.Axi.State.{Priv, wake_rx, wake_tx, timer_forward}

-- The body under `if (new_blocks > 0)`.
unfoldable pub accept_blocks : ℕ → Priv → ℕ → Priv
accept_blocks rx_block_size p new_blocks =
    let advance = mul32 new_blocks rx_block_size in
    record p {
      timer_wr_ptr = add32 p.timer_wr_ptr advance % p.rxbuf_size;
      blocks_ready = add32 p.blocks_ready new_blocks;
      effects = wake_rx ∷ p.effects;
    }

-- `wr_ptr` is the value that the callback reads from `rx_buf_wr`.
unfoldable pub timer : ℕ → ℕ → Priv → Priv
timer rx_block_size wr_ptr p =
    let delta = ringbuf_used p.timer_wr_ptr wr_ptr p.rxbuf_size in
    let new_blocks = delta / rx_block_size in
    let p' =
      if ltb 0 p.rxbuf_size
      then (if ltb 0 new_blocks then accept_blocks rx_block_size p new_blocks else p)
      else p in
    record p' { effects = timer_forward ∷ wake_tx ∷ p'.effects }
