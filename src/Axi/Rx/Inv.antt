-- ===== src/Axi/Rx/Inv.antt =====
-- The driver's receive pointers against absolute block numbers.
use zyndra.Base.{ℕ, ◌-◌, ◌*◌, ◌%◌, ◌^◌, ◌≤◌, ◌<◌, ◌≡◌}
use zyndra.Axi.State.{Priv}

-- `r` blocks have been handed out or skipped and `t` blocks counted by the timer since the FPGA was
-- enabled, in a ring of `n` blocks of `b` bytes.
pub record RxInv (b n r t : ℕ) (p : Priv) : Type 0 where
  pub block_pos : 0 < b
  pub ring_pos : 0 < n
  pub fits : n * b < 2 ^ 31
  pub size : p.rxbuf_size ≡ n * b
  pub read_at : p.rd_ptr ≡ r % n * b
  pub timer_at : p.timer_wr_ptr ≡ t % n * b
  pub order : r ≤ t
  pub ready : p.blocks_ready ≡ t - r
  pub counted : t - r < 2 ^ 31
