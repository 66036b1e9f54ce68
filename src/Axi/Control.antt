-- ===== src/Axi/Control.antt =====
-- `ad936x_axi_open`, `_mmap`, `_ioctl` and `_release`.
use zyndra.Base.{ℕ, ◌%◌, ◌∷◌, Bool, true, false, ltb, not, ◌==◌, if◌then◌else◌, bit_or}
use zyndra.Axi.State.{
  Priv, writel, wake_rx, wake_tx, timer_start, timer_cancel, ctrl, rx_buf_base, rx_buf_size,
  tx_buf_base, tx_buf_size, tx_buf_wr, ctrl_reset, ctrl_rx_enable, ctrl_tx_enable, Outcome, fail,
  ret, ebusy, einval, eperm, enotty, efault,
}

-- `hw_wr` is what the call reads from `rx_buf_wr`, `now` what it reads from the clock.
unfoldable pub reset_session : ℕ → ℕ → Priv → Priv
reset_session hw_wr now p = record p {
  in_use = 1;
  tx_wr_ptr = 0;
  rxbuf_size = 0;
  txbuf_size = 0;
  closing = false;
  rd_ptr = 0;
  timer_wr_ptr = hw_wr;
  blocks_ready = 0;
  open_time = now;
  last_read_time = now;
  total_bytes_written = 0;
  prev_wr_ptr = hw_wr;
  buf_used_peak = 0;
  read_count = 0;
  overrun_bytes = 0;
  effects =
      timer_start
      ∷ writel ctrl 0
      ∷ writel tx_buf_wr 0
      ∷ writel tx_buf_base p.txbuf_phys
      ∷ writel rx_buf_base p.rxbuf_phys
      ∷ writel ctrl ctrl_reset
      ∷ p.effects;
}

unfoldable pub open_device : ℕ → ℕ → Priv → Outcome ℕ × Priv
unfolding reset_session
open_device hw_wr now p =
    if p.in_use == 0 then (ret 0, reset_session hw_wr now p) else (fail ebusy, p)

-- The arguments of `mmap`: the size of the area, its page offset, and whether it is writable.
pub record Vma : Type 0 where
  pub size : ℕ
  pub pgoff : ℕ
  pub writable : Bool

-- `remap_pfn_range` is the kernel's: `remapped` is what it returns, 0 or an error, for a physical
-- address and a size.
module _ (remapped : ℕ → ℕ → Outcome ℕ) where
  unfoldable pub mmap : ℕ → Vma → Priv → Outcome ℕ × Priv
  mmap rx_block_size v p =
      if not (v.size % rx_block_size == 0)
      then (fail einval, p)
      else if v.pgoff == 0
      then (if v.writable
          then (fail eperm, p)
          else if ltb p.rxbuf_size_max v.size
          then (fail einval, p)
          else (
            remapped p.rxbuf_phys v.size,
            record p { rxbuf_size = v.size; effects = writel rx_buf_size v.size ∷ p.effects },
          ))
      else if v.pgoff == 1
      then (if ltb p.txbuf_size_max v.size then (fail einval, p) else (
        remapped p.txbuf_phys v.size,
        record p { txbuf_size = v.size; effects = writel tx_buf_size v.size ∷ p.effects },
      ))
      else (fail einval, p)

pub data Ioctl : Type 0 where
  get_rx_bufsize get_blocksize get_tx_bufsize enable : Ioctl
  other : ℕ → Ioctl

unfoldable pub enable_bits : Priv → ℕ
enable_bits p =
    bit_or (if ltb 0 p.rxbuf_size then ctrl_rx_enable else 0)
      (if ltb 0 p.txbuf_size then ctrl_tx_enable else 0)

unfoldable pub enable_fpga : Priv → Priv
unfolding enable_bits
enable_fpga p = record p {
  rd_ptr = 0;
  timer_wr_ptr = 0;
  blocks_ready = 0;
  effects = writel ctrl (enable_bits p) ∷ writel ctrl 0 ∷ p.effects;
}

-- The pair is what `put_user` stores and the state; `stored` says whether `put_user` succeeds.
unfoldable pub ioctl : ℕ → Bool → Ioctl → Priv → Outcome ℕ × Priv
unfolding enable_fpga
ioctl rx_block_size stored get_rx_bufsize p =
    (if stored then ret p.rxbuf_size_max else fail efault, p)
ioctl rx_block_size stored get_blocksize p = (if stored then ret rx_block_size else fail efault, p)
ioctl rx_block_size stored get_tx_bufsize p =
    (if stored then ret p.txbuf_size_max else fail efault, p)
ioctl rx_block_size stored enable p = (ret 0, enable_fpga p)
ioctl rx_block_size stored (other n) p = (fail enotty, p)

unfoldable pub release : Priv → Priv
release p = record p {
  closing = true;
  in_use = 0;
  effects = writel ctrl 0 ∷ timer_cancel ∷ wake_rx ∷ wake_tx ∷ p.effects;
}
