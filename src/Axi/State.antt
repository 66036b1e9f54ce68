-- ===== src/Axi/State.antt =====
-- `struct ad936x_axi`, the register file, and what an operation does to the hardware.
use zyndra.Base.{ℕ, Bool, List, ltb, ◌==◌, not, ◌&&◌, ◌^◌}

-- `struct ad936x_axi_regs`
pub data Reg : Type 0 where
  info ctrl tx_underrun rx_overflow rx_buf_base rx_buf_size reserved rx_buf_wr : Reg
  tx_buf_base tx_buf_size tx_buf_rd tx_buf_wr : Reg

-- The byte offset of a register, from the comments beside the fields.
unfoldable pub offset : Reg → ℕ
offset info = 0x00
offset ctrl = 0x04
offset tx_underrun = 0x08
offset rx_overflow = 0x0c
offset rx_buf_base = 0x10
offset rx_buf_size = 0x14
offset reserved = 0x18
offset rx_buf_wr = 0x1c
offset tx_buf_base = 0x20
offset tx_buf_size = 0x24
offset tx_buf_rd = 0x28
offset tx_buf_wr = 0x2c

abbrev pub ctrl_reset : ℕ
ctrl_reset = 1

abbrev pub ctrl_rx_enable : ℕ
ctrl_rx_enable = 2

abbrev pub ctrl_tx_enable : ℕ
ctrl_tx_enable = 4

abbrev pub info_magic : ℕ
info_magic = 0xad93

-- Calls that reach the hardware, the timer or the wait queues.
pub data Effect : Type 0 where
  writel : Reg → ℕ → Effect
  wake_rx wake_tx timer_start timer_forward timer_cancel : Effect
  sync_for_cpu sync_for_device : ℕ → ℕ → Effect

-- `effects` is the driver's history of such calls, the latest first. `blocks_ready` is the bit
-- pattern of an `int`. Times are in nanoseconds.
pub record Priv : Type 0 where
  pub txbuf_phys : ℕ
  pub txbuf_size : ℕ
  pub txbuf_size_max : ℕ
  pub tx_wr_ptr : ℕ
  pub rxbuf_phys : ℕ
  pub rxbuf_size : ℕ
  pub rxbuf_size_max : ℕ
  pub rd_ptr : ℕ
  pub in_use : ℕ
  pub closing : Bool
  pub blocks_ready : ℕ
  pub timer_wr_ptr : ℕ
  pub open_time : ℕ
  pub last_read_time : ℕ
  pub total_bytes_written : ℕ
  pub prev_wr_ptr : ℕ
  pub buf_used_peak : ℕ
  pub read_count : ℕ
  pub overrun_bytes : ℕ
  pub effects : List Effect

pub data Errno : Type 0 where
  ebusy einval enodev efault eperm enotty enomem : Errno

-- `blocked`: the call sleeps in `wait_event`, and has changed nothing.
pub data Outcome (A : Type 0) : Type 0 where
  blocked : Outcome A
  fail : Errno → Outcome A
  ret : A → Outcome A

-- `0 < x` for an `int` given by its bit pattern.
abbrev pub is_pos_int : ℕ → Bool
is_pos_int x = not (x == 0) && ltb x (2 ^ 31)
