-- ===== src/Axi/Api/Sizes.antt =====
-- The mapped buffers are whole blocks inside the reserved memory, whatever calls are made.
use native.Mathlib.Nat.{mod-eq_of_lt}
use zyndra.Base.{ℕ, ◌%◌, ◌≤◌, ◌<◌, ◌≡◌, arith}
use zyndra.Axi.State.{Priv, Outcome}
use zyndra.Axi.Timer.{timer, accept_blocks}
use zyndra.Axi.Read.{read, deliver, take_block, advance_rd, check_overrun, skip_overrun}
use zyndra.Axi.Write.{write, publish}
use zyndra.Axi.Control.{
  open_device, mmap, ioctl, release, get_rx_bufsize, get_blocksize, get_tx_bufsize, enable, other,
}
use zyndra.Axi.Api.{
  Call, open_call, mmap_call, ioctl_call, read_call, write_call, release_call, tick, step,
}

pub record IsMapped (b : ℕ) (p : Priv) : Type 0 where
  pub rx_blocks : p.rxbuf_size % b ≡ 0
  pub rx_inside : p.rxbuf_size ≤ p.rxbuf_size_max
  pub tx_blocks : p.txbuf_size % b ≡ 0
  pub tx_inside : p.txbuf_size ≤ p.txbuf_size_max
  pub single : p.in_use ≤ 1

-- What the calls of a session leave alone.
pub record SameMemory (p q : Priv) : Type 0 where
  pub rx_phys : q.rxbuf_phys ≡ p.rxbuf_phys
  pub rx_max : q.rxbuf_size_max ≡ p.rxbuf_size_max
  pub tx_phys : q.txbuf_phys ≡ p.txbuf_phys
  pub tx_max : q.txbuf_size_max ≡ p.txbuf_size_max

record SameSizes (p q : Priv) : Type 0 where
  rx : q.rxbuf_size ≡ p.rxbuf_size
  tx : q.txbuf_size ≡ p.txbuf_size
  use_kept : q.in_use ≡ p.in_use
  memory : SameMemory p q

read-SameSizes : (b : ℕ) {p : Priv} (c : _) → SameSizes p (read b c p).1
unfolding read deliver take_block advance_rd check_overrun skip_overrun
read-SameSizes b c = ground arith

write-SameSizes : (b : ℕ) {p : Priv} (c : _) → SameSizes p (write b c p).1
unfolding write publish
write-SameSizes b c = ground arith

timer-SameSizes : (b w : ℕ) (p : Priv) → SameSizes p (timer b w p)
unfolding timer accept_blocks
timer-SameSizes b w p = ground arith

-- Every call keeps the buffers whole blocks inside the reserved memory, and leaves the memory alone.
pub step-IsMapped :
    (remapped : ℕ → ℕ → Outcome ℕ) (b : ℕ) (c : Call) (p : Priv)
    → IsMapped b p
    → 0 < b
    → IsMapped b (step remapped b c p) × SameMemory p (step remapped b c p)
unfolding step open_device mmap ioctl release
step-IsMapped remapped b (open_call hw_wr now) p v pos = ground (arith, mod-eq_of_lt pos)
step-IsMapped remapped b (mmap_call m) p v pos = ground arith
step-IsMapped remapped b (ioctl_call stored get_rx_bufsize) p v pos = ground arith
step-IsMapped remapped b (ioctl_call stored get_blocksize) p v pos = ground arith
step-IsMapped remapped b (ioctl_call stored get_tx_bufsize) p v pos = ground arith
step-IsMapped remapped b (ioctl_call stored enable) p v pos = ground arith
step-IsMapped remapped b (ioctl_call stored (other n)) p v pos = ground arith
step-IsMapped remapped b (read_call c) p v pos = ground (arith, read-SameSizes b {p = p} c)
step-IsMapped remapped b (write_call c) p v pos = ground (arith, write-SameSizes b {p = p} c)
step-IsMapped remapped b release_call p v pos = ground arith
step-IsMapped remapped b (tick w) p v pos = ground (arith, timer-SameSizes b w p)
