-- ===== src/Txrx/Driver.antt =====
-- driver.c: the application's access to the device file, over the kernel driver ad936x-axi.
pub mod Opened
use zyndra.Base.{ℕ, Bool, true, false, Option, none, some, if◌then◌else◌, not}
use zyndra.Axi.State.{Priv, Outcome, blocked, fail, ret}
use zyndra.Axi.Read.{RxRead, ReadCall, read}
use zyndra.Axi.Write.{WriteCall, write}
use zyndra.Axi.Control.{
  open_device, Vma, mmap, Ioctl, get_rx_bufsize, get_tx_bufsize, get_blocksize, enable, ioctl,
  release,
}

-- `struct driver`; `fd_open` stands for a descriptor that is not negative.
pub record Driver : Type 0 where
  pub fd_open : Bool
  pub rx_buf_size : ℕ
  pub tx_buf_size : ℕ
  pub block_size : ℕ

-- Closing the last descriptor releases the device.
unfoldable pub driver_close : Driver → Priv → Driver × Priv
driver_close d p = if d.fd_open then (record d { fd_open = false }, release p) else (d, p)

-- The value of a system call that succeeds.
abbrev pub value {ℓ} :
    {A : Type ℓ}
    → Option A
    → (A → Bool × Driver × Priv)
    → Bool × Driver × Priv
    → Bool × Driver × Priv
value none k other = other
value (some a) k other = k a

abbrev pub result : {A : Type 0} → Outcome A → Option A
result (ret a) = some a
result o = none

-- The end of `driver_open` after a failed ioctl.
unfoldable pub give_up : Driver → Priv → Bool × Driver × Priv
give_up d p = (false, record d { fd_open = false }, release p)

-- `b` is the block size of the kernel driver; the three tests say whether `put_user` succeeds.
module _ (b : ℕ) (rx_stored tx_stored block_stored : Bool) where
  unfoldable pub get_sizes : Driver → Priv → Bool × Driver × Priv
  get_sizes d p =
      value (result (ioctl b rx_stored get_rx_bufsize p).0)
        (λ rx.
          let d = record d { rx_buf_size = rx } in
          value (result (ioctl b tx_stored get_tx_bufsize p).0)
            (λ tx.
              let d = record d { tx_buf_size = tx } in
              value (result (ioctl b block_stored get_blocksize p).0)
                (λ size. (true, record d { block_size = size }, p)) (give_up d p))
            (give_up d p))
        (give_up d p)

  unfoldable pub driver_open : ℕ → ℕ → Driver → Priv → Bool × Driver × Priv
  driver_open hw_wr now d p =
      let (o, q) = open_device hw_wr now p in
      value (result o) (λ fd. get_sizes (record d { fd_open = true }) q)
        (false, record d { fd_open = false }, q)

-- `none` is -1. The caller's arguments of the system call are those of the source.
unfoldable pub driver_rx_get_block : ℕ → ReadCall → Driver → Priv → Option RxRead × Priv
driver_rx_get_block b c d p =
    let (o, q) = read b (record c { count = 12 }) p in
    if d.fd_open then (result o, q) else (none, p)

unfoldable pub driver_tx_put_block : ℕ → ℕ → WriteCall → Driver → Priv → Option ℕ × Priv
driver_tx_put_block b wr c d p =
    let (o, q) = write b (record c { count = 4; wr = wr }) p in
    if d.fd_open then (result o, q) else (none, p)

module _ (remapped : ℕ → ℕ → Outcome ℕ) (b : ℕ) where
  unfoldable pub driver_rx_mmap : Driver → Priv → Option ℕ × Priv
  driver_rx_mmap d p =
      let (o, q) =
        mmap remapped b (record { size = d.rx_buf_size; pgoff = 0; writable = false }) p in
      if d.fd_open then (result o, q) else (none, p)

  -- The offset is one page.
  unfoldable pub driver_tx_mmap : ℕ → Driver → Priv → Option ℕ × Priv
  driver_tx_mmap size d p =
      let (o, q) = mmap remapped b (record { size = size; pgoff = 1; writable = true }) p in
      if d.fd_open then (result o, q) else (none, p)

unfoldable pub driver_enable : ℕ → Bool → Driver → Priv → Option ℕ × Priv
driver_enable b stored d p =
    let (o, q) = ioctl b stored enable p in if d.fd_open then (result o, q) else (none, p)
