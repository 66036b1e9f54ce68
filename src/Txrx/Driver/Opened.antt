-- ===== src/Txrx/Driver/Opened.antt =====
-- What `driver_open` leaves, and what the maps find.
use zyndra.Base.{ℕ, ◌%◌, ◌≡◌, arith, Bool, true, false, ◌==◌, ◌&&◌, if◌then◌else◌}
use zyndra.Axi.State.{Priv, Outcome}
use zyndra.Axi.Control.{open_device, mmap, ioctl, release, reset_session}
use zyndra.Txrx.Driver.{
  Driver, result, give_up, get_sizes, driver_open, driver_rx_mmap, driver_tx_mmap,
}

-- `driver_open` succeeds exactly when the device was free and all three sizes are stored. It then
-- holds the device and has the driver's sizes, and else it leaves the device held or free as it was
-- and its descriptor closed.
pub driver_open_lem :
    (b : ℕ) (rx tx block : Bool) (hw_wr now : ℕ) (d : Driver) (p : Priv)
    → let r = driver_open b rx tx block hw_wr now d p in
      (r.0 ≡ ((p.in_use == 0) && (rx && (tx && block))))
      × (r.1.fd_open ≡ r.0)
      × (if r.0
          then (r.2.in_use ≡ 1)
            × (r.1.rx_buf_size ≡ p.rxbuf_size_max)
            × (r.1.tx_buf_size ≡ p.txbuf_size_max)
            × (r.1.block_size ≡ b)
          else r.2.in_use ≡ p.in_use)
unfolding driver_open get_sizes give_up open_device reset_session ioctl release
driver_open_lem b true true true hw_wr now d p = ground arith
driver_open_lem b true true false hw_wr now d p = ground arith
driver_open_lem b true false block hw_wr now d p = ground arith
driver_open_lem b false tx block hw_wr now d p = ground arith

-- On reserved memory of whole blocks, mapping with the sizes that `driver_open` has got is not
-- refused by the driver: after an open that succeeds, both maps return what the kernel's mapping of
-- the whole memory does.
pub driver_rx_mmap-driver_open :
    (remapped : ℕ → ℕ → Outcome ℕ) (b : ℕ) (rx tx block : Bool) (hw_wr now : ℕ) (d : Driver)
    (p : Priv)
    → p.rxbuf_size_max % b ≡ 0
    → p.txbuf_size_max % b ≡ 0
    → (driver_open b rx tx block hw_wr now d p).0 ≡ true
    → let r = driver_open b rx tx block hw_wr now d p in
      ((driver_rx_mmap remapped b r.1 r.2).0 ≡ result (remapped p.rxbuf_phys p.rxbuf_size_max))
      × ((driver_rx_mmap remapped b r.1 r.2).1.rxbuf_size ≡ p.rxbuf_size_max)
      × ((driver_tx_mmap remapped b r.1.tx_buf_size r.1 r.2).0
          ≡ result (remapped p.txbuf_phys p.txbuf_size_max))
      × ((driver_tx_mmap remapped b r.1.tx_buf_size r.1 r.2).1.txbuf_size ≡ p.txbuf_size_max)
unfolding driver_open get_sizes give_up open_device reset_session ioctl release driver_rx_mmap
    driver_tx_mmap mmap
driver_rx_mmap-driver_open remapped b true true true hw_wr now d p h k e = ground arith
driver_rx_mmap-driver_open remapped b true true false hw_wr now d p h k e = ground arith
driver_rx_mmap-driver_open remapped b true false block hw_wr now d p h k e = ground arith
driver_rx_mmap-driver_open remapped b false tx block hw_wr now d p h k e = ground arith
