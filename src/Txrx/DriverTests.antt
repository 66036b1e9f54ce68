-- ===== src/Txrx/DriverTests.antt =====
-- The theorems on the device file at concrete inputs.
use zyndra.Txrx.Status.{DirStats, Previous}
use zyndra.Base.{◌-◌, ◌^◌, ℕ, ◌%◌, ◌≡◌, refl, Bool, true, false}
use zyndra.Axi.State.{Priv, Outcome, ret}
use zyndra.Axi.Control.{open_device, ioctl}
use zyndra.Axi.Probe.{Resource, fresh_priv}
use zyndra.Txrx.Driver.{Driver, driver_open, get_sizes}

abbrev rx_memory : Resource
rx_memory = record { start = 4096; size = 1024 }

abbrev tx_memory : Resource
tx_memory = record { start = 8192; size = 512 }

abbrev fresh : Priv
fresh = fresh_priv tx_memory rx_memory

abbrev closed : Driver
closed = record { fd_open = false; rx_buf_size = 0; tx_buf_size = 0; block_size = 0 }

abbrev opened : Bool × Driver × Priv
opened = driver_open 256 true true true 0 9 closed fresh

abbrev maps : ℕ → ℕ → Outcome ℕ
maps phys size = ret phys

rx_whole : fresh.rxbuf_size_max % 256 ≡ 0
unfolding fresh_priv
rx_whole = refl

tx_whole : fresh.txbuf_size_max % 256 ≡ 0
unfolding fresh_priv
tx_whole = refl

opens : opened.0 ≡ true
unfolding driver_open open_device get_sizes ioctl fresh_priv
opens = refl

abbrev counted : DirStats
counted = record { bytes = 24; overrun = 8; buf_used = 300; buf_size = 1000 }

-- The byte count has gone round the end of its word.
abbrev previous : Previous
previous = record { prev_bytes = 2 ^ 64 - 16; prev_overrun = 8 }
