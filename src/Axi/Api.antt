-- ===== src/Axi/Api.antt =====
-- All entry points of the driver as one transition function.
pub mod Sizes
pub mod Ctrl
pub mod Single
use zyndra.Base.{ℕ, Bool}
use zyndra.Axi.State.{Priv, Outcome}
use zyndra.Axi.Timer.{timer}
use zyndra.Axi.Read.{ReadCall, read}
use zyndra.Axi.Write.{WriteCall, write}
use zyndra.Axi.Control.{open_device, Vma, mmap, Ioctl, ioctl, release}

-- A call, with what it takes from its caller and from the hardware.
pub data Call : Type 0 where
  open_call : ℕ → ℕ → Call
  mmap_call : Vma → Call
  ioctl_call : Bool → Ioctl → Call
  read_call : ReadCall → Call
  write_call : WriteCall → Call
  release_call : Call
  tick : ℕ → Call

module _ (remapped : ℕ → ℕ → Outcome ℕ) where
  unfoldable pub step : ℕ → Call → Priv → Priv
  step b (open_call hw_wr now) p = (open_device hw_wr now p).1
  step b (mmap_call v) p = (mmap remapped b v p).1
  step b (ioctl_call stored cmd) p = (ioctl b stored cmd p).1
  step b (read_call c) p = (read b c p).1
  step b (write_call c) p = (write b c p).1
  step b release_call p = release p
  step b (tick w) p = timer b w p
