-- ===== src/Ring.antt =====
-- The fill of a byte ring, from `ringbuf_used` of ad9361-txrx/files/driver.h. The kernel driver
-- writes the same expression in place.
pub mod Distance
pub mod Blocks
use zyndra.Base.{ℕ, ◌-◌, leb, if◌then◌else◌, add32, sub32}

unfoldable pub ringbuf_used : ℕ → ℕ → ℕ → ℕ
ringbuf_used rd hw_wr size = if leb rd hw_wr then hw_wr - rd else add32 (sub32 size rd) hw_wr
