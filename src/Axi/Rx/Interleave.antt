-- ===== src/Axi/Rx/Interleave.antt =====
-- `ad936x_axi_read` from its overrun test on, one access of the shared state at a time, with the
-- timer callback, which interrupts it between any two of them.
pub mod Order
pub mod Commute
pub mod Atomic
use zyndra.Base.{
  ℕ, zero, suc, ◌+◌, ◌-◌, ◌*◌, ◌/◌, ◌∷◌, List, [], Option, none, some, if◌then◌else◌, ltb, leb,
  leb_int, add32, sub32, add64,
}
use zyndra.Ring.{ringbuf_used}
use zyndra.Axi.State.{Priv, sync_for_cpu, Outcome, fail, ret, efault}
use zyndra.Axi.Timer.{timer}
use zyndra.Axi.Read.{RxRead, ReadCall, snap}

-- The next access of a reader that is past its wait, with `resp.lost_bytes`.
pub data Pc : Type 0 where
  testing : Pc
  snapping : Pc
  jumping subtracting : ℕ → ℕ → Pc
  taking measuring peaking stamping invalidating copying advancing : ℕ → Pc
  done : Outcome RxRead → Pc

module _ (rx_block_size : ℕ) (c : ReadCall) where
  unfoldable pub micro : Pc → Priv → Pc × Priv
  micro testing p =
      (if leb_int (p.rxbuf_size / rx_block_size) p.blocks_ready then snapping else taking 0, p)
  micro snapping p =
      let new_rd = snap rx_block_size c.wr_overrun p.rxbuf_size in
      let lost = ringbuf_used p.rd_ptr new_rd p.rxbuf_size in
      (jumping lost new_rd, record p { overrun_bytes = add64 p.overrun_bytes lost })
  micro (jumping lost new_rd) p = (subtracting lost new_rd, record p { rd_ptr = new_rd })
  micro (subtracting lost new_rd) p =
      (taking lost, record p { blocks_ready = sub32 p.blocks_ready (lost / rx_block_size) })
  micro (taking lost) p = (measuring lost, record p { blocks_ready = sub32 p.blocks_ready 1 })
  micro (measuring lost) p = (
    peaking lost,
    record p {
      total_bytes_written =
          add64 p.total_bytes_written (ringbuf_used p.prev_wr_ptr c.wr_now p.rxbuf_size);
      prev_wr_ptr = c.wr_now;
    },
  )
  micro (peaking lost) p =
      let used = ringbuf_used p.rd_ptr c.wr_now p.rxbuf_size in
      (
        stamping lost,
        record p { buf_used_peak = if ltb p.buf_used_peak used then used else p.buf_used_peak },
      )
  micro (stamping lost) p =
      (invalidating lost, record p { last_read_time = c.now; read_count = add64 p.read_count 1 })
  micro (invalidating lost) p = (
    copying lost,
    record p { effects = sync_for_cpu (add32 p.rxbuf_phys p.rd_ptr) rx_block_size ∷ p.effects },
  )
  micro (copying lost) p = (if c.copied then advancing lost else done (fail efault), p)
  micro (advancing lost) p =
      let next = add32 p.rd_ptr rx_block_size in
      (
        done (ret (record { rd = p.rd_ptr; hw_wr = c.wr_now; lost_bytes = lost })),
        record p { rd_ptr = if leb p.rxbuf_size next then 0 else next },
      )
  micro (done o) p = (done o, p)

  -- The reader alone, for a number of its accesses.
  unfoldable pub alone : ℕ → Pc × Priv → Pc × Priv
  alone zero s = s
  alone (suc n) s = alone n (micro s.0 s.1)

  -- `none` is the reader's next access, `some wr` a timer callback that reads `wr` from `rx_buf_wr`.
  unfoldable pub interleave : List (Option ℕ) → Pc × Priv → Pc × Priv
  interleave [] s = s
  interleave (none ∷ sched) s = interleave sched (micro s.0 s.1)
  interleave (some wr ∷ sched) s = interleave sched (s.0, timer rx_block_size wr s.1)

-- A run of the callback for each of the values, the first first.
unfoldable pub timers : ℕ → List ℕ → Priv → Priv
timers rx_block_size [] p = p
timers rx_block_size (wr ∷ wrs) p = timers rx_block_size wrs (timer rx_block_size wr p)

-- The callbacks before the reader's first access, and those after it.
unfoldable pub before_first : List (Option ℕ) → List ℕ
before_first [] = []
before_first (none ∷ sched) = []
before_first (some wr ∷ sched) = wr ∷ before_first sched

unfoldable pub callbacks : List (Option ℕ) → List ℕ
callbacks [] = []
callbacks (none ∷ sched) = callbacks sched
callbacks (some wr ∷ sched) = wr ∷ callbacks sched

unfoldable pub after_first : List (Option ℕ) → List ℕ
after_first [] = []
after_first (none ∷ sched) = callbacks sched
after_first (some wr ∷ sched) = after_first sched

unfoldable pub accesses : List (Option ℕ) → ℕ
accesses [] = 0
accesses (none ∷ sched) = suc (accesses sched)
accesses (some wr ∷ sched) = accesses sched
