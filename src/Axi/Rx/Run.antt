-- ===== src/Axi/Rx/Run.antt =====
-- The receive path as a whole: the FPGA produces, the timer counts, a reader reads, in any order.
use native.Mathlib.Nat.{mod-lt, div-mul-le_self, lt-div-mul-add, mod-eq_of_lt}
use zyndra.Base.{
  ℕ, ◌+◌, ◌-◌, ◌*◌, ◌/◌, ◌%◌, ◌^◌, ◌≤◌, ◌<◌, ◌≡◌, refl, arith, false, true, sym, subst, ap, lt→leb,
}
use zyndra.Ring.Blocks.{mul-le-mul}
use zyndra.Axi.State.{Priv, ret}
use zyndra.Axi.Timer.{timer}
use zyndra.Axi.Read.{ReadCall, sizeof_rx_read, read}
use zyndra.Axi.Control.{enable_fpga}
use zyndra.Axi.Rx.Inv.{RxInv}
use zyndra.Axi.Rx.Tick.{timer-RxInv}
use zyndra.Axi.Rx.Overrun.{skipped}
use zyndra.Axi.Rx.Serve.{read-serves}

-- The driver with the absolute counts since the FPGA was enabled: `written` bytes by the FPGA,
-- `counted` blocks by the timer, `passed` blocks handed out or skipped.
pub record Receiver : Type 0 where
  pub written : ℕ
  pub counted : ℕ
  pub passed : ℕ
  pub driver : Priv

module _ (b n : ℕ) where
  -- The FPGA stays less than a ring ahead of the timer's last count, which the 1 ms period gives.
  -- `rx_buf_wr` reads as `written` modulo the ring.
  pub data Step : Receiver → Receiver → Type 0 where
    produce :
        (s : Receiver) (d : ℕ)
        → s.written + d < s.counted * b + n * b
        → Step s (record s { written = s.written + d })
    tick :
        (s : Receiver)
        → s.written / b - s.passed < 2 ^ 31
        → Step s
            (record s { counted = s.written / b; driver = timer b (s.written % (n * b)) s.driver })
    serve :
        (s : Receiver) (c : ReadCall)
        → c.wr_overrun ≡ s.written % (n * b)
        → s.passed < s.counted
        → s.driver.closing ≡ false
        → sizeof_rx_read ≤ c.count
        → c.copied ≡ true
        → Step s (record s {
          passed = s.passed + skipped b n s.passed s.counted c.wr_overrun + 1;
          driver = (read b c s.driver).1;
        })

  pub data Reach (s : Receiver) : Receiver → Type 0 where
    here : Reach s s
    next : {t u : Receiver} → Reach s t → Step t u → Reach s u

  pub record IsSynced (s : Receiver) : Type 0 where
    pub inv : RxInv b n s.passed s.counted s.driver
    pub low : s.counted * b ≤ s.written
    pub high : s.written < s.counted * b + n * b

  pub ring-lt : {s : Receiver} → IsSynced s → s.written % (n * b) < n * b
  ring-lt {s} v = mod-lt s.written (grind (arith, v.inv.block_pos, v.inv.ring_pos))

  pub Step-IsSynced : {s u : Receiver} → Step s u → IsSynced s → IsSynced u
  Step-IsSynced (produce s d room) v = record {
    inv = v.inv;
    low = omega (arith, v.low);
    high = room;
  }
  Step-IsSynced (tick s few) v = record {
    inv = timer-RxInv v.inv s.written v.low v.high few;
    low = div-mul-le_self s.written b;
    high = grind (arith, lt-div-mul-add {a = s.written} v.inv.block_pos, v.inv.ring_pos);
  }
  Step-IsSynced (serve s c at ready is_open fits copied) v = record {
    inv =
        (read-serves c v.inv (subst (λ x. x < n * b) (sym at) (ring-lt v)) ready is_open fits
          copied).1;
    low = v.low;
    high = v.high;
  }

  -- The driver right after `IOCTL_ENABLE`.
  abbrev pub enabled : Priv → Receiver
  enabled p = record { written = 0; counted = 0; passed = 0; driver = enable_fpga p }

  zero-mod : 0 < n → 0 % n * b ≡ 0
  zero-mod n_pos = rw (mod-eq_of_lt n_pos) (omega arith)

  enabled-IsSynced :
      (p : Priv) → 0 < b → 0 < n → n * b < 2 ^ 31 → p.rxbuf_size ≡ n * b → IsSynced (enabled p)
  unfolding enable_fpga
  enabled-IsSynced p b_pos n_pos fits size = record {
    inv = record {
      block_pos = b_pos;
      ring_pos = n_pos;
      fits = fits;
      size = size;
      read_at = sym (zero-mod n_pos);
      timer_at = sym (zero-mod n_pos);
      order = omega arith;
      ready = refl;
      counted = omega arith;
    };
    low = omega arith;
    high = grind arith;
  }

  -- From `IOCTL_ENABLE` on, in every order of FPGA writes, timer callbacks and successful reads
  -- in which the FPGA stays less than a ring ahead of the timer, the driver's pointers are the
  -- block counts modulo the ring, `blocks_ready` is exactly the number of blocks counted and not
  -- yet passed, and the timer is never ahead of the FPGA.
  pub Reach-IsSynced :
      (p : Priv) {s : Receiver}
      → 0 < b
      → 0 < n
      → n * b < 2 ^ 31
      → p.rxbuf_size ≡ n * b
      → Reach (enabled p) s
      → IsSynced s
  Reach-IsSynced p b_pos n_pos fits size here = enabled-IsSynced p b_pos n_pos fits size
  Reach-IsSynced p b_pos n_pos fits size (next r st) =
      Step-IsSynced st (Reach-IsSynced p b_pos n_pos fits size r)

module _ {b n : ℕ} {s : Receiver} (c : ReadCall) (v : IsSynced b n s)
    (timed : s.written / b ≡ s.counted) (ready : s.passed < s.counted)
    (behind : s.counted - s.passed < n) (at : c.wr_overrun ≡ s.written % (n * b))
    (is_open : s.driver.closing ≡ false) (fits : sizeof_rx_read ≤ c.count)
    (copied : c.copied ≡ true) where
  no_skip : skipped b n s.passed s.counted c.wr_overrun ≡ 0
  no_skip = rw (lt→leb n (s.counted - s.passed) behind)

  whole : (s.passed + 1) * b ≤ s.written
  whole = omega (arith, v.low, mul-le-mul b (s.passed + 1) s.counted (omega arith))

  not_overwritten : s.written < s.passed * b + n * b
  not_overwritten = omega (
    arith,
    lt-div-mul-add {a = s.written} v.inv.block_pos,
    ap (λ (x : ℕ). x * b) timed,
    mul-le-mul b (s.counted + 1) (s.passed + n) (omega arith),
  )

  -- In a state that agrees with the block counts as `IsSynced` says, right after a timer callback and
  -- with at least one and less than a ring of blocks waiting, a call with a large enough buffer, a
  -- successful copy and the device open reports no loss and returns the offset of the block after the
  -- last one; that block is written in full, and no byte of it has been overwritten.
  pub read-fresh :
      ((read b c s.driver).0
        ≡ ret (record { rd = s.passed % n * b; hw_wr = c.wr_now; lost_bytes = 0 }))
      × ((s.passed + 1) * b ≤ s.written)
      × (s.written < s.passed * b + n * b)
  read-fresh = (
    ground (
      arith,
      (read-serves c v.inv (subst (λ x. x < n * b) (sym at) (ring-lt b n v)) ready is_open fits
          copied).0,
      no_skip,
    ),
    whole,
    not_overwritten,
  )
