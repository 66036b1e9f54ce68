-- ===== src/Axi/Tx/Content.antt =====
-- What the FPGA sends is what the program plays.
use native.Mathlib.Nat.{zero-mod}
use zyndra.Base.{
  ℕ, ◌+◌, ◌-◌, ◌*◌, ◌%◌, ◌≤◌, ◌<◌, ◌≡◌, refl, ap, ap₂, ◌∙◌, arith, sym, List, ◌++◌, inl, inr,
}
use zyndra.Ring.{ringbuf_used}
use zyndra.Ring.Distance.{ringbuf_used-mod}
use zyndra.Ring.Blocks.{mul-le-mul}
use zyndra.Axi.Rx.Content.{bytes_at-add}
use zyndra.Receiver.{bytes_at}
use zyndra.Axi.Timer.{timer}
use zyndra.Axi.Read.{read}
use zyndra.Axi.Control.{enable_fpga}
use zyndra.Axi.Tx.Reach.{
  fpga_after-register, timer-SameRing, read-SameRing, enable_fpga-SameRing, published-priv,
}
use zyndra.Axi.Tx.Play.{
  Sender, Plays, begins, stores, publishes, sends, ticks, reads, enables, sent_from-bytes_at,
}
use zyndra.Axi.Tx.Ahead.{
  IsAhead, stores-content, publishes-room, publishes-memory, sends-order, same-IsAhead,
}

module _ (b n : ℕ) where
  Plays-IsAhead :
      {f : ℕ → ℕ} {out : List ℕ} {s : Sender}
      → Plays b n f out s
      → ((k : ℕ) × IsAhead b n f k s) × (out ≡ bytes_at f 0 s.sent)
  unfolding bytes_at
  Plays-IsAhead (begins ring h p b_pos n_pos fit size phys pointer register) = (
    (
      0,
      record {
        block_pos = b_pos;
        ring_pos = n_pos;
        fits = fit;
        size = size;
        at = omega arith;
        phys = phys;
        pointer = pointer ∙ sym (zero-mod (n * b));
        register = register ∙ sym (zero-mod (n * b));
        memory = λ i lo hi. absurd (omega arith);
        next = inl refl;
        order = omega arith;
        room = omega (arith, mul-le-mul b 1 n n_pos);
        content = λ i lo hi. absurd (omega arith);
      },
    ),
    refl,
  )
  Plays-IsAhead (stores h e) =
      let ((k, v), same) = Plays-IsAhead h in
      (
        (
          k,
          record {
            block_pos = v.block_pos;
            ring_pos = v.ring_pos;
            fits = v.fits;
            size = v.size;
            at = v.at;
            phys = v.phys;
            pointer = v.pointer;
            register = v.register;
            memory = v.memory;
            next = inr refl;
            order = v.order;
            room = v.room;
            content = stores-content b n v e;
          },
        ),
        same,
      )
  Plays-IsAhead (publishes {s = s} c h e wr rd not_full done) =
      let ((k, v), same) = Plays-IsAhead h in
      let room = publishes-room b n v c e wr rd not_full done in
      let moved = published-priv b c s.driver done in
      (
        (
          k + 1,
          record {
            block_pos = v.block_pos;
            ring_pos = v.ring_pos;
            fits = v.fits;
            size = moved.0 ∙ v.size;
            at = omega (arith, v.at);
            phys = omega (arith, moved.1, v.phys);
            pointer = moved.2 ∙ wr;
            register = fpga_after-register b c s.ring s.driver s.fpga done ∙ wr;
            memory = λ i lo hi. publishes-memory b n v c e wr room done i lo hi;
            next = inl e;
            order = omega (arith, v.order);
            room = room;
            content = v.content;
          },
        ),
        same,
      )
  Plays-IsAhead {f} (sends {out} {s} d h le) =
      let ((k, v), same) = Plays-IsAhead h in
      (
        (
          k,
          record {
            block_pos = v.block_pos;
            ring_pos = v.ring_pos;
            fits = v.fits;
            size = v.size;
            at = v.at;
            phys = v.phys;
            pointer = v.pointer;
            register = v.register;
            memory = λ i lo hi. v.memory i (omega arith) hi;
            next = v.next;
            order = sends-order b n v d le;
            room = omega (arith, v.room);
            content = λ i lo hi. v.content i (omega arith) hi;
          },
        ),
        ap₂ (λ xs ys. xs ++ ys) same
              (sent_from-bytes_at s.fpga.memory f (n * b) s.sent d
                (λ i lo hi. v.memory i lo (omega (arith, hi, sends-order b n v d le))))
            ∙ (ap (λ a. bytes_at f 0 s.sent ++ bytes_at f a d) {x = s.sent} {y = 0 + s.sent}
                  (omega arith)
                ∙ bytes_at-add f 0 s.sent d),
      )
  Plays-IsAhead (ticks {s = s} wr h) =
      let ((k, v), same) = Plays-IsAhead h in
      ((k, same-IsAhead b n v (timer b wr s.driver) (timer-SameRing b wr s.driver)), same)
  Plays-IsAhead (reads {s = s} c h) =
      let ((k, v), same) = Plays-IsAhead h in
      ((k, same-IsAhead b n v ((read b c s.driver).1) (read-SameRing b c s.driver)), same)
  Plays-IsAhead (enables {s = s} h) =
      let ((k, v), same) = Plays-IsAhead h in
      ((k, same-IsAhead b n v (enable_fpga s.driver) (enable_fpga-SameRing s.driver)), same)

  -- On a ring of whole blocks below 2^32 bytes: while a program plays a stream in blocks, in the
  -- order store, `write`, store, `write`, and so on, and the FPGA sends from its memory as far as
  -- the register `tx_buf_wr` says, the bytes sent so far are the front of the stream, none lost,
  -- repeated or overwritten before it is sent, whatever the order of the stores, the calls, the
  -- sending, the timer's callbacks and the reads. The register says just how far the program has
  -- published, and every byte that is published and not yet sent has been flushed to the memory
  -- that the FPGA reads. A call of `write` is taken at a moment when its pointer does not fill the
  -- ring to the last byte.
  pub Plays-sent :
      {f : ℕ → ℕ} {out : List ℕ} {s : Sender}
      → Plays b n f out s
      → (out ≡ bytes_at f 0 s.sent)
        × (s.sent ≤ s.published)
        × (ringbuf_used (s.sent % (n * b)) s.fpga.register (n * b) ≡ s.published - s.sent)
        × ((i : ℕ) → s.sent ≤ i → i < s.published → s.fpga.memory (i % (n * b)) ≡ f i)
  Plays-sent {s = s} h =
      let ((k, v), same) = Plays-IsAhead h in
      (
        same,
        v.order,
        ap (λ w. ringbuf_used (s.sent % (n * b)) w (n * b)) v.register
            ∙ ringbuf_used-mod s.sent s.published (n * b) v.order
                (omega (arith, v.room, v.block_pos)) v.fits,
        v.memory,
      )
