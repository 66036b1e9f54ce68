-- ===== src/Axi/Tx/Ahead.antt =====
-- The invariant of the transmit path: what the ring, the register and the memory hold.
use native.Mathlib.Nat.{mod-lt}
use zyndra.Base.{
  ℕ, ◌+◌, ◌-◌, ◌*◌, ◌%◌, ◌^◌, ◌≤◌, ◌<◌, ◌≡◌, ◌≢◌, subst, ap, ◌∙◌, arith, true, false, if◌then◌else◌,
  lt→ltb, ltb, Bool, dec_lt, leb→le, leb, sub32, ◌⊎◌, inl, inr,
}
use zyndra.Ring.{ringbuf_used}
use zyndra.Ring.Distance.{ringbuf_used-mod, other_residue}
use zyndra.Ring.Blocks.{mul-le-mul}
use zyndra.Axi.State.{Priv, ret}
use zyndra.Axi.Write.{WriteCall, sizeof_tx_write, has_room, write}
use zyndra.Axi.Tx.Room.{write-checked}
use zyndra.Axi.Rx.Content.{position}
use zyndra.Receiver.{bytes_at}
use zyndra.Txrx.Tx.{store}
use zyndra.Axi.Tx.Reach.{fpga_after-memory, SameRing}
use zyndra.Axi.Tx.Play.{Sender, fpga_after, store-outside, store-inside, length-bytes_at}

module _ (b n : ℕ) where
  -- `k` blocks are published.
  pub record IsAhead (f : ℕ → ℕ) (k : ℕ) (s : Sender) : Type 0 where
    pub block_pos : 0 < b
    pub ring_pos : 0 < n
    pub fits : n * b < 2 ^ 32
    pub size : s.driver.txbuf_size ≡ n * b
    pub at : s.published ≡ k * b
    pub phys : s.driver.txbuf_phys + n * b < 2 ^ 32
    pub pointer : s.driver.tx_wr_ptr ≡ s.published % (n * b)
    pub register : s.fpga.register ≡ s.published % (n * b)
    pub memory : (i : ℕ) → s.sent ≤ i → i < s.published → s.fpga.memory (i % (n * b)) ≡ f i
    pub next : (s.stored ≡ s.published) ⊎ (s.stored ≡ s.published + b)
    pub order : s.sent ≤ s.published
    pub room : s.published + b ≤ s.sent + n * b
    pub content : (i : ℕ) → s.sent ≤ i → i < s.stored → s.ring (i % (n * b)) ≡ f i

  module _ {f : ℕ → ℕ} {k : ℕ} {s : Sender} (v : IsAhead f k s) where
    offset : (j : ℕ) → j < b → (s.published + j) % (n * b) ≡ s.published % (n * b) + j
    offset j lt =
        ap (λ t. (t + j) % (n * b)) v.at
        ∙ (position b n k j v.block_pos v.ring_pos lt
            ∙ omega (
              arith,
              position b n k 0 v.block_pos v.ring_pos v.block_pos,
              ap (λ (t : ℕ). t % (n * b)) {x = k * b + 0} {y = s.published} (omega (arith, v.at)),
            ))

    -- A byte that waits in the ring is not in the block that is stored next.
    apart :
        (i : ℕ)
        → s.sent ≤ i
        → i < s.published
        → (i % (n * b) < s.published % (n * b)) ⊎ (s.published % (n * b) + b ≤ i % (n * b))
    apart i lo hi = elim (dec_lt (i % (n * b)) (s.published % (n * b))) [
      | yes before ↦ inl before
      | no after ↦ elim (dec_lt (i % (n * b)) (s.published % (n * b) + b)) [
        | yes inside ↦
            let j = i % (n * b) - s.published % (n * b) in
            absurd (
              other_residue s.sent (n * b) (i - s.sent) (s.published + j - s.sent) (omega arith)
                (omega (arith, v.room, inside)) v.fits
                (ap (λ (t : ℕ). t % (n * b)) {y = s.published + j} (omega (arith, v.order))
                  ∙ (offset j (omega (arith, inside))
                      ∙ omega (
                        arith,
                        ap (λ (t : ℕ). t % (n * b)) {x = i} {y = s.sent + (i - s.sent)}
                            (omega (arith, lo)),
                      ))))
        | no beyond ↦ inr (omega (arith, beyond))
      ]
    ]

    pub stores-content :
        s.stored ≡ s.published
        → (i : ℕ) → s.sent ≤ i
        → i < s.published + b
        → store s.ring (s.published % (n * b)) (bytes_at f s.published b) (i % (n * b)) ≡ f i
    stores-content e i lo hi = elim (dec_lt i s.published) [
      | yes old ↦
          store-outside (bytes_at f s.published b) s.ring (s.published % (n * b)) (i % (n * b))
            (rw (length-bytes_at f s.published b) (apart i lo old))
          ∙ v.content i lo (omega (arith, old, e))
      | no new ↦
          let j = i - s.published in
          ap (λ a. store s.ring (s.published % (n * b)) (bytes_at f s.published b) (a % (n * b)))
            {x = i} {y = s.published + j} (omega arith)
          ∙ (ap (store s.ring (s.published % (n * b)) (bytes_at f s.published b))
                (offset j (omega (arith, hi, new)))
              ∙ (store-inside f s.ring (s.published % (n * b)) s.published b j
                    (omega (arith, hi, new))
                  ∙ ap f (omega arith)))
    ]

    pub published-stored : s.published ≤ s.stored
    published-stored = elim v.next [ inl e ↦ omega (arith, e) | inr e ↦ omega (arith, e) ]

    pub publishes-room :
        (c : WriteCall)
        → s.stored ≡ s.published + b
        → c.wr ≡ (s.published + b) % (n * b)
        → c.tx_rd ≡ s.sent % (n * b)
        → s.published + b ≢ s.sent + n * b
        → (write b c s.driver).0 ≡ ret sizeof_tx_write
        → s.published + b + b ≤ s.sent + n * b
    unfolding has_room
    publishes-room c e wr rd not_full done = omega (
      arith,
      leb→le (ringbuf_used (s.sent % (n * b)) ((s.published + b) % (n * b)) (n * b))
          (sub32 (n * b) b)
          (subst (λ w. leb (ringbuf_used (s.sent % (n * b)) w (n * b)) (sub32 (n * b) b) ≡ true) wr
            (subst (λ r. leb (ringbuf_used r c.wr (n * b)) (sub32 (n * b) b) ≡ true) rd
              (subst (λ z. leb (ringbuf_used c.tx_rd c.wr z) (sub32 z b) ≡ true) v.size
                ((write-checked b c s.driver done).1)))),
      ringbuf_used-mod s.sent (s.published + b) (n * b) (omega (arith, v.order))
          (omega (arith, v.room, not_full)) v.fits,
      mul-le-mul b 1 n v.ring_pos,
      v.fits,
      v.order,
    )

    -- The bytes that a call of `write` publishes reach the memory, and those before stay.
    pub publishes-memory :
        (c : WriteCall)
        → s.stored ≡ s.published + b
        → c.wr ≡ (s.published + b) % (n * b)
        → s.published + b + b ≤ s.sent + n * b
        → (write b c s.driver).0 ≡ ret sizeof_tx_write
        → (i : ℕ) → s.sent ≤ i
        → i < s.published + b
        → (fpga_after b c s.ring s.driver s.fpga).memory (i % (n * b)) ≡ f i
    publishes-memory c e wr room done i lo hi =
        fpga_after-memory b c s.ring s.driver s.fpga done (omega (arith, v.phys, v.size))
          (omega (arith, v.pointer, v.size, mod-lt s.published size_pos))
          (omega (arith, wr, v.size, mod-lt (s.published + b) size_pos)) (i % (n * b))
          (omega (arith, v.size, mod-lt i size_pos))
        ∙ elim (dec_lt i s.published) [
          | yes old ↦ both _ (v.content i lo (omega (arith, e, hi))) (v.memory i lo old)
          | no new ↦ rw (flushed new) (v.content i lo (omega (arith, e, hi)))
        ]
      where
        size_pos : 0 < n * b
        size_pos = omega (arith, mul-le-mul b 1 n v.ring_pos, v.block_pos)

        both :
            (t : Bool)
            → s.ring (i % (n * b)) ≡ f i
            → s.fpga.memory (i % (n * b)) ≡ f i
            → (if t then s.ring (i % (n * b)) else s.fpga.memory (i % (n * b))) ≡ f i
        both true x y = x
        both false x y = y

        far : s.published + b < s.published + n * b
        far = omega (arith, room, v.order, v.block_pos)

        whole : ringbuf_used s.driver.tx_wr_ptr c.wr s.driver.txbuf_size ≡ b
        whole =
            rw (v.pointer, wr, v.size)
              (ringbuf_used-mod s.published (s.published + b) (n * b) (omega arith) far v.fits
                ∙ omega arith)

        part :
            ¬ (i < s.published)
            → ringbuf_used s.driver.tx_wr_ptr (i % (n * b)) s.driver.txbuf_size ≡ i - s.published
        part new =
            rw (v.pointer, v.size)
              (ringbuf_used-mod s.published i (n * b) (omega (arith, new)) (omega (arith, far, hi))
                v.fits)

        flushed :
            ¬ (i < s.published)
            → ltb
                (ringbuf_used s.driver.tx_wr_ptr (i % (n * b)) s.driver.txbuf_size)
                (ringbuf_used s.driver.tx_wr_ptr c.wr s.driver.txbuf_size)
              ≡ true
        flushed new = rw (whole, part new) (lt→ltb _ _ (omega (arith, new, hi)))

    -- The FPGA sends no further than what is published.
    pub sends-order :
        (d : ℕ)
        → d ≤ ringbuf_used (s.sent % (n * b)) s.fpga.register (n * b)
        → s.sent + d ≤ s.published
    sends-order d le = omega (
      arith,
      ap (λ w. ringbuf_used (s.sent % (n * b)) w (n * b)) v.register,
      ringbuf_used-mod s.sent s.published (n * b) v.order (omega (arith, v.room, v.block_pos))
          v.fits,
      le,
      v.order,
    )

    -- Callbacks and reads change nothing of it.
    pub same-IsAhead : (q : Priv) → SameRing s.driver q → IsAhead f k (record s { driver = q })
    same-IsAhead q (size, phys, pointer) = record {
      block_pos = v.block_pos;
      ring_pos = v.ring_pos;
      fits = v.fits;
      size = size ∙ v.size;
      at = v.at;
      phys = omega (arith, phys, v.phys);
      pointer = pointer ∙ v.pointer;
      register = v.register;
      memory = v.memory;
      next = v.next;
      order = v.order;
      room = v.room;
      content = v.content;
    }
