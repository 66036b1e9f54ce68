-- ===== src/Receiver/Tcp/Stream.antt =====
-- What a client of ad9361_rx.c gets of the FPGA's stream, through the ring, the pool and the socket.
use native.Mathlib.Nat.{mod-lt, mod-add-mod, mod-eq_of_lt}
use mathlib.Core.Option.{some-injective, none-ne-some}
use zyndra.Base.{
  ℕ, ◌+◌, ◌-◌, ◌*◌, ◌%◌, ◌^◌, ◌==◌, ◌≤◌, ◌<◌, ◌≡◌, refl, sym, ap, ap₂, ◌∙◌, arith, List, [], ◌∷◌,
  ◌++◌, length, concat, true, false, some, ltb, add32, subst, Bool-cases, inl, inr, length-append,
  append-nil, append_assoc,
}
use zyndra.Ring.{ringbuf_used}
use zyndra.Ring.Distance.{ringbuf_used-mod}
use zyndra.Axi.Rx.Content.{HoldsStream, concat-snoc}
use zyndra.Txrx.Net.Tcp.{Answer, ok}
use zyndra.Txrx.Net.TcpLaws.{tcp_send-ok}
use zyndra.Receiver.{Pool, empty_pool, bytes_at, receive, fill, transmit}
use zyndra.Receiver.Copy.{wrapped}
use zyndra.Receiver.Slots.{took}
use zyndra.Receiver.Fifo.{
  Represents, receive-Represents, transmit-Represents, transmit-empty, empty_pool-Represents,
}
use zyndra.Receiver.Tcp.{serve_round, send_bytes, after_send}
use zyndra.Receiver.Tcp.Flow.{
  Flow, Flows, begins, writes, takes, serves, received, Apart, pieces, wrapped-bytes_at, if-some,
  pieces-snoc, Apart-le, Apart-snoc, Apart-length, pieces-stream,
}

module _ (cnt b size : ℕ) (small : cnt < 2 ^ 32) (cnt_pos : 0 < cnt) (size_pos : 0 < size)
    (b_le : b ≤ size) (size_fits : size < 2 ^ 31) where
  abbrev Queue : Pool → List (List ℕ) → Type 0
  Queue = Represents cnt b size small cnt_pos size_pos b_le size_fits

  record IsFlow (f : ℕ → ℕ) (out : List ℕ) (s : Flow) : Type 0 where
    queue : List (List ℕ)
    pooled : Queue s.pool queue
    rd_at : s.pool.rd_ptr ≡ s.pos % size
    low : s.pos ≤ s.written
    high : s.written < s.pos + size
    split : out ++ concat queue ≡ concat (pieces b f s.starts)
    apart : Apart b 0 s.starts s.pos
    lost : (s.pool.lost_bytes + b * length s.starts) % 2 ^ 32 ≡ s.pos % 2 ^ 32

  module _ {f : ℕ → ℕ} {out : List ℕ} {s : Flow} (v : IsFlow f out s) (ring : ℕ → ℕ) where
    abbrev wr : ℕ
    wr = s.written % size

    abbrev pool : Pool
    pool = receive cnt b size wr ring s.pool

    available : ringbuf_used s.pool.rd_ptr wr size ≡ s.written - s.pos
    available =
        ap (λ (r : ℕ). ringbuf_used r wr size) v.rd_at
        ∙ ringbuf_used-mod s.pos s.written size v.low v.high (omega arith)

    pool_queue : Queue pool (v.queue ++ took cnt b size wr ring s.pool)
    pool_queue =
        receive-Represents cnt b size small cnt_pos size_pos b_le size_fits wr ring s.pool v.queue
          (mod-lt s.written size_pos) v.pooled

    takes_none :
        ltb (ringbuf_used s.pool.rd_ptr wr size) b ≡ true → IsFlow f out (record s { pool = pool })
    unfolding receive
    takes_none short = record {
      queue = v.queue;
      pooled = subst (Queue pool) (rw short (append-nil v.queue)) pool_queue;
      rd_at = rw short v.rd_at;
      low = v.low;
      high = v.high;
      split = v.split;
      apart = v.apart;
      lost = rw short v.lost;
    }

    takes_past :
        ltb (ringbuf_used s.pool.rd_ptr wr size) b ≡ false
        → (s.pool.slot_free == 0) ≡ true
        → IsFlow f out (record s { pool = pool; pos = s.written })
    unfolding receive
    takes_past enough full = record {
      queue = v.queue;
      pooled = subst (Queue pool) (rw (enough, full) (append-nil v.queue)) pool_queue;
      rd_at = rw (enough, full) refl;
      low = omega arith;
      high = omega arith;
      split = v.split;
      apart = Apart-le b 0 s.starts v.low v.apart;
      lost = rw (enough, full) (omega (arith, v.lost, available, v.low));
    }

    takes_block :
        HoldsStream f size s.written ring
        → ltb (ringbuf_used s.pool.rd_ptr wr size) b ≡ false
        → (s.pool.slot_free == 0) ≡ false
        → IsFlow f out (record s { pool = pool; pos = s.pos + b; starts = s.starts ++ s.pos ∷ [] })
    unfolding receive fill
    takes_block holds enough room = record {
      queue = v.queue ++ bytes_at f s.pos b ∷ [];
      pooled =
          subst (λ t. Queue pool (v.queue ++ t)) (rw (enough, room) (ap (λ x. x ∷ []) block))
            pool_queue;
      rd_at =
          rw (enough, room)
            (ap (λ (t : ℕ). t % size) {x = add32 s.pool.rd_ptr b} {y = s.pos % size + b}
                (omega (arith, v.rd_at, mod-lt s.pos size_pos))
              ∙ mod-add-mod s.pos size b);
      low = full_block;
      high = omega (arith, v.high);
      split =
          ap (λ t. out ++ t) (concat-snoc v.queue (bytes_at f s.pos b))
          ∙ (sym (append_assoc out (concat v.queue) (bytes_at f s.pos b))
              ∙ (ap (λ t. t ++ bytes_at f s.pos b) v.split
                  ∙ (sym (concat-snoc (pieces b f s.starts) (bytes_at f s.pos b))
                      ∙ ap concat (sym (pieces-snoc b f s.starts s.pos)))));
      apart = Apart-snoc b 0 s.pos s.starts v.apart;
      lost =
          rw (enough, room)
            (ap (λ (n : ℕ). (s.pool.lost_bytes + b * n) % 2 ^ 32) {y = length s.starts + 1}
                (omega (arith, length-append s.starts (s.pos ∷ [])))
              ∙ more);
    }
      where
        full_block : s.pos + b ≤ s.written
        full_block = ground (arith, available, v.low)

        block : wrapped ring size s.pool.rd_ptr b ≡ bytes_at f s.pos b
        block =
            ap (λ r. wrapped ring size r b) v.rd_at
            ∙ wrapped-bytes_at ring f size (s.pos % size) s.pos b
                (mod-eq_of_lt (mod-lt s.pos size_pos))
                (λ i lo hi. holds i (omega (arith, full_block)) (omega (arith, v.high)))

        next : b * (length s.starts + 1) ≡ b * length s.starts + b
        next = grind arith

        more : (s.pool.lost_bytes + b * (length s.starts + 1)) % 2 ^ 32 ≡ (s.pos + b) % 2 ^ 32
        more = omega (arith, v.lost, next)

  takes-IsFlow :
      {f : ℕ → ℕ} {out : List ℕ} {s : Flow}
      → IsFlow f out s
      → (ring : ℕ → ℕ) → HoldsStream f size s.written ring
      → IsFlow f out (received cnt b size ring s)
  takes-IsFlow {f} {out} {s} v ring holds =
      elim (Bool-cases (ltb (ringbuf_used s.pool.rd_ptr (s.written % size) size) b)) [
        | inl short ↦ rw short (takes_none v ring short)
        | inr enough ↦ elim (Bool-cases (s.pool.slot_free == 0)) [
          | inl full ↦ rw (enough, full) (takes_past v ring enough full)
          | inr room ↦ rw (enough, room) (takes_block v ring holds enough room)
        ]
      ]

  serve_round-transmit :
      (rs : List Answer) (bytes : List ℕ) (p t : Pool)
      → serve_round cnt rs p ≡ some (ok, bytes, t)
      → transmit cnt b size p ≡ some (bytes, t)
  unfolding serve_round send_bytes after_send transmit
  serve_round-transmit rs bytes p t e =
      let answer = send_bytes (p.slots p.out_nr) rs in
      let (busy, got) =
        if-some (p.slot_used == 0) (answer.0, answer.1, after_send cnt answer.0 p) (ok, bytes, t)
          e in
      let sent = ap (λ r. r.0) got in
      rw busy (
        ap some (
          ap₂ (λ x q. (x, q)) (sym (tcp_send-ok (p.slots p.out_nr) rs sent) ∙ ap (λ r. r.1) got)
            (sym (ap (λ st. after_send cnt st p) sent) ∙ ap (λ r. r.2) got)))

  transmit-keeps :
      (bytes : List ℕ) (p t : Pool)
      → transmit cnt b size p ≡ some (bytes, t)
      → (t.rd_ptr ≡ p.rd_ptr) × (t.lost_bytes ≡ p.lost_bytes)
  unfolding transmit
  transmit-keeps bytes p t e = ground arith

  serves-IsFlow :
      {f : ℕ → ℕ} {out bytes : List ℕ} {s : Flow} {t : Pool}
      → IsFlow f out s
      → transmit cnt b size s.pool ≡ some (bytes, t)
      → IsFlow f (out ++ bytes) (record s { pool = t })
  serves-IsFlow {f} {out} {bytes} {s} {t} v e = go v.queue v.pooled v.split
    where
      go :
          (q : List (List ℕ))
          → Queue s.pool q
          → out ++ concat q ≡ concat (pieces b f s.starts)
          → IsFlow f (out ++ bytes) (record s { pool = t })
      go [] w h = absurd (
          none-ne-some (bytes, t)
            (sym (transmit-empty cnt b size small cnt_pos size_pos b_le size_fits s.pool w) ∙ e))
      go (x ∷ q) w h =
          let (t', e', w') =
            transmit-Represents cnt b size small cnt_pos size_pos b_le size_fits s.pool x q w in
          let same = some-injective (x, t') (bytes, t) (sym e' ∙ e) in
          let (rd, lost) = transmit-keeps bytes s.pool t e in
          record {
            queue = q;
            pooled = subst (λ p. Queue p q) (ap (λ r. r.1) same) w';
            rd_at = rd ∙ v.rd_at;
            low = v.low;
            high = v.high;
            split =
                append_assoc out bytes (concat q)
                ∙ (ap (λ xs. out ++ (xs ++ concat q)) (sym (ap (λ r. r.0) same)) ∙ h);
            apart = v.apart;
            lost = ap (λ (k : ℕ). (k + b * length s.starts) % 2 ^ 32) lost ∙ v.lost;
          }

  Flows-IsFlow : {f : ℕ → ℕ} {out : List ℕ} {s : Flow} → Flows cnt b size f out s → IsFlow f out s
  unfolding pieces empty_pool
  Flows-IsFlow (begins slots) = record {
    queue = [];
    pooled = empty_pool-Represents cnt b size small cnt_pos size_pos b_le size_fits slots;
    rd_at = sym (mod-eq_of_lt size_pos);
    low = omega arith;
    high = omega (arith, size_pos);
    split = refl;
    apart = omega arith;
    lost = ap (λ (k : ℕ). k % 2 ^ 32) {x = 0 + b * 0} {y = 0} (omega arith);
  }
  Flows-IsFlow (writes d h lt) =
      let v = Flows-IsFlow h in
      record {
        queue = v.queue;
        pooled = v.pooled;
        rd_at = v.rd_at;
        low = omega (arith, v.low);
        high = lt;
        split = v.split;
        apart = v.apart;
        lost = v.lost;
      }
  Flows-IsFlow (takes {s = s} ring h holds) = takes-IsFlow (Flows-IsFlow h) ring holds
  Flows-IsFlow (serves rs t h e) = serves-IsFlow (Flows-IsFlow h) (serve_round-transmit rs _ _ t e)

  -- With at least one buffer and fewer than 2^32, and a ring of at least a block and below 2^31
  -- bytes: whatever the order of the FPGA's writes, the main loop's rounds and the sender's, while
  -- the client takes its blocks and the FPGA stays less than a ring ahead of the main loop: the
  -- bytes that the client has got are the front of blocks of the FPGA's stream that do not overlap,
  -- in the stream's order, each as the FPGA wrote it; and `s_lost_bytes` is the number of bytes
  -- passed over between them, modulo 2^32.
  pub Flows-pieces :
      {f : ℕ → ℕ} {out : List ℕ} {s : Flow}
      → Flows cnt b size f out s
      → (rest : List ℕ) × (out ++ rest ≡ concat (pieces b f s.starts))
        × Apart b 0 s.starts s.pos
        × (s.pos ≤ s.written)
        × ((s.pool.lost_bytes + b * length s.starts) % 2 ^ 32 ≡ s.pos % 2 ^ 32)
  Flows-pieces h = let v = Flows-IsFlow h in (concat v.queue, v.split, v.apart, v.low, v.lost)

  -- With at least one buffer and fewer than 2^32, a ring of at least a block and below 2^31 bytes,
  -- a client that takes its blocks and an FPGA that stays less than a ring ahead of the main loop:
  -- in the first 4 GiB, as long as `s_lost_bytes` is 0, the client has got a front of the FPGA's
  -- stream.
  pub Flows-stream :
      {f : ℕ → ℕ} {out : List ℕ} {s : Flow}
      → Flows cnt b size f out s
      → s.pool.lost_bytes ≡ 0
      → s.pos < 2 ^ 32
      → (rest : List ℕ) × (out ++ rest ≡ bytes_at f 0 s.pos)
  Flows-stream {f} {out} {s} h none_lost early =
      let v = Flows-IsFlow h in
      let tight : s.pos ≡ b * length s.starts =
        omega (arith, v.lost, none_lost, early, Apart-length b 0 s.starts v.apart) in
      (
        concat v.queue,
        v.split
            ∙ (pieces-stream b 0 f s.starts v.apart (tight ∙ omega arith)
                ∙ ap (bytes_at f 0) (sym tight)),
      )
