-- ===== src/Txrx/Tx/Live.antt =====
-- The transmit path from end to end: the FPGA sends what the client sends.
use native.Mathlib.Nat.{mod-lt, mod-add-mod}
use zyndra.Base.{
  ℕ, zero, suc, ◌+◌, ◌-◌, ◌*◌, ◌%◌, ◌^◌, ◌≤◌, ◌<◌, ◌≡◌, ◌≢◌, refl, sym, ap, ap₂, ◌∙◌, subst, arith,
  true, List, [], ◌∷◌, length, take, drop, add32, length-drop, ◌++◌, append-nil, append_assoc,
}
use zyndra.Axi.State.{ret}
use zyndra.Axi.Write.{WriteCall, write}
use zyndra.Ring.{ringbuf_used}
use zyndra.Axi.Tx.Play.{Sender, fpga_after, Plays, stores, publishes, sends}
use zyndra.Axi.Tx.Content.{Plays-sent}
use zyndra.Receiver.{bytes_at}
use zyndra.Txrx.Driver.{Driver, driver_tx_put_block}
use zyndra.Txrx.Net.Tcp.{ok, tcp_recv_full}
use zyndra.Txrx.Net.TcpLaws.{tcp_recv_full-ok}
use zyndra.Txrx.Status.{DirStats}
use zyndra.Txrx.Tx.{store, Round, Published, Ended, tx_loop, count_bytes, advanced}

pub take-bytes_at : (f : ℕ → ℕ) (c n m : ℕ) → n ≤ m → take n (bytes_at f c m) ≡ bytes_at f c n
unfolding bytes_at
take-bytes_at f c zero m h = refl
take-bytes_at f c (suc n) zero h = absurd (omega arith)
take-bytes_at f c (suc n) (suc m) h = ap (λ t. f c ∷ t) (take-bytes_at f (c + 1) n m (omega arith))

pub drop-bytes_at :
    (f : ℕ → ℕ) (c n m : ℕ) → n ≤ m → drop n (bytes_at f c m) ≡ bytes_at f (c + n) (m - n)
unfolding bytes_at
drop-bytes_at f c zero m h = ap₂ (bytes_at f) (omega arith) (omega arith)
drop-bytes_at f c (suc n) zero h = absurd (omega arith)
drop-bytes_at f c (suc n) (suc m) h =
    drop-bytes_at f (c + 1) n m (omega arith) ∙ ap₂ (bytes_at f) (omega arith) (omega arith)

module _ (b n : ℕ) where
  -- The call of `write` as `driver_tx_put_block` makes it, `d` sent bytes later.
  abbrev pub asked : Sender → WriteCall → WriteCall
  asked s c = record c { count = 4; wr = (s.published + b) % (n * b) }

  abbrev pub map_after : Sender → List ℕ → ℕ → ℕ
  map_after s xs = store s.ring (s.published % (n * b)) xs

  -- The block that is published.
  abbrev pub block_at : Sender → List ℕ → Published
  block_at s xs = record {
    at = s.published % (n * b);
    bytes = bytes_at (map_after s xs) (s.published % (n * b)) b;
  }

  abbrev pub block_played : Sender → List ℕ → WriteCall → ℕ → Sender
  block_played s xs c d = record {
    ring = map_after s xs;
    fpga = fpga_after b (asked s c) (map_after s xs) s.driver s.fpga;
    driver = (write b (asked s c) s.driver).1;
    log = s.log ++ block_at s xs ∷ [];
    stored = s.published + b;
    published = s.published + b;
    sent = s.sent + d;
  }

  -- Rounds in which the client's block arrives and the driver takes it, with the FPGA sending `d`
  -- bytes before each call returns.
  pub data Playing : Sender → List Round → List ℕ → Type 0 where
    ends : (s : Sender) (stream : List ℕ) → Playing s [] stream
    goes_on :
        {s : Sender} {rs : List Round} {stream : List ℕ} (r : Round) (d : ℕ)
        → (tcp_recv_full b stream r.answers).0 ≡ ok
        → d ≤ ringbuf_used (s.sent % (n * b)) s.fpga.register (n * b)
        → r.call.tx_rd ≡ (s.sent + d) % (n * b)
        → s.published + b ≢ s.sent + d + n * b
        → (write b (asked s r.call) s.driver).0 ≡ ret 4
        → Playing (block_played s (take b stream) r.call d) rs (drop b stream)
        → Playing s (r ∷ rs) stream

  -- The bytes that the FPGA sends during the rounds.
  abbrev pub sent_during :
      {s : Sender} {rs : List Round} {stream : List ℕ} → Playing s rs stream → ℕ
  sent_during (ends s stream) = 0
  sent_during (goes_on r d fine le rd not_full done more) = d + sent_during more

  pub block-Plays :
      {f : ℕ → ℕ} {out xs : List ℕ} {s : Sender} (c : WriteCall) (d : ℕ)
      → Plays b n f out s
      → s.stored ≡ s.published
      → bytes_at f s.published b ≡ xs
      → d ≤ ringbuf_used (s.sent % (n * b)) s.fpga.register (n * b)
      → c.tx_rd ≡ (s.sent + d) % (n * b)
      → s.published + b ≢ s.sent + d + n * b
      → (write b (asked s c) s.driver).0 ≡ ret 4
      → (out' : List ℕ) × Plays b n f out' (block_played s xs c d)
  block-Plays {f} {out} {xs} {s} c d h e bytes le rd not_full done =
      subst (λ ys. (out' : List ℕ) × Plays b n f out' (block_played s ys c d)) bytes
        (_, publishes (asked s c) (sends d (stores h e) le) refl refl rd not_full done)

  -- The open device, with the block size of the kernel driver.
  abbrev pub opened : ℕ → Driver
  opened rx = record { fd_open = true; rx_buf_size = rx; tx_buf_size = n * b; block_size = b }

  module _ (rx : ℕ) (b_le : b ≤ n * b) (size_pos : 0 < n * b) (small : n * b < 2 ^ 31) where
    pub next_offset :
        (s : Sender)
        → advanced b (n * b) (opened rx) (s.published % (n * b)) ≡ (s.published + b) % (n * b)
    next_offset s =
        ap (λ (t : ℕ). t % (n * b)) {x = add32 (s.published % (n * b)) b}
          {y = s.published % (n * b) + b} (omega (arith, mod-lt s.published size_pos))
        ∙ mod-add-mod s.published (n * b) b

    abbrev pub publishing : Published → Ended → Ended
    publishing x e = record e { blocks = x ∷ e.blocks }

    next_round :
        (rs : List Round) (r : Round) (stream : List ℕ) (wr : ℕ) (s : Sender) (st : DirStats)
        → wr ≡ s.published % (n * b)
        → (tcp_recv_full b stream r.answers).0 ≡ ok
        → (write b (asked s r.call) s.driver).0 ≡ ret 4
        → (tx_loop b (n * b) (opened rx) (r ∷ rs) stream wr s.ring st s.driver)
          ≡ publishing (block_at s (take b stream)) (
              tx_loop b
                (n * b)
                (opened rx)
                rs
                (drop b stream)
                ((s.published + b) % (n * b))
                (store s.ring (s.published % (n * b)) (take b stream))
                (count_bytes b (n * b) (opened rx) st)
                (write b (asked s r.call) s.driver).1)
    unfolding tx_loop driver_tx_put_block
    next_round rs r stream wr s st at fine done =
        let e = tcp_recv_full-ok b stream r.answers fine in
        rw (at, next_offset s, fine, e.0, e.1, done) refl

    -- The FPGA after the rounds, and what it has sent; the driver, the map and the published blocks
    -- are those of the program.
    unfoldable pub Plays-on : (ℕ → ℕ) → Sender → ℕ → ℕ → Ended → Type 0
    Plays-on f s published sent e =
        (u : Sender) × (out : List ℕ) × Plays b n f out u
        × (u.driver ≡ e.driver)
        × (u.ring ≡ e.map)
        × (u.log ≡ s.log ++ e.blocks)
        × (u.published ≡ published)
        × (u.sent ≡ s.sent + sent)

    module _ {f : ℕ → ℕ} where
      pub tx_loop-Plays :
          (rs : List Round) (stream : List ℕ) (s : Sender) (wr : ℕ) (st : DirStats) (out : List ℕ)
          → (plays : Playing s rs stream) → Plays b n f out s
          → s.stored ≡ s.published
          → wr ≡ s.published % (n * b)
          → bytes_at f s.published (length stream) ≡ stream
          → length rs * b ≤ length stream
          → Plays-on f s
              (s.published + length rs * b)
              (sent_during plays)
              (tx_loop b (n * b) (opened rx) rs stream wr s.ring st s.driver)
      unfolding Plays-on tx_loop
      tx_loop-Plays [] stream s wr st out (ends _ _) h e at carries enough =
          (s, out, h, refl, refl, sym (append-nil s.log), omega arith, omega arith)
      tx_loop-Plays (r ∷ rs) stream s wr st out (goes_on _ d fine le rd not_full done more) h e at
            carries enough =
          let (out', h') = block-Plays r.call d h e front le rd not_full done in
          let (u, outs, g, driver, map, log, count, sending) =
            tx_loop-Plays rs (drop b stream) (block_played s (take b stream) r.call d)
              ((s.published + b) % (n * b)) (count_bytes b (n * b) (opened rx) st) out' more h' refl
              refl rest (omega (arith, length-drop b stream, fewer, enough)) in
          let next = sym (next_round rs r stream wr s st at fine done) in
          (
            u,
            outs,
            g,
            driver ∙ ap (λ (e : Ended). e.driver) next,
            map ∙ ap (λ (e : Ended). e.map) next,
            log
                ∙ (append_assoc s.log (block_at s (take b stream) ∷ []) _
                    ∙ ap (λ (e : Ended). s.log ++ e.blocks) next),
            omega (arith, count, fewer),
            omega (arith, sending),
          )
        where
          fewer : length (r ∷ rs) * b ≡ b + length rs * b
          fewer = grind arith

          fits : b ≤ length stream
          fits = omega (arith, fewer, enough)

          front : bytes_at f s.published b ≡ take b stream
          front = sym (take-bytes_at f s.published b (length stream) fits) ∙ ap (take b) carries

          rest : bytes_at f (s.published + b) (length (drop b stream)) ≡ drop b stream
          rest =
              ap (bytes_at f (s.published + b)) (length-drop b stream)
              ∙ (sym (drop-bytes_at f s.published b (length stream) fits) ∙ ap (drop b) carries)

      -- From a ring of whole blocks below 2^31 bytes in which the FPGA has so far sent a front of
      -- what is played, with a stream that has a block for each round: over rounds in which the
      -- client's block arrives and the driver takes it, none filling the ring to the last byte, the
      -- loop over the socket leaves all these blocks published. The driver, the map and the blocks
      -- published one by one, with what the map held then, are those from which the FPGA sends; what
      -- it has sent is the front of the client's stream, without a gap or a byte overwritten,
      -- however its sending falls between the rounds. Its register says that all the rest is still
      -- to be sent, and the rest is in its memory.
      pub tx_loop-sent :
          (rs : List Round) (stream : List ℕ) (s : Sender) (wr : ℕ) (st : DirStats) (out : List ℕ)
          → (plays : Playing s rs stream) → Plays b n f out s
          → s.stored ≡ s.published
          → wr ≡ s.published % (n * b)
          → bytes_at f s.published (length stream) ≡ stream
          → length rs * b ≤ length stream
          → let e = tx_loop b (n * b) (opened rx) rs stream wr s.ring st s.driver in
            (u : Sender) × (u.driver ≡ e.driver)
            × (u.ring ≡ e.map)
            × (u.log ≡ s.log ++ e.blocks)
            × (u.published ≡ s.published + length rs * b)
            × (u.sent ≡ s.sent + sent_during plays)
            × (ringbuf_used (u.sent % (n * b)) u.fpga.register (n * b) ≡ u.published - u.sent)
            × ((i : ℕ) → u.sent ≤ i → i < u.published → u.fpga.memory (i % (n * b)) ≡ f i)
            × (all : List ℕ) × Plays b n f all u
            × (all ≡ bytes_at f 0 u.sent)
      unfolding Plays-on
      tx_loop-sent rs stream s wr st out plays h e at carries enough =
          let (u, all, g, driver, map, log, published, sending) =
            tx_loop-Plays rs stream s wr st out plays h e at carries enough in
          let (sent, le, far, held) = Plays-sent b n g in
          (u, driver, map, log, published, sending, far, held, all, g, sent)
