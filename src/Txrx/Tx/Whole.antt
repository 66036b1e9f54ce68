-- ===== src/Txrx/Tx/Whole.antt =====
-- `tx_tcp_session` from end to end: the FPGA sends silence, and then what the client sends.
use native.Mathlib.Nat.{mod-eq_of_lt}
use zyndra.Base.{
  ℕ, zero, suc, ◌+◌, ◌-◌, ◌*◌, ◌%◌, ◌^◌, ◌≤◌, ◌<◌, ◌≡◌, ◌≢◌, refl, sym, ap, ap₂, ◌∙◌, arith, Bool,
  List, [], ◌∷◌, ◌++◌, append-nil, append_assoc, length, replicate,
}
use zyndra.Axi.State.{Priv, ret}
use zyndra.Axi.Write.{WriteCall, write}
use zyndra.Axi.Control.{enable_fpga, ioctl}
use zyndra.Axi.Tx.Play.{Sender, Plays, enables}
use zyndra.Axi.Tx.Content.{Plays-sent}
use zyndra.Receiver.{bytes_at}
use zyndra.Txrx.Driver.{driver_tx_put_block, driver_enable}
use zyndra.Txrx.Session.{prefill_blocks}
use zyndra.Txrx.Status.{DirStats}
use zyndra.Txrx.Tx.{Round, Published, Ended, prefill_loop, if_enabled, tx_loop, tx_tcp_session}
use zyndra.Ring.{ringbuf_used}
use zyndra.Txrx.Tx.Live.{
  sent_during, asked, block_played, Playing, block-Plays, opened, next_offset, Plays-on,
  tx_loop-Plays, block_at, publishing,
}

bytes_at-silence :
    (f : ℕ → ℕ) (c m : ℕ) → ((i : ℕ) → c ≤ i → i < c + m → f i ≡ 0) → bytes_at f c m ≡ replicate m 0
unfolding bytes_at
bytes_at-silence f c zero h = refl
bytes_at-silence f c (suc m) h =
    ap₂ (λ x xs. x ∷ xs) (h c (omega arith) (omega arith))
      (bytes_at-silence f (c + 1) m (λ i lo hi. h i (omega arith) (omega arith)))

module _ (b n : ℕ) where
  abbrev silence : List ℕ
  silence = replicate b 0

  -- After the blocks of silence.
  abbrev pub filled : List WriteCall → Sender → Sender
  filled [] s = s
  filled (c ∷ cs) s = filled cs (block_played b n s silence c 0)

  -- Calls that the driver takes, while the FPGA, which is not enabled, sends nothing.
  abbrev pub Filling : List WriteCall → Sender → Type 0
  Filling [] s = Unit
  Filling (c ∷ cs) s =
      (c.tx_rd ≡ (s.sent + 0) % (n * b))
      × (s.published + b ≢ s.sent + 0 + n * b)
      × ((write b (asked b n s c) s.driver).0 ≡ ret 4)
      × Filling cs (block_played b n s silence c 0)

  module _ (rx : ℕ) (b_le : b ≤ n * b) (size_pos : 0 < n * b) (small : n * b < 2 ^ 31) where
    next_fill :
        (m : ℕ) (c : WriteCall) (cs : List WriteCall) (wr : ℕ) (s : Sender) (st : DirStats)
        (go : ℕ → (ℕ → ℕ) → Priv → Ended)
        → wr ≡ s.published % (n * b)
        → (write b (asked b n s c) s.driver).0 ≡ ret 4
        → prefill_loop b (n * b) (opened b n rx) (suc m) (c ∷ cs) wr s.ring st s.driver go
          ≡ publishing b n rx b_le size_pos small (block_at b n s silence) (
              prefill_loop b
                (n * b)
                (opened b n rx)
                m
                cs
                ((s.published + b) % (n * b))
                (block_played b n s silence c 0).ring
                st
                (block_played b n s silence c 0).driver
                go)
    unfolding prefill_loop driver_tx_put_block
    next_fill m c cs wr s st go at done =
        rw (at, next_offset b n rx b_le size_pos small s, done) refl

    abbrev behind : List Published → Ended → Ended
    behind pre e = record e { blocks = pre ++ e.blocks }

    -- After the silence, with what the rest of a session is called with.
    AfterFill : (ℕ → ℕ) → List WriteCall → Sender → Ended → (ℕ → (ℕ → ℕ) → Priv → Ended) → Type 0
    AfterFill f cs s e go =
        let u = filled cs s in
        ((out : List ℕ) × Plays b n f out u)
        × (u.stored ≡ u.published)
        × (u.published ≡ s.published + length cs * b)
        × ((pre : List Published) × (u.log ≡ s.log ++ pre)
            × (e ≡ behind pre (go (u.published % (n * b)) u.ring u.driver)))

    prefill_loop-Plays :
        {f : ℕ → ℕ} (cs : List WriteCall) (s : Sender) (wr : ℕ) (st : DirStats) (out : List ℕ)
        (go : ℕ → (ℕ → ℕ) → Priv → Ended)
        → Filling cs s
        → Plays b n f out s
        → s.stored ≡ s.published
        → wr ≡ s.published % (n * b)
        → ((i : ℕ) → s.published ≤ i → i < s.published + length cs * b → f i ≡ 0)
        → AfterFill f cs s
            (prefill_loop b (n * b) (opened b n rx) (length cs) cs wr s.ring st s.driver go)
            go
    unfolding AfterFill prefill_loop
    prefill_loop-Plays [] s wr st out go ok h e at quiet =
        ((out, h), e, omega arith, ([], sym (append-nil s.log), ap (λ w. go w s.ring s.driver) at))
    prefill_loop-Plays {f} (c ∷ cs) s wr st out go (rd, not_full, done, more) h e at quiet =
        let (out', h') =
          block-Plays b n c 0 h e
            (bytes_at-silence f s.published b (λ i lo hi. quiet i lo (omega (arith, fewer, hi))))
            (omega arith) rd not_full done in
        let (plays, same, count, (pre, log, rest)) =
          prefill_loop-Plays cs (block_played b n s silence c 0) ((s.published + b) % (n * b)) st
            out' go more h' refl refl
            (λ i lo hi. quiet i (omega (arith, lo)) (omega (arith, hi, fewer))) in
        (
          plays,
          same,
          omega (arith, count, fewer),
          (
            block_at b n s silence ∷ pre,
            log ∙ append_assoc s.log (block_at b n s silence ∷ []) pre,
            next_fill (length cs) c cs wr s st go at done
                ∙ ap (publishing b n rx b_le size_pos small (block_at b n s silence)) rest,
          ),
        )
      where
        fewer : length (c ∷ cs) * b ≡ b + length cs * b
        fewer = grind arith

    -- The FPGA is enabled after the silence.
    abbrev pub enabled_after : List WriteCall → Sender → Sender
    enabled_after cs s = let u = filled cs s in record u { driver = enable_fpga u.driver }

    filled-sent : (cs : List WriteCall) (s : Sender) → (filled cs s).sent ≡ s.sent
    filled-sent [] s = refl
    filled-sent (c ∷ cs) s = filled-sent cs (block_played b n s silence c 0) ∙ omega arith

    -- From a mapped ring of whole blocks below 2^31 bytes and an FPGA that has sent nothing, with a
    -- stream that has a block for each round: when the driver takes the blocks of silence and the
    -- client's blocks, none of which fills the ring to the last byte, the session leaves the blocks
    -- of silence and then the blocks of the client published. The driver, the map and the blocks
    -- published one by one, with what the map held then, are those from which the FPGA sends; what
    -- it has sent is the front of the silence and the stream, without a gap or a byte overwritten.
    -- Its register says that all the rest is still to be sent, and the rest is in its memory.
    pub tx_tcp_session-sent :
        {f : ℕ → ℕ} (stored : Bool) (cs : List WriteCall) (rs : List Round) (stream : List ℕ)
        (s : Sender) (st : DirStats)
        → Plays b n f [] s
        → s.stored ≡ 0
        → s.sent ≡ 0
        → s.published ≡ 0
        → length cs ≡ prefill_blocks b
        → Filling cs s
        → (plays : Playing b n (enabled_after cs s) rs stream)
        → ((i : ℕ) → i < length cs * b → f i ≡ 0)
        → bytes_at f (length cs * b) (length stream) ≡ stream
        → length rs * b ≤ length stream
        → let e = tx_tcp_session b (n * b) (opened b n rx) stored cs rs stream s.ring st s.driver in
          (u : Sender) × (u.driver ≡ e.driver)
          × (u.ring ≡ e.map)
          × (u.log ≡ s.log ++ e.blocks)
          × (u.published ≡ (length cs + length rs) * b)
          × (u.sent ≡ sent_during b n plays)
          × (ringbuf_used (u.sent % (n * b)) u.fpga.register (n * b) ≡ u.published - u.sent)
          × ((i : ℕ) → u.sent ≤ i → i < u.published → u.fpga.memory (i % (n * b)) ≡ f i)
          × (out : List ℕ) × Plays b n f out u
          × (out ≡ bytes_at f 0 u.sent)
    unfolding AfterFill Plays-on tx_tcp_session driver_enable ioctl
    tx_tcp_session-sent {f} stored cs rs stream s st h e begun e' count ok plays quiet carries
          enough =
        let ((out, g), same, at, (pre, log, filling)) =
          prefill_loop-Plays cs s 0 st [] go ok h (e ∙ sym e')
            (sym (mod-eq_of_lt size_pos) ∙ ap (λ (w : ℕ). w % (n * b)) {x = 0} (sym e'))
            (λ i lo hi. quiet i (omega (arith, hi, e'))) in
        let u = enabled_after cs s in
        let (t, sent, g', driver, map, log', published, sending) =
          tx_loop-Plays b n rx b_le size_pos small rs stream u (u.published % (n * b)) st out plays
            (enables g) same refl
            (ap (λ (a : ℕ). bytes_at f a (length stream)) (at ∙ omega (arith, e')) ∙ carries)
            enough in
        let whole =
          sym filling
          ∙ ap (λ (m : ℕ). prefill_loop b (n * b) (opened b n rx) m cs 0 s.ring st s.driver go)
              count in
        let (front, le, far, held) = Plays-sent b n g' in
        (
          t,
          driver ∙ ap (λ (e : Ended). e.driver) whole,
          map ∙ ap (λ (e : Ended). e.map) whole,
          log'
              ∙ (ap
                    (λ (xs : List Published).
                      xs ++ (go (u.published % (n * b)) u.ring (filled cs s).driver).blocks)
                    log
                  ∙ (append_assoc s.log pre _ ∙ ap (λ (e : Ended). s.log ++ e.blocks) whole)),
          omega (arith, published, at, e', sum),
          sending ∙ omega (arith, filled-sent cs s, begun),
          far,
          held,
          sent,
          g',
          front,
        )
      where
        go : ℕ → (ℕ → ℕ) → Priv → Ended
        go wr map q =
            if_enabled b (n * b) (opened b n rx) (driver_enable b stored (opened b n rx) q) map st
              (λ p. tx_loop b (n * b) (opened b n rx) rs stream wr map st p)

        sum : (length cs + length rs) * b ≡ length cs * b + length rs * b
        sum = grind arith
