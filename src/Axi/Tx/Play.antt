-- ===== src/Axi/Tx/Play.antt =====
-- Executions of the transmit path: a program stores blocks in the map and publishes them by the
-- driver, whose calls reach the memory and the register that the FPGA reads, and the FPGA sends.
use zyndra.Base.{
  ℕ, zero, suc, ◌+◌, ◌*◌, ◌%◌, ◌^◌, ◌≤◌, ◌<◌, ◌≡◌, ◌≢◌, refl, ap, ap₂, ◌∙◌, arith, List, [], ◌∷◌,
  ◌++◌, length, leb, ltb, ◌&&◌, if◌then◌else◌, ◌⊎◌, inl, inr,
}
use zyndra.Axi.State.{Priv, Effect, writel, sync_for_device, tx_buf_wr, ret}
use zyndra.Axi.Timer.{timer}
use zyndra.Axi.Read.{ReadCall, read}
use zyndra.Axi.Control.{enable_fpga}
use zyndra.Ring.{ringbuf_used}
use zyndra.Axi.Write.{WriteCall, sizeof_tx_write, write}
use zyndra.Receiver.{bytes_at}
use zyndra.Txrx.Tx.{store, Published}
use zyndra.Txrx.Prbs.{update}

pub store-outside :
    (xs : List ℕ) (map : ℕ → ℕ) (off a : ℕ)
    → (a < off) ⊎ (off + length xs ≤ a)
    → store map off xs a ≡ map a
unfolding store
store-outside [] map off a h = refl
store-outside (x ∷ xs) map off a (inl h) =
    store-outside xs (update map off x) (off + 1) a (inl (omega arith)) ∙ ground arith
store-outside (x ∷ xs) map off a (inr h) =
    store-outside xs (update map off x) (off + 1) a (inr (omega arith)) ∙ ground arith

pub store-inside :
    (f map : ℕ → ℕ) (off c n j : ℕ) → j < n → store map off (bytes_at f c n) (off + j) ≡ f (c + j)
unfolding store bytes_at
store-inside f map off c zero j h = absurd (omega arith)
store-inside f map off c (suc n) zero h =
    store-outside (bytes_at f (c + 1) n) (update map off (f c)) (off + 1) (off + 0)
      (inl (omega arith))
    ∙ ground (arith, ap f {x = c} {y = c + 0} (omega arith))
store-inside f map off c (suc n) (suc j) h =
    ap (store (update map off (f c)) (off + 1) (bytes_at f (c + 1) n)) (omega arith)
    ∙ store-inside f (update map off (f c)) (off + 1) (c + 1) n j (omega arith)
    ∙ ap f (omega arith)

pub length-bytes_at : (f : ℕ → ℕ) (c n : ℕ) → length (bytes_at f c n) ≡ n
unfolding bytes_at
length-bytes_at f c zero = refl
length-bytes_at f c (suc n) = ap suc (length-bytes_at f (c + 1) n)

-- What the FPGA reads from the ring: `d` bytes from absolute position `r` on.
unfoldable pub sent_from : (ℕ → ℕ) → ℕ → ℕ → ℕ → List ℕ
sent_from ring size r zero = []
sent_from ring size r (suc d) = ring (r % size) ∷ sent_from ring size (r + 1) d

pub sent_from-bytes_at :
    (ring f : ℕ → ℕ) (size r d : ℕ)
    → ((i : ℕ) → r ≤ i → i < r + d → ring (i % size) ≡ f i)
    → sent_from ring size r d ≡ bytes_at f r d
unfolding sent_from bytes_at
sent_from-bytes_at ring f size r zero h = refl
sent_from-bytes_at ring f size r (suc d) h =
    ap₂ (λ x xs. x ∷ xs) (h r (omega arith) (omega arith))
      (sent_from-bytes_at ring f size (r + 1) d (λ i lo hi. h i (omega arith) (omega arith)))

-- What the FPGA reads: the register `tx_buf_wr`, and the memory of the ring by offset, which the
-- program's stores reach only when the cache is flushed.
pub record Fpga : Type 0 where
  pub register : ℕ
  pub memory : ℕ → ℕ

-- One call of the driver, with the ring's address and what the program's map holds.
unfoldable pub reaches : ℕ → (ℕ → ℕ) → Effect → Fpga → Fpga
reaches phys map (writel tx_buf_wr v) h = record h { register = v }
reaches phys map (sync_for_device addr len) h = record h {
  memory = λ a. if leb addr (phys + a) && ltb (phys + a) (addr + len) then map a else h.memory a;
}
reaches phys map e h = h

-- The calls, the latest first.
unfoldable pub reach_all : ℕ → (ℕ → ℕ) → List Effect → Fpga → Fpga
reach_all phys map [] h = h
reach_all phys map (e ∷ es) h = reaches phys map e (reach_all phys map es h)

-- A call of `write`, with what it does to the FPGA.
abbrev pub fpga_after : ℕ → WriteCall → (ℕ → ℕ) → Priv → Fpga → Fpga
fpga_after b c map p h =
    reach_all p.txbuf_phys map (write b c (record p { effects = [] })).1.effects h

-- The program's map, the FPGA, the driver, what the map held where each block was published, and
-- absolute counts since the FPGA was enabled: bytes stored by the program, published by `write`,
-- and sent by the FPGA.
pub record Sender : Type 0 where
  pub ring : ℕ → ℕ
  pub fpga : Fpga
  pub driver : Priv
  pub log : List Published
  pub stored : ℕ
  pub published : ℕ
  pub sent : ℕ

module _ (b n : ℕ) where
  abbrev pub block_of : Sender → Published
  block_of s = record {
    at = s.published % (n * b);
    bytes = bytes_at s.ring (s.published % (n * b)) b;
  }

  -- Executions in which a program plays the stream `f` in blocks, and the bytes that the FPGA has
  -- sent: it sends from its memory, no further than its register says. A call of `write` succeeds
  -- at a moment when the new pointer does not fill the ring to the last byte. Timer callbacks,
  -- reads and the enabling of the FPGA come in between.
  pub data Plays (f : ℕ → ℕ) : List ℕ → Sender → Type 0 where
    begins :
        (ring : ℕ → ℕ) (h : Fpga) (p : Priv)
        → 0 < b
        → 0 < n
        → n * b < 2 ^ 32
        → p.txbuf_size ≡ n * b
        → p.txbuf_phys + n * b < 2 ^ 32
        → p.tx_wr_ptr ≡ 0
        → h.register ≡ 0
        → Plays f [] (record {
          ring = ring;
          fpga = h;
          driver = p;
          log = [];
          stored = 0;
          published = 0;
          sent = 0;
        })
    stores :
        {out : List ℕ} {s : Sender}
        → Plays f out s
        → s.stored ≡ s.published
        → Plays f out (record s {
          ring = store s.ring (s.published % (n * b)) (bytes_at f s.published b);
          stored = s.published + b;
        })
    publishes :
        {out : List ℕ} {s : Sender} (c : WriteCall)
        → Plays f out s
        → s.stored ≡ s.published + b
        → c.wr ≡ (s.published + b) % (n * b)
        → c.tx_rd ≡ s.sent % (n * b)
        → s.published + b ≢ s.sent + n * b
        → (write b c s.driver).0 ≡ ret sizeof_tx_write
        → Plays f out (record s {
          fpga = fpga_after b c s.ring s.driver s.fpga;
          driver = (write b c s.driver).1;
          log = s.log ++ block_of s ∷ [];
          published = s.published + b;
        })
    sends :
        {out : List ℕ} {s : Sender} (d : ℕ)
        → Plays f out s
        → d ≤ ringbuf_used (s.sent % (n * b)) s.fpga.register (n * b)
        → Plays f (out ++ sent_from s.fpga.memory (n * b) s.sent d) (record s { sent = s.sent + d })
    ticks :
        {out : List ℕ} {s : Sender} (wr : ℕ)
        → Plays f out s
        → Plays f out (record s { driver = timer b wr s.driver })
    reads :
        {out : List ℕ} {s : Sender} (c : ReadCall)
        → Plays f out s
        → Plays f out (record s { driver = (read b c s.driver).1 })
    enables :
        {out : List ℕ} {s : Sender}
        → Plays f out s
        → Plays f out (record s { driver = enable_fpga s.driver })
