-- ===== src/Receiver/Tcp/Flow.antt =====
-- Executions of ad9361_rx.c from the FPGA's stream to a client, and pieces of a stream.
use native.Mathlib.Nat.{mod-add-mod}
use mathlib.Core.Option.{some-injective, none-ne-some}
use zyndra.Base.{
  ℕ, zero, suc, ◌+◌, ◌*◌, ◌%◌, ◌==◌, ◌≤◌, ◌<◌, ◌≡◌, refl, sym, ap, ap₂, ◌∙◌, arith, List, [], ◌∷◌,
  ◌++◌, length, concat, Bool, true, false, none, some, ltb, if◌then◌else◌,
}
use zyndra.Ring.{ringbuf_used}
use zyndra.Axi.Rx.Content.{HoldsStream, bytes_at-add}
use zyndra.Txrx.Net.Tcp.{Answer, ok}
use zyndra.Receiver.{Pool, empty_pool, bytes_at, receive}
use zyndra.Receiver.Copy.{wrapped}
use zyndra.Receiver.Tcp.{serve_round}

pub wrapped-bytes_at :
    (ring f : ℕ → ℕ) (size p pos n : ℕ)
    → p % size ≡ pos % size
    → ((i : ℕ) → pos ≤ i → i < pos + n → ring (i % size) ≡ f i)
    → wrapped ring size p n ≡ bytes_at f pos n
unfolding wrapped bytes_at
wrapped-bytes_at ring f size p pos zero e h = refl
wrapped-bytes_at ring f size p pos (suc n) e h =
    ap₂ (λ x xs. x ∷ xs) (ap ring e ∙ h pos (omega arith) (omega arith))
      (wrapped-bytes_at ring f size (p + 1) (pos + 1) n
        (sym (mod-add-mod p size 1) ∙ (ap (λ (t : ℕ). (t + 1) % size) e ∙ mod-add-mod pos size 1))
        (λ i lo hi. h i (omega arith) (omega arith)))

pub if-some :
    {A : Type 0} (z : Bool) (x y : A)
    → (if z then none else some x) ≡ some y
    → (z ≡ false) × (x ≡ y)
if-some true x y e = absurd (none-ne-some y e)
if-some false x y e = (refl, some-injective x y e)

-- The pool with absolute counts since the start: `written` bytes by the FPGA, `pos` the byte at
-- which the main loop reads next; and where the blocks that it has taken start, oldest first.
pub record Flow : Type 0 where
  pub pool : Pool
  pub written : ℕ
  pub pos : ℕ
  pub starts : List ℕ

module _ (cnt b size : ℕ) where
  -- A round of the main loop.
  abbrev pub received : (ℕ → ℕ) → Flow → Flow
  received ring s =
      let pool = receive cnt b size (s.written % size) ring s.pool in
      if ltb (ringbuf_used s.pool.rd_ptr (s.written % size) size) b
      then record s { pool = pool }
      else if s.pool.slot_free == 0
      then record s { pool = pool; pos = s.written }
      else record s { pool = pool; pos = s.pos + b; starts = s.starts ++ s.pos ∷ [] }

  -- Executions, and the bytes that the client has got. The FPGA stays less than a ring ahead of the
  -- main loop, and the client takes every block.
  pub data Flows (f : ℕ → ℕ) : List ℕ → Flow → Type 0 where
    begins :
        (slots : ℕ → List ℕ)
        → Flows f [] (record { pool = empty_pool slots cnt; written = 0; pos = 0; starts = [] })
    writes :
        {out : List ℕ} {s : Flow} (d : ℕ)
        → Flows f out s
        → s.written + d < s.pos + size
        → Flows f out (record s { written = s.written + d })
    takes :
        {out : List ℕ} {s : Flow} (ring : ℕ → ℕ)
        → Flows f out s
        → HoldsStream f size s.written ring
        → Flows f out (received ring s)
    serves :
        {out bytes : List ℕ} {s : Flow} (rs : List Answer) (t : Pool)
        → Flows f out s
        → serve_round cnt rs s.pool ≡ some (ok, bytes, t)
        → Flows f (out ++ bytes) (record s { pool = t })

-- Blocks of `b` bytes that start here do not overlap, and lie in front of `pos`.
abbrev pub Apart : ℕ → ℕ → List ℕ → ℕ → Type 0
Apart b low [] pos = low ≤ pos
Apart b low (p ∷ ps) pos = (low ≤ p) × Apart b (p + b) ps pos

unfoldable pub pieces : ℕ → (ℕ → ℕ) → List ℕ → List (List ℕ)
pieces b f [] = []
pieces b f (p ∷ ps) = bytes_at f p b ∷ pieces b f ps

pub pieces-snoc :
    (b : ℕ) (f : ℕ → ℕ) (ps : List ℕ) (p : ℕ)
    → pieces b f (ps ++ p ∷ []) ≡ pieces b f ps ++ bytes_at f p b ∷ []
unfolding pieces
pieces-snoc b f [] p = refl
pieces-snoc b f (x ∷ ps) p = ap (λ t. bytes_at f x b ∷ t) (pieces-snoc b f ps p)

pub Apart-le : (b low : ℕ) (ps : List ℕ) {p q : ℕ} → p ≤ q → Apart b low ps p → Apart b low ps q
Apart-le b low [] h v = omega (arith, v)
Apart-le b low (x ∷ ps) h v = (v.0, Apart-le b (x + b) ps h v.1)

pub Apart-snoc :
    (b low pos : ℕ) (ps : List ℕ) → Apart b low ps pos → Apart b low (ps ++ pos ∷ []) (pos + b)
Apart-snoc b low pos [] v = (v, omega arith)
Apart-snoc b low pos (x ∷ ps) v = (v.0, Apart-snoc b (x + b) pos ps v.1)

pub Apart-length :
    (b low : ℕ) (ps : List ℕ) {pos : ℕ} → Apart b low ps pos → low + b * length ps ≤ pos
Apart-length b low [] h = omega (arith, h)
Apart-length b low (p ∷ ps) h = grind (arith, Apart-length b (p + b) ps h.1, h.0)

-- Blocks without a gap are the stream.
pub pieces-stream :
    (b low : ℕ) (f : ℕ → ℕ) (ps : List ℕ) {pos : ℕ}
    → Apart b low ps pos
    → pos ≡ low + b * length ps
    → concat (pieces b f ps) ≡ bytes_at f low (b * length ps)
unfolding pieces bytes_at
pieces-stream b low f [] h e = ap (bytes_at f low) {x = 0} {y = b * 0} (omega arith)
pieces-stream b low f (p ∷ ps) {pos} h e =
    ap₂ (λ x xs. bytes_at f x b ++ xs) here
      (pieces-stream b (p + b) f ps h.1 (omega (arith, more, e, here))
        ∙ ap (λ x. bytes_at f (x + b) (b * length ps)) here)
    ∙ (bytes_at-add f low b (b * length ps) ∙ ap (bytes_at f low) (omega (arith, more)))
  where
    more : b * length (p ∷ ps) ≡ b + b * length ps
    more = grind arith

    here : p ≡ low
    here = omega (arith, Apart-length b (p + b) ps h.1, more, e, h.0)
