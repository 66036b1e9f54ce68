-- ===== src/Streamer/Ctrl.antt =====
-- When the FPGA runs for a client of the streamer.
use zyndra.Base.{ℕ, ◌≡◌, refl, ◌∙◌, List, [], ◌∷◌, ltb, Bool-cases, inl, inr}
use zyndra.Ring.{ringbuf_used}
use zyndra.Streamer.{
  Effect, writel, ctrl, ctrl_enable, Streamer, fpga_reset_and_enable, fpga_disable, SendEnd,
  send_ok, send_failed, send_waits, Round, advance, Ended, stopped, disconnected, waits, Turn,
  go_on, finish, after_send, turn, resume, stream_loop, leave, stream_to_client,
}

-- The value last written to the control register.
abbrev pub ctrl_of : List Effect → ℕ
ctrl_of [] = 0
ctrl_of (writel ctrl v ∷ es) = v
ctrl_of (e ∷ es) = ctrl_of es

-- The state in which a round ends.
abbrev state_of : Turn → Streamer
state_of (go_on out q) = q
state_of (finish why out q) = q

after_send-ctrl :
    (b : ℕ) (end : SendEnd) (sent : List ℕ) (p : Streamer)
    → ctrl_of (state_of (after_send b end sent p)).effects ≡ ctrl_of p.effects
unfolding after_send advance
after_send-ctrl b send_ok sent p = refl
after_send-ctrl b send_failed sent p = refl
after_send-ctrl b send_waits sent p = refl

turn-ctrl :
    (b : ℕ) (r : Round) (p : Streamer) → ctrl_of (state_of (turn b r p)).effects ≡ ctrl_of p.effects
unfolding turn
turn-ctrl b r p = elim (Bool-cases (ltb (ringbuf_used p.rd_ptr r.wr_ptr p.rxbuf_size) b)) [
  | inl e ↦ rw e refl
  | inr e ↦ rw e (after_send-ctrl b _ _ _)
]

resume-ctrl :
    (b : ℕ) (rs : List Round)
    → ((p : Streamer) → ctrl_of (stream_loop b rs p).2.effects ≡ ctrl_of p.effects)
    → (t : Turn) → ctrl_of (resume (stream_loop b rs) t).2.effects ≡ ctrl_of (state_of t).effects
unfolding resume
resume-ctrl b rs rest (go_on out q) = rest q
resume-ctrl b rs rest (finish why out q) = refl

stream_loop-ctrl :
    (b : ℕ) (rs : List Round) (p : Streamer)
    → ctrl_of (stream_loop b rs p).2.effects ≡ ctrl_of p.effects
unfolding stream_loop
stream_loop-ctrl b [] p = refl
stream_loop-ctrl b (r ∷ rs) p =
    resume-ctrl b rs (stream_loop-ctrl b rs) (turn b r p) ∙ turn-ctrl b r p

-- The control register for each way to end.
abbrev pub ctrl_at : Ended → ℕ
ctrl_at waits = ctrl_enable
ctrl_at why = 0

leave-ctrl :
    (why : Ended) (q : Streamer)
    → ctrl_of q.effects ≡ ctrl_enable
    → ctrl_of (leave why q).effects ≡ ctrl_at why
unfolding leave fpga_disable
leave-ctrl stopped q e = refl
leave-ctrl disconnected q e = refl
leave-ctrl waits q e = e

-- Whatever happens while a client is served, the FPGA is disabled when the function returns, be it
-- for a stop or for a lost client, and enabled for as long as it waits in a send.
pub stream_to_client-ctrl :
    (b : ℕ) (rs : List Round) (p : Streamer)
    → ctrl_of (stream_to_client b rs p).2.effects ≡ ctrl_at (stream_to_client b rs p).0
unfolding stream_to_client fpga_reset_and_enable
stream_to_client-ctrl b rs p =
    leave-ctrl (stream_loop b rs (fpga_reset_and_enable p)).0
      (stream_loop b rs (fpga_reset_and_enable p)).2
      (stream_loop-ctrl b rs (fpga_reset_and_enable p) ∙ enabled)
  where
    enabled : ctrl_of (fpga_reset_and_enable p).effects ≡ ctrl_enable
    enabled = refl
