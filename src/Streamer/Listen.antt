-- ===== src/Streamer/Listen.antt =====
-- `listen_thread_fn`: one client after the other, each served by `stream_to_client`.
use zyndra.Base.{
  ℕ, ◌+◌, ◌≡◌, refl, arith, Bool, true, false, not, ◌&&◌, List, [], ◌∷◌, ◌++◌, if◌then◌else◌,
  Bool-cases, inl, inr,
}
use zyndra.Streamer.{Streamer, Round, Ended, stopped, disconnected, waits, stream_to_client}
use zyndra.Streamer.Ctrl.{ctrl_of, ctrl_at, stream_to_client-ctrl}

-- What `kernel_accept` answers: a client, with the rounds in which it is served; -EAGAIN or
-- -ERESTARTSYS; another error.
pub data Accept : Type 0 where
  client : List Round → Accept
  again : Accept
  accept_error : Accept

-- What happens to sockets.
pub data SocketEvent : Type 0 where
  created accepted shutdown released : SocketEvent

-- The rest of a round after `stream_to_client`. The test says whether the thread goes on, and is not
-- for ever in a send.
unfoldable pub after_client :
    (Streamer → Bool × List SocketEvent × Streamer)
    → Ended
    → Streamer
    → Bool × List SocketEvent × Streamer
after_client rest waits q = (false, accepted ∷ [], q)
after_client rest why q =
    let (done, es, r) = rest q in (done, accepted ∷ shutdown ∷ released ∷ es, r)

-- The loop, until `kthread_should_stop` or an error.
unfoldable pub accept_loop : ℕ → List Accept → Streamer → Bool × List SocketEvent × Streamer
accept_loop b [] p = (true, [], p)
accept_loop b (again ∷ calls) p = accept_loop b calls p
accept_loop b (accept_error ∷ calls) p = (true, [], p)
accept_loop b (client rs ∷ calls) p =
    let (why, out, q) = stream_to_client b rs p in after_client (accept_loop b calls) why q

-- The thread, with the success of `sock_create_kern`, `kernel_bind` and `kernel_listen`.
unfoldable pub listen_thread_fn :
    ℕ → Bool → Bool → Bool → List Accept → Streamer → Bool × List SocketEvent × Streamer
listen_thread_fn b creates binds listens calls p =
    let (done, es, q) = accept_loop b calls p in
    if not creates
    then (true, [], p)
    else if not (binds && listens)
    then (true, created ∷ released ∷ [], p)
    else (done, created ∷ (es ++ (if done then released ∷ [] else [])), q)

-- The sockets got and given back.
abbrev pub opens : List SocketEvent → ℕ
opens [] = 0
opens (created ∷ es) = 1 + opens es
opens (accepted ∷ es) = 1 + opens es
opens (e ∷ es) = opens es

abbrev pub closes : List SocketEvent → ℕ
closes [] = 0
closes (released ∷ es) = 1 + closes es
closes (e ∷ es) = closes es

opens-append : (es fs : List SocketEvent) → opens (es ++ fs) ≡ opens es + opens fs
opens-append [] fs = omega arith
opens-append (created ∷ es) fs = omega (arith, opens-append es fs)
opens-append (accepted ∷ es) fs = omega (arith, opens-append es fs)
opens-append (shutdown ∷ es) fs = opens-append es fs
opens-append (released ∷ es) fs = opens-append es fs

closes-append : (es fs : List SocketEvent) → closes (es ++ fs) ≡ closes es + closes fs
closes-append [] fs = omega arith
closes-append (created ∷ es) fs = closes-append es fs
closes-append (accepted ∷ es) fs = closes-append es fs
closes-append (shutdown ∷ es) fs = closes-append es fs
closes-append (released ∷ es) fs = omega (arith, closes-append es fs)

-- Sockets are given back, and the FPGA is off, if the loop is left.
abbrev Tidy : Bool × List SocketEvent × Streamer → Type 0
Tidy r =
    (opens r.1 ≡ closes r.1 + (if r.0 then 0 else 1))
    × (ctrl_of r.2.effects ≡ (if r.0 then 0 else 1))

after_client-Tidy :
    (rest : Streamer → Bool × List SocketEvent × Streamer) (why : Ended) (q : Streamer)
    → ((p : Streamer) → ctrl_of p.effects ≡ 0 → Tidy (rest p))
    → ctrl_of q.effects ≡ ctrl_at why
    → Tidy (after_client rest why q)
unfolding after_client
after_client-Tidy rest stopped q tidy e = (omega (arith, (tidy q e).0), (tidy q e).1)
after_client-Tidy rest disconnected q tidy e = (omega (arith, (tidy q e).0), (tidy q e).1)
after_client-Tidy rest waits q tidy e = (omega arith, e)

accept_loop-Tidy :
    (b : ℕ) (calls : List Accept) (p : Streamer)
    → ctrl_of p.effects ≡ 0
    → Tidy (accept_loop b calls p)
unfolding accept_loop
accept_loop-Tidy b [] p e = (refl, e)
accept_loop-Tidy b (again ∷ calls) p e = accept_loop-Tidy b calls p e
accept_loop-Tidy b (accept_error ∷ calls) p e = (refl, e)
accept_loop-Tidy b (client rs ∷ calls) p e =
    after_client-Tidy (accept_loop b calls) (stream_to_client b rs p).0 (stream_to_client b rs p).2
      (accept_loop-Tidy b calls) (stream_to_client-ctrl b rs p)

-- With the FPGA disabled at the start, and whatever the socket calls answer, a listener thread that
-- returns has given back every socket that it got and leaves the FPGA disabled; one that waits for
-- ever in a send holds exactly two sockets, and the FPGA runs.
pub listen_thread_fn_lem :
    (b : ℕ) (creates binds listens : Bool) (calls : List Accept) (p : Streamer)
    → ctrl_of p.effects ≡ 0
    → let r = listen_thread_fn b creates binds listens calls p in
      (opens r.1 ≡ closes r.1 + (if r.0 then 0 else 2))
      × (ctrl_of r.2.effects ≡ (if r.0 then 0 else 1))
unfolding listen_thread_fn
listen_thread_fn_lem b false binds listens calls p e = (refl, e)
listen_thread_fn_lem b true false listens calls p e = (refl, e)
listen_thread_fn_lem b true true false calls p e = (refl, e)
listen_thread_fn_lem b true true true calls p e = elim (Bool-cases (accept_loop b calls p).0) [
  | inl done ↦ ground (
    arith,
    accept_loop-Tidy b calls p e,
    opens-append (accept_loop b calls p).1 (released ∷ []),
    closes-append (accept_loop b calls p).1 (released ∷ []),
  )
  | inr stuck ↦ ground (
    arith,
    accept_loop-Tidy b calls p e,
    opens-append (accept_loop b calls p).1 [],
    closes-append (accept_loop b calls p).1 [],
  )
]
