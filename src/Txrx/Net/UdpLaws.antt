-- ===== src/Txrx/Net/UdpLaws.antt =====
-- No byte is lost or reordered between the blocks and the datagrams.
use zyndra.Base.{
  ℕ, zero, suc, ◌+◌, ◌-◌, ◌*◌, ◌≤◌, ◌<◌, ◌≡◌, refl, sym, ap, ◌∙◌, arith, Option, none, some, List,
  [], ◌∷◌, ◌++◌, take, drop, length, length-drop, length-take, length-append, take-append-drop,
  append_assoc, append-nil, All, concat, dec_le, le→leb, lt→leb,
}
use zyndra.Txrx.Net.Udp.{
  datagram_size, max_msgs, cut, packetize, sent, send_failed, overflow, overread, udp_send_ring,
}

abbrev pub IsDatagram : List ℕ → Type 0
IsDatagram m = length m ≡ datagram_size

-- What `cut` makes of its input.
record Cuts (slots : ℕ) (bytes : List ℕ) (r : List (List ℕ) × List ℕ) : Type 0 where
  whole : concat r.0 ++ r.1 ≡ bytes
  sizes : All IsDatagram r.0
  enough : length bytes < datagram_size * slots + datagram_size → length r.1 < datagram_size
  rest_le : length bytes ≤ datagram_size * slots + length r.1
  few : length r.0 ≤ slots

cut-Cuts-suc :
    (slots : ℕ) (bytes : List ℕ)
    → Cuts slots (drop datagram_size bytes) (cut slots (drop datagram_size bytes))
    → Cuts (suc slots) bytes (cut (suc slots) bytes)
unfolding cut
cut-Cuts-suc slots bytes ih = elim (dec_le datagram_size (length bytes)) [
  | yes full ↦ rw (le→leb datagram_size (length bytes) full) (record {
    whole =
        append_assoc (take datagram_size bytes) (concat (cut slots later).0) (cut slots later).1
        ∙ (ap (λ t. take datagram_size bytes ++ t) ih.whole ∙ take-append-drop datagram_size bytes);
    sizes = (omega (arith, length-take datagram_size bytes), ih.sizes);
    enough = λ h. ih.enough (omega (arith, length-drop datagram_size bytes));
    rest_le = omega (arith, ih.rest_le, length-drop datagram_size bytes);
    few = omega (arith, ih.few);
  })
  | no short ↦ rw (lt→leb datagram_size (length bytes) (omega arith)) (record {
    whole = refl;
    sizes = tt;
    enough = λ h. omega arith;
    rest_le = omega arith;
    few = omega arith;
  })
]
  where
    later : List ℕ
    later = drop datagram_size bytes

cut-Cuts : (slots : ℕ) (bytes : List ℕ) → Cuts slots bytes (cut slots bytes)
unfolding cut
cut-Cuts zero bytes = record {
  whole = refl;
  sizes = tt;
  enough = λ h. omega arith;
  rest_le = omega arith;
  few = omega arith;
}
cut-Cuts (suc slots) bytes = cut-Cuts-suc slots bytes (cut-Cuts slots (drop datagram_size bytes))

take-all : (n : ℕ) (xs : List (List ℕ)) → length xs ≤ n → take n xs ≡ xs
take-all zero [] h = refl
take-all (suc n) [] h = refl
take-all zero (x ∷ xs) h = absurd (omega arith)
take-all (suc n) (x ∷ xs) h = ap (λ t. x ∷ t) (take-all n xs (omega arith))

module _ (wrap bytes : List ℕ) (kept : length wrap < datagram_size)
    (block : datagram_size ≤ length bytes) where
  record Packets (r : List (List ℕ) × List ℕ) : Type 0 where
    whole : concat r.0 ++ r.1 ≡ wrap ++ bytes
    sizes : All IsDatagram r.0
    enough :
        length wrap + length bytes < datagram_size * max_msgs + datagram_size
        → length r.1 < datagram_size
    rest_le : length wrap + length bytes ≤ datagram_size * max_msgs + length r.1
    few : length r.0 ≤ max_msgs

packetize-Packets :
    (wrap bytes : List ℕ) (kept : length wrap < datagram_size)
    (block : datagram_size ≤ length bytes)
    → Packets wrap bytes kept block (packetize wrap bytes)
unfolding packetize
packetize-Packets [] bytes kept block = record {
  whole = c.whole;
  sizes = c.sizes;
  enough = λ h. c.enough (omega arith);
  rest_le = omega (arith, c.rest_le);
  few = c.few;
}
  where
    c : Cuts max_msgs bytes (cut max_msgs bytes)
    c = cut-Cuts max_msgs bytes
packetize-Packets (x ∷ xs) bytes kept block = record {
  whole =
      append_assoc (wrap ++ take need bytes) (concat (cut 63 later).0) (cut 63 later).1
      ∙ (ap (λ t. (wrap ++ take need bytes) ++ t) c.whole
          ∙ (append_assoc wrap (take need bytes) later
              ∙ ap (λ t. wrap ++ t) (take-append-drop need bytes)));
  sizes = (omega (arith, length-append wrap (take need bytes), length-take need bytes), c.sizes);
  enough = λ h. c.enough (omega (arith, length-drop need bytes));
  rest_le = omega (arith, c.rest_le, length-drop need bytes);
  few = omega (arith, c.few);
}
  where
    wrap : List ℕ
    wrap = x ∷ xs

    need : ℕ
    need = datagram_size - length wrap

    later : List ℕ
    later = drop need bytes

    c : Cuts 63 later (cut 63 later)
    c = cut-Cuts 63 later

module _ (wrap bytes : List ℕ) (kept : length wrap < datagram_size)
    (block : datagram_size ≤ length bytes) where
  cut_up : Packets wrap bytes kept block (packetize wrap bytes)
  cut_up = packetize-Packets wrap bytes kept block

  -- A block that 64 messages can carry, by a `sendmmsg` that takes them all, is sent whole: the
  -- datagrams are full, and with the bytes kept for the next call they are the kept bytes followed
  -- by the block.
  pub udp_send_ring-sent :
      (n : ℕ)
      → max_msgs ≤ n
      → length wrap + length bytes < datagram_size * max_msgs + datagram_size
      → (msgs : List (List ℕ)) × (rest : List ℕ) × (udp_send_ring (some n) wrap bytes
          ≡ sent msgs rest)
        × (concat msgs ++ rest ≡ wrap ++ bytes)
        × All IsDatagram msgs
        × (length rest < datagram_size)
  unfolding udp_send_ring
  udp_send_ring-sent n all fits = (
    (packetize wrap bytes).0,
    (packetize wrap bytes).1,
    ground (
      arith,
      cut_up.enough fits,
      take-all n (packetize wrap bytes).0 (omega (arith, cut_up.few, all)),
    ),
    cut_up.whole,
    cut_up.sizes,
    cut_up.enough fits,
  )

  -- A block that with the bytes kept before is longer than 65 datagrams overruns the buffer for the
  -- bytes that are kept, unless `sendmmsg` fails.
  pub udp_send_ring-overflow :
      (n : ℕ)
      → datagram_size * max_msgs + datagram_size < length wrap + length bytes
      → udp_send_ring (some n) wrap bytes ≡ overflow
  unfolding udp_send_ring
  udp_send_ring-overflow n large = ground (arith, cut_up.rest_le)

-- The datagrams of a run of calls, and what is kept at the end; `none` if a call fails.
unfoldable pub send_blocks : List ℕ → List (List ℕ) → Option (List (List ℕ) × List ℕ)
send_blocks wrap [] = some ([], wrap)
send_blocks wrap (d ∷ ds) = elim (udp_send_ring (some max_msgs) wrap d) [
  | sent msgs rest ↦ elim (send_blocks rest ds) [
    | some (more, last) ↦ some (msgs ++ more, last)
    | none ↦ none
  ]
  | send_failed ↦ none
  | overflow ↦ none
  | overread ↦ none
]

-- A block that one call can carry whatever is kept.
abbrev pub Carries : List ℕ → Type 0
Carries d = (datagram_size ≤ length d) × (length d ≤ datagram_size * max_msgs)

pub concat-append : (xs ys : List (List ℕ)) → concat (xs ++ ys) ≡ concat xs ++ concat ys
concat-append [] ys = refl
concat-append (x ∷ xs) ys =
    ap (λ t. x ++ t) (concat-append xs ys) ∙ sym (append_assoc x (concat xs) (concat ys))

send_blocks_step :
    (wrap d : List ℕ) (ds : List (List ℕ)) {msgs more : List (List ℕ)} {rest last : List ℕ}
    → udp_send_ring (some max_msgs) wrap d ≡ sent msgs rest
    → send_blocks rest ds ≡ some (more, last)
    → send_blocks wrap (d ∷ ds) ≡ some (msgs ++ more, last)
unfolding send_blocks
send_blocks_step wrap d ds e e' = ground arith

-- Over any number of blocks the datagrams, and the few bytes kept, are the stream of the blocks.
pub send_blocks-stream :
    (wrap : List ℕ) (ds : List (List ℕ))
    → length wrap < datagram_size
    → All Carries ds
    → (msgs : List (List ℕ)) × (rest : List ℕ) × (send_blocks wrap ds ≡ some (msgs, rest))
      × (concat msgs ++ rest ≡ wrap ++ concat ds)
      × (length rest < datagram_size)
send_blocks-stream wrap [] kept h =
    ([], wrap, unfold send_blocks in refl, sym (append-nil wrap), kept)
send_blocks-stream wrap (d ∷ ds) kept h =
    let (msgs, rest, e, whole, sizes, few) =
      udp_send_ring-sent wrap d kept h.0.0 max_msgs (omega arith) (omega arith) in
    let (more, last, e', whole', few') = send_blocks-stream rest ds few h.1 in
    (
      msgs ++ more,
      last,
      send_blocks_step wrap d ds e e',
      rw
          (
            concat-append msgs more,
            append_assoc (concat msgs) (concat more) last,
            whole',
            ← append_assoc (concat msgs) rest (concat ds),
            whole,
          )
          (append_assoc wrap d (concat ds)),
      few',
    )
