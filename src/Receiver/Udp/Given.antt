-- ===== src/Receiver/Udp/Given.antt =====
-- The slots that the UDP sender points to, and the datagrams that its calls of `sendmmsg` are given.
use zyndra.Base.{
  ℕ, zero, suc, ◌+◌, ◌%◌, ◌≤◌, ◌≡◌, refl, ap, sym, ◌∙◌, subst, arith, List, [], ◌∷◌, ◌++◌, map,
  length, append_assoc, All,
}
use zyndra.Receiver.Slots.{Holds}
use zyndra.Receiver.Udp.{udp_batch, Batch}

-- The slots from `at + d` on.
abbrev pub indices : ℕ → ℕ → ℕ → ℕ → List ℕ
indices cnt at d zero = []
indices cnt at d (suc n) = (at + d) % cnt ∷ indices cnt at (d + 1) n

pub indices-snoc :
    (cnt at d n : ℕ) → indices cnt at d n ++ (at + (d + n)) % cnt ∷ [] ≡ indices cnt at d (suc n)
indices-snoc cnt at d zero = ap (λ (k : ℕ). (at + k) % cnt ∷ []) {x = d + 0} {y = d} (omega arith)
indices-snoc cnt at d (suc n) =
    ap (λ t. (at + d) % cnt ∷ t)
      (ap (λ (k : ℕ). indices cnt at (d + 1) n ++ (at + k) % cnt ∷ []) {x = d + suc n}
          {y = d + 1 + n} (omega arith)
        ∙ indices-snoc cnt at (d + 1) n)

-- What the first slots hold is the front of the queue.
pub Holds-indices :
    (slots : ℕ → List ℕ) (cnt at d n : ℕ) (q : List (List ℕ))
    → n ≤ length q
    → Holds slots cnt at d q
    → (rest : List (List ℕ)) × (map slots (indices cnt at d n) ++ rest ≡ q)
      × (n + length rest ≡ length q)
      × Holds slots cnt at (d + n) rest
Holds-indices slots cnt at d zero q h v =
    (q, refl, omega arith, subst (λ k. Holds slots cnt at k q) {x = d} {y = d + 0} (omega arith) v)
Holds-indices slots cnt at d (suc n) [] h v = absurd (omega arith)
Holds-indices slots cnt at d (suc n) (x ∷ q) h v =
    let (rest, e, len, w) = Holds-indices slots cnt at (d + 1) n q (omega arith) v.1 in
    (
      rest,
      rw (v.0, e) refl,
      omega (arith, len),
      subst (λ k. Holds slots cnt at k rest) {x = d + 1 + n} {y = d + suc n} (omega arith) w,
    )

-- The datagrams that the calls are given, in order.
abbrev pub given_all : List Batch → List (List ℕ)
given_all [] = []
given_all (x ∷ xs) = x.given ++ given_all xs

pub given_all-append : (xs ys : List Batch) → given_all (xs ++ ys) ≡ given_all xs ++ given_all ys
given_all-append [] ys = refl
given_all-append (x ∷ xs) ys =
    ap (λ t. x.given ++ t) (given_all-append xs ys)
    ∙ sym (append_assoc x.given (given_all xs) (given_all ys))

pub length-map : (f : ℕ → List ℕ) (xs : List ℕ) → length (map f xs) ≡ length xs
length-map f [] = refl
length-map f (x ∷ xs) = ap suc (length-map f xs)

-- A call with as many datagrams as the batch has room for.
abbrev pub IsFull : Batch → Type 0
IsFull x = length x.given ≡ udp_batch

pub All-IsFull-append : (xs ys : List Batch) → All IsFull xs → All IsFull ys → All IsFull (xs ++ ys)
All-IsFull-append [] ys a c = c
All-IsFull-append (x ∷ xs) ys a c = (a.0, All-IsFull-append xs ys a.1 c)
