-- ===== src/Pool/Gate.antt =====
-- What the gate of the flight book guarantees (src/internal/daemonapi/poolsteal.go).
use pipedpeer.Base.{
  ℕ, zero, suc, get_elem?, String, true, if◌then◌else◌, none, some, List, [], ◌∷◌, ◌≡◌, refl, All,
  inl, inr, ◌+◌, ◌≤◌, arith, Bool-cases, Option-cases,
}
use pipedpeer.Base.Eq.{◌==◌, nat_eq, string_eq}
use pipedpeer.Base.Float.{FloatOps, OrderLaws}
use pipedpeer.Base.Map.{
  Map, get, insert, remove, get-insert, remove-insert_new, length-insert-le, length-remove-le,
}
use pipedpeer.Pool.Choice.{acquire_first-Chosen, acquire_first-waits}
use pipedpeer.Pool.Book.{
  Book, Flight, Slot, Release, busy, held, limit, free, book, release, try_acquire, acquire_first,
}

module _ {F : Type 0} where
  busy-set :
      (key k : String) (m : Map ℕ (Flight F)) (n w : ℕ) (b : Book F)
      → busy k (record { next = n; nodes = insert key m b.nodes; wakes = w })
        ≡ (if key == k then m else busy k b)
  unfolding busy
  busy-set key k m n w b = ground (arith, get-insert key k m b.nodes)

  -- A booking adds one part to its node and none elsewhere.
  held-book :
      (c : Slot F) (now : ℕ) (b : Book F) (k : String)
      → held k (book c now b).1 ≤ (if c.key == k then held k b + 1 else held k b)
  unfolding book held
  held-book c now b k =
      let id = suc b.next in
      let flight : Flight F = record { start = now; pred = c.pred } in
      ground (
        arith,
        busy-set c.key k (insert id flight (busy c.key b)) id b.wakes b,
        string_eq.beq_iff c.key k,
        length-insert-le id flight (busy c.key b),
      )

  held-release : (r : Release) (b : Book F) (k : String) → held k (release r b).1 ≤ held k b
  unfolding release held
  held-release r b k = ground (
    arith,
    busy-set r.key k (remove r.id (busy r.key b)) b.next (suc b.wakes) b,
    string_eq.beq_iff r.key k,
    length-remove-le r.id (busy r.key b),
  )

  -- Every node holds at most `depth` parts.
  abbrev pub IsGated : ℕ → Book F → Type 0
  IsGated depth b = (k : String) → held k b ≤ depth

  IsGated-book :
      (depth : ℕ) (c : Slot F) (now : ℕ) (b : Book F)
      → limit c ≤ depth
      → free c b ≡ true
      → IsGated depth b
      → IsGated depth (book c now b).1
  unfolding free
  IsGated-book depth c now b le room g k =
      ground (arith, held-book c now b k, string_eq.beq_iff c.key k, g k)

-- A part that starts and ends leaves every node with what it held, and the same release called
-- again changes nothing. The number that the book gives out is new.
pub release-book :
    {F : Type 0} (c : Slot F) (now : ℕ) (b : Book F) (k : String)
    → get (suc b.next) (busy c.key b) ≡ none
    → let (r, started) = book c now b in
      let (r', ended) = release r started in
      (busy k ended ≡ busy k b) × (release r' ended ≡ (r', ended))
unfolding book release
release-book {F} c now b k new =
    let id = suc b.next in
    let flight : Flight F = record { start = now; pred = c.pred } in
    let during : Map ℕ (Flight F) = insert id flight (busy c.key b) in
    let started : Book F = record b { next = id; nodes = insert c.key during b.nodes } in
    (
      ground (
        arith,
        busy-set c.key k (remove id (busy c.key started)) id (suc b.wakes) started,
        busy-set c.key k during id b.wakes b,
        busy-set c.key c.key during id b.wakes b,
        string_eq.beq_iff c.key k,
        string_eq.beq_iff c.key c.key,
        remove-insert_new id flight (busy c.key b) new,
      ),
      refl,
    )

-- What happens to the book: a part tries its candidates, a copy tries one node, a part ends.
pub data Event (F : Type 0) : Type 0 where
  acquires : Slot F → List (Slot F) → ℕ → Event F
  tries : Slot F → ℕ → Event F
  ends : Release → Event F

module _ {F : Type 0} (ops : FloatOps F) where
  unfoldable pub happen : Book F → Event F → Book F
  happen b (acquires planned others now) = (acquire_first ops planned others now b).1
  happen b (tries c now) = (try_acquire c now b).1
  happen b (ends r) = (release r b).1

  unfoldable pub happen_all : Book F → List (Event F) → Book F
  happen_all b [] = b
  happen_all b (e ∷ es) = happen_all (happen b e) es

  -- No slot of the event asks for more than `depth` parts on a node.
  abbrev pub AsksWithin : ℕ → Event F → Type 0
  AsksWithin depth (acquires planned others now) =
      (limit planned ≤ depth) × All (λ c. limit c ≤ depth) others
  AsksWithin depth (tries c now) = limit c ≤ depth
  AsksWithin depth (ends r) = Unit {0}

  All-get_elem? :
      (depth j : ℕ) (c : Slot F) (cs : List (Slot F))
      → All (λ c. limit c ≤ depth) cs
      → get_elem? cs j ≡ some c
      → limit c ≤ depth
  All-get_elem? depth j c [] a e = absurd (ground (arith, e))
  All-get_elem? depth zero c (d ∷ cs) a e = ground (arith, a.0, e)
  All-get_elem? depth (suc j) c (d ∷ cs) a e = All-get_elem? depth j c cs a.1 e

  happen-IsGated :
      (laws : OrderLaws ops) (depth : ℕ) (b : Book F) (e : Event F)
      → AsksWithin depth e
      → IsGated depth b
      → IsGated depth (happen b e)
  unfolding happen try_acquire
  happen-IsGated laws depth b (acquires planned others now) a g =
      elim (Option-cases (acquire_first ops planned others now b).0) [
        | inl waits ↦ rw ((acquire_first-waits ops laws planned others now b waits).2) g
        | inr ((j, r), e) ↦
            let (c, chosen, after, _) = acquire_first-Chosen ops laws planned others now b j r e in
            rw after (
              IsGated-book depth c now b
                (All-get_elem? depth j c (planned ∷ others) (a.0, a.1) chosen.0) chosen.1 g)
      ]
  happen-IsGated laws depth b (tries c now) a g = elim (Bool-cases (free c b)) [
    | inl room ↦ rw (room, happen) (IsGated-book depth c now b a room g)
    | inr full ↦ rw (full, happen) g
  ]
  happen-IsGated laws depth b (ends r) a g = λ k. ground (arith, held-release r b k, g k)

  -- No interleaving of parts that start, wait, are copied and end puts more than `depth` parts on a
  -- node, if no slot asks for a deeper gate and no node holds more before. `<` is a strict order.
  pub happen_all-IsGated :
      (laws : OrderLaws ops) (depth : ℕ) (b : Book F) (es : List (Event F))
      → All (AsksWithin depth) es
      → IsGated depth b
      → IsGated depth (happen_all b es)
  unfolding happen_all
  happen_all-IsGated laws depth b [] a g = g
  happen_all-IsGated laws depth b (e ∷ es) a g =
      happen_all-IsGated laws depth (happen b e) es a.1 (happen-IsGated laws depth b e a.0 g)
