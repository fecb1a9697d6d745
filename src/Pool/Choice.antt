-- ===== src/Pool/Choice.antt =====
-- How acquireFirst chooses among the candidate nodes of a part
-- (src/internal/daemonapi/poolsteal.go).
use pipedpeer.Base.{
  ℕ, suc, true, false, if◌then◌else◌, Option, none, some, List, [], ◌∷◌, ◌≡◌, All, subst, get_elem?,
  ◌⊎◌, inl, inr, ◌+◌, ◌&&◌, arith, Bool-cases, Option-cases,
}
use native.Mathlib.Nat.{add_comm}
use native.Mathlib.Numerals.{add-one}
use pipedpeer.Base.Float.{FloatOps, OrderLaws}
use pipedpeer.Pool.Book.{
  Book, Slot, Release, free, book, acquire_first, pick_slot, pick_other, stealable, earliest_free,
  better,
}

module _ {F : Type 0} (ops : FloatOps F) (wait : F) (planned : Slot F) (b : Book F) where
  abbrev Found : Option (ℕ × Slot F) → Type 0
  Found none = Unit {0}
  Found (some (j, c)) = stealable ops wait planned b c ≡ true

  abbrev pick_from : Option (ℕ × Slot F) → ℕ → List (Slot F) → Option (ℕ × Slot F)
  pick_from = pick_other ops wait planned b

  stealable-free : (c : Slot F) → stealable ops wait planned b c ≡ true → free c b ≡ true
  unfolding stealable
  stealable-free c e = ground arith

  pick_other-Found :
      (p : Option (ℕ × Slot F)) (i : ℕ) (cs : List (Slot F)) → Found p → Found (pick_from p i cs)
  unfolding pick_other
  pick_other-Found p i [] f = f
  pick_other-Found p i (c ∷ cs) f =
      elim (Bool-cases (stealable ops wait planned b c && better ops c p)) [
        | inl e ↦ rw e (pick_other-Found (some (i, c)) (suc i) cs (ground (arith, e)))
        | inr e ↦ rw e (pick_other-Found p (suc i) cs f)
      ]

  -- The index found is that of the slot.
  pick_other-index :
      (p : Option (ℕ × Slot F)) (i : ℕ) (cs : List (Slot F)) (j : ℕ) (c : Slot F)
      → pick_from p i cs ≡ some (j, c)
      → (p ≡ some (j, c)) ⊎ ((k : ℕ) × (j ≡ i + k) × (get_elem? cs k ≡ some c))
  unfolding pick_other
  pick_other-index p i [] j c e = inl e
  pick_other-index p i (d ∷ cs) j c e =
      elim (pick_other-index
        (if stealable ops wait planned b d && better ops d p then some (i, d) else p) (suc i) cs j c
        e) [
          | inl q ↦ elim (Bool-cases (stealable ops wait planned b d && better ops d p)) [
            | inl t ↦ inr (0, ground (arith, q, t), ground (arith, q, t))
            | inr f ↦ inl (ground (arith, q, f))
          ]
          | inr (k, jk, found) ↦ inr (suc k, omega arith, found)
        ]

  -- No candidate is below the pick; there is no pick only if there is no candidate.
  abbrev NotBelow : Slot F → Option (ℕ × Slot F) → Type 0
  NotBelow a none = ⊥
  NotBelow a (some (j, d)) = ops.lt a.pred d.pred ≡ false

  module _ (laws : OrderLaws ops) where
    pick_other-NotBelow :
        (a : Slot F) (p : Option (ℕ × Slot F)) (i : ℕ) (cs : List (Slot F))
        → NotBelow a p
        → NotBelow a (pick_from p i cs)
    unfolding pick_other
    pick_other-NotBelow a p i [] n = n
    pick_other-NotBelow a none i (c ∷ cs) n = absurd n
    pick_other-NotBelow a (some (j, d)) i (c ∷ cs) n =
        elim (Bool-cases (stealable ops wait planned b c && ops.lt c.pred d.pred)) [
          | inl e ↦ rw e (
              pick_other-NotBelow a (some (i, c)) (suc i) cs
                (elim (Bool-cases (ops.lt a.pred c.pred)) [
                  | inr f ↦ f
                  | inl t ↦ absurd (ground (arith, e, n, laws.lt_trans a.pred c.pred d.pred t))
                ]))
          | inr e ↦ rw e (pick_other-NotBelow a (some (j, d)) (suc i) cs n)
        ]

    -- What the loop has in hand after it has looked at `c`.
    next_pick : Option (ℕ × Slot F) → ℕ → Slot F → Option (ℕ × Slot F)
    next_pick p i c = if stealable ops wait planned b c && better ops c p then some (i, c) else p

    next_pick-NotBelow :
        (p : Option (ℕ × Slot F)) (i : ℕ) (c : Slot F)
        → stealable ops wait planned b c ≡ true
        → NotBelow c (next_pick p i c)
    unfolding next_pick
    next_pick-NotBelow none i c e = rw e (laws.lt_irrefl c.pred)
    next_pick-NotBelow (some (j, d)) i c e = elim (Bool-cases (ops.lt c.pred d.pred)) [
      | inl t ↦ rw (e, t) (laws.lt_irrefl c.pred)
      | inr f ↦ rw (e, f) f
    ]

    pick_other-least :
        (p : Option (ℕ × Slot F)) (i : ℕ) (cs : List (Slot F))
        → All (λ c. stealable ops wait planned b c ≡ true → NotBelow c (pick_from p i cs)) cs
    unfolding pick_other next_pick
    pick_other-least p i [] = tt
    pick_other-least p i (c ∷ cs) = (
      λ e. pick_other-NotBelow c (next_pick p i c) (suc i) cs (next_pick-NotBelow p i c e),
      pick_other-least (next_pick p i c) (suc i) cs,
    )

module _ {F : Type 0} (ops : FloatOps F) (laws : OrderLaws ops) (planned : Slot F)
    (others : List (Slot F)) (now : ℕ) (b : Book F) where
  abbrev wait_for : F
  wait_for = earliest_free ops planned.key now b

  -- The candidates that a part may be taken by while the planned node is full.
  abbrev pub May : Slot F → Type 0
  May c = stealable ops wait_for planned b c ≡ true

  -- What a part that starts may rely on, if it starts on candidate `j`, which is `c`: the node has
  -- room, and it is the planned one, or the planned one is full, starting there is predicted to
  -- finish sooner than waiting, and no candidate of which that holds has a lower prediction.
  abbrev pub Chosen : ℕ → Slot F → Type 0
  Chosen j c =
      (get_elem? (planned ∷ others) j ≡ some c)
      × (free c b ≡ true)
      × ((j ≡ 0)
          ⊎ ((free planned b ≡ false)
              × May c
              × All (λ a. May a → ops.lt a.pred c.pred ≡ false) others))

  All-weaken :
      (j : ℕ) (c : Slot F) (p : Option (ℕ × Slot F)) (as' : List (Slot F))
      → p ≡ some (j, c)
      → All (λ a. May a → NotBelow ops wait_for planned b a p) as'
      → All (λ a. May a → ops.lt a.pred c.pred ≡ false) as'
  All-weaken j c p [] e h = tt
  All-weaken j c p (a ∷ as') e h =
      (λ m. subst (NotBelow ops wait_for planned b a) e (h.0 m), All-weaken j c p as' e h.1)

  All-refused :
      (p : Option (ℕ × Slot F)) (as' : List (Slot F))
      → p ≡ none
      → All (λ a. May a → NotBelow ops wait_for planned b a p) as'
      → All (λ a. stealable ops wait_for planned b a ≡ false) as'
  All-refused p [] e h = tt
  All-refused p (a ∷ as') e h = (
    elim (Bool-cases (stealable ops wait_for planned b a)) [
      | inl m ↦ absurd (subst (NotBelow ops wait_for planned b a) e (h.0 m))
      | inr f ↦ f
    ],
    All-refused p as' e h.1,
  )

  pick_slot-Chosen :
      (j : ℕ) (c : Slot F) → pick_slot ops planned others now b ≡ some (j, c) → Chosen j c
  unfolding pick_slot
  pick_slot-Chosen j c e = elim (Bool-cases (free planned b)) [
    | inl room ↦ (ground (arith, e, room), ground (arith, e, room), inl (ground (arith, e, room)))
    | inr full ↦
        let q : pick_other ops wait_for planned b none 1 others ≡ some (j, c) = rw full at e in
        let may : May c =
          subst (Found ops wait_for planned b) q
            (pick_other-Found ops wait_for planned b none 1 others tt) in
        (
          elim (pick_other-index ops wait_for planned b none 1 others j c q) [
            | inl no' ↦ absurd (ground (arith, no'))
            | inr (k, jk, found) ↦ rw (jk, add_comm 1 k, add-one) found
          ],
          stealable-free ops wait_for planned b c may,
          inr (
            full,
            may,
            All-weaken j c _ others q (pick_other-least ops wait_for planned b laws none 1 others),
          ),
        )
  ]

  -- A part that starts on candidate `j` books the slot of that candidate, which has room; it is the
  -- planned one, or the planned one is full, starting there is predicted to finish sooner than
  -- waiting, and no candidate of which that holds has a lower prediction. `<` is a strict order.
  pub acquire_first-Chosen :
      (j : ℕ) (r : Release)
      → (acquire_first ops planned others now b).0 ≡ some (j, r)
      → (c : Slot F) × Chosen j c
        × ((acquire_first ops planned others now b).1 ≡ (book c now b).1)
        × (r ≡ (book c now b).0)
  unfolding acquire_first
  acquire_first-Chosen j r e = elim (Option-cases (pick_slot ops planned others now b)) [
    | inl none_now ↦ absurd (ground (arith, none_now, e))
    | inr ((i, c), p) ↦ (
      c,
      subst (λ k. Chosen k c) (ground (arith, p, e)) (pick_slot-Chosen i c p),
      ground (arith, p, e),
      ground (arith, p, e),
    )
  ]

  -- A part waits only while the planned node is full and no other candidate has room and is
  -- predicted to finish sooner than waiting; the book is then unchanged. `<` is a strict order.
  pub acquire_first-waits :
      (acquire_first ops planned others now b).0 ≡ none
      → (free planned b ≡ false)
        × All (λ a. stealable ops wait_for planned b a ≡ false) others
        × ((acquire_first ops planned others now b).1 ≡ b)
  unfolding acquire_first pick_slot
  acquire_first-waits e = elim (Bool-cases (free planned b)) [
    | inl room ↦ absurd (ground (arith, room, e))
    | inr full ↦
        let q : pick_other ops wait_for planned b none 1 others ≡ none = ground (arith, full, e) in
        (
          full,
          All-refused _ others q (pick_other-least ops wait_for planned b laws none 1 others),
          ground (arith, full, q),
        )
  ]
