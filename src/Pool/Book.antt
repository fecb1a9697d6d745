-- ===== src/Pool/Book.antt =====
-- The flight book: the parts that each node holds, and the gate that a part passes before it starts
-- (src/internal/daemonapi/poolrates.go, poolsteal.go). Each function is one critical section under
-- `b.mu`; times are nanoseconds.
use pipedpeer.Base.{
  ℕ, suc, String, Bool, true, false, if◌then◌else◌, Option, none, some, List, [], ◌∷◌, ◌&&◌, ltb,
  length,
}
use pipedpeer.Base.Eq.{nat_eq, string_eq}
use pipedpeer.Base.Int.{ℤ, pos, pos_part, leb_ℤ, sub_ℕ}
use pipedpeer.Base.Float.{FloatOps}
use pipedpeer.Base.Map.{Map, get, insert, remove}

pub record Flight (F : Type 0) : Type 0 where
  pub start : ℕ
  pub pred : F

-- `wakes` counts how often the channel `wake` was closed and replaced.
pub record Book (F : Type 0) : Type 0 where
  pub next : ℕ
  pub nodes : Map String (Map ℕ (Flight F))
  pub wakes : ℕ

pub record Slot (F : Type 0) : Type 0 where
  pub key : String
  pub depth : ℤ
  pub pred : F

-- The release function that a booking returns: `once` says whether it has run.
pub record Release : Type 0 where
  pub key : String
  pub id : ℕ
  pub once : Bool

module _ {F : Type 0} where
  abbrev pub empty_book : Book F
  empty_book = record { next = 0; nodes = []; wakes = 0 }

  -- What a node holds; a node that is not in the book holds nothing.
  unfoldable pub busy : String → Book F → Map ℕ (Flight F)
  busy key b = elim (get key b.nodes) [ none ↦ [] | some n ↦ n ]

  unfoldable pub held : String → Book F → ℕ
  unfolding busy
  held key b = length (busy key b)

  -- max(c.depth, 1)
  unfoldable pub limit : Slot F → ℕ
  limit c = if leb_ℤ c.depth (pos 1) then 1 else pos_part c.depth

  unfoldable pub free : Slot F → Book F → Bool
  unfolding held limit
  free c b = ltb (held c.key b) (limit c)

  unfoldable pub book : Slot F → ℕ → Book F → Release × Book F
  unfolding busy
  book c now b =
      let id = suc b.next in
      let flight : Flight F = record { start = now; pred = c.pred } in
      (
        record { key = c.key; id = id; once = false },
        record b { next = id; nodes = insert c.key (insert id flight (busy c.key b)) b.nodes },
      )

  unfoldable pub release : Release → Book F → Release × Book F
  unfolding busy
  release r b = if r.once then (r, b) else (
    record r { once = true },
    record b { nodes = insert r.key (remove r.id (busy r.key b)) b.nodes; wakes = suc b.wakes },
  )

  unfoldable pub try_acquire : Slot F → ℕ → Book F → Option Release × Book F
  unfolding free book
  try_acquire c now b =
      if free c b then (let (r, after) = book c now b in (some r, after)) else (none, b)

module _ {F : Type 0} (ops : FloatOps F) where
  open ops use {of_int, ratio, inf, add, sub, div, lt}

  -- now.Sub(start).Seconds()
  unfoldable pub seconds : ℕ → ℕ → F
  seconds now start = div (of_int (sub_ℕ now start)) (of_int (pos 1_000_000_000))

  -- How much longer a part takes: one past its prediction as long again, or as long as it overran.
  unfoldable pub rest_of : ℕ → Flight F → F
  unfolding seconds
  rest_of now f =
      let el = seconds now f.start in
      if lt f.pred el then ops.max (sub el f.pred) f.pred else sub f.pred el

  unfoldable pub soonest : F → ℕ → Map ℕ (Flight F) → F
  unfolding rest_of
  soonest soon now [] = soon
  soonest soon now ((id, f) ∷ m) = soonest (ops.min soon (rest_of now f)) now m

  unfoldable pub earliest_free : String → ℕ → Book F → F
  unfolding soonest busy
  earliest_free key now b = elim (busy key b) [
    | [] ↦ of_int (pos 0)
    | x ∷ m ↦ soonest inf now (x ∷ m)
  ]

  -- The predicted seconds of work that a node still holds (backlog, with schedule.Backlog).
  unfoldable pub backlog_from : F → ℕ → Map ℕ (Flight F) → F
  backlog_from q now [] = q
  backlog_from q now ((id, f) ∷ m) =
      backlog_from (add q (ops.max (of_int (pos 0)) (sub f.pred (seconds now f.start)))) now m

  unfoldable pub backlog : String → ℕ → Book F → F
  unfolding backlog_from busy seconds
  backlog key now b = backlog_from (of_int (pos 0)) now (busy key b)

  -- A candidate that has room and is predicted to finish before the planned node frees a slot.
  unfoldable pub stealable : F → Slot F → Book F → Slot F → Bool
  stealable wait planned b c = free c b && lt c.pred (add wait planned.pred)

  -- The loop over `cands[1:]`: the index and slot picked so far.

  abbrev pub better : Slot F → Option (ℕ × Slot F) → Bool
  better c none = true
  better c (some (i, best)) = lt c.pred best.pred

  unfoldable pub pick_other :
      F → Slot F → Book F → Option (ℕ × Slot F) → ℕ → List (Slot F) → Option (ℕ × Slot F)
  unfolding stealable
  pick_other wait planned b pick i [] = pick
  pick_other wait planned b pick i (c ∷ cs) =
      pick_other wait planned b
        (if stealable wait planned b c && better c pick then some (i, c) else pick) (suc i) cs

  unfoldable pub pick_slot : Slot F → List (Slot F) → ℕ → Book F → Option (ℕ × Slot F)
  unfolding free pick_other earliest_free
  pick_slot planned others now b =
      if free planned b
      then some (0, planned)
      else pick_other (earliest_free planned.key now b) planned b none 1 others

  -- One pass of the loop of acquireFirst; `none` is a wait for the next wake-up.
  unfoldable pub acquire_first : Slot F → List (Slot F) → ℕ → Book F → Option (ℕ × Release) × Book F
  unfolding pick_slot book
  acquire_first planned others now b = elim (pick_slot planned others now b) [
    | none ↦ (none, b)
    | some (i, c) ↦ let (r, after) = book c now b in (some (i, r), after)
  ]
