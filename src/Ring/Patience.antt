-- ===== src/Ring/Patience.antt =====
-- The end of a waiter's patience (handoverHolds and completePartial of
-- src/internal/daemonapi/ddpsync.go, dropMissedStart of ddpboard.go), and the rounds that
-- markRankDownLocked of ddpdown.go looks at: one function for each stretch that holds the board's lock.
use Prim.Native.Nat.{max}
use pipedpeer.Base.{
  ℕ, zero, suc, ◌+◌, ◌-◌, ◌*◌, Bool, true, false, not, if◌then◌else◌, ltb, leb, ◌&&◌, ◌||◌, Option,
  none, some, List, [], ◌∷◌, map, length, String,
}
use pipedpeer.Base.Eq.{◌==◌, nat_eq, string_eq}
use pipedpeer.Base.Int.{ℤ}
use pipedpeer.Base.Float.{FloatOps}
use pipedpeer.Base.Map.{has}
use pipedpeer.Ring.Ranks.{Ranks, in_set, count_below, count_live}
use pipedpeer.Ring.Sum.{FloatBits, Sum}
use pipedpeer.Ring.Run.{
  stopped_answering, Run, Join, down, abort, publish, ring_fragment, next_seq, mark_down,
}
use pipedpeer.Ring.Round.{Round, answered, no_err, expected_count, finish, close}
use pipedpeer.Ring.Sync.{second}

-- ddpHandoverHold
abbrev pub handover_hold : ℕ
handover_hold = 200 * second

-- The age at which a sweep takes a round off the board.
abbrev pub sweep_age : ℕ
sweep_age = 600 * second

-- A round of the board after a sweep at `now`.
unfoldable pub swept : {F : Type 0} → ℕ → Round F → Option (Round F)
swept now e = if leb (now - e.created) sweep_age then some e else none

-- The ranks below `n`, from `k` on, that are neither in one set nor in the other.
unfoldable pub missing : ℕ → ℕ → Ranks → Ranks → Ranks
missing zero k seen dropped = []
missing (suc n) k seen dropped =
    let rest = missing n (suc k) seen dropped in
    if in_set k seen || in_set k dropped then rest else k ∷ rest

module _ {F : Type 0} (ops : FloatOps F) (bits : FloatBits F) (itoa : ℤ → String) where
  arrived : ℕ → Round F → Bool
  arrived rank e = in_set rank e.seen || has rank e.blobs

  -- A rank of the join that the round waits for: not here yet, not dropped.
  busy : ℕ → Run F → Round F → Bool
  unfolding arrived
  busy rank r e = not (arrived rank e) && not (in_set rank r.dropped)

  -- Where `from` is none, the code asks for rank -1, which is never here and never dropped.
  handover_busy : Bool → Join → Run F → Round F → Bool
  unfolding busy
  handover_busy handing j r e =
      (handing && (elim j.from [ none ↦ true | some from ↦ busy from r e ]))
      || (ltb j.rank e.world && busy j.rank r e)

  -- handoverHolds: whether the round goes on waiting.
  unfoldable pub handover_holds : ℕ → Run F → Round F → Round F × Bool
  unfolding handover_busy
  handover_holds now r e =
      let look : Bool → Join → Round F × Bool = λ handing j.
        if not (handover_busy handing j r e)
        then (e, false)
        else if ltb (e.created + handover_hold) now
        then (record e { held = true; hold_expired = true }, false)
        else (record e { held = true }, true) in
      if answered e then (e, false) else elim r.join [
        | some j ↦ look true j
        | none ↦ elim r.loading [ some j ↦ look false j | none ↦ (e, false) ]
      ]

  mark_all : List ℕ → ℕ → Run F → Run F
  mark_all [] world r = r
  mark_all (rank ∷ ranks) world r = mark_all ranks world (mark_down ops rank world r).0

  -- dropMissedStart, on the run; the other rounds of the board are looked at as each rank goes down.
  unfoldable pub drop_missed_start : Run F × Round F → Run F × Round F
  unfolding mark_all
  drop_missed_start (r, e) = elim (missing e.world 0 e.seen r.dropped) [
    | [] ↦ (r, e)
    | first ∷ more ↦
        let r' = mark_all (first ∷ more) e.world r in
        (publish (next_seq r') (down (ring_fragment r') first) r', e)
  ]

  -- The round given up by the last rank that waits: the run is over.
  unfoldable pub give_up : Run F × Round F → Run F × Round F
  give_up (r, e) =
      let why = stopped_answering (missing e.world 0 e.seen r.dropped) in
      (abort why r, close (record e { err = some why; acc = none }))

  abbrev pub close_short : ℕ → Run F × Round F → Run F × Round F
  close_short count (r, e) = (r, close (record e { partial = count }))

  unfoldable pub after_short : Run F × Round F → Run F × Round F
  after_short (r, e) = if e.opening && no_err e then drop_missed_start (r, e) else (r, e)

  -- The round finished with those who came.
  unfoldable pub finish_short : Sum F → Run F × Round F → Run F × Round F
  finish_short a s = after_short (close_short a.count (finish ops bits itoa a s))

  abbrev pub alone : ℕ → Run F → Round F → Bool
  alone rank r e =
      not e.opening
      && not e.held
      && leb 2 (expected_count e)
      && count_live r.dropped e.seen == 1
      && in_set rank e.seen

  unfoldable pub partial_open : ℕ → Sum F → Run F × Round F → (Run F × Round F) × Bool
  partial_open rank a (r, e) =
      if a.count == 0
      then ((r, e), false)
      else if alone rank r e
      then (give_up (r, e), true)
      else (finish_short a (r, e), true)

  -- completePartial, for a round that is on the board: whether it has an answer now.
  unfoldable pub complete_partial : ℕ → Run F × Round F → (Run F × Round F) × Bool
  complete_partial rank (r, e) =
      if answered e
      then ((r, e), true)
      else elim e.acc [ none ↦ ((r, e), false) | some a ↦ partial_open rank a (r, e) ]

  -- completePartial, for a round that a sweep may have taken off the board (none).
  unfoldable pub complete_partial_at :
      ℕ → Run F × Option (Round F) → (Run F × Option (Round F)) × Bool
  complete_partial_at rank (r, none) = ((r, none), false)
  complete_partial_at rank (r, some e) =
      let ((r', e'), told) = complete_partial rank (r, e) in ((r', some e'), told)

  abbrev pub again : Run F → Round F → Round F
  again r e = record e { expected = max 1 (e.world - count_below e.world r.dropped) }

  abbrev pub close_left : Run F × Round F → Run F × Round F
  close_left (r, f) =
      let n = length f.seen in
      (r, close (record f { partial = if ltb n f.world && ltb 0 n then n else f.partial }))

  -- The round with what it expects now: finished if it has that.
  unfoldable pub look_open : Run F × Round F → Run F × Round F
  look_open (r, e) = elim e.acc [
    | some a ↦
        if ltb 0 a.count && leb e.expected (count_live r.dropped e.seen)
        then close_left (finish ops bits itoa a (r, e))
        else (r, e)
    | none ↦
        if leb e.expected (count_live r.dropped (map (λ (b : ℕ × List ℕ). b.0) e.blobs))
        then close_left (r, e)
        else (r, e)
  ]

  -- A round of the board when a rank has gone down.
  unfoldable pub look_again : Run F × Round F → Run F × Round F
  look_again (r, e) = if answered e then (r, e) else look_open (r, again r e)
