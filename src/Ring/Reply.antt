-- ===== src/Ring/Reply.antt =====
-- What a rank takes home from a round (the end of handleDDPSync in
-- src/internal/daemonapi/ddpsync.go).

use pipedpeer.Base.{
  ℕ, zero, suc, Bool, true, false, not, if◌then◌else◌, ltb, leb, ◌&&◌, ◌||◌, Option, none, some,
  List, [], ◌∷◌, length,
}
use pipedpeer.Base.Eq.{nat_eq, string_eq}
use pipedpeer.Base.Int.{ℤ, pos, eq_ℤ}
use pipedpeer.Base.Map.{Map, get}
use pipedpeer.Ring.Ranks.{Ranks, add_to, add_all}
use pipedpeer.Ring.Run.{Cause, Run, Note, note_for}
use pipedpeer.Ring.Round.{Request, Round, answered, no_err, expected_count}

-- What a rank takes home.
pub data Reply (F : Type 0) : Type 0 where
  averaged : List ℕ → List F → ℤ → Bool → ℕ → Option F → Map ℕ F → Option (Note F) → Reply F
  ended : Cause → Reply F
  all_blobs : List (List ℕ) → Reply F

-- The payloads by rank, those that are missing empty.
unfoldable pub ordered : ℕ → ℕ → Map ℕ (List ℕ) → List (List ℕ)
ordered zero k blobs = []
ordered (suc n) k blobs = (elim (get k blobs) [ none ↦ [] | some b ↦ b ]) ∷ ordered n (suc k) blobs

module _ {F : Type 0} where
  -- The note for the ranks of a contribution: each is told, the last one's stands in the reply.
  unfoldable pub take_notes : Ranks → ℤ → Run F → Run F × Option (Note F)
  take_notes [] seq r = (r, none)
  take_notes (c ∷ cs) seq r =
      let (r', mine) = note_for c seq r in
      let (r2, later) = take_notes cs seq r' in (r2, elim later [ some n ↦ some n | none ↦ mine ])

  abbrev reply_of : Round F → Option (Note F) → Reply F
  reply_of e note = elim e.err [
    | some why ↦ ended why
    | none ↦
        averaged (elim e.result [ none ↦ [] | some out ↦ out ]) e.result_scales e.sync_every
          (e.checked && e.same_work && ltb 1 e.fingerprinted)
          (if ltb 0 e.partial then e.partial else e.world) e.drift e.step_millis note
  ]

  abbrev averages : Round F → Bool
  averages e = answered e || (elim e.acc [ none ↦ false | some a ↦ true ])

  -- The last stretch under the lock: a rank takes its answer home, with the ring's note if it is due
  -- one; the round goes (none) once everybody has been.
  unfoldable pub collect : Request F → Run F × Round F → (Run F × Option (Round F)) × Reply F
  collect req (r, e) =
      let (r', note) =
        take_notes (if eq_ℤ req.shard (pos 0) then req.contributors else []) req.seq r in
      let e' : Round F = record e { fetched = add_all req.contributors e.fetched } in
      let b : Round F = record e { fetched = add_to req.rank e.fetched } in
      if averages e
      then (
        (
          r',
          if leb (expected_count e') (length e'.fetched) || not (no_err e') then none else some e',
        ),
        reply_of e' note,
      )
      else (
        (r, if leb (expected_count b) (length b.fetched) then none else some b),
        all_blobs (ordered e.world 0 e.blobs),
      )
