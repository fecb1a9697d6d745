-- ===== src/Ring/Waiters.antt =====
-- What the waiters of a round are told (src/internal/daemonapi/ddpsync.go).
use pipedpeer.Base.{
  ℕ, ◌+◌, ◌≡◌, ◌<◌, ◌⊎◌, Option, refl, ap, ◌∙◌, Bool, true, if◌then◌else◌, inl, inr, none, some,
  List, [], ◌∷◌, String, arith, Bool-cases,
}
use pipedpeer.Base.Eq.{◌==◌, nat_eq}
use pipedpeer.Base.Int.{ℤ, pos, eq_ℤ}
use pipedpeer.Base.Float.{FloatOps}
use pipedpeer.Ring.Sum.{FloatBits, Sum}
use pipedpeer.Ring.Mean.{Mean, encoded, failed}
use pipedpeer.Ring.Run.{Run, mark_down}
use pipedpeer.Ring.Round.{Request, Round, answered, finish, set_answer}
use pipedpeer.Ring.Sync.{note_reports, arrive_at, join_round, control, expect, agree}
use pipedpeer.Ring.Patience.{handover_hold, complete_partial, look_again}
use pipedpeer.Ring.Answers.{Core, core, contribute-answered}
use pipedpeer.Ring.Events.{
  Event, arrives, asks_hold, impatient, goes_down, elsewhere, State, admitted, step, steps,
  complete_partial-answered, handover_holds-core, note_reports-core,
}

module _ {F : Type 0} (ops : FloatOps F) (bits : FloatBits F) (itoa : ℤ → String) where
  pub answered-core : (e e' : Round F) → core e' ≡ core e → answered e' ≡ answered e
  answered-core e e' same =
      ground (arith, ap (λ (c : Core F). c.2) same, ap (λ (c : Core F). c.4) same)

  join_round-answered :
      (now : ℕ) (req : Request F) (blob : List ℕ) (r : Run F) (e : Round F)
      → answered e ≡ true
      → core (join_round ops bits itoa now req blob (r, e)).0.1 ≡ core e
  unfolding join_round arrive_at
  join_round-answered now req blob r e there =
      let reps = if eq_ℤ req.shard (pos 0) then req.reports else [] in
      let noted : State ops bits itoa =
        (control ops bits itoa now req r, agree ops bits itoa req (expect ops bits itoa req r e)) in
      let before : State ops bits itoa = note_reports ops bits itoa now reps noted in
      let same = note_reports-core ops bits itoa now reps noted in
      let still : answered before.1 ≡ true = answered-core e before.1 same ∙ there in
      elim (Bool-cases (e.world == req.world)) [
        | inl fits ↦
            rw (fits, contribute-answered ops bits itoa req blob before.0 before.1 still) same
        | inr differs ↦ rw differs refl
      ]

  core-complete_partial :
      (rank : ℕ) (r : Run F) (e : Round F)
      → answered e ≡ true
      → core (complete_partial ops bits itoa rank (r, e)).0.1 ≡ core e
  core-complete_partial rank r e there =
      rw (complete_partial-answered ops bits itoa rank r e there) refl

  step-answered :
      (s : State ops bits itoa) (ev : Event F)
      → answered s.1 ≡ true
      → core (step ops bits itoa s ev).1 ≡ core s.1
  unfolding step look_again
  step-answered (r, e) (arrives now req blob) there =
      elim (Bool-cases (admitted ops bits itoa req r)) [
        | inl fine ↦ rw fine (join_round-answered now req blob r e there)
        | inr stop ↦ rw stop refl
      ]
  step-answered (r, e) (asks_hold now) there = handover_holds-core ops bits itoa now r e
  step-answered (r, e) (impatient rank) there = core-complete_partial rank r e there
  step-answered (r, e) (goes_down rank world) there =
      elim (Bool-cases (mark_down ops rank world r).2) [
        | inl look ↦ rw (look, there) refl
        | inr none_open ↦ rw none_open refl
      ]
  step-answered (r, e) (elsewhere r') there = refl

  -- Once a round has an answer, a result or an error, it is the answer for every rank: whatever
  -- happens afterwards to the round and its run, the result, its scales and the error stay the same.
  pub steps-answered :
      (evs : List (Event F)) (s : State ops bits itoa)
      → answered s.1 ≡ true
      → let e = (steps ops bits itoa s evs).1 in
        (e.result ≡ s.1.result) × (e.result_scales ≡ s.1.result_scales) × (e.err ≡ s.1.err)
  unfolding steps
  steps-answered [] s there = (refl, refl, refl)
  steps-answered (ev ∷ evs) s there =
      let next = step ops bits itoa s ev in
      let same = step-answered s ev there in
      let later = steps-answered evs next (answered-core s.1 next.1 same ∙ there) in
      (
        later.0 ∙ ap (λ (c : Core F). c.2) same,
        later.1 ∙ ap (λ (c : Core F). c.3) same,
        later.2 ∙ ap (λ (c : Core F). c.4) same,
      )

  set_answer-answered : (m : Mean F) (e : Round F) → answered (set_answer ops bits m e) ≡ true
  set_answer-answered (encoded out scales) e = refl
  set_answer-answered (failed why) e = refl

  pub finish-answered :
      (a : Sum F) (s : State ops bits itoa) → answered (finish ops bits itoa a s).1 ≡ true
  unfolding finish
  finish-answered a (r, e) = set_answer-answered _ _

  -- No join holds a round of this run at `now`: there is none, or the time for it is over.
  abbrev pub IsFree : ℕ → State ops bits itoa → Type 0
  IsFree now (r, e) = ((r.join ≡ none) × (r.loading ≡ none)) ⊎ (e.created + handover_hold < now)

  -- The waiter's own round gets an answer from `partial_open`, if somebody contributed.
  abbrev Answers : State ops bits itoa × Bool → Type 0
  Answers (s, told) = (told ≡ true) × (answered s.1 ≡ true)

  -- The round is on the board and has an answer, and the waiter is told so.
  abbrev pub AnswersAt : (Run F × Option (Round F)) × Bool → Type 0
  AnswersAt ((r, entry), told) =
      (told ≡ true) × (e : Round F) × (entry ≡ some e) × (answered e ≡ true)
