-- ===== src/Ring/Events.antt =====
-- A round from its opening on, whatever happens to it and to its run
-- (src/internal/daemonapi/ddpsync.go and ddpdown.go).
use pipedpeer.Base.{
  ℕ, ◌≡◌, refl, ◌∙◌, sym, subst, Bool, true, false, not, if◌then◌else◌, ltb, leb, ◌&&◌, inl, inr,
  none, some, List, [], ◌∷◌, String, arith, Bool-cases, Option-cases,
}
use pipedpeer.Base.Eq.{◌==◌, nat_eq}
use pipedpeer.Base.Int.{ℤ, pos, eq_ℤ}
use pipedpeer.Base.Float.{FloatOps}
use pipedpeer.Ring.Ranks.{in_set, count_live}
use pipedpeer.Ring.Sum.{FloatBits, Sum}
use pipedpeer.Ring.Run.{
  Cause, Run, Report, mark_down, mark_known, take_down, publish, observe, abort,
}
use pipedpeer.Ring.Plan.{rebalance_for, solo_for, take_plan, release_others}
use pipedpeer.Ring.Round.{Request, Round, answered, no_err, finish}
use pipedpeer.Ring.Sync.{
  reduce, sum_for, open_round, new_round, note_reports, arrive_at, join_round, is_opening, control,
  expect, agree, note_report,
}
use pipedpeer.Ring.Patience.{
  handover_holds, give_up, finish_short, complete_partial, partial_open, look_again, look_open,
  close_left, close_short, after_short, again, alone, drop_missed_start,
}
use pipedpeer.Ring.Answers.{
  Contribution, core, sum_up, IsOpen, IsPart, IsPart-later, Among, Ended-answered, IsAccounted,
  IsAccounted-later, finish-IsAccounted, contribute-IsAccounted,
}

-- What happens: a request, a waiter that asks whether a join holds the round, a waiter whose patience
-- ended, a rank that goes down, or another round of the run, which may leave the run in any state.
pub data Event (F : Type 0) : Type 0 where
  arrives : ℕ → Request F → List ℕ → Event F
  asks_hold : ℕ → Event F
  impatient : ℕ → Event F
  goes_down : ℕ → ℕ → Event F
  elsewhere : Run F → Event F

Among-same :
    {F : Type 0} (r r' : Run F) (runs : List (Run F))
    → r'.residual ≡ r.residual
    → Among r runs
    → Among r' runs
Among-same r r' [] same here = here
Among-same r r' (s ∷ runs) same (inl this) = inl (same ∙ this)
Among-same r r' (s ∷ runs) same (inr later) = inr (Among-same r r' runs same later)

module _ {F : Type 0} (ops : FloatOps F) (bits : FloatBits F) (itoa : ℤ → String) where
  abbrev pub State : Type 0
  State = Run F × Round F

  -- The requests that are refused before their round is looked for leave it as it is.
  abbrev pub admitted : Request F → Run F → Bool
  admitted req r =
      (elim r.aborted [ none ↦ true | some why ↦ false ])
      && not (is_opening ops bits itoa req && in_set req.rank r.dropped)

  abbrev after_down : (Run F × ℕ × Bool) → Round F → State
  after_down (r, left, look) e = if look then look_again ops bits itoa (r, e) else (r, e)

  unfoldable pub step : State → Event F → State
  step (r, e) (arrives now req blob) =
      if admitted req r then (join_round ops bits itoa now req blob (r, e)).0 else (r, e)
  step (r, e) (asks_hold now) = (r, (handover_holds ops bits itoa now r e).0)
  step s (impatient rank) = (complete_partial ops bits itoa rank s).0
  step (r, e) (goes_down rank world) = after_down (mark_down ops rank world r) e
  step (r, e) (elsewhere r') = (r', e)

  unfoldable pub steps : State → List (Event F) → State
  steps s [] = s
  steps s (ev ∷ evs) = steps (step s ev) evs

  -- The contributions that came, the latest first.
  abbrev pub after_event : List (Contribution F) → Event F → List (Contribution F)
  after_event came (arrives now req blob) = (req, blob) ∷ came
  after_event came (asks_hold now) = came
  after_event came (impatient rank) = came
  after_event came (goes_down rank world) = came
  after_event came (elsewhere r) = came

  abbrev pub came_in : List (Contribution F) → List (Event F) → List (Contribution F)
  came_in came [] = came
  came_in came (ev ∷ evs) = came_in (after_event came ev) evs

  -- The run before each event, the latest first.
  abbrev pub runs_in : State → List (Run F) → List (Event F) → List (Run F)
  runs_in s runs [] = runs
  runs_in s runs (ev ∷ evs) = runs_in (step s ev) (s.0 ∷ runs) evs

  note_report-core :
      (now rank : ℕ) (rep : Report F) (s : State)
      → core (note_report ops bits itoa now rank rep s).1 ≡ core s.1
  unfolding note_report
  note_report-core now rank rep (r, e) = ground arith

  pub note_reports-core :
      (now : ℕ) (reps : List (ℕ × Report F)) (s : State)
      → core (note_reports ops bits itoa now reps s).1 ≡ core s.1
  unfolding note_reports
  note_reports-core now [] s = refl
  note_reports-core now ((rank, rep) ∷ reps) s =
      note_reports-core now reps (note_report ops bits itoa now rank rep s)
      ∙ note_report-core now rank rep s

  pub handover_holds-core :
      (now : ℕ) (r : Run F) (e : Round F) → core (handover_holds ops bits itoa now r e).0 ≡ core e
  unfolding handover_holds
  handover_holds-core now r e = ground arith

  drop_missed_start-core : (s : State) → core (drop_missed_start ops bits itoa s).1 ≡ core s.1
  unfolding drop_missed_start
  drop_missed_start-core (r, e) = ground arith

  pub after_short-core : (s : State) → core (after_short ops bits itoa s).1 ≡ core s.1
  unfolding after_short
  after_short-core (r, e) = elim (Bool-cases (e.opening && no_err e)) [
    | inl start ↦ rw start (drop_missed_start-core (r, e))
    | inr later ↦ rw later refl
  ]

  pub complete_partial_open :
      (rank : ℕ) (r : Run F) (e : Round F) (a : Sum F)
      → answered e ≡ false
      → e.acc ≡ some a
      → complete_partial ops bits itoa rank (r, e) ≡ partial_open ops bits itoa rank a (r, e)
  unfolding complete_partial
  complete_partial_open rank r e a waiting there = ground (arith, waiting, there)

  pub complete_partial-answered :
      (rank : ℕ) (r : Run F) (e : Round F)
      → answered e ≡ true
      → complete_partial ops bits itoa rank (r, e) ≡ ((r, e), true)
  unfolding complete_partial
  complete_partial-answered rank r e there = rw there refl

  pub look_open_sum :
      (r : Run F) (e : Round F) (a : Sum F)
      → e.acc ≡ some a
      → look_open ops bits itoa (r, e) ≡ (
          if ltb 0 a.count && leb e.expected (count_live r.dropped e.seen)
          then close_left ops bits itoa (finish ops bits itoa a (r, e))
          else (r, e))
  unfolding look_open
  look_open_sum r e a there = ground (arith, there)

  abort_residual : (why : Cause) (r : Run F) → (abort why r).residual ≡ r.residual
  unfolding abort
  abort_residual why r = ground arith

  note_reports-residual :
      (now : ℕ) (reps : List (ℕ × Report F)) (s : State)
      → (note_reports ops bits itoa now reps s).0.residual ≡ s.0.residual
  unfolding note_reports note_report observe
  note_reports-residual now [] s = refl
  note_reports-residual now ((rank, rep) ∷ reps) (r, e) =
      note_reports-residual now reps (note_report ops bits itoa now rank rep (r, e)) ∙ ground arith

  control-residual :
      (now : ℕ) (req : Request F) (r : Run F)
      → (control ops bits itoa now req r).residual ≡ r.residual
  unfolding control publish rebalance_for solo_for take_plan release_others
  control-residual now req r = ground arith

  mark_down-residual :
      (rank world : ℕ) (r : Run F) → (mark_down ops rank world r).0.residual ≡ r.residual
  unfolding mark_down mark_known take_down publish
  mark_down-residual rank world r = ground arith

  -- What holds of the core after each event, if it holds before it.
  module _ (start : Sum F) where
    abbrev pub Good : List (Contribution F) → List (Run F) → State → Type 0
    Good came runs (r, e) = IsAccounted ops bits itoa start came runs (core e)

    pub Good-same :
        (came : List (Contribution F)) (runs : List (Run F)) (s t : State)
        → core t.1 ≡ core s.1
        → Good came runs s
        → Good came runs t
    Good-same came runs s t same g = subst (IsAccounted ops bits itoa start came runs) (sym same) g

    -- The run of the event is the latest.
    pub Good-later :
        (came : List (Contribution F)) (runs : List (Run F)) (s : State)
        → Good came runs s
        → Good came (s.0 ∷ runs) s
    Good-later came runs (r, e) g =
        IsAccounted-later ops bits itoa start came came runs r (core e) (λ cs part. part) g

    Good-came :
        (came : List (Contribution F)) (runs : List (Run F)) (req : Request F) (blob : List ℕ)
        (s : State)
        → Good came runs s
        → Good ((req, blob) ∷ came) runs s
    Good-came came runs req blob s (inl (cs, part, o)) =
        inl (cs, IsPart-later cs came (req, blob) part, o)
    Good-came came runs req blob s (inr (inl (cs, part, m))) =
        inr (inl (cs, IsPart-later cs came (req, blob) part, m))
    Good-came came runs req blob s (inr (inr bad)) = inr (inr bad)

    join_round-Good :
        (came : List (Contribution F)) (runs : List (Run F)) (now : ℕ) (req : Request F)
        (blob : List ℕ) (r : Run F) (e : Round F)
        → Among r runs
        → Good came runs (r, e)
        → Good ((req, blob) ∷ came) runs (join_round ops bits itoa now req blob (r, e)).0
    unfolding join_round arrive_at
    join_round-Good came runs now req blob r e here g =
        let reps = if eq_ℤ req.shard (pos 0) then req.reports else [] in
        let noted : State = (
          control ops bits itoa now req r,
          agree ops bits itoa req (expect ops bits itoa req r e),
        ) in
        let before : State = note_reports ops bits itoa now reps noted in
        let same = note_reports-core now reps noted in
        let kept : before.0.residual ≡ r.residual =
          note_reports-residual now reps noted ∙ control-residual now req r in
        elim (Bool-cases (e.world == req.world)) [
          | inl fits ↦ rw fits (
              contribute-IsAccounted ops bits itoa start came runs req blob before.0 before.1
                (Among-same r before.0 runs kept here) (Good-same came runs (r, e) before same g))
          | inr differs ↦ rw differs (Good-came came runs req blob (r, e) g)
        ]

    pub open-waiting :
        (cs : List (Contribution F)) (e : Round F)
        → IsOpen ops bits start cs (core e)
        → answered e ≡ false
    open-waiting cs e o = ground (arith, o.3, o.4)

    partial_open-Good :
        (came : List (Contribution F)) (runs : List (Run F)) (rank : ℕ) (cs : List (Contribution F))
        (r : Run F) (e : Round F)
        → Among r runs
        → IsPart cs came
        → IsOpen ops bits start cs (core e)
        → Good came runs (partial_open ops bits itoa rank (sum_up ops bits start cs) (r, e)).0
    unfolding partial_open give_up finish_short
    partial_open-Good came runs rank cs r e here part o =
        let a = sum_up ops bits start cs in
        let f = finish ops bits itoa a (r, e) in
        elim (Bool-cases (a.count == 0)) [
          | inl nobody ↦ rw nobody (inl (cs, part, o))
          | inr somebody ↦ rw somebody (elim (Bool-cases (alone ops bits itoa rank r e)) [
            | inl last ↦ rw last (inr (inr (_, refl)))
            | inr not_last ↦ rw not_last (
                Good-same came runs f
                  (after_short ops bits itoa (close_short ops bits itoa a.count f))
                  (after_short-core (close_short ops bits itoa a.count f))
                  (finish-IsAccounted ops bits itoa start came runs cs r e here part o.1 o.2))
          ])
        ]

    complete_partial-Good :
        (came : List (Contribution F)) (runs : List (Run F)) (rank : ℕ) (r : Run F) (e : Round F)
        → Among r runs
        → Good came runs (r, e)
        → Good came runs (complete_partial ops bits itoa rank (r, e)).0
    complete_partial-Good came runs rank r e here (inl (cs, part, o)) =
        rw (complete_partial_open rank r e (sum_up ops bits start cs) (open-waiting cs e o) o.0)
          (partial_open-Good came runs rank cs r e here part o)
    complete_partial-Good came runs rank r e here (inr c) =
        rw (complete_partial-answered rank r e (Ended-answered ops bits itoa start came runs e c))
          (inr c)

    look_open-Good :
        (came : List (Contribution F)) (runs : List (Run F)) (cs : List (Contribution F))
        (r : Run F) (e : Round F)
        → Among r runs
        → IsPart cs came
        → IsOpen ops bits start cs (core e)
        → Good came runs (look_open ops bits itoa (r, e))
    look_open-Good came runs cs r e here part o =
        let a = sum_up ops bits start cs in
        rw (look_open_sum r e a o.0)
          (elim (Bool-cases (ltb 0 a.count && leb e.expected (count_live r.dropped e.seen))) [
            | inl full ↦
                rw full (finish-IsAccounted ops bits itoa start came runs cs r e here part o.1 o.2)
            | inr short ↦ rw short (inl (cs, part, o))
          ])

    look_again-Good :
        (came : List (Contribution F)) (runs : List (Run F)) (r : Run F) (e : Round F)
        → Among r runs
        → Good came runs (r, e)
        → Good came runs (look_again ops bits itoa (r, e))
    unfolding look_again
    look_again-Good came runs r e here (inl (cs, part, o)) =
        rw (open-waiting cs e o)
          (look_open-Good came runs cs r (again ops bits itoa r e) here part o)
    look_again-Good came runs r e here (inr c) =
        rw (Ended-answered ops bits itoa start came runs e c) (inr c)

    step-Good :
        (came : List (Contribution F)) (runs : List (Run F)) (r : Run F) (e : Round F)
        (ev : Event F)
        → Among r runs
        → Good came runs (r, e)
        → Good (after_event came ev) runs (step (r, e) ev)
    unfolding step
    step-Good came runs r e (arrives now req blob) here g = elim (Bool-cases (admitted req r)) [
      | inl fine ↦ rw fine (join_round-Good came runs now req blob r e here g)
      | inr stop ↦ rw stop (Good-came came runs req blob (r, e) g)
    ]
    step-Good came runs r e (asks_hold now) here g =
        Good-same came runs (r, e) (r, (handover_holds ops bits itoa now r e).0)
          (handover_holds-core now r e) g
    step-Good came runs r e (impatient rank) here g =
        complete_partial-Good came runs rank r e here g
    step-Good came runs r e (goes_down rank world) here g =
        let d = mark_down ops rank world r in
        elim (Bool-cases d.2) [
          | inl look ↦ rw look (
              look_again-Good came runs d.0 e
                (Among-same r d.0 runs (mark_down-residual rank world r) here) g)
          | inr none_open ↦ rw none_open g
        ]
    step-Good came runs r e (elsewhere r') here g = g

    pub steps-Good :
        (came : List (Contribution F)) (runs : List (Run F)) (evs : List (Event F)) (s : State)
        → Good came runs s
        → Good (came_in came evs) (runs_in s runs evs) (steps s evs)
    unfolding steps
    steps-Good came runs [] s g = g
    steps-Good came runs (ev ∷ evs) s g =
        steps-Good (after_event came ev) (s.0 ∷ runs) evs (step s ev)
          (step-Good came (s.0 ∷ runs) s.0 s.1 ev (inl refl) (Good-later came runs s g))

  pub open_round-IsOpen :
      (now : ℕ) (req : Request F) (e : Round F) (start : Sum F)
      → open_round ops bits itoa now req reduce ≡ some e
      → e.acc ≡ some start
      → IsOpen ops bits start [] (core e)
  unfolding open_round new_round
  open_round-IsOpen now req e start h there = elim (Option-cases (sum_for ops bits itoa req)) [
    | inl bad ↦ absurd (ground (arith, h, bad))
    | inr (a, fine) ↦
        (there, ground (arith, h, fine), tt, ground (arith, h, fine), ground (arith, h, fine))
  ]

  -- Whatever happens to a round that averages, and to its run, from its opening on, one of three
  -- things holds. It is open, and its sum and the ranks it has seen are those of requests that came,
  -- each taken once at most, in their order, each accepted, no two of which share a rank. Or it has a
  -- result, and that is the mean of such requests, the residual in it one that the run kept under the
  -- round's name before one of the events. Or it failed.
  pub steps-IsAccounted :
      (now : ℕ) (req : Request F) (r : Run F) (e : Round F) (start : Sum F) (evs : List (Event F))
      → open_round ops bits itoa now req reduce ≡ some e
      → e.acc ≡ some start
      → IsAccounted ops bits itoa start
          (came_in [] evs)
          (runs_in (r, e) [] evs)
          (core (steps (r, e) evs).1)
  steps-IsAccounted now req r e start evs h there =
      steps-Good start [] [] evs (r, e) (inl ([], tt, open_round-IsOpen now req e start h there))
