-- ===== src/Ring/Answers.antt =====
-- What a round is accounted for by: the contributions in its sum, and the residual in its result
-- (src/internal/daemonapi/ddpsync.go).
use pipedpeer.Base.{
  ℕ, ◌≡◌, refl, ap, ◌∙◌, sym, subst, true, false, leb, ◌&&◌, ◌⊎◌, inl, inr, Option, none, some,
  List, [], ◌∷◌, length, String, arith, Bool-cases, Option-cases,
}
use pipedpeer.Base.Eq.{nat_eq}
use pipedpeer.Base.Int.{ℤ}
use pipedpeer.Base.Float.{FloatOps}
use pipedpeer.Ring.Ranks.{Ranks, add_all, any_in, count_live}
use pipedpeer.Ring.Sum.{FloatBits, Sum, add_segmented, drift}
use pipedpeer.Ring.Mean.{Mean, encoded, failed, mean_residual}
use pipedpeer.Ring.Run.{Cause, Run}
use pipedpeer.Ring.Round.{
  Request, Round, answered, no_err, fresh, check_manifest, check_kind, fingerprint_in, add_payload,
  fold_in, finish, settle_reduce, settle_open, settle_finished, close, scales_of, placed,
  set_answer, expected_count, residual_name, residual_key, residual_of,
}
use pipedpeer.Ring.Sync.{contribute}

abbrev pub Contribution : Type 0 → Type 0
Contribution F = Request F × List ℕ

-- The ranks of some contributions, the latest first.
abbrev pub seen_of : {F : Type 0} → List (Contribution F) → Ranks
seen_of [] = []
seen_of ((req, blob) ∷ cs) = add_all req.contributors (seen_of cs)

-- What the answer depends on: the sum, the ranks in it, the result with its scales, the error, and
-- what names the residual.
abbrev pub Core : Type 0 → Type 0
Core F = Option (Sum F) × Ranks × Option (List ℕ) × List F × Option Cause × String × ℤ

abbrev pub core : {F : Type 0} → Round F → Core F
core e = (e.acc, e.seen, e.result, e.result_scales, e.err, e.kind, e.shard)

-- Some of the contributions that came, each taken once at most, in their order.
abbrev pub IsPart : {A : Type 0} → List A → List A → Type 0
IsPart [] came = Unit {0}
IsPart (c ∷ cs) [] = ⊥
IsPart (c ∷ cs) (a ∷ came) = ((c ≡ a) × IsPart cs came) ⊎ IsPart (c ∷ cs) came

pub IsPart-later : {A : Type 0} (cs came : List A) (a : A) → IsPart cs came → IsPart cs (a ∷ came)
IsPart-later [] came a h = tt
IsPart-later (c ∷ cs) came a h = inr h

-- A run with the residuals that some run of a list had.
abbrev pub Among : {F : Type 0} → Run F → List (Run F) → Type 0
Among r [] = ⊥
Among r (s ∷ runs) = (r.residual ≡ s.residual) ⊎ Among r runs

module _ {F : Type 0} (ops : FloatOps F) (bits : FloatBits F) where
  -- The sum `start` with the contributions folded in.
  abbrev pub sum_up : Sum F → List (Contribution F) → Sum F
  sum_up start [] = start
  sum_up start ((req, blob) ∷ cs) =
      (add_segmented ops bits blob (scales_of ops bits req) (ops.of_int req.samples)
        (sum_up start cs)).0

  -- Each was accepted, and none of its ranks is in one before it.
  abbrev pub Once : Sum F → List (Contribution F) → Type 0
  Once start [] = Unit {0}
  Once start ((req, blob) ∷ cs) =
      (any_in req.contributors (seen_of cs) ≡ false)
      × ((add_segmented ops bits blob (scales_of ops bits req) (ops.of_int req.samples)
            (sum_up start cs)).1
          ≡ none)
      × Once start cs

  abbrev pub IsOpen : Sum F → List (Contribution F) → Core F → Type 0
  IsOpen start cs (acc, seen, result, scales, err, kind, shard) =
      (acc ≡ some (sum_up start cs))
      × (seen ≡ seen_of cs)
      × Once start cs
      × (result ≡ none)
      × (err ≡ none)

  -- A round without a result: open, or failed.
  abbrev pub IsPending : Sum F → List (Contribution F) → Core F → Type 0
  IsPending start came c =
      ((cs : List (Contribution F)) × IsPart cs came × IsOpen start cs c)
      ⊎ ((why : Cause) × (c.4 ≡ some why))

  add_payload-IsPending :
      (start : Sum F) (req : Request F) (blob : List ℕ) (cs came : List (Contribution F))
      (e e0 : Round F)
      → IsPart cs came
      → IsOpen start cs (core e)
      → fresh req e ≡ true
      → core e0 ≡ core e
      → IsPending start
          ((req, blob) ∷ came)
          (core (add_payload ops bits req blob (sum_up start cs) e0))
  unfolding add_payload
  add_payload-IsPending start req blob cs came e e0 part o new same =
      let added =
        add_segmented ops bits blob (scales_of ops bits req) (ops.of_int req.samples)
          (sum_up start cs) in
      let seen : e0.seen ≡ seen_of cs = ap (λ (c : Core F). c.1) same ∙ o.1 in
      let apart : any_in req.contributors (seen_of cs) ≡ false = ground (arith, new, o.1) in
      elim (Option-cases added.1) [
        | inr (why, bad) ↦
            subst
              (λ f.
                IsPending start ((req, blob) ∷ came) (core (placed ops bits req e0 (added.0, f))))
              (sym bad) (inr (_, refl))
        | inl fine ↦
            subst
              (λ f.
                IsPending start ((req, blob) ∷ came) (core (placed ops bits req e0 (added.0, f))))
              (sym fine)
              (inl (
                (req, blob) ∷ cs,
                inl (refl, part),
                (
                  refl,
                  ap (add_all req.contributors) seen,
                  (apart, fine, o.2),
                  ap (λ (c : Core F). c.2) same ∙ o.3,
                  ap (λ (c : Core F). c.4) same ∙ o.4,
                ),
              ))
      ]

  fingerprint_in-core :
      (req : Request F) (blob : List ℕ) (e : Round F) → core (fingerprint_in req blob e) ≡ core e
  unfolding fingerprint_in
  fingerprint_in-core req blob e = ground arith

  check_manifest-core :
      (req : Request F) (e : Round F)
      → no_err (check_manifest req e) ≡ true
      → core (check_manifest req e) ≡ core e
  unfolding check_manifest
  check_manifest-core req e fine = ground (arith, fine)

  check_kind-core :
      (req : Request F) (e : Round F)
      → no_err (check_kind req e) ≡ true
      → core (check_kind req e) ≡ core e
  unfolding check_kind
  check_kind-core req e fine = ground (arith, fine)

  check_kind-no_err :
      (req : Request F) (e : Round F) → no_err (check_kind req e) ≡ true → no_err e ≡ true
  unfolding check_kind
  check_kind-no_err req e fine = ground (arith, fine)

  fold_in-IsPending :
      (start : Sum F) (req : Request F) (blob : List ℕ) (cs came : List (Contribution F))
      (e : Round F)
      → IsPart cs came
      → IsOpen start cs (core e)
      → IsPending start ((req, blob) ∷ came) (core (fold_in ops bits req blob (sum_up start cs) e))
  unfolding fold_in
  fold_in-IsPending start req blob cs came e part o =
      let e1 = check_manifest req e in
      let e2 = check_kind req e1 in
      elim (Option-cases e2.err) [
        | inr (why, bad) ↦
            let stop : (fresh req e && no_err e2) ≡ false = ground (arith, bad) in
            rw stop (inr (why, bad))
        | inl fine ↦
            let good : no_err e2 ≡ true = rw fine refl in
            let same : core e2 ≡ core e =
              check_kind-core req e1 good
              ∙ check_manifest-core req e (check_kind-no_err req e1 good) in
            elim (Bool-cases (fresh req e)) [
              | inl new ↦
                  rw (new, good)
                    (add_payload-IsPending start req blob cs came e (fingerprint_in req blob e2)
                      part o new (fingerprint_in-core req blob e2 ∙ same))
              | inr old ↦ rw old (
                  inl (
                    cs,
                    IsPart-later cs came (req, blob) part,
                    subst (IsOpen start cs) (sym same) o,
                  ))
            ]
      ]

  module _ (itoa : ℤ → String) where
    -- The result is the mean of the contributions, with the residual that the run kept under the
    -- round's name before one of the events.
    abbrev pub IsMeanOf : Sum F → List (Run F) → List (Contribution F) → Core F → Type 0
    IsMeanOf start runs cs (acc, seen, result, scales, err, kind, shard) =
        (seen ≡ seen_of cs)
        × Once start cs
        × (r : Run F) × Among r runs
        × (out : List ℕ) × ((mean_residual ops bits
              (residual_of ops bits itoa r
                (residual_name ops bits itoa kind shard (length (sum_up start cs).values))
                (length (sum_up start cs).values))
              (sum_up start cs)).0
            ≡ encoded out scales)
        × (result ≡ some out)

    abbrev pub IsAccounted : Sum F → List (Contribution F) → List (Run F) → Core F → Type 0
    IsAccounted start came runs c =
        ((cs : List (Contribution F)) × IsPart cs came × IsOpen start cs c)
        ⊎ (((cs : List (Contribution F)) × IsPart cs came × IsMeanOf start runs cs c)
            ⊎ ((why : Cause) × (c.4 ≡ some why)))

    -- What is accounted for stays so when more has come.
    pub IsAccounted-later :
        (start : Sum F) (came came' : List (Contribution F)) (runs : List (Run F)) (r : Run F)
        (c : Core F)
        → ((cs : List (Contribution F)) → IsPart cs came → IsPart cs came')
        → IsAccounted start came runs c
        → IsAccounted start came' (r ∷ runs) c
    IsAccounted-later start came came' runs r c more (inl (cs, part, o)) = inl (cs, more cs part, o)
    IsAccounted-later start came came' runs r c more
          (inr (inl (cs, part, (seen, once, s, here, out, mean, there)))) =
        inr (inl (cs, more cs part, (seen, once, s, inr here, out, mean, there)))
    IsAccounted-later start came came' runs r c more (inr (inr bad)) = inr (inr bad)

    pub finish-IsAccounted :
        (start : Sum F) (came : List (Contribution F)) (runs : List (Run F))
        (cs : List (Contribution F)) (r : Run F) (e : Round F)
        → Among r runs
        → IsPart cs came
        → e.seen ≡ seen_of cs
        → Once start cs
        → IsAccounted start came runs (core (finish ops bits itoa (sum_up start cs) (r, e)).1)
    unfolding finish
    finish-IsAccounted start came runs cs r e here part seen once =
        let a = sum_up start cs in
        let e' : Round F = record e { drift = drift ops bits a } in
        let n = length a.values in
        let mean =
          (mean_residual ops bits (residual_of ops bits itoa r (residual_key ops bits itoa e n) n)
            a).0 in
        let answer : Mean F → Type 0 =
          λ m. (m ≡ mean) → IsAccounted start came runs (core (set_answer ops bits m e')) in
        let by_cases : (m : Mean F) → answer m = λ m. elim m as answer [
          | encoded out scales ↦
              λ same. inr (inl (cs, part, (seen, once, r, here, out, sym same, refl)))
          | failed why ↦ λ same. inr (inr (_, refl))
        ] in
        by_cases mean refl

    settle_finished-core :
        (s : Run F × Round F) → core (settle_finished ops bits itoa s).1 ≡ core s.1
    unfolding settle_finished
    settle_finished-core (r, e) = ground arith

    settle_open-IsAccounted :
        (start : Sum F) (came : List (Contribution F)) (runs : List (Run F))
        (cs : List (Contribution F)) (r : Run F) (e : Round F)
        → Among r runs
        → IsPart cs came
        → IsOpen start cs (core e)
        → IsAccounted start came runs (core (settle_open ops bits itoa (sum_up start cs) (r, e)).1)
    unfolding settle_open
    settle_open-IsAccounted start came runs cs r e here part o =
        let a = sum_up start cs in
        let s = finish ops bits itoa a (r, e) in
        elim (Bool-cases (leb (expected_count e) (count_live r.dropped e.seen))) [
          | inl full ↦ rw full (
              subst (IsAccounted start came runs) (sym (settle_finished-core s))
                (finish-IsAccounted start came runs cs r e here part o.1 o.2))
          | inr short ↦ rw short (inl (cs, part, o))
        ]

    pub settle_reduce_open :
        (r : Run F) (e : Round F) (a : Sum F)
        → e.err ≡ none
        → e.acc ≡ some a
        → settle_reduce ops bits itoa (r, e) ≡ settle_open ops bits itoa a (r, e)
    unfolding settle_reduce
    settle_reduce_open r e a fine there = ground (arith, fine, there)

    pub settle_reduce_failed :
        (r : Run F) (e : Round F) (why : Cause)
        → e.err ≡ some why
        → core (settle_reduce ops bits itoa (r, e)).1 ≡ core e
    unfolding settle_reduce
    settle_reduce_failed r e why bad = ground (arith, bad)

    settle_reduce-IsAccounted :
        (start : Sum F) (came : List (Contribution F)) (runs : List (Run F)) (r : Run F)
        (e : Round F)
        → Among r runs
        → IsPending start came (core e)
        → IsAccounted start came runs (core (settle_reduce ops bits itoa (r, e)).1)
    settle_reduce-IsAccounted start came runs r e here (inl (cs, part, o)) =
        subst (λ (s : Run F × Round F). IsAccounted start came runs (core s.1))
          (sym (settle_reduce_open r e (sum_up start cs) o.4 o.0))
          (settle_open-IsAccounted start came runs cs r e here part o)
    settle_reduce-IsAccounted start came runs r e here (inr (why, bad)) =
        subst (IsAccounted start came runs) (sym (settle_reduce_failed r e why bad))
          (inr (inr (why, bad)))

    pub contribute_open :
        (req : Request F) (blob : List ℕ) (r : Run F) (e : Round F) (a : Sum F)
        → answered e ≡ false
        → e.acc ≡ some a
        → contribute ops bits itoa req blob (r, e)
          ≡ settle_reduce ops bits itoa (r, fold_in ops bits req blob a e)
    unfolding contribute
    contribute_open req blob r e a waiting there = ground (arith, waiting, there)

    pub contribute-answered :
        (req : Request F) (blob : List ℕ) (r : Run F) (e : Round F)
        → answered e ≡ true
        → contribute ops bits itoa req blob (r, e) ≡ (r, close e)
    unfolding contribute
    contribute-answered req blob r e there = ground (arith, there)

    -- The other cases of `IsAccounted` have an answer.
    abbrev pub Ended : Sum F → List (Contribution F) → List (Run F) → Round F → Type 0
    Ended start came runs e =
        ((cs : List (Contribution F)) × IsPart cs came × IsMeanOf start runs cs (core e))
        ⊎ ((why : Cause) × (e.err ≡ some why))

    pub Ended-answered :
        (start : Sum F) (came : List (Contribution F)) (runs : List (Run F)) (e : Round F)
        → Ended start came runs e
        → answered e ≡ true
    Ended-answered start came runs e (inl (cs, part, (seen, once, r, here, out, mean, there))) =
        ground (arith, there)
    Ended-answered start came runs e (inr (why, bad)) = ground (arith, bad)

    pub contribute-IsAccounted :
        (start : Sum F) (came : List (Contribution F)) (runs : List (Run F)) (req : Request F)
        (blob : List ℕ) (r : Run F) (e : Round F)
        → Among r runs
        → IsAccounted start came runs (core e)
        → IsAccounted start
            ((req, blob) ∷ came)
            runs
            (core (contribute ops bits itoa req blob (r, e)).1)
    contribute-IsAccounted start came runs req blob r e here (inl (cs, part, o)) =
        let waiting : answered e ≡ false = ground (arith, o.3, o.4) in
        subst (λ (s : Run F × Round F). IsAccounted start ((req, blob) ∷ came) runs (core s.1))
          (sym (contribute_open req blob r e (sum_up start cs) waiting o.0))
          (settle_reduce-IsAccounted start ((req, blob) ∷ came) runs r _ here
            (fold_in-IsPending start req blob cs came e part o))
    contribute-IsAccounted start came runs req blob r e here (inr c) =
        let wider : Ended start ((req, blob) ∷ came) runs e = elim c [
          | inl (cs, part, m) ↦ inl (cs, IsPart-later cs came (req, blob) part, m)
          | inr bad ↦ inr bad
        ] in
        subst (λ (s : Run F × Round F). IsAccounted start ((req, blob) ∷ came) runs (core s.1))
          (sym (contribute-answered req blob r e (Ended-answered start came runs e c))) (inr wider)
