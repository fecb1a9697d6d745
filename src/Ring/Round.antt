-- ===== src/Ring/Round.antt =====
-- One sync of the ring (src/internal/daemonapi/ddpsync.go and ddpboard.go): what a request brings,
-- the state of its round, and the steps that the board's lock makes one: a contribution is folded in,
-- the round is finished.
use Prim.Native.Nat.{bit_xor}
use Prim.Native.String.{◌++◌ as ◌⧺◌}
use pipedpeer.Base.{
  ℕ, suc, ◌*◌, ◌%◌, ◌^◌, Bool, true, false, not, if◌then◌else◌, ltb, leb, ◌&&◌, ◌||◌, Option, none,
  some, List, [], ◌∷◌, length, String,
}
use pipedpeer.Base.Eq.{◌==◌, nat_eq, string_eq}
use pipedpeer.Base.Int.{ℤ, pos, leb_ℤ, ltb_ℤ, eq_ℤ}
use pipedpeer.Base.Float.{FloatOps}
use pipedpeer.Base.Map.{Map, get, insert}
use pipedpeer.Ring.Ranks.{Ranks, in_set, add_all, any_in, count_live}
use pipedpeer.Ring.Sum.{FloatBits, DType, is_i8, SumError, Sum, add_segmented, drift}
use pipedpeer.Ring.Mean.{Mean, encoded, failed, mean_residual}
use pipedpeer.Ring.Run.{
  Cause, models_differ, kinds_differ, bad_payload, bad_mean, Run, Report, abort, zero_f, copies,
}

pub record Manifest : Type 0 where
  pub shapes : List (List ℤ)
  pub dtypes : List String

same_dims : List ℤ → List ℤ → Bool
same_dims [] [] = true
same_dims (a ∷ as') (b ∷ bs) = eq_ℤ a b && same_dims as' bs
same_dims _ _ = false

same_type : List String → List String → Bool
same_type (a ∷ as') (b ∷ bs) = a == b
same_type _ _ = true

rest_of : List String → List String
rest_of [] = []
rest_of (a ∷ as') = as'

-- manifestMismatch finds a difference.
unfoldable pub differ : List (List ℤ) → List (List ℤ) → List String → List String → Bool
unfolding same_dims same_type rest_of
differ [] [] da db = false
differ (a ∷ as') (b ∷ bs) da db =
    not (same_dims a b && same_type da db) || differ as' bs (rest_of da) (rest_of db)
differ _ _ da db = true

-- A request's fields that a round reads, its rank and its members checked.
pub record Request (F : Type 0) : Type 0 where
  pub seq : ℤ
  pub rank : ℕ
  pub world : ℕ
  pub dtype : DType
  pub count : ℤ
  pub scale : F
  pub scales : List F
  pub counts : List ℤ
  pub kind : String
  pub sync_every : ℤ
  pub samples : ℤ
  pub sharded : Bool
  pub start_wait : F
  pub manifest : Option Manifest
  pub fixed : Bool
  pub sync_mode : String
  pub shard : ℤ
  pub contributors : Ranks
  pub reports : List (ℕ × Report F)

pub record Round (F : Type 0) : Type 0 where
  pub blobs : Map ℕ (List ℕ)
  pub fetched : Ranks
  pub done : Bool
  pub world : ℕ
  pub created : ℕ
  pub acc : Option (Sum F)
  pub result : Option (List ℕ)
  pub result_scales : List F
  pub kind : String
  pub drift : Option F
  pub seen : Ranks
  pub step_millis : Map ℕ F
  pub err : Option Cause
  pub partial_at : ℤ
  pub sync_every : ℤ
  pub expected : ℕ
  pub partial : ℕ
  pub hold_expired : Bool
  pub held : Bool
  pub fingerprint : ℕ
  pub same_work : Bool
  pub checked : Bool
  pub fingerprinted : ℕ
  pub opening : Bool
  pub manifest : Option (Manifest × ℕ)
  pub shard : ℤ

-- FNV-1a over 64 bits, from `h` on.
unfoldable pub fnv1a_from : ℕ → List ℕ → ℕ
fnv1a_from h [] = h
fnv1a_from h (c ∷ cs) = fnv1a_from (bit_xor h c * 1_099_511_628_211 % 2 ^ 64) cs

unfoldable pub fnv1a : List ℕ → ℕ
fnv1a = fnv1a_from 14_695_981_039_346_656_037

module _ {F : Type 0} where
  unfoldable pub expected_count : Round F → ℕ
  expected_count e = if ltb 0 e.expected && leb e.expected e.world then e.expected else e.world

  -- The round has an answer: a result or an error.
  abbrev pub answered : Round F → Bool
  answered e = elim e.result [
    | some r ↦ true
    | none ↦ elim e.err [ some why ↦ true | none ↦ false ]
  ]

  -- close(e.done), where it is not closed yet.
  abbrev pub close : Round F → Round F
  close e = record e { done = true }

  unfoldable pub check_manifest : Request F → Round F → Round F
  check_manifest req e = elim req.manifest [
    | none ↦ e
    | some m ↦
        if e.opening && not (in_set req.rank e.seen)
        then (elim e.manifest [
          | none ↦ record e { manifest = some (m, req.rank) }
          | some (m0, rank0) ↦
              if differ m0.shapes m.shapes m0.dtypes m.dtypes
              then record e { err = some (models_differ rank0 req.rank) }
              else e
        ])
        else e
  ]

  abbrev pub fresh : Request F → Round F → Bool
  fresh req e = not (any_in req.contributors e.seen)

  abbrev pub no_err : Round F → Bool
  no_err e = elim e.err [ none ↦ true | some why ↦ false ]

  unfoldable pub check_kind : Request F → Round F → Round F
  check_kind req e =
      if not (req.kind == "")
        && not (e.kind == "")
        && not (req.kind == e.kind)
        && fresh req e
        && no_err e
      then record e { err = some (kinds_differ req.rank) }
      else e

  -- The first three gradient syncs are compared.
  unfoldable pub fingerprint_in : Request F → List ℕ → Round F → Round F
  fingerprint_in req blob e =
      let h = fnv1a blob in
      let e' : Round F = record e { fingerprinted = suc e.fingerprinted } in
      if not (req.kind == "grads" && leb_ℤ req.seq (pos 3))
      then e
      else if length e.seen == 0
      then record e' { fingerprint = h; same_work = true; checked = true }
      else if h == e.fingerprint
      then e'
      else record e' { same_work = false }

module _ {F : Type 0} (ops : FloatOps F) (bits : FloatBits F) where
  abbrev pub scales_of : Request F → List F
  scales_of req = elim req.scales [ [] ↦ req.scale ∷ [] | s ∷ ss ↦ s ∷ ss ]

  -- The round with what the sum made of a payload.
  abbrev pub placed : Request F → Round F → Sum F × Option SumError → Round F
  placed req e (a', some why) = record e { acc = some a'; err = some (bad_payload req.rank why) }
  placed req e (a', none) = record e { acc = some a'; seen = add_all req.contributors e.seen }

  -- The payload in the sum `a` of the round.
  unfoldable pub add_payload : Request F → List ℕ → Sum F → Round F → Round F
  add_payload req blob a e =
      placed req e (add_segmented ops bits blob (scales_of req) (ops.of_int req.samples) a)

  -- A contribution to an open round that averages.
  unfoldable pub fold_in : Request F → List ℕ → Sum F → Round F → Round F
  fold_in req blob a e =
      let e' = check_kind req (check_manifest req e) in
      if fresh req e && no_err e' then add_payload req blob a (fingerprint_in req blob e') else e'

  abbrev pub set_answer : Mean F → Round F → Round F
  set_answer (encoded out scales) e = record e {
    result = some out;
    result_scales = scales;
    err = none;
    acc = none;
  }
  set_answer (failed why) e = record e {
    result = none;
    result_scales = [];
    err = some (bad_mean why);
    acc = none;
  }

  -- Over `itoa`, the text of an integer.
  module _ (itoa : ℤ → String) where
    -- The name of an int8 reply's residual.
    unfoldable pub residual_name : String → ℤ → ℕ → String
    residual_name kind shard n =
        let k = kind ⧺ ("/" ⧺ itoa (pos n)) in
        if ltb_ℤ (pos 0) shard then k ⧺ ("#" ⧺ itoa shard) else k

    abbrev pub residual_key : Round F → ℕ → String
    residual_key e n = residual_name e.kind e.shard n

    unfoldable pub residual_of : Run F → String → ℕ → List F
    residual_of r k n = elim (get k r.residual) [
      | none ↦ copies ops n (zero_f ops)
      | some res ↦ res
    ]

    -- finishLocked, for the round's sum `a`.
    unfoldable pub finish : Sum F → Run F × Round F → Run F × Round F
    finish a (r, e) =
        let k = residual_key e (length a.values) in
        let (mean, res) = mean_residual ops bits (residual_of r k (length a.values)) a in
        let e' : Round F = record e { drift = drift ops bits a } in
        (
          (if is_i8 a.dtype then record r { residual = insert k res r.residual } else r),
          set_answer mean e',
        )

    unfoldable pub settle_finished : Run F × Round F → Run F × Round F
    settle_finished (r, e) = elim e.err [ some why ↦ (abort why r, close e) | none ↦ (r, close e) ]

    -- The round is finished when it has all that it waits for.
    unfoldable pub settle_open : Sum F → Run F × Round F → Run F × Round F
    settle_open a (r, e) =
        if leb (expected_count e) (count_live r.dropped e.seen)
        then settle_finished (finish a (r, e))
        else (r, e)

    -- What follows a contribution: an error aborts the run.
    unfoldable pub settle_reduce : Run F × Round F → Run F × Round F
    settle_reduce (r, e) = elim e.err [
      | some why ↦ (abort why r, close e)
      | none ↦ elim e.acc [ none ↦ (r, e) | some a ↦ settle_open a (r, e) ]
    ]
