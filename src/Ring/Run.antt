-- ===== src/Ring/Run.antt =====
-- A training run across its rounds: the shares of its ranks, the ranks it goes on without, its notes
-- and its joins (src/internal/daemonapi/ddpboard.go, ddpdown.go and ddpup.go). A note is what its
-- JSON fragment carries; the sentences for a person are left out. The board's lock is held by the
-- callers, so each function is one step.
use pipedpeer.Base.{
  ℕ, zero, suc, ◌+◌, ◌-◌, Bool, true, false, not, if◌then◌else◌, leb, ◌&&◌, ◌||◌, Option, none,
  some, List, [], ◌∷◌, ◌++◌, map, length, String,
}
use pipedpeer.Base.Eq.{◌==◌, nat_eq, string_eq}
use pipedpeer.Base.Int.{ℤ, pos, ◌+ℤ◌, int64, ltb_ℤ}
use pipedpeer.Base.Float.{FloatOps}
use pipedpeer.Base.Map.{Map, insert, remove}
use pipedpeer.Ring.Ranks.{Ranks, in_set, add_to, count_below}
use pipedpeer.Ring.Sum.{SumError}

-- Why a round failed or a run was aborted.
pub data Cause : Type 0 where
  models_differ : ℕ → ℕ → Cause
  kinds_differ : ℕ → Cause
  bad_payload : ℕ → SumError → Cause
  bad_mean : SumError → Cause
  stopped_answering : Ranks → Cause

pub record Report (F : Type 0) : Type 0 where
  pub step_millis : F
  pub sync_millis : F
  pub samples : ℤ

-- A join under way. `id` tells one join object from another; `from` is none where the code has -1.
pub record Join : Type 0 where
  pub id : ℕ
  pub rank : ℕ
  pub from : Option ℕ
  pub old_world : ℕ
  pub snap : Option (List ℕ)

-- The ring as a note carries it: shares, and the joining rank with the one that hands over.
pub record Fragment (F : Type 0) : Type 0 where
  pub weights : List F
  pub joining : Option (ℕ × Option ℕ)

pub data Note (F : Type 0) : Type 0 where
  down : Fragment F → ℕ → Note F
  joins : Fragment F → Note F
  drop_rank : ℕ → Note F
  shares : List F → Note F
  release : Fragment F → ℕ → F → F → ℕ → Note F
  use_diloco : ℕ → Note F

pub record Run (F : Type 0) : Type 0 where
  pub reports : Map ℕ (Report F)
  pub weights : List F
  pub round : ℕ
  pub dropped : Ranks
  pub seen : ℕ
  pub last_seq : ℤ
  pub note : Option (Note F)
  pub note_seq : ℤ
  pub note_told : Ranks
  pub world : ℕ
  pub sharded : Bool
  pub join : Option Join
  pub loading : Option Join
  pub aborted : Option Cause
  pub fixed : Bool
  pub released : Bool
  pub auto_sync : Bool
  pub diloco : Bool
  pub sync_every : ℤ
  pub residual : Map String (List F)

abbrev pub new_run : {F : Type 0} → ℕ → Run F
new_run now = record {
  reports = [];
  weights = [];
  round = 0;
  dropped = [];
  seen = now;
  last_seq = pos 0;
  note = none;
  note_seq = pos 0;
  note_told = [];
  world = 0;
  sharded = false;
  join = none;
  loading = none;
  aborted = none;
  fixed = false;
  released = false;
  auto_sync = false;
  diloco = false;
  sync_every = pos 0;
  residual = [];
}

-- The first rank from `k` on, of `n` ranks, that is not dropped.
unfoldable pub first_live : ℕ → ℕ → Ranks → Option ℕ
first_live zero k dropped = none
first_live (suc n) k dropped =
    let rest = first_live n (suc k) dropped in if in_set k dropped then rest else some k

abbrev pub lowest_live : ℕ → Ranks → Option ℕ
lowest_live n dropped = first_live n 0 dropped

abbrev pub clear_loading : ℕ → Option Join → Option Join
clear_loading rank none = none
clear_loading rank (some j) = if j.rank == rank then none else some j

-- The join when a rank goes down: the joiner's own ends, another is handed over by the next rank.
unfoldable pub redirect : ℕ → Ranks → Option Join → Option Join
redirect rank dropped none = none
redirect rank dropped (some j) =
    if j.rank == rank
    then none
    else if (elim j.from [ none ↦ false | some from ↦ from == rank ])
    then some (record j { from = lowest_live j.old_world dropped })
    else some j

module _ {F : Type 0} where
  -- The ranks of a ring of `world` that the run goes on with.
  abbrev pub live_of : Run F → ℕ → ℕ
  live_of r world = world - count_below world r.dropped

  unfoldable pub observe : ℕ → ℕ → Report F → Run F → Run F
  observe now rank rep r =
      if in_set rank r.dropped
      then r
      else record r { reports = insert rank rep r.reports; seen = now }

  unfoldable pub abort : Cause → Run F → Run F
  abort why r = record r { aborted = elim r.aborted [ none ↦ some why | some old ↦ some old ] }

  unfoldable pub publish : ℤ → Note F → Run F → Run F
  publish seq n r = record r { note = some n; note_seq = seq; note_told = [] }

  unfoldable pub note_for : ℕ → ℤ → Run F → Run F × Option (Note F)
  note_for rank seq r = elim r.note [
    | none ↦ (r, none)
    | some n ↦
        if ltb_ℤ seq r.note_seq || in_set rank r.note_told
        then (r, none)
        else (record r { note_told = add_to rank r.note_told }, some n)
  ]

  unfoldable pub ring_fragment : Run F → Fragment F
  ring_fragment r = record {
    weights = r.weights;
    joining = elim r.join [
      | none ↦ none
      | some j ↦ elim j.snap [ none ↦ some (j.rank, j.from) | some snap ↦ none ]
    ];
  }

  unfoldable pub next_seq : Run F → ℤ
  next_seq r = int64 (r.last_seq +ℤ pos 1)

module _ {F : Type 0} (ops : FloatOps F) where
  abbrev pub zero_f : F
  zero_f = ops.of_int (pos 0)

  abbrev pub one_f : F
  one_f = ops.of_int (pos 1)

  -- The shares from index `i` on with those of dropped ranks at zero, and the sum of the rest.
  unfoldable pub masked : ℕ → Ranks → List F → F → List F × F
  masked i dropped [] total = ([], total)
  masked i dropped (x ∷ xs) total =
      let kept = not (in_set i dropped) && ops.lt zero_f x in
      let (rest, sum) = masked (suc i) dropped xs (if kept then ops.add total x else total) in
      ((if kept then x else zero_f) ∷ rest, sum)

  unfoldable pub shares_without : List F → Ranks → List F
  shares_without weights dropped =
      let (out, sum) = masked 0 dropped weights zero_f in
      if ops.le sum zero_f then out else map (λ (x : F). ops.div x sum) out

  unfoldable pub copies : ℕ → F → List F
  copies zero x = []
  copies (suc n) x = x ∷ copies n x

  unfoldable pub shares_or_equal : List F → ℕ → List F
  shares_or_equal weights n = if length weights == n then weights else copies n one_f

  count_shares : ℕ → Ranks → List F → ℕ
  count_shares i dropped [] = 0
  count_shares i dropped (x ∷ xs) =
      (if ops.lt zero_f x && not (in_set i dropped) then 1 else 0) + count_shares (suc i) dropped xs

  -- For a ring that grows: `old < world`.
  unfoldable pub shares_with : List F → ℕ → Ranks → ℕ → List F
  unfolding count_shares
  shares_with weights old dropped world =
      let base = shares_without (shares_or_equal weights old) dropped in
      let live = count_shares 0 dropped base in
      let more = ops.of_int (pos (live + 1)) in
      let scale = ops.div (ops.of_int (pos live)) more in
      if live == 0
      then copies (world - 1) zero_f ++ one_f ∷ []
      else map (λ (x : F). ops.mul x scale) base
        ++ (copies (world - 1 - old) zero_f ++ ops.div one_f more ∷ [])

  abbrev pub with_world : ℕ → Run F → Run F
  with_world world r = if r.world == 0 then record r { world = world } else r

  -- The run when a rank that it counted goes down.
  unfoldable pub take_down : ℕ → Run F → Run F
  take_down rank r =
      let dropped = add_to rank r.dropped in
      let r' : Run F = record r {
        dropped = dropped;
        reports = remove rank r.reports;
        weights = shares_without (shares_or_equal r.weights r.world) dropped;
        loading = clear_loading rank r.loading;
        join = redirect rank dropped r.join;
      } in
      publish (next_seq r') (down (ring_fragment r') rank) r'

  -- A rank past the ring's size started to join and died before the ring counted it.
  abbrev pub note_stranger : ℕ → Run F → Run F
  note_stranger rank r = record r { dropped = add_to rank r.dropped }

  -- The run, the ranks left, and whether the open rounds are to be looked at.
  unfoldable pub mark_known : ℕ → Run F → Run F × ℕ × Bool
  mark_known rank r =
      if leb r.world rank
      then (note_stranger rank r, live_of (note_stranger rank r) r.world, false)
      else if in_set rank r.dropped
      then (r, live_of r r.world, false)
      else (take_down rank r, live_of r r.world - 1, true)

  unfoldable pub mark_down : ℕ → ℕ → Run F → Run F × ℕ × Bool
  mark_down rank world r = mark_known rank (with_world world r)
