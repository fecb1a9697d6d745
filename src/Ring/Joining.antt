-- ===== src/Ring/Joining.antt =====
-- A rank that joins a running ring (src/internal/daemonapi/ddpup.go): it is admitted, the rank that
-- hands over uploads its snapshot, the joiner takes it and is loading. A snapshot is its bytes; the
-- handlers' JSON and frames are read before these steps.
use pipedpeer.Base.{
  ℕ, zero, suc, ◌+◌, ◌-◌, ◌≤◌, ◌<◌, ◌≡◌, refl, Bool, true, false, not, if◌then◌else◌, ltb, Option,
  none, some, List, arith, Bool-cases, inl, inr, ◌⊎◌,
}
use pipedpeer.Base.Eq.{◌==◌, nat_eq}
use pipedpeer.Base.Int.{pos, eq_ℤ}
use pipedpeer.Base.Float.{FloatOps}
use pipedpeer.Ring.Ranks.{Ranks, in_set, add_to}
use pipedpeer.Ring.Run.{
  Cause, Run, Join, joins, publish, next_seq, ring_fragment, lowest_live, first_live, shares_with,
}

pub data Refusal : Type 0 where
  not_synced : Refusal
  stopped : Cause → Refusal
  finishes_alone not_sharded nobody_left : Refusal
  still_joining already_in still_starting : ℕ → Refusal

pub data Vetted : Type 0 where
  refused : Refusal → Vetted
  handed_by : ℕ → Vetted

-- Asking again later is pointless.
unfoldable pub is_final : Refusal → Bool
is_final (stopped why) = true
is_final finishes_alone = true
is_final not_sharded = true
is_final nobody_left = true
is_final _ = false

-- The first rank of `n` from `k` on that is not among the dropped.
unfoldable pub starting : ℕ → ℕ → Ranks → Option ℕ
starting zero k dropped = none
starting (suc n) k dropped =
    let rest = starting n (suc k) dropped in if in_set k dropped then rest else some k

unfoldable pub drop_range : ℕ → ℕ → Ranks → Ranks
drop_range zero k dropped = dropped
drop_range (suc n) k dropped = drop_range n (suc k) (add_to k dropped)

module _ {F : Type 0} where
  -- Why the rank cannot join, or the rank that hands over to it.
  unfoldable pub vet : ℕ → Run F → Vetted
  vet rank r = if eq_ℤ r.last_seq (pos 0) then refused not_synced else elim r.aborted [
    | some why ↦ refused (stopped why)
    | none ↦
        if r.released
        then refused finishes_alone
        else if not r.sharded
        then refused not_sharded
        else elim r.join [
          | some j ↦ refused (still_joining j.rank)
          | none ↦
              if ltb rank r.world
              then refused (already_in rank)
              else elim (starting (rank - r.world) r.world r.dropped) [
                | some k ↦ refused (still_starting k)
                | none ↦ elim (lowest_live r.world r.dropped) [
                  | none ↦ refused nobody_left
                  | some from ↦ handed_by from
                ]
              ]
        ]
  ]

  -- handleDDPSnapshotPut: the snapshot is taken if the join waits for it.
  unfoldable pub put_snapshot : ℕ → List ℕ → Run F → Run F × Bool
  put_snapshot rank body r = elim r.join [
    | none ↦ (r, false)
    | some j ↦ elim j.snap [
      | some old ↦ (r, false)
      | none ↦
          if j.rank == rank
          then (record r { join = some (record j { snap = some body }) }, true)
          else (r, false)
    ]
  ]

  -- `take` of handleDDPSnapshotGet: the join of this rank, with its snapshot if it has one.
  unfoldable pub joining_as : ℕ → Run F → Option Join
  joining_as rank r = elim r.join [ none ↦ none | some j ↦ if j.rank == rank then some j else none ]

  -- The end of handleDDPSnapshotGet, once the snapshot of the join `id` is written out.
  unfoldable pub snapshot_sent : ℕ → ℕ → Run F → Run F
  snapshot_sent id rank r = elim r.join [
    | none ↦ r
    | some j ↦
        if j.id == id
        then record r { note_told = add_to rank r.note_told; join = none; loading = some j }
        else r
  ]

module _ {F : Type 0} (ops : FloatOps F) where
  -- The ring with the rank in it, and the note that says so. `id` is the new join object.
  unfoldable pub grow : ℕ → ℕ → ℕ → Run F → Run F
  grow id rank from r =
      let dropped = drop_range (rank - r.world) r.world r.dropped in
      let r' : Run F = record r {
        dropped = dropped;
        weights = shares_with ops r.weights r.world dropped (suc rank);
        world = suc rank;
        join =
            some
              (record { id = id; rank = rank; from = some from; old_world = r.world; snap = none });
      } in
      publish (next_seq r') (joins (ring_fragment r')) r'

  -- ddpJoin, for a run that exists; with `check` the ring is only asked.
  unfoldable pub join_ring : ℕ → ℕ → Bool → Run F → Run F × Option Refusal
  join_ring id rank check r = elim (vet rank r) [
    | refused why ↦ (r, some why)
    | handed_by from ↦ if check then (r, none) else (grow id rank from r, none)
  ]

Vetted-cases :
    (v : Vetted) → ((why : Refusal) × (v ≡ refused why)) ⊎ ((from : ℕ) × (v ≡ handed_by from))
Vetted-cases (refused why) = inl (why, refl)
Vetted-cases (handed_by from) = inr (from, refl)

first_live-range :
    (n k j : ℕ) (dropped : Ranks)
    → first_live n k dropped ≡ some j
    → (k ≤ j) × (j < k + n) × (in_set j dropped ≡ false)
unfolding first_live
first_live-range zero k j dropped h = cc
first_live-range (suc n) k j dropped h = elim (Bool-cases (in_set k dropped)) [
  | inl gone ↦
      let rest : first_live n (suc k) dropped ≡ some j = ground (arith, h, gone) in
      ground (arith, first_live-range n (suc k) j dropped rest)
  | inr live ↦ ground (arith, h, live)
]

module _ {F : Type 0} (ops : FloatOps F) where
  vet-handed_by :
      (rank from : ℕ) (r : Run F)
      → vet rank r ≡ handed_by from
      → (r.join ≡ none) × (r.world ≤ rank) × (from < r.world) × (in_set from r.dropped ≡ false)
  unfolding vet
  vet-handed_by rank from r h = ground (arith, h, first_live-range r.world 0 from r.dropped)

  grow-join :
      (id rank from : ℕ) (r : Run F)
      → let r' = grow ops id rank from r in
        (r'.world ≡ suc rank)
        × (r'.join
            ≡ some (record {
              id = id;
              rank = rank;
              from = some from;
              old_world = r.world;
              snap = none;
            }))
  unfolding grow publish
  grow-join id rank from r = (refl, refl)

  join_ring_handed :
      (id rank from : ℕ) (r : Run F)
      → vet rank r ≡ handed_by from
      → join_ring ops id rank false r ≡ (grow ops id rank from r, none)
  unfolding join_ring
  join_ring_handed id rank from r ok = ground (arith, ok)

  join_ring_refused :
      (id rank : ℕ) (why : Refusal) (r : Run F)
      → vet rank r ≡ refused why
      → join_ring ops id rank false r ≡ (r, some why)
  unfolding join_ring
  join_ring_refused id rank why r no_way = ground (arith, no_way)

  -- An admitted rank was outside the ring and makes it as large as it must be; no other rank was
  -- joining; and a rank of the ring that goes on hands over to it.
  pub join_ring-admits :
      (id rank : ℕ) (r : Run F)
      → (join_ring ops id rank false r).1 ≡ none
      → let r' = (join_ring ops id rank false r).0 in
        (r.join ≡ none)
        × (r.world ≤ rank)
        × (r'.world ≡ suc rank)
        × ((from : ℕ) × (from < r.world)
            × (in_set from r.dropped ≡ false)
            × (r'.join
                ≡ some (record {
                  id = id;
                  rank = rank;
                  from = some from;
                  old_world = r.world;
                  snap = none;
                })))
  join_ring-admits id rank r h = elim (Vetted-cases (vet rank r)) [
    | inl (why, no_way) ↦ absurd (ground (arith, h, join_ring_refused id rank why r no_way))
    | inr (from, ok) ↦
        let v = vet-handed_by rank from r ok in
        let g = grow-join id rank from r in
        rw (join_ring_handed id rank from r ok) (v.0, v.1, g.0, (from, v.2, v.3, g.1))
  ]
