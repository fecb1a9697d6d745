-- ===== src/Lease/Commit.antt =====
-- processCommit (src/internal/daemonapi/serverhttp.go). The lock is given up while the memory is
-- read, so a commit is two steps, and other requests may run between them.
use pipedpeer.Base.{ℕ, String, Bool, true, false, if◌then◌else◌, Option, none, some, ◌+◌, ltb, not}
use pipedpeer.Base.Eq.{◌==◌, nat_eq, string_eq}
use pipedpeer.Base.Int.{ℤ, pos, ltb_ℤ}
use pipedpeer.Base.Map.{Map, get, insert, remove}
use pipedpeer.Lease.{Lease, LeaseState, Server, running, is_reserved, persist}

pub data CommitReason : Type 0 where
  not_found lease_expired expired_during_commit : CommitReason
  wrong_state : LeaseState → CommitReason
  resources_gone : ℤ → CommitReason

pub record CommitResponse : Type 0 where
  pub committed : Bool
  pub reason : Option CommitReason
  pub status : ℕ

abbrev pub committed_ok : CommitResponse
committed_ok = record { committed = true; reason = none; status = 200 }

abbrev pub not_committed : CommitReason → ℕ → CommitResponse
not_committed why status = record { committed = false; reason = some why; status = status }

-- After the first critical section: an answer, or the lease object held while the memory is read.
pub data Progress : Type 0 where
  answered : CommitResponse → Progress
  reading_memory : ℕ → Progress

-- `lease.State = LeaseRunning`, through the pointer: the table changes only where it still points
-- to that object.
unfoldable pub start_running : String → ℕ → ℕ → Map String Lease → Map String Lease
start_running id ref now m = elim (get id m) [
  | none ↦ m
  | some l ↦
      if l.ref == ref then insert id (record l { state = running; renewed_at = now }) m else m
]

unfoldable pub finish_start : String → ℕ → ℕ → Server → CommitResponse × Server
unfolding start_running
finish_start id ref now s =
    (committed_ok, persist (record s { leases = start_running id ref now s.leases }))

unfoldable pub begin_commit : String → ℕ → Server → Progress × Server
unfolding finish_start
begin_commit id now s = elim (get id s.leases) [
  | none ↦ (answered (not_committed not_found 404), s)
  | some l ↦
      if not (is_reserved l.state)
      then (answered (not_committed (wrong_state l.state) 409), s)
      else if ltb (l.expires_at + s.grace_period) now
      then (
        answered (not_committed lease_expired 410),
        persist (record s { leases = remove id s.leases }),
      )
      else if ltb_ℤ (pos 0) l.mem_bytes
      then (reading_memory l.ref, s)
      else (let (answer, after) = finish_start id l.ref now s in (answered answer, after))
]

unfoldable pub finish_commit : String → ℕ → ℤ → ℕ → Server → CommitResponse × Server
unfolding finish_start
finish_commit id ref available now s = elim (get id s.leases) [
  | none ↦ (not_committed expired_during_commit 404, s)
  | some l ↦
      if ltb_ℤ available (pos 0)
      then (
        not_committed (resources_gone available) 503,
        persist (record s { leases = remove id s.leases }),
      )
      else finish_start id ref now s
]

-- With nothing in between.
unfoldable pub process_commit : String → ℤ → ℕ → ℕ → Server → CommitResponse × Server
unfolding begin_commit finish_commit
process_commit id available now later s =
    let (progress, after) = begin_commit id now s in
    elim progress [
      | answered r ↦ (r, after)
      | reading_memory ref ↦ finish_commit id ref available later after
    ]
