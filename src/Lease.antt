-- ===== src/Lease.antt =====
-- The lease table of a daemon: the state and its plain readers
-- (src/internal/daemonapi/server.go, serverlease.go, state.go).
-- Times are nanoseconds, 0 being Go's zero time; byte counts are int64.
pub mod Host
pub mod Accept
pub mod Commit
pub mod Life
pub mod Calls
pub mod Rule
pub mod Table
pub mod Gpu
pub mod Saving
pub mod Sweeping
pub mod Commits
pub mod Memory
use pipedpeer.Base.{
  ℕ, String, Bool, true, false, if◌then◌else◌, Option, none, some, [], ◌∷◌, ◌+◌, ◌-◌, ltb, length,
  not, ◌&&◌, ◌||◌,
}
use pipedpeer.Base.Eq.{◌==◌, string_eq}
use pipedpeer.Base.Int.{ℤ, pos, negsuc, pos_part, ◌+ℤ◌, ltb_ℤ, int64}
use pipedpeer.Base.Map.{Map, get}

pub data LeaseState : Type 0 where
  reserved running : LeaseState

-- `ref` is the identity of the object that the map points to: `s.leases` holds pointers.
pub record Lease : Type 0 where
  pub ref : ℕ
  pub lease_id : String
  pub job_name : String
  pub submitter_node : String
  pub state : LeaseState
  pub mem_bytes : ℤ
  pub gpu_index : ℤ
  pub created_at : ℕ
  pub expires_at : ℕ
  pub renewed_at : ℕ
  pub job_id : String

pub record Job : Type 0 where
  pub status : String
  pub created_at : ℕ

-- What `state.save` was last handed.
pub record Snapshot : Type 0 where
  pub leases : Map String Lease
  pub jobs : Map String Job

-- `saving` says whether persistence is on (`s.state != nil`); `next_ref` names the next object.
pub record Server : Type 0 where
  pub node_id : String
  pub lease_duration : ℕ
  pub grace_period : ℕ
  pub running_lease_ttl : ℕ
  pub max_concurrent : ℕ
  pub leases : Map String Lease
  pub jobs : Map String Job
  pub saving : Bool
  pub saved : Option Snapshot
  pub next_ref : ℕ

-- persist, one step with the change before it: the code saves after it has given the lock up, and
-- saves that overtake one another are not covered.
unfoldable pub persist : Server → Server
persist s =
    if s.saving then record s { saved = some (record { leases = s.leases; jobs = s.jobs }) } else s

abbrev pub is_reserved : LeaseState → Bool
is_reserved reserved = true
is_reserved running = false

abbrev pub is_running : LeaseState → Bool
is_running reserved = false
is_running running = true

-- ReservedMem: the loop adds up int64 values.
unfoldable pub sum_mem : ℤ → Map String Lease → ℤ
sum_mem total [] = total
sum_mem total ((k, l) ∷ m) = sum_mem (int64 (total +ℤ l.mem_bytes)) m

unfoldable pub reserved_mem : Server → ℤ
unfolding sum_mem
reserved_mem s = sum_mem (pos 0) s.leases

count_state : (LeaseState → Bool) → Map String Lease → ℕ
count_state p [] = 0
count_state p ((k, l) ∷ m) = let rest = count_state p m in if p l.state then rest + 1 else rest

unfoldable pub active_jobs : Server → ℕ
unfolding count_state
active_jobs s = count_state is_running s.leases

unfoldable pub queue_depth : Server → ℕ
unfolding count_state
queue_depth s = count_state is_reserved s.leases

unfoldable pub active_leases : Server → ℕ
active_leases s = length s.leases

-- RecentFailures: the jobs that failed after the cutoff.
count_failures : ℕ → Map String Job → ℕ
count_failures cutoff [] = 0
count_failures cutoff ((k, j) ∷ m) =
    let rest = count_failures cutoff m in
    if j.status == "failed" && ltb cutoff j.created_at then rest + 1 else rest

abbrev pub recent_failure_window : ℕ
recent_failure_window = 600_000_000_000

unfoldable pub recent_failures : ℕ → Server → ℕ
unfolding count_failures
recent_failures now s = count_failures (now - recent_failure_window) s.jobs

-- ownJobLease: the smallest reservation that is bound to a job, 0 if there is none.
unfoldable pub smallest_bound : ℤ → Map String Lease → ℤ
smallest_bound own [] = own
smallest_bound own ((k, l) ∷ m) =
    smallest_bound
      (if not (l.job_id == "") && (ltb_ℤ own (pos 0) || ltb_ℤ l.mem_bytes own)
        then l.mem_bytes
        else own)
      m

unfoldable pub own_job_lease : Server → ℤ
unfolding smallest_bound
own_job_lease s =
    let own = smallest_bound (negsuc 0) s.leases in if ltb_ℤ own (pos 0) then pos 0 else own

-- liveJobIDs: the jobs that are not finished.
unfoldable pub job_status_final : String → Bool
job_status_final status = status == "done" || status == "failed" || status == "cancelled"

unfoldable pub live_job : Server → String → Bool
unfolding job_status_final
live_job s id = elim (get id s.jobs) [ none ↦ false | some j ↦ not (job_status_final j.status) ]

unfoldable pub get_lease : String → Server → Option Lease
get_lease id s = get id s.leases

-- SetMaxConcurrentJobs and SetRunningLeaseTTL.
unfoldable pub set_max_concurrent : ℤ → Server → Server
set_max_concurrent n s = record s { max_concurrent = pos_part n }

unfoldable pub set_running_lease_ttl : ℕ → Server → Server
set_running_lease_ttl d s = record s { running_lease_ttl = d }
