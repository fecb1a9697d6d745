-- ===== src/Lease/Calls.antt =====
-- The requests that reach the lease table, as one step function and its histories
-- (src/internal/daemonapi/serverhttp.go, serverlease.go, state.go).
use pipedpeer.Base.{ℕ, String, Bool, if◌then◌else◌, ◌||◌, none, some, List, [], ◌∷◌}
use pipedpeer.Base.Eq.{◌==◌, string_eq}
use pipedpeer.Base.Map.{Map}
use pipedpeer.Base.Int.{ℤ}
use pipedpeer.Base.Float.{FloatOps}
use pipedpeer.Lease.{Server, Job, persist}
use pipedpeer.Lease.Host.{Host}
use pipedpeer.Lease.Accept.{AcceptRequest, process_accept}
use pipedpeer.Lease.Commit.{begin_commit, finish_commit}
use pipedpeer.Lease.Life.{
  process_complete, process_renew, sweep_leases, bind_lease, release_job_lease, set_job,
}

-- load: what was saved fills the empty tables.
unfoldable pub load : Server → Server
load s = elim s.saved [
  | none ↦ record s { leases = []; jobs = [] }
  | some snap ↦ record s { leases = snap.leases; jobs = snap.jobs }
]

-- A job that lost its process with the old daemon.
unfoldable pub is_orphan : Job → Bool
is_orphan j = j.status == "running" || j.status == "importing"

unfoldable pub orphans : Map String Job → List String
orphans [] = []
orphans ((id, j) ∷ m) = let rest = orphans m in if is_orphan j then id ∷ rest else rest

unfoldable pub fail_jobs : Map String Job → Map String Job
fail_jobs [] = []
fail_jobs ((id, j) ∷ m) =
    (id, if is_orphan j then record j { status = "failed" } else j) ∷ fail_jobs m

unfoldable pub release_all : List String → Server → Server
release_all [] s = s
release_all (id ∷ ids) s = release_all ids (release_job_lease id s)

-- The orphans fail and their leases go; nothing is saved where there are none.
unfoldable pub fail_all : List String → Server → Server
fail_all [] s = s
fail_all (id ∷ ids) s = persist (release_all (id ∷ ids) (record s { jobs = fail_jobs s.jobs }))

-- failOrphanedJobs, on the tables: the containers, process groups, output logs and the time at which
-- a job ended are left out.
unfoldable pub fail_orphaned_jobs : Server → Server
fail_orphaned_jobs s = fail_all (orphans s.jobs) s

-- A daemon that starts again (EnablePersistence).
unfoldable pub restart : Server → Server
restart s = fail_orphaned_jobs (load s)

-- A commit is two calls. `sweeps` carries the jobs that were alive when it read them.
pub data Call (F : Type 0) : Type 0 where
  accepts : Host F → String → ℕ → AcceptRequest → Call F
  begins : String → ℕ → Call F
  finishes : String → ℕ → ℤ → ℕ → Call F
  completes : String → Call F
  renews : String → ℕ → Call F
  sweeps : (String → Bool) → ℕ → Call F
  binds : String → String → ℕ → Call F
  releases : String → Call F
  job_changes : String → Job → Call F
  restarts : Call F

module _ {F : Type 0} (ops : FloatOps F) where
  unfoldable pub step : Server → Call F → Server
  step s (accepts h id now req) = (process_accept ops h id now req s).1
  step s (begins id now) = (begin_commit id now s).1
  step s (finishes id ref available now) = (finish_commit id ref available now s).1
  step s (completes id) = process_complete id s
  step s (renews id now) = (process_renew id now s).1
  step s (sweeps alive now) = sweep_leases alive now s
  step s (binds id job now) = bind_lease id job now s
  step s (releases job) = release_job_lease job s
  step s (job_changes id j) = set_job id j s
  step s restarts = restart s

  unfoldable pub run : Server → List (Call F) → Server
  run s [] = s
  run s (c ∷ cs) = run (step s c) cs
