-- ===== src/Examples/Leases.antt =====
-- Runs of the lease table (src/internal/daemonapi/serverhttp.go, serverlease.go).
use pipedpeer.Base.{ℕ, true, false, some, List, [], ◌∷◌, ◌≡◌, ◌≢◌, ◌↔◌, ◌⊎◌, inr, refl, arith}
use pipedpeer.Base.Eq.{nat_eq, string_eq}
use pipedpeer.Base.Int.{pos, negsuc, int64, ◌+ℤ◌, ◌-ℤ◌, ◌≤ℤ◌}
use pipedpeer.Base.Float.{whole}
use pipedpeer.Base.Map.{get, has, insert}
use pipedpeer.Lease.{Lease, Server, reserved, running, live_job, reserved_mem, sum_mem, persist}
use pipedpeer.Lease.Host.{
  Host, grantable_from, remaining, free_cores, accept_available, tighter, admit,
}
use pipedpeer.Lease.Accept.{
  AcceptRequest, process_accept, add_lease, reserve_gpu, pick_gpu, gpu_taken,
}
use pipedpeer.Lease.Commit.{
  process_commit, begin_commit, finish_commit, finish_start, reading_memory, committed_ok,
  resources_gone,
}
use pipedpeer.Lease.Life.{process_complete, process_renew, sweep_expired, bind_lease}
use pipedpeer.Lease.Calls.{Call, accepts, begins, finishes, completes, run, restart}
use pipedpeer.Lease.Rule.{Holds}
use pipedpeer.Lease.Table.{IsWithin, run-IsWithin}
use pipedpeer.Lease.Gpu.{IsExclusive, run-IsExclusive}
use pipedpeer.Lease.Saving.{restart-run, survivors, restart-process_renew}
use pipedpeer.Lease.Sweeping.{IsKept, get-sweep_expired, bind_lease-survives}
use pipedpeer.Lease.Commits.{
  process_commit-never_refuses, commit_twice, process_complete-commit-accept,
}
use pipedpeer.Lease.Memory.{process_accept-fits}

abbrev node : Server
node = record {
  node_id = "n";
  lease_duration = 120;
  grace_period = 30;
  running_lease_ttl = 300;
  max_concurrent = 2;
  leases = [];
  jobs = [];
  saving = true;
  saved = some (record { leases = []; jobs = [] });
  next_ref = 0;
}

abbrev first_lease : Lease
first_lease = record {
  ref = 0;
  lease_id = "a";
  job_name = "train";
  submitter_node = "m";
  state = reserved;
  mem_bytes = pos 300;
  gpu_index = pos 0;
  created_at = 10;
  expires_at = 130;
  renewed_at = 0;
  job_id = "";
}

-- A node that holds one reserved lease.
abbrev busy_node : Server
busy_node = record node {
  leases = ("a", first_lease) ∷ [];
  saved = some (record { leases = ("a", first_lease) ∷ []; jobs = [] });
  next_ref = 1;
}

abbrev job_lease : Lease
job_lease = record first_lease { state = running; job_id = "job" }

-- A node whose one lease runs a job.
abbrev job_node : Server
job_node = record node {
  leases = ("a", job_lease) ∷ [];
  jobs = ("job", record { status = "running"; created_at = 5 }) ∷ [];
}

abbrev host : Host ℕ
host = record {
  role = "";
  available_mem = pos 1000;
  total_cpus = pos 4;
  num_cpu = pos 4;
  cpu_percent = 0;
  roommates = pos 0;
  budget = record { total = pos 0; used = pos 0 };
  devices =
      record { index = pos 0; memory_free = pos 8 }
      ∷ record { index = pos 1; memory_free = pos 6 }
      ∷ [];
  gpu_present = true;
}

abbrev request : AcceptRequest
request = record {
  target_id = "n";
  job_name = "train";
  submitter_node = "m";
  required_mem = pos 300;
  required_cores = pos 1;
  require_gpu = true;
  required_gpu_mem = pos 0;
}

abbrev calls : List (Call ℕ)
calls = accepts host "b" 20 request ∷ begins "a" 22 ∷ finishes "a" 0 (pos 5) 23 ∷ completes "b" ∷ []

no_more : has "a" node.leases ≡ false
unfolding has
no_more = refl

run-IsWithin_example : Holds IsWithin (run whole busy_node calls)
run-IsWithin_example =
    run-IsWithin whole busy_node calls (tt, (tt, (tt, (tt, tt))))
      (inr (omega arith), inr (omega arith))

run-IsExclusive_example : Holds IsExclusive (run whole node calls)
unfolding get
run-IsExclusive_example =
    run-IsExclusive whole node calls ((λ e. ground (arith, e), refl), (tt, (tt, (tt, tt))))
      (
        (tt, λ k j l n ek ej other h. absurd (ground arith)),
        (tt, λ k j l n ek ej other h. absurd (ground arith)),
      )

restart-run_example :
    (restart (run whole busy_node calls)).leases
    ≡ survivors (run whole busy_node calls).saved (run whole busy_node calls).leases
restart-run_example =
    restart-run whole busy_node calls (refl, (refl, (refl, (refl, tt))))
      (record { on = refl; same = refl })

restart-process_renew_example :
    ((process_renew "a" 50 busy_node).0.status ≡ 200)
    × ((restart (process_renew "a" 50 busy_node).1).leases
        ≡ survivors busy_node.saved busy_node.leases)
unfolding get
restart-process_renew_example =
    restart-process_renew busy_node "a" 50 first_lease (record { on = refl; same = refl }) refl

get-sweep_expired_example :
    (get "a" (sweep_expired 140 busy_node).leases ≡ some first_lease)
    ↔ ((get "a" busy_node.leases ≡ some first_lease) × IsKept busy_node 140 first_lease)
get-sweep_expired_example = get-sweep_expired busy_node 140 "a" first_lease (no_more, tt)

bind_lease-survives_example :
    (l : Lease) × (get "a" (sweep_expired 900_000 (bind_lease "a" "job" 20 job_node)).leases
      ≡ some l)
    × (l.job_id ≡ "job")
unfolding get live_job
bind_lease-survives_example =
    bind_lease-survives job_node "a" "job" 20 900_000 (no_more, tt) refl refl refl
      (λ l e. ground (arith, e))

process_commit-never_refuses_example :
    (process_commit "a"
      (grantable_from (pos 100) (pos 400) (record { total = pos 0; used = pos 0 }) (pos 300))
      20
      21
      busy_node).0.reason
    ≢ some (resources_gone (negsuc 299))
process_commit-never_refuses_example =
    process_commit-never_refuses busy_node "a" 20 21 (pos 100) (pos 400)
      (record { total = pos 0; used = pos 0 }) (pos 300) (negsuc 299)

-- Two commits of the reserved lease, each begun before the other ends.
commit_twice_example :
    let (first, s1) = begin_commit "a" 20 busy_node in
    let (second, s2) = begin_commit "a" 21 s1 in
    let (answer, s3) = finish_commit "a" 0 (pos 5) 22 s2 in
    let (answer', s4) = finish_commit "a" 0 (pos 6) 23 s3 in
    (first ≡ reading_memory 0)
    × (second ≡ reading_memory 0)
    × (answer ≡ committed_ok)
    × (answer' ≡ committed_ok)
unfolding get
commit_twice_example =
    commit_twice busy_node "a" first_lease 20 21 22 23 (pos 5) (pos 6) refl refl (omega arith)
      (omega arith) refl (omega arith) (omega arith)

process_complete-commit-accept_example :
    (process_complete "b"
      (process_commit "b"
        (pos 5)
        30
        31
        (process_accept whole host "b" 20 request busy_node).1).1).leases
    ≡ busy_node.leases
unfolding get process_accept process_commit begin_commit finish_commit finish_start add_lease
    persist insert free_cores reserved_mem sum_mem int64 accept_available tighter remaining ◌+ℤ◌
    ◌-ℤ◌ admit reserve_gpu pick_gpu gpu_taken
process_complete-commit-accept_example =
    process_complete-commit-accept whole host "b" 20 request busy_node (pos 5) 30 31 refl refl refl
      refl

process_accept-fits_example :
    let after = (process_accept whole host "b" 20 request busy_node).1 in
    (reserved_mem after +ℤ pos 0 ≤ℤ pos 1000)
    × ((pos 0 ≤ℤ pos 0) ⊎ (reserved_mem after ≤ℤ remaining host.budget))
unfolding get process_accept add_lease persist insert free_cores reserved_mem sum_mem int64
    accept_available tighter remaining ◌+ℤ◌ ◌-ℤ◌ admit reserve_gpu pick_gpu gpu_taken
process_accept-fits_example =
    process_accept-fits whole host "b" 20 request busy_node refl (λ e. ground (arith, e)) refl
      (record {
        free = (omega arith, omega arith);
        shared = (omega arith, omega arith);
        left = (omega arith, omega arith);
        total = (omega arith, omega arith);
      })
      refl
