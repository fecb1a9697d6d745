-- ===== src/Examples/Data.antt =====
-- Runs of the states of a task, the cache and the plan (src/internal/jobhistory/states.go,
-- src/internal/narpack/prune.go, src/internal/schedule/schedule.go).
use pipedpeer.Base.{ℕ, true, some, List, [], ◌∷◌, ◌≤◌, ◌≡◌, refl, arith}
use pipedpeer.Base.Eq.{◌==◌, nat_eq, string_eq}
use pipedpeer.Base.Int.{pos, ◌+ℤ◌}
use pipedpeer.Base.Float.{whole}
use pipedpeer.JobState.{count_moves, count_moves-le}
use pipedpeer.Prune.{Entry, Disk, sort_entries, prune}
use pipedpeer.Prune.Oldest.{IsOrdered, Evicted, prune-Evicted}
use pipedpeer.Schedule.{
  Device, Options, Plan, cpu, gpu, eff_rate, fastest, items_by, shares_by, sum_items, allocate,
  compute,
}
use pipedpeer.Schedule.Split.{Splits, sum_items-allocate}
use pipedpeer.Schedule.Search.{count}
use pipedpeer.Schedule.Account.{accounted, compute-leaves_out_none}

count_moves-le_example :
    count_moves "queued" ("reserved" ∷ "queued" ∷ "running" ∷ "failed" ∷ []) ≤ 3
count_moves-le_example = count_moves-le "queued" ("reserved" ∷ "queued" ∷ "running" ∷ "failed" ∷ [])

abbrev entries : List Entry
entries =
    record { narinfo = "b.narinfo"; nar = "b.nar"; size = 40; used = 7 }
    ∷ record { narinfo = "a.narinfo"; nar = ""; size = 30; used = 3 }
    ∷ []

abbrev disk : Disk
disk =
    ("a.narinfo", record { size = 30; used = 3 })
    ∷ ("b.narinfo", record { size = 10; used = 7 })
    ∷ ("b.nar", record { size = 30; used = 7 })
    ∷ []

prune-Evicted_example :
    IsOrdered (sort_entries entries)
    × Evicted
        (λ p. true)
        50
        70
        0
        (sort_entries entries)
        disk
        (prune (λ p. true) (pos 50) (entries, 70) disk)
prune-Evicted_example = prune-Evicted (λ p. true) 50 70 entries disk (omega arith)

abbrev local_cpu : Device ℕ
local_cpu = record {
  id = "cpu0";
  node = "n";
  kind = cpu;
  rate = 2;
  bytes_per_sec = 0;
  setup_sec = 0;
  mem_bytes = pos 100;
}

abbrev remote_gpu : Device ℕ
remote_gpu = record local_cpu { id = "gpu0"; node = "m"; kind = gpu; rate = 5; setup_sec = 1 }

abbrev options : Options ℕ
options = record {
  items = pos 20;
  bytes_per_item = 0;
  working_set_bytes = pos 0;
  min_items = pos 1;
}

sum_items-allocate_example :
    Splits whole options (allocate whole (local_cpu ∷ remote_gpu ∷ []) options 3)
unfolding fastest eff_rate sum_items shares_by items_by ◌+ℤ◌
sum_items-allocate_example =
    sum_items-allocate whole (local_cpu ∷ remote_gpu ∷ []) options 3 1 refl (omega arith)

compute-leaves_out_none_example :
    (plan : Plan ℕ) × (compute whole options (local_cpu ∷ remote_gpu ∷ []) ≡ some plan)
    × (count (λ d. d.id == "gpu0") (local_cpu ∷ remote_gpu ∷ [])
        ≤ accounted whole (λ d. d.id == "gpu0") plan)
compute-leaves_out_none_example =
    compute-leaves_out_none whole (λ d. d.id == "gpu0") options (local_cpu ∷ remote_gpu ∷ []) refl
