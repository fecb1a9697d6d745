-- ===== src/Examples/Nodes.antt =====
-- The theorems on rings of nodes and on routers, at concrete inputs.
use pipedpeer.Base.{
  Bool, ℕ, ◌+◌, ◌*◌, ◌≤◌, ◌≡◌, refl, false, none, some, List, [], ◌∷◌, length, String, arith,
}
use pipedpeer.Base.Eq.{nat_eq, string_eq}
use pipedpeer.Base.Int.{pos}
use pipedpeer.Base.Float.{whole, whole-OrderLaws}
use pipedpeer.Schedule.{Device, Share, Plan, cpu}
use pipedpeer.Place.{Candidate, Options, best_count, ring_of}
use pipedpeer.Place.Worth.{worth_at, device_passes, best_count-worth, count-ring_of}
use pipedpeer.Schedule.Search.{count}
use pipedpeer.Nat.{Result, probe, endpoint_independent}
use pipedpeer.Nat.Verdict.{probe-mapping_of}

abbrev options : Options
options = record {
  max = 1;
  working_set_bytes = pos 0;
  proportional_batches = false;
  keep_all = false;
}

abbrev device : String → ℕ → Device ℕ
device id rate = record {
  id = id;
  node = id;
  kind = cpu;
  rate = rate;
  bytes_per_sec = 0;
  setup_sec = 0;
  mem_bytes = pos 0;
}

abbrev share : String → ℕ → Share ℕ
share id rate = record { device = device id rate; items = pos 100 }

abbrev shares : List (Share ℕ)
shares = share "a" 9 ∷ share "b" 8 ∷ share "c" 1 ∷ []

best_count-worth_example :
    (best_count whole (λ ss. ss) options shares ≤ 3)
    × (whole.lt
          (worth_at whole whole-OrderLaws shares (best_count whole (λ ss. ss) options shares))
          (3 * 1)
        ≡ false)
best_count-worth_example =
    best_count-worth whole whole-OrderLaws (λ ss. ss) options shares 2 (share "c" 1) refl refl

abbrev plan : Plan ℕ
plan = record { shares = shares; makespan = 0; alone = 0; rejected = [] }

-- Whether a candidate has a GPU.
abbrev has_gpu_test : Candidate → Bool
has_gpu_test c = c.has_gpu

count-ring_of_example :
    let (ring, rejected) = ring_of whole (λ n. "7") (λ ss. ss) (λ cs. cs) options [] plan in
    (count (λ c. c.candidate.has_gpu) ring + count (λ x. x.0.has_gpu) rejected
      ≡ count (λ s. device_passes whole (λ n. "7") has_gpu_test [] s.device) plan.shares
        + count (λ d. device_passes whole (λ n. "7") has_gpu_test [] d.0) plan.rejected)
    × (length ring ≤ 1)
count-ring_of_example =
    count-ring_of whole (λ n. "7") has_gpu_test (λ ss. ss) (λ cs. cs) options [] plan (λ q ss. refl)
      (λ q cs. refl)

probe-mapping_of_example :
    (res : Result) × (probe none (none ∷ some "1.2.3.4:5" ∷ some "1.2.3.4:5" ∷ []) ≡ some res)
    × (res.mapping ≡ endpoint_independent)
    × (res.external ≡ "1.2.3.4:5")
    × (res.blocked ≡ false)
probe-mapping_of_example =
    probe-mapping_of none (none ∷ some "1.2.3.4:5" ∷ some "1.2.3.4:5" ∷ []) (omega arith)
