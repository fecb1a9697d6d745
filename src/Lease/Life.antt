-- ===== src/Lease/Life.antt =====
-- What else changes the lease table: completing, renewing, the sweeper, and the tie between a lease
-- and its job (src/internal/daemonapi/serverhttp.go, serverlease.go).
use pipedpeer.Base.{
  [], ◌∷◌, ℕ, suc, String, Bool, true, false, if◌then◌else◌, Option, none, some, ◌+◌, ltb, not,
  ◌&&◌, ◌||◌,
}
use pipedpeer.Base.Eq.{◌==◌, nat_eq, string_eq}
use pipedpeer.Base.Int.{pos, negsuc}
use pipedpeer.Base.Map.{Map, get, insert, remove, filter_map}
use pipedpeer.Lease.{Lease, Server, Job, running, is_reserved, persist, live_job}

-- processComplete
unfoldable pub process_complete : String → Server → Server
process_complete id s =
    persist (record s { leases = if id == "" then s.leases else remove id s.leases })

pub record RenewResponse : Type 0 where
  pub renewed : Bool
  pub expires_at : Option ℕ
  pub status : ℕ

-- processRenew: it does not persist.
unfoldable pub renew_lease : ℕ → ℕ → Lease → Lease
renew_lease now duration l = record l {
  renewed_at = now;
  expires_at = if is_reserved l.state then now + duration else l.expires_at;
}

unfoldable pub process_renew : String → ℕ → Server → RenewResponse × Server
unfolding renew_lease
process_renew id now s = elim (get id s.leases) [
  | none ↦ (record { renewed = false; expires_at = none; status = 404 }, s)
  | some l ↦
      let l' = renew_lease now s.lease_duration l in
      (
        record { renewed = true; expires_at = some l'.expires_at; status = 200 },
        record s { leases = insert id l' s.leases },
      )
]

-- The sweeper's verdict on one lease, given the jobs that were alive just before.
unfoldable pub lease_expired : (String → Bool) → ℕ → ℕ → ℕ → Lease → Bool
lease_expired alive grace ttl now l =
    let last = if l.renewed_at == 0 then l.created_at else l.renewed_at in
    if is_reserved l.state
    then ltb (l.expires_at + grace) now
    else if not (l.job_id == "") && alive l.job_id
    then false
    else ltb 0 ttl && ltb (last + ttl) now

-- sweepExpired, from the lock on: `alive` was read before.
unfoldable pub sweep_leases : (String → Bool) → ℕ → Server → Server
unfolding lease_expired
sweep_leases alive now s =
    let gone = lease_expired alive s.grace_period s.running_lease_ttl now in
    persist (record s { leases = filter_map (λ id l. not (gone l)) s.leases })

unfoldable pub sweep_expired : ℕ → Server → Server
unfolding sweep_leases live_job
sweep_expired now s = sweep_leases (live_job s) now s

abbrev pub new_bound_lease : String → String → ℕ → ℕ → Lease
new_bound_lease id job now ref = record {
  ref = ref;
  lease_id = id;
  job_name = "";
  submitter_node = "";
  state = running;
  mem_bytes = pos 0;
  gpu_index = negsuc 0;
  created_at = now;
  expires_at = now;
  renewed_at = now;
  job_id = job;
}

unfoldable pub bind_lease : String → String → ℕ → Server → Server
bind_lease id job now s = if id == "" then s else elim (get id s.leases) [
  | some l ↦ persist (record s { leases = insert id (record l { job_id = job }) s.leases })
  | none ↦ persist (record s {
    leases = insert id (new_bound_lease id job now s.next_ref) s.leases;
    next_ref = suc s.next_ref;
  })
]

-- releaseJobLease: saved only if a lease went.
unfoldable pub any_bound : String → Map String Lease → Bool
any_bound job [] = false
any_bound job ((k, l) ∷ m) = l.job_id == job || any_bound job m

unfoldable pub release_job_lease : String → Server → Server
unfolding any_bound
release_job_lease job s =
    let after = record s { leases = filter_map (λ id l. not (l.job_id == job)) s.leases } in
    if job == "" then s else if any_bound job s.leases then persist after else after

-- The rest of the daemon changes the jobs: one is added or takes a new status.
unfoldable pub set_job : String → Job → Server → Server
set_job id j s = record s { jobs = insert id j s.jobs }
