-- ===== src/Lease/Sweeping.antt =====
-- Which leases the sweeper takes (sweepExpired of src/internal/daemonapi/serverlease.go), and what
-- a renewal, a binding and a job's end do to that.
use pipedpeer.Base.{
  ℕ, String, Bool, true, false, if◌then◌else◌, none, some, ◌≡◌, refl, ◌↔◌, ◌⊎◌, inl, inr, ◌+◌, ◌≤◌,
  ◌<◌, ◌∙◌, arith, ltb, not, ◌&&◌, Bool-cases, Option-cases,
}
use pipedpeer.Base.Eq.{◌==◌, nat_eq, string_eq}
use pipedpeer.Base.Map.{
  get, Distinct, get-filter_map, get-insert, insert, insert-Distinct, filter_map,
}
use pipedpeer.Lease.{Lease, LeaseState, Server, reserved, running, is_reserved, persist, live_job}
use pipedpeer.Lease.Life.{
  lease_expired, sweep_leases, sweep_expired, process_renew, renew_lease, bind_lease,
  release_job_lease, new_bound_lease,
}

-- The last sign of life of a running lease.
abbrev pub last_seen : Lease → ℕ
last_seen l = if l.renewed_at == 0 then l.created_at else l.renewed_at

-- The reasons for which a lease outlives a sweep at `now`.
pub data IsKept (s : Server) (now : ℕ) (l : Lease) : Type 0 where
  in_time : l.state ≡ reserved → now ≤ l.expires_at + s.grace_period → IsKept s now l
  job_lives :
      l.state ≡ running → (l.job_id == "") ≡ false → live_job s l.job_id ≡ true → IsKept s now l
  never_reaped : l.state ≡ running → s.running_lease_ttl ≡ 0 → IsKept s now l
  seen_lately : l.state ≡ running → now ≤ last_seen l + s.running_lease_ttl → IsKept s now l

abbrev expired_at : Server → ℕ → Lease → Bool
expired_at s now l = lease_expired (live_job s) s.grace_period s.running_lease_ttl now l

IsKept-sound : (s : Server) (now : ℕ) (l : Lease) → IsKept s now l → expired_at s now l ≡ false
unfolding lease_expired
IsKept-sound s now l (in_time e h) = ground arith
IsKept-sound s now l (job_lives e n a) = ground arith
IsKept-sound s now l (never_reaped e z) = ground arith
IsKept-sound s now l (seen_lately e h) = ground arith

LeaseState-cases : (t : LeaseState) → (t ≡ reserved) ⊎ (t ≡ running)
LeaseState-cases reserved = inl refl
LeaseState-cases running = inr refl

IsKept-complete : (s : Server) (now : ℕ) (l : Lease) → expired_at s now l ≡ false → IsKept s now l
unfolding lease_expired
IsKept-complete s now l e = elim (LeaseState-cases l.state) [
  | inl r ↦ in_time r (ground arith)
  | inr r ↦ elim (Bool-cases (not (l.job_id == "") && live_job s l.job_id)) [
    | inl a ↦ job_lives r (ground arith) (ground arith)
    | inr b ↦ elim (Bool-cases (ltb 0 s.running_lease_ttl)) [
      | inl t ↦ seen_lately r (ground arith)
      | inr z ↦ never_reaped r (ground arith)
    ]
  ]
]

leases-persist : (s : Server) → (persist s).leases ≡ s.leases
unfolding persist
leases-persist s = ground arith

get-persist : (id : String) (s : Server) → get id (persist s).leases ≡ get id s.leases
unfolding persist
get-persist id s = ground arith

-- The sweep, read at one key.
swept :
    (s : Server) (now : ℕ) (id : String)
    → Distinct s.leases
    → get id (sweep_expired now s).leases ≡ elim (get id s.leases) [
      | none ↦ none
      | some l ↦ if not (expired_at s now l) then some l else none
    ]
unfolding sweep_expired sweep_leases
swept s now id d = get-persist id _ ∙ get-filter_map (λ k l. not (expired_at s now l)) id s.leases d

-- Where each id names one lease, a sweep keeps a lease exactly when it has one of the reasons to be
-- kept, and changes nothing in it: it is reserved and not past its expiry and the grace period, or
-- it is running and bound to a job that lives, or never reaped, or seen within the time to live.
pub get-sweep_expired :
    (s : Server) (now : ℕ) (id : String) (l : Lease)
    → Distinct s.leases
    → (get id (sweep_expired now s).leases ≡ some l) ↔ ((get id s.leases ≡ some l) × IsKept s now l)
get-sweep_expired s now id l d = (forth, back)
  where
    forth :
        get id (sweep_expired now s).leases ≡ some l → (get id s.leases ≡ some l) × IsKept s now l
    forth e =
        let held : get id s.leases ≡ some l = ground (arith, swept s now id d) in
        (held, IsKept-complete s now l (ground (arith, swept s now id d, held)))

    back :
        (get id s.leases ≡ some l) × IsKept s now l → get id (sweep_expired now s).leases ≡ some l
    back (e, k) = ground (arith, swept s now id d, IsKept-sound s now l k, e)

abbrev renewed_server : Server → String → Lease → ℕ → Server
renewed_server s id l now = record s {
  leases = insert id (renew_lease now s.lease_duration l) s.leases;
}

process_renew-insert :
    (s : Server) (id : String) (l : Lease) (now : ℕ)
    → get id s.leases ≡ some l
    → (process_renew id now s).1 ≡ renewed_server s id l now
unfolding process_renew
process_renew-insert s id l now e = rw (e, process_renew)

IsKept-renewed :
    (s : Server) (id : String) (l : Lease) (now later : ℕ)
    → 0 < now
    → later
      ≤ now
        + (if is_reserved l.state then s.lease_duration + s.grace_period else s.running_lease_ttl)
    → IsKept (renewed_server s id l now) later (renew_lease now s.lease_duration l)
unfolding renew_lease
IsKept-renewed s id l now later p h = elim (LeaseState-cases l.state) [
  | inl r ↦ in_time r (ground arith)
  | inr r ↦ seen_lately r (ground arith)
]

-- After a renewal at a time other than 0 the sweeper leaves a lease alone for the whole term: the
-- lease duration and the grace period for a reserved lease, the time to live for a running one.
-- Each id names one lease.
pub renew-survives :
    (s : Server) (id : String) (l : Lease) (now later : ℕ)
    → Distinct s.leases
    → get id s.leases ≡ some l
    → 0 < now
    → later
      ≤ now
        + (if is_reserved l.state then s.lease_duration + s.grace_period else s.running_lease_ttl)
    → get id (sweep_expired later (process_renew id now s).1).leases
      ≡ some (renew_lease now s.lease_duration l)
renew-survives s id l now later d e p h = rw (process_renew-insert s id l now e) (
    (get-sweep_expired (renewed_server s id l now) later id (renew_lease now s.lease_duration l)
        (insert-Distinct id _ s.leases d)).1
      (
        ground (
          arith,
          get-insert id id (renew_lease now s.lease_duration l) s.leases,
          string_eq.beq_iff id id,
        ),
        IsKept-renewed s id l now later p h,
      ))

live_job-persist : (s : Server) (job : String) → live_job (persist s) job ≡ live_job s job
unfolding persist live_job
live_job-persist s job = ground arith

live_job-same :
    (s t : Server) (job : String) → live_job s job ≡ true → s.jobs ≡ t.jobs → live_job t job ≡ true
unfolding live_job
live_job-same s t job h e = rw e at h

-- A running lease bound to a live job, in a server that has just been saved.
saved-survives :
    (t : Server) (id : String) (l : Lease) (later : ℕ)
    → Distinct t.leases
    → get id t.leases ≡ some l
    → l.state ≡ running
    → (l.job_id == "") ≡ false
    → live_job t l.job_id ≡ true
    → get id (sweep_expired later (persist t)).leases ≡ some l
saved-survives t id l later d e r n a =
    (get-sweep_expired (persist t) later id l (rw (leases-persist t) d)).1
      (get-persist id t ∙ e, job_lives r n (live_job-persist t l.job_id ∙ a))

-- Binding ties a lease to a job, both with an id: while that job lives, no sweep takes the lease,
-- however late, if the lease was running or gone. Each id names one lease.
pub bind_lease-survives :
    (s : Server) (id job : String) (now later : ℕ)
    → Distinct s.leases
    → (id == "") ≡ false
    → (job == "") ≡ false
    → live_job s job ≡ true
    → ((l : Lease) → get id s.leases ≡ some l → l.state ≡ running)
    → (l : Lease) × (get id (sweep_expired later (bind_lease id job now s)).leases ≡ some l)
      × (l.job_id ≡ job)
unfolding bind_lease
bind_lease-survives s id job now later d named real lives runs =
    elim (Option-cases (get id s.leases)) [
      | inl e ↦
          rw (named, e, bind_lease)
            (let bound = new_bound_lease id job now s.next_ref in
              (
                bound,
                saved-survives _ id bound later (insert-Distinct id bound s.leases d)
                    (ground (arith, get-insert id id bound s.leases, string_eq.beq_iff id id)) refl
                    real (live_job-same s _ job lives refl),
                refl,
              ))
      | inr (l, e) ↦
          rw (named, e, bind_lease)
            (
              record l { job_id = job },
              saved-survives _ id (record l { job_id = job }) later
                  (insert-Distinct id _ s.leases d)
                  (ground (
                    arith,
                    get-insert id id (record l { job_id = job }) s.leases,
                    string_eq.beq_iff id id,
                  ))
                  (runs l e) real (live_job-same s _ job lives refl),
              refl,
            )
    ]

-- The end of a job with an id frees exactly the leases that are bound to it. Each id names one
-- lease.
pub get-release_job_lease :
    (s : Server) (job id : String)
    → Distinct s.leases
    → (job == "") ≡ false
    → get id (release_job_lease job s).leases
      ≡ elim (get id s.leases) [ none ↦ none | some l ↦ if l.job_id == job then none else some l ]
unfolding release_job_lease
get-release_job_lease s job id d named = ground (
  arith,
  named,
  get-persist id (record s { leases = filter_map (λ id l. not (l.job_id == job)) s.leases }),
  get-filter_map (λ id l. not (l.job_id == job)) id s.leases d,
)
