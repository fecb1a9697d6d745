-- ===== src/Lease/Saving.antt =====
-- What is on disk after each request, and what a daemon that starts makes of it (persist of
-- src/internal/daemonapi/serverlease.go, failOrphanedJobs of joblog.go).
use pipedpeer.Base.{
  ℕ, String, Bool, true, false, Option, none, some, List, [], ◌∷◌, ◌≡◌, refl, All, inl, inr, arith,
  not, ◌&&◌, ◌||◌, sym, ap, ◌∙◌, Bool-cases, Option-cases,
}
use pipedpeer.Base.Eq.{◌==◌, string_eq}
use pipedpeer.Base.Float.{FloatOps}
use pipedpeer.Base.Map.{Map, get, filter_map}
use pipedpeer.Lease.{Lease, Server, Snapshot, Job, persist}
use pipedpeer.Lease.Accept.{add_lease}
use pipedpeer.Lease.Accept.Outcome.{process_accept-Outcome}
use pipedpeer.Lease.Commit.{begin_commit, finish_commit, finish_start}
use pipedpeer.Lease.Life.{
  process_complete, process_renew, sweep_leases, bind_lease, any_bound, release_job_lease, set_job,
}
use pipedpeer.Lease.Calls.{
  Call, accepts, begins, finishes, completes, renews, sweeps, binds, releases, job_changes,
  restarts, step, run, restart, load, is_orphan, orphans, fail_jobs, release_all, fail_all,
  fail_orphaned_jobs,
}

abbrev pub saved_leases : Option Snapshot → Map String Lease
saved_leases none = []
saved_leases (some snap) = snap.leases

-- Persistence is on, and the saved lease table is the one in use.
pub record IsSynced (s : Server) : Type 0 where
  pub on : s.saving ≡ true
  pub same : saved_leases s.saved ≡ s.leases

IsSynced-persist : (s : Server) → s.saving ≡ true → IsSynced (persist s)
unfolding persist
IsSynced-persist s on = ground arith

filter_map_unbound :
    (job : String) (m : Map String Lease)
    → any_bound job m ≡ false
    → filter_map (λ id l. not (l.job_id == job)) m ≡ m
unfolding any_bound filter_map
filter_map_unbound job [] e = refl
filter_map_unbound job ((k, l) ∷ m) e = ground (arith, filter_map_unbound job m)

-- The jobs that were saved.
abbrev pub saved_jobs : Option Snapshot → Map String Job
saved_jobs none = []
saved_jobs (some snap) = snap.jobs

-- A job that was saved as one that runs.
abbrev pub is_lost : Map String Job → String → Bool
is_lost [] job = false
is_lost ((id, j) ∷ m) job = (is_orphan j && not (id == "") && job == id) || is_lost m job

-- The leases of the jobs that are not lost.
abbrev pub survivors : Option Snapshot → Map String Lease → Map String Lease
survivors saved leases = filter_map (λ id l. not (is_lost (saved_jobs saved) l.job_id)) leases

abbrev is_freed : List String → String → Bool
is_freed [] job = false
is_freed (id ∷ ids) job = (not (id == "") && job == id) || is_freed ids job

is_freed-orphans : (m : Map String Job) (job : String) → is_freed (orphans m) job ≡ is_lost m job
unfolding orphans
is_freed-orphans [] job = refl
is_freed-orphans ((id, j) ∷ m) job = ground (arith, is_freed-orphans m job)

filter_map-both :
    (p q r : String → Lease → Bool) (m : Map String Lease)
    → ((k : String) (l : Lease) → (p k l && q k l) ≡ r k l)
    → filter_map q (filter_map p m) ≡ filter_map r m
unfolding filter_map
filter_map-both p q r [] h = refl
filter_map-both p q r ((k, l) ∷ m) h = ground (arith, h k l, filter_map-both p q r m h)

filter_map-all :
    {p : String → Lease → Bool} (m : Map String Lease)
    → ((k : String) (l : Lease) → p k l ≡ true)
    → filter_map p m ≡ m
unfolding filter_map
filter_map-all [] h = refl
filter_map-all ((k, l) ∷ m) h = ground (arith, h k l, filter_map-all m h)

filter_map-same :
    {p q : String → Lease → Bool} (m : Map String Lease)
    → ((k : String) (l : Lease) → p k l ≡ q k l)
    → filter_map p m ≡ filter_map q m
unfolding filter_map
filter_map-same [] h = refl
filter_map-same ((k, l) ∷ m) h = ground (arith, h k l, filter_map-same m h)

release_job_lease-leases :
    (job : String) (s : Server)
    → (release_job_lease job s).leases
      ≡ filter_map (λ id l. not (not (job == "") && l.job_id == job)) s.leases
unfolding release_job_lease persist
release_job_lease-leases job s = elim (Bool-cases (job == "")) [
  | inl unnamed ↦ rw unnamed (sym (filter_map-all s.leases (λ k l. refl)))
  | inr named ↦ rw named (ground arith)
]

release_all-leases :
    (ids : List String) (s : Server)
    → (release_all ids s).leases ≡ filter_map (λ id l. not (is_freed ids l.job_id)) s.leases
unfolding release_all
release_all-leases [] s = sym (filter_map-all s.leases (λ k l. refl))
release_all-leases (id ∷ ids) s =
    release_all-leases ids (release_job_lease id s)
    ∙ ap (filter_map (λ k l. not (is_freed ids l.job_id))) (release_job_lease-leases id s)
    ∙ filter_map-both _ _ _ s.leases (λ k l. ground arith)

persist-leases : (s : Server) → (persist s).leases ≡ s.leases
unfolding persist
persist-leases s = ground arith

release_all-saving : (ids : List String) (s : Server) → (release_all ids s).saving ≡ s.saving
unfolding release_all release_job_lease persist
release_all-saving [] s = refl
release_all-saving (id ∷ ids) s = release_all-saving ids (release_job_lease id s) ∙ ground arith

fail_all-leases :
    (ids : List String) (s : Server)
    → (fail_all ids s).leases ≡ filter_map (λ id l. not (is_freed ids l.job_id)) s.leases
unfolding fail_all
fail_all-leases [] s = sym (filter_map-all s.leases (λ k l. refl))
fail_all-leases (id ∷ ids) s =
    let failed : Server = record s { jobs = fail_jobs s.jobs } in
    persist-leases (release_all (id ∷ ids) failed) ∙ release_all-leases (id ∷ ids) failed

fail_orphaned_jobs-leases :
    (s : Server)
    → (fail_orphaned_jobs s).leases ≡ filter_map (λ id l. not (is_lost s.jobs l.job_id)) s.leases
unfolding fail_orphaned_jobs
fail_orphaned_jobs-leases s =
    fail_all-leases (orphans s.jobs) s
    ∙ filter_map-same s.leases (λ k l. ap not (is_freed-orphans s.jobs l.job_id))

load-tables :
    (s : Server) → ((load s).leases ≡ saved_leases s.saved) × ((load s).jobs ≡ saved_jobs s.saved)
unfolding load
load-tables s = elim (Option-cases s.saved) [
  | inl e ↦ ground (arith, e)
  | inr (snap, e) ↦ ground (arith, e)
]

load-saving : (s : Server) → ((load s).saving ≡ s.saving) × ((load s).saved ≡ s.saved)
unfolding load
load-saving s = elim (Option-cases s.saved) [
  | inl e ↦ ground (arith, e)
  | inr (snap, e) ↦ ground (arith, e)
]

restart-leases : (s : Server) → (restart s).leases ≡ survivors s.saved (saved_leases s.saved)
unfolding restart
restart-leases s =
    let t = load-tables s in
    fail_orphaned_jobs-leases (load s)
    ∙ ap (λ js. filter_map (λ id l. not (is_lost js l.job_id)) (load s).leases) t.1
    ∙ ap (survivors s.saved) t.0

IsSynced-fail_all : (ids : List String) (s : Server) → IsSynced s → IsSynced (fail_all ids s)
unfolding fail_all
IsSynced-fail_all [] s v = v
IsSynced-fail_all (id ∷ ids) s v =
    let failed : Server = record s { jobs = fail_jobs s.jobs } in
    IsSynced-persist (release_all (id ∷ ids) failed) (release_all-saving (id ∷ ids) failed ∙ v.on)

IsSynced-restart : (s : Server) → IsSynced s → IsSynced (restart s)
unfolding restart fail_orphaned_jobs
IsSynced-restart s v =
    let kept = load-saving s in
    IsSynced-fail_all _ (load s)
      (record { on = kept.0 ∙ v.on; same = ap saved_leases kept.1 ∙ sym (load-tables s).0 })

module _ {F : Type 0} (ops : FloatOps F) where
  abbrev pub is_renewal : Call F → Bool
  is_renewal (renews id now) = true
  is_renewal c = false

  IsSynced-begin :
      (id : String) (now : ℕ) (s : Server) → IsSynced s → IsSynced (begin_commit id now s).1
  unfolding begin_commit finish_start persist
  IsSynced-begin id now s v = ground (arith, v)

  step-IsSynced :
      (s : Server) (c : Call F) → is_renewal c ≡ false → IsSynced s → IsSynced (step ops s c)
  unfolding step sweep_leases process_complete set_job finish_commit finish_start bind_lease
      release_job_lease add_lease persist
  step-IsSynced s (accepts h id now req) n v = elim (process_accept-Outcome ops h id now req s) [
    | inl (_, e) ↦ rw e v
    | inr (gpu, _, _, e, g) ↦ rw e (ground (arith, v))
  ]
  step-IsSynced s (begins id now) n v = IsSynced-begin id now s v
  step-IsSynced s (finishes id ref available now) n v = ground (arith, v)
  step-IsSynced s (completes id) n v = ground (arith, v)
  step-IsSynced s (renews id now) n v = absurd (ground arith)
  step-IsSynced s (sweeps alive now) n v = ground (arith, v)
  step-IsSynced s (binds id job now) n v = ground (arith, v)
  step-IsSynced s (releases job) n v = ground (arith, v, filter_map_unbound job s.leases)
  step-IsSynced s (job_changes id j) n v = record { on = v.on; same = v.same }
  step-IsSynced s restarts n v = IsSynced-restart s v

  run-IsSynced :
      (s : Server) (cs : List (Call F))
      → All (λ c. is_renewal c ≡ false) cs
      → IsSynced s
      → IsSynced (run ops s cs)
  unfolding run
  run-IsSynced s [] n v = v
  run-IsSynced s (c ∷ cs) n v = run-IsSynced (step ops s c) cs n.1 (step-IsSynced s c n.0 v)

  -- A daemon that stops after any history without renewals, each request of which has saved before
  -- the next one changes the table, and that starts with the two tables equal, comes back with the
  -- lease table that it had, less the leases of the jobs that were saved as running or importing.
  pub restart-run :
      (s : Server) (cs : List (Call F))
      → All (λ c. is_renewal c ≡ false) cs
      → IsSynced s
      → (restart (run ops s cs)).leases ≡ survivors (run ops s cs).saved (run ops s cs).leases
  restart-run s cs n v =
      let after = run ops s cs in
      restart-leases after ∙ ap (survivors after.saved) (run-IsSynced s cs n v).same

process_renew-saved :
    (s : Server) (id : String) (now : ℕ) (l : Lease)
    → get id s.leases ≡ some l
    → ((process_renew id now s).0.status ≡ 200) × ((process_renew id now s).1.saved ≡ s.saved)
unfolding process_renew
process_renew-saved s id now l e = (ground (arith, e), ground (arith, e))

-- A renewal of a lease that is there is not saved: a daemon that stops after it comes back with the
-- lease table from before it, and so with the earlier expiry, if the two tables were equal then, less
-- the leases of the jobs that were saved as running or importing.
pub restart-process_renew :
    (s : Server) (id : String) (now : ℕ) (l : Lease)
    → IsSynced s
    → get id s.leases ≡ some l
    → ((process_renew id now s).0.status ≡ 200)
      × ((restart (process_renew id now s).1).leases ≡ survivors s.saved s.leases)
restart-process_renew s id now l v e =
    let renewed = process_renew-saved s id now l e in
    (
      renewed.0,
      restart-leases (process_renew id now s).1
          ∙ ap (λ saved. survivors saved (saved_leases saved)) renewed.1
          ∙ ap (survivors s.saved) v.same,
    )
