-- ===== src/Lease/Rule.antt =====
-- One rule for what every request keeps: a property of the lease table that each way of changing
-- the table keeps, on the table in use and on the saved one.
use pipedpeer.Base.{
  ℕ, String, Bool, false, Option, none, some, List, [], ◌∷◌, ◌≡◌, not, inl, inr, arith, Bool-cases,
  Option-cases,
}
use pipedpeer.Base.Eq.{◌==◌, string_eq}
use pipedpeer.Base.Int.{ℤ}
use pipedpeer.Base.Float.{FloatOps}
use pipedpeer.Base.Map.{Map, get, insert, remove, filter_map}
use pipedpeer.Lease.{Lease, Server, Snapshot, persist}
use pipedpeer.Lease.Host.{Host}
use pipedpeer.Lease.Accept.{AcceptRequest, Granted, new_lease, add_lease, process_accept}
use pipedpeer.Lease.Accept.Outcome.{process_accept-Outcome}
use pipedpeer.Lease.Commit.{start_running, begin_commit, finish_commit, finish_start}
use pipedpeer.Lease.Life.{
  process_complete, process_renew, renew_lease, sweep_leases, bind_lease, new_bound_lease,
  any_bound, release_job_lease, set_job,
}
use pipedpeer.Lease.Calls.{
  Call, accepts, begins, finishes, completes, renews, sweeps, binds, releases, job_changes,
  restarts, step, run, restart, load, release_all, fail_jobs, fail_orphaned_jobs, fail_all,
}

-- The property may name the concurrency cap, which no request changes.
abbrev pub Saved : (ℕ → Map String Lease → Type 0) → ℕ → Option Snapshot → Type 0
Saved P cap none = Unit {0}
Saved P cap (some snap) = P cap snap.leases

abbrev pub Holds : (ℕ → Map String Lease → Type 0) → Server → Type 0
Holds P s = P s.max_concurrent s.leases × Saved P s.max_concurrent s.saved

module _ {F : Type 0} (ops : FloatOps F) (P : ℕ → Map String Lease → Type 0)
    (Allowed : Server → Call F → Type 0) where
  pub record Kept : Type 0 where
    pub empty : (cap : ℕ) → P cap []
    pub granted :
        (h : Host F) (id : String) (now : ℕ) (req : AcceptRequest) (s : Server) (gpu : ℤ)
        → Allowed s (accepts h id now req)
        → Granted ops h req s gpu
        → P s.max_concurrent s.leases
        → P s.max_concurrent (insert id (new_lease id now req gpu s) s.leases)
    pub started :
        (cap : ℕ) (id : String) (ref now : ℕ) (m : Map String Lease)
        → P cap m
        → P cap (start_running id ref now m)
    pub renewed :
        (cap : ℕ) (id : String) (l : Lease) (now d : ℕ) (m : Map String Lease)
        → get id m ≡ some l
        → P cap m
        → P cap (insert id (renew_lease now d l) m)
    pub bound :
        (cap : ℕ) (id job : String) (l : Lease) (m : Map String Lease)
        → get id m ≡ some l
        → P cap m
        → P cap (insert id (record l { job_id = job }) m)
    pub adopted :
        (id job : String) (now : ℕ) (s : Server)
        → Allowed s (binds id job now)
        → (id == "") ≡ false
        → get id s.leases ≡ none
        → P s.max_concurrent s.leases
        → P s.max_concurrent (insert id (new_bound_lease id job now s.next_ref) s.leases)
    pub dropped : (cap : ℕ) (id : String) (m : Map String Lease) → P cap m → P cap (remove id m)
    pub kept :
        (cap : ℕ) (p : String → Lease → Bool) (m : Map String Lease)
        → P cap m
        → P cap (filter_map p m)

  Holds-persist : (s : Server) → Holds P s → Holds P (persist s)
  unfolding persist
  Holds-persist s v = elim (Bool-cases s.saving) [ inl e ↦ rw e (v.0, v.0) | inr e ↦ rw e v ]

  module _ (k : Kept) where
    open k use {empty, granted, started, renewed, bound, adopted, dropped, kept}

    Holds-accept :
        (h : Host F) (id : String) (now : ℕ) (req : AcceptRequest) (s : Server)
        → Allowed s (accepts h id now req)
        → Holds P s
        → Holds P (process_accept ops h id now req s).1
    unfolding add_lease
    Holds-accept h id now req s a v = elim (process_accept-Outcome ops h id now req s) [
      | inl (_, e) ↦ rw e v
      | inr (gpu, _, _, e, g) ↦ rw e (Holds-persist _ (granted h id now req s gpu a g v.0, v.1))
    ]

    Holds-finish_start :
        (id : String) (ref now : ℕ) (s : Server) → Holds P s → Holds P (finish_start id ref now s).1
    unfolding finish_start
    Holds-finish_start id ref now s v = Holds-persist _ (started _ id ref now s.leases v.0, v.1)

    Holds-drop :
        (id : String) (s : Server)
        → Holds P s
        → Holds P (persist (record s { leases = remove id s.leases }))
    Holds-drop id s v = Holds-persist _ (dropped _ id s.leases v.0, v.1)

    Holds-begin :
        (id : String) (now : ℕ) (s : Server) → Holds P s → Holds P (begin_commit id now s).1
    unfolding begin_commit
    Holds-begin id now s v = elim (Option-cases (get id s.leases)) [
      | inl e ↦ rw (e, begin_commit) v
      | inr (l, e) ↦
          rw (e, begin_commit)
            (ground (arith, v, Holds-drop id s v, Holds-finish_start id l.ref now s v))
    ]

    Holds-finish :
        (id : String) (ref : ℕ) (available : ℤ) (now : ℕ) (s : Server)
        → Holds P s
        → Holds P (finish_commit id ref available now s).1
    unfolding finish_commit
    Holds-finish id ref available now s v = elim (Option-cases (get id s.leases)) [
      | inl e ↦ rw (e, finish_commit) v
      | inr (l, e) ↦
          rw (e, finish_commit)
            (ground (arith, v, Holds-drop id s v, Holds-finish_start id ref now s v))
    ]

    Holds-renew :
        (id : String) (now : ℕ) (s : Server) → Holds P s → Holds P (process_renew id now s).1
    unfolding process_renew
    Holds-renew id now s v = elim (Option-cases (get id s.leases)) [
      | inl e ↦ rw (e, process_renew) v
      | inr (l, e) ↦ rw (e, process_renew) (renewed _ id l now s.lease_duration s.leases e v.0, v.1)
    ]

    Holds-bind :
        (id job : String) (now : ℕ) (s : Server)
        → Allowed s (binds id job now)
        → Holds P s
        → Holds P (bind_lease id job now s)
    unfolding bind_lease
    Holds-bind id job now s a v = elim (Bool-cases (id == "")) [
      | inl e ↦ rw e v
      | inr named ↦ rw named (elim (Option-cases (get id s.leases)) [
        | inl e ↦ rw (e, bind_lease) (Holds-persist _ (adopted id job now s a named e v.0, v.1))
        | inr (l, e) ↦ rw (e, bind_lease) (Holds-persist _ (bound _ id job l s.leases e v.0, v.1))
      ])
    ]

    Holds-complete : (id : String) (s : Server) → Holds P s → Holds P (process_complete id s)
    unfolding process_complete
    Holds-complete id s v = elim (Bool-cases (id == "")) [
      | inl e ↦ rw e (Holds-persist s v)
      | inr e ↦ rw e (Holds-drop id s v)
    ]

    Holds-release : (job : String) (s : Server) → Holds P s → Holds P (release_job_lease job s)
    unfolding release_job_lease
    Holds-release job s v =
        let after : Holds P
            (record s { leases = filter_map (λ id l. not (l.job_id == job)) s.leases }) =
          (kept _ _ s.leases v.0, v.1) in
        elim (Bool-cases (job == "")) [
          | inl e ↦ rw e v
          | inr e ↦ rw e (elim (Bool-cases (any_bound job s.leases)) [
            | inl some_bound ↦ rw some_bound (Holds-persist _ after)
            | inr none_bound ↦ rw none_bound after
          ])
        ]

    Holds-load : (s : Server) → Holds P s → Holds P (load s)
    unfolding load
    Holds-load s v = elim (Option-cases s.saved) [
      | inl e ↦ rw (e, load) (empty _, v.1)
      | inr (snap, e) ↦
          let old : P s.max_concurrent snap.leases = rw e at v.1 in rw (e, load) (old, v.1)
    ]

    Holds-release_all : (ids : List String) (s : Server) → Holds P s → Holds P (release_all ids s)
    unfolding release_all
    Holds-release_all [] s v = v
    Holds-release_all (id ∷ ids) s v =
        Holds-release_all ids (release_job_lease id s) (Holds-release id s v)

    Holds-fail_all : (ids : List String) (s : Server) → Holds P s → Holds P (fail_all ids s)
    unfolding fail_all
    Holds-fail_all [] s v = v
    Holds-fail_all (id ∷ ids) s v =
        Holds-persist _ (Holds-release_all (id ∷ ids) (record s { jobs = fail_jobs s.jobs }) v)

    Holds-restart : (s : Server) → Holds P s → Holds P (restart s)
    unfolding restart fail_orphaned_jobs
    Holds-restart s v = Holds-fail_all _ (load s) (Holds-load s v)

    pub Holds-step : (s : Server) (c : Call F) → Allowed s c → Holds P s → Holds P (step ops s c)
    unfolding step sweep_leases set_job
    Holds-step s (accepts h id now req) a v = Holds-accept h id now req s a v
    Holds-step s (begins id now) a v = Holds-begin id now s v
    Holds-step s (finishes id ref available now) a v = Holds-finish id ref available now s v
    Holds-step s (completes id) a v = Holds-complete id s v
    Holds-step s (renews id now) a v = Holds-renew id now s v
    Holds-step s (sweeps alive now) a v = Holds-persist _ (kept _ _ s.leases v.0, v.1)
    Holds-step s (binds id job now) a v = Holds-bind id job now s a v
    Holds-step s (releases job) a v = Holds-release job s v
    Holds-step s (job_changes id j) a v = v
    Holds-step s restarts a v = Holds-restart s v

  -- Every request of a history is allowed where it comes.
  abbrev pub Along : Server → List (Call F) → Type 0
  Along s [] = Unit {0}
  Along s (c ∷ cs) = Allowed s c × Along (step ops s c) cs

  pub Holds-run :
      Kept → (s : Server) (cs : List (Call F)) → Along s cs → Holds P s → Holds P (run ops s cs)
  unfolding run
  Holds-run k s [] a v = v
  Holds-run k s (c ∷ cs) a v = Holds-run k (step ops s c) cs a.1 (Holds-step k s c a.0 v)
