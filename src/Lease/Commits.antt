-- ===== src/Lease/Commits.antt =====
-- What a commit does, alone and against other requests (processCommit, processAccept and
-- processComplete of src/internal/daemonapi/serverhttp.go).
use pipedpeer.Base.{
  ℕ, String, true, false, none, some, ◌≡◌, refl, ap, ◌≢◌, ◌⊎◌, inl, inr, ◌+◌, ◌≤◌, arith,
  Bool-cases, Option-cases,
}
use pipedpeer.Base.Eq.{◌==◌, nat_eq, string_eq}
use pipedpeer.Base.Int.{ℤ, pos, ◌≤ℤ◌, ltb_ℤ}
use pipedpeer.Base.Float.{FloatOps}
use pipedpeer.Base.Map.{Map, get, insert, remove, get-insert, remove-insert_new, insert-insert}
use pipedpeer.Lease.{Lease, Server, reserved, running, persist}
use pipedpeer.Lease.Host.{Host, Budget, grantable_from}
use pipedpeer.Lease.Accept.{AcceptRequest, process_accept, add_lease, new_lease}
use pipedpeer.Lease.Accept.Outcome.{process_accept-Outcome}
use pipedpeer.Lease.Commit.{
  committed_ok, resources_gone, reading_memory, begin_commit, finish_commit, finish_start,
  start_running, process_commit,
}
use pipedpeer.Lease.Life.{process_complete}

leases-persist : (s : Server) → (persist s).leases ≡ s.leases
unfolding persist
leases-persist s = ground arith

-- The figure that the commit checks is never negative, whatever the machine reports.
pub grantable_from-nonneg :
    (available roommates : ℤ) (b : Budget) (held : ℤ)
    → pos 0 ≤ℤ grantable_from available roommates b held
unfolding grantable_from
grantable_from-nonneg available roommates b held = ground arith

-- The memory check of a commit never refuses: with the figure that the daemon computes, no commit
-- is answered `resources no longer available`, whatever the memory is like by then.
pub process_commit-never_refuses :
    (s : Server) (id : String) (now later : ℕ) (available roommates : ℤ) (b : Budget) (held x : ℤ)
    → (process_commit id (grantable_from available roommates b held) now later s).0.reason
      ≢ some (resources_gone x)
unfolding process_commit begin_commit finish_commit finish_start
process_commit-never_refuses s id now later available roommates b held x =
    ground (arith, grantable_from-nonneg available roommates b held)

abbrev moved : Server → String → Lease → ℕ → Server
moved s id l at = record s {
  leases = insert id (record l { state = running; renewed_at = at }) s.leases;
}

-- A commit that succeeds found a reserved lease that was not past its expiry and the grace period;
-- that lease is running from then on, with its holder's sign of life, and no other lease changes.
pub process_commit-running :
    (s : Server) (id : String) (available : ℤ) (now later : ℕ)
    → (process_commit id available now later s).0.committed ≡ true
    → (l : Lease) × (at : ℕ) × (get id s.leases ≡ some l)
      × (l.state ≡ reserved)
      × (now ≤ l.expires_at + s.grace_period)
      × ((at ≡ now) ⊎ (at ≡ later))
      × ((process_commit id available now later s).1.leases
          ≡ insert id (record l { state = running; renewed_at = at }) s.leases)
unfolding process_commit begin_commit finish_commit finish_start start_running
process_commit-running s id available now later h = elim (Option-cases (get id s.leases)) [
  | inl e ↦ absurd (ground (arith, h, e))
  | inr (l, e) ↦ elim (Bool-cases (ltb_ℤ (pos 0) l.mem_bytes)) [
    | inl m ↦ (
      l,
      later,
      e,
      ground (arith, h, e),
      ground (arith, h, e),
      inr refl,
      ground (arith, h, e, leases-persist (moved s id l later)),
    )
    | inr m ↦ (
      l,
      now,
      e,
      ground (arith, h, e),
      ground (arith, h, e),
      inl refl,
      ground (arith, h, e, leases-persist (moved s id l now)),
    )
  ]
]

-- The first half of a commit that has memory to check: nothing changes.
begin_commit-reading :
    (s : Server) (id : String) (l : Lease) (now : ℕ)
    → get id s.leases ≡ some l
    → l.state ≡ reserved
    → now ≤ l.expires_at + s.grace_period
    → ltb_ℤ (pos 0) l.mem_bytes ≡ true
    → begin_commit id now s ≡ (reading_memory l.ref, s)
unfolding begin_commit
begin_commit-reading s id l now e r t m = rw (e, begin_commit) (ground arith)

get-start_running :
    (id : String) (ref now : ℕ) (l : Lease) (m : Map String Lease)
    → get id m ≡ some l
    → (n : Lease) × (get id (start_running id ref now m) ≡ some n)
unfolding start_running
get-start_running id ref now l m e =
    rw (e, start_running)
      (elim (Bool-cases (l.ref == ref)) [
        | inl same ↦ rw same (
          record l { state = running; renewed_at = now },
          ground (
            arith,
            get-insert id id (record l { state = running; renewed_at = now }) m,
            string_eq.beq_iff id id,
          ),
        )
        | inr other ↦ rw other (l, e)
      ])

-- The second half succeeds wherever the lease id is still there, in whatever state, and leaves it
-- there.
finish_commit-ok :
    (s : Server) (id : String) (l : Lease) (ref : ℕ) (a : ℤ) (now : ℕ)
    → get id s.leases ≡ some l
    → pos 0 ≤ℤ a
    → ((finish_commit id ref a now s).0 ≡ committed_ok)
      × ((n : Lease) × (get id (finish_commit id ref a now s).1.leases ≡ some n))
unfolding finish_commit finish_start start_running
finish_commit-ok s id l ref a now e p =
    let (n, f) = get-start_running id ref now l s.leases e in
    let t : Server = record s { leases = start_running id ref now s.leases } in
    (ground (arith, e, p), (n, ground (arith, e, p, f, leases-persist t)))

-- Two commits of one reserved lease that holds memory, each begun within the expiry and the grace
-- period and before the other ends, are both told that they committed, if neither reads a figure
-- below 0: the state is not looked at again once the lock is retaken.
pub commit_twice :
    (s : Server) (id : String) (l : Lease) (now now' later later' : ℕ) (a a' : ℤ)
    → get id s.leases ≡ some l
    → l.state ≡ reserved
    → now ≤ l.expires_at + s.grace_period
    → now' ≤ l.expires_at + s.grace_period
    → ltb_ℤ (pos 0) l.mem_bytes ≡ true
    → pos 0 ≤ℤ a
    → pos 0 ≤ℤ a'
    → let (first, s1) = begin_commit id now s in
      let (second, s2) = begin_commit id now' s1 in
      let (answer, s3) = finish_commit id l.ref a later s2 in
      let (answer', s4) = finish_commit id l.ref a' later' s3 in
      (first ≡ reading_memory l.ref)
      × (second ≡ reading_memory l.ref)
      × (answer ≡ committed_ok)
      × (answer' ≡ committed_ok)
commit_twice s id l now now' later later' a a' e r t t' m p p' =
    let one = begin_commit-reading s id l now e r t m in
    let two = begin_commit-reading s id l now' e r t' m in
    let s1 : (begin_commit id now s).1 ≡ s = ap (λ x. x.1) one in
    let s2 : (begin_commit id now' s).1 ≡ s = ap (λ x. x.1) two in
    let (ok1, (n, f)) = finish_commit-ok s id l l.ref a later e p in
    (
      ap (λ x. x.0) one,
      rw s1 (ap (λ x. x.0) two),
      rw (s1, s2) ok1,
      rw (s1, s2)
          (finish_commit-ok (finish_commit id l.ref a later s).1 id n l.ref a' later' f p').0,
    )

leases-process_complete :
    (id : String) (s : Server)
    → (id == "") ≡ false
    → (process_complete id s).leases ≡ remove id s.leases
unfolding process_complete
leases-process_complete id s named =
    rw named (leases-persist (record s { leases = remove id s.leases }))

leases-add_lease :
    (id : String) (now : ℕ) (req : AcceptRequest) (gpu : ℤ) (s : Server)
    → (add_lease id now req gpu s).leases ≡ insert id (new_lease id now req gpu s) s.leases
unfolding add_lease persist
leases-add_lease id now req gpu s = ground arith

module _ {F : Type 0} (ops : FloatOps F) where
  -- Accept, commit and complete bring the lease table back: a job that runs its course leaves
  -- nothing behind. The lease id is new and not empty, the accept is granted, and the commit is
  -- answered `committed`.
  pub process_complete-commit-accept :
      (h : Host F) (id : String) (now : ℕ) (req : AcceptRequest) (s : Server) (available : ℤ)
      (at later : ℕ)
      → get id s.leases ≡ none
      → (id == "") ≡ false
      → (process_accept ops h id now req s).0.accepted ≡ true
      → (process_commit id available at later (process_accept ops h id now req s).1).0.committed
        ≡ true
      → (process_complete id
          (process_commit id available at later (process_accept ops h id now req s).1).1).leases
        ≡ s.leases
  process_complete-commit-accept h id now req s available at later new named ok done =
      elim (process_accept-Outcome ops h id now req s) [
        | inl (refused, _) ↦ absurd (ground (arith, refused, ok))
        | inr (gpu, _, _, e, _) ↦
            let granted = (process_accept ops h id now req s).1 in
            let (l, t, _, _, _, _, moved_to) =
              process_commit-running granted id available at later done in
            rw
              (
                leases-process_complete id (process_commit id available at later granted).1 named,
                moved_to,
                e,
                leases-add_lease id now req gpu s,
                insert-insert,
              )
              (remove-insert_new id _ s.leases new)
      ]
