-- ===== src/Lease/Table.antt =====
-- The lease table through any history of requests: its keys and its size.
use pipedpeer.Base.{
  ℕ, String, none, List, [], ◌∷◌, ◌≡◌, ◌≤◌, ◌≢◌, ◌⊎◌, inl, inr, arith, length, Bool-cases,
  Option-cases,
}
use pipedpeer.Base.Eq.{◌==◌, nat_eq, string_eq}
use pipedpeer.Base.Int.{ℤ}
use pipedpeer.Base.Float.{FloatOps}
use pipedpeer.Base.Map.{
  Map, get, insert, Distinct, insert-Distinct, remove-Distinct, filter_map-Distinct,
  length-insert-le, length-insert_old, length-remove-le, length-filter_map-le,
}
use pipedpeer.Lease.{Lease, Server}
use pipedpeer.Lease.Host.{Host}
use pipedpeer.Lease.Accept.{AcceptRequest, Granted, new_lease}
use pipedpeer.Lease.Commit.{start_running}
use pipedpeer.Lease.Rule.{Holds, Kept, Along, Holds-run}
use pipedpeer.Lease.Calls.{Call, binds, step, run}

length-start_running :
    (id : String) (ref now : ℕ) (m : Map String Lease)
    → length (start_running id ref now m) ≡ length m
unfolding start_running
length-start_running id ref now m = elim (Option-cases (get id m)) [
  | inl e ↦ rw (e, start_running)
  | inr (l, e) ↦
      rw (e, start_running)
        (elim (Bool-cases (l.ref == ref)) [
          | inl same ↦ rw same (length-insert_old id _ l m e)
          | inr other ↦ rw other
        ])
]

pub Distinct-start_running :
    (id : String) (ref now : ℕ) (m : Map String Lease)
    → Distinct m
    → Distinct (start_running id ref now m)
unfolding start_running
Distinct-start_running id ref now m d = elim (Option-cases (get id m)) [
  | inl e ↦ rw (e, start_running) d
  | inr (l, e) ↦
      rw (e, start_running)
        (elim (Bool-cases (l.ref == ref)) [
          | inl same ↦ rw same (insert-Distinct id _ m d)
          | inr other ↦ rw other d
        ])
]

-- The keys stay distinct.
abbrev pub IsTable : ℕ → Map String Lease → Type 0
IsTable cap m = Distinct m

-- The table stays within the cap; 0 is no cap.
abbrev pub IsWithin : ℕ → Map String Lease → Type 0
IsWithin cap m = (cap ≡ 0) ⊎ (length m ≤ cap)

module _ {F : Type 0} (ops : FloatOps F) where
  -- Any request may come.
  abbrev Anything : Server → Call F → Type 0
  Anything s c = Unit {0}

  IsTable-Kept : Kept ops IsTable Anything
  IsTable-Kept = record {
    empty = λ cap. tt;
    granted = λ h id now req s gpu a g d. insert-Distinct id _ s.leases d;
    started = λ cap id ref now m d. Distinct-start_running id ref now m d;
    renewed = λ cap id l now d' m e d. insert-Distinct id _ m d;
    bound = λ cap id job l m e d. insert-Distinct id _ m d;
    adopted = λ id job now s a n e d. insert-Distinct id _ s.leases d;
    dropped = λ cap id m d. remove-Distinct id m d;
    kept = λ cap p m d. filter_map-Distinct p m d;
  }

  Along-Anything : (s : Server) (cs : List (Call F)) → Along ops IsTable Anything s cs
  Along-Anything s [] = tt
  Along-Anything s (c ∷ cs) = (tt, Along-Anything (step ops s c) cs)

  -- Each lease id names one lease through any history of requests, if it does in the table and the
  -- saved one at the start.
  pub run-Distinct :
      (s : Server) (cs : List (Call F)) → Holds IsTable s → Holds IsTable (run ops s cs)
  run-Distinct s cs v = Holds-run ops IsTable Anything IsTable-Kept s cs (Along-Anything s cs) v

  -- A job that starts finds its lease: no lease is taken again for it (bindLease).
  abbrev pub FindsLease : Server → Call F → Type 0
  FindsLease s (binds id job now) = get id s.leases ≢ none
  FindsLease s c = Unit {0}

  Granted-IsWithin :
      (h : Host F) (id : String) (now : ℕ) (req : AcceptRequest) (s : Server) (gpu : ℤ)
      → Granted ops h req s gpu
      → IsWithin s.max_concurrent (insert id (new_lease id now req gpu s) s.leases)
  Granted-IsWithin h id now req s gpu g =
      ground (arith, g.below_cap, length-insert-le id (new_lease id now req gpu s) s.leases)

  IsWithin-Kept : Kept ops IsWithin FindsLease
  IsWithin-Kept = record {
    empty = λ cap. ground arith;
    granted = λ h id now req s gpu a g d. Granted-IsWithin h id now req s gpu g;
    started = λ cap id ref now m d. rw (length-start_running id ref now m) d;
    renewed = λ cap id l now d' m e d. rw (length-insert_old id _ l m e) d;
    bound = λ cap id job l m e d. rw (length-insert_old id _ l m e) d;
    adopted = λ id job now s a n e d. absurd (a e);
    dropped = λ cap id m d. ground (arith, d, length-remove-le id m);
    kept = λ cap p m d. ground (arith, d, length-filter_map-le p m);
  }

  -- The daemon never holds more leases than its concurrency cap, reserved ones included, through
  -- any history in which no job names a lease that is gone, if neither the table nor the saved one
  -- does at the start.
  pub run-IsWithin :
      (s : Server) (cs : List (Call F))
      → Along ops IsWithin FindsLease s cs
      → Holds IsWithin s
      → Holds IsWithin (run ops s cs)
  run-IsWithin s cs a v = Holds-run ops IsWithin FindsLease IsWithin-Kept s cs a v
