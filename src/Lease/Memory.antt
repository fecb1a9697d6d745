-- ===== src/Lease/Memory.antt =====
-- What admission lets a daemon promise (processAccept of src/internal/daemonapi/serverhttp.go).
use pipedpeer.Base.{
  ℕ, String, true, false, none, [], ◌∷◌, ◌≡◌, refl, ◌≢◌, ◌∙◌, ◌⊎◌, inl, inr, arith, nat_beq, length,
}
use pipedpeer.Base.Eq.{nat_eq, string_eq}
use pipedpeer.Base.Int.{
  ℤ, pos, ◌≤ℤ◌, ltb_ℤ, ◌-ℤ◌, ◌+ℤ◌, int64, InInt64, int64_exact, +ℤ_parts, -ℤ_parts,
}
use pipedpeer.Base.Float.{FloatOps}
use pipedpeer.Base.Map.{Map, get, insert}
use pipedpeer.Lease.{Lease, Server, persist, sum_mem, reserved_mem}
use pipedpeer.Lease.Host.{Host, remaining, accept_available, tighter, admit}
use pipedpeer.Lease.Accept.{AcceptRequest, Granted, process_accept, add_lease, new_lease}
use pipedpeer.Lease.Accept.Outcome.{process_accept-Outcome}

-- A new lease adds its memory to the total.
length-nonempty : (m : Map String Lease) → m ≢ [] → nat_beq (length m) 0 ≡ false
length-nonempty [] h = absurd (h refl)
length-nonempty (x ∷ m) h = ground arith

sum_mem-insert :
    (id : String) (l : Lease) (t : ℤ) (m : Map String Lease)
    → get id m ≡ none
    → sum_mem t (insert id l m) ≡ int64 (sum_mem t m +ℤ l.mem_bytes)
unfolding sum_mem insert get
sum_mem-insert id l t [] e = refl
sum_mem-insert id l t ((k, n) ∷ m) e =
    ground (arith, sum_mem-insert id l (int64 (t +ℤ n.mem_bytes)) m)

reserved_mem-add_lease :
    (id : String) (now : ℕ) (req : AcceptRequest) (gpu : ℤ) (s : Server)
    → get id s.leases ≡ none
    → reserved_mem (add_lease id now req gpu s) ≡ int64 (reserved_mem s +ℤ req.required_mem)
unfolding reserved_mem add_lease persist
reserved_mem-add_lease id now req gpu s e =
    ground (arith, sum_mem-insert id (new_lease id now req gpu s) (pos 0) s.leases e)

-- The byte counts of a request and a machine stay within an int64.
pub record InRange {F : Type 0} (h : Host F) (reserved required : ℤ) : Type 0 where
  pub free : InInt64 (h.available_mem -ℤ reserved)
  pub shared : InInt64 (h.available_mem -ℤ reserved -ℤ h.roommates)
  pub left : InInt64 (remaining h.budget -ℤ reserved)
  pub total : InInt64 (reserved +ℤ required)

tighter-le :
    (total left free : ℤ)
    → ltb_ℤ (pos 0) (tighter total left free) ≡ true
    → (tighter total left free ≤ℤ free) × ((total ≤ℤ pos 0) ⊎ (tighter total left free ≤ℤ left))
unfolding tighter
tighter-le total left free p = ground arith

-- What admission found free is within the free memory and the budget, both less what is promised.
accept_available-le :
    {F : Type 0} (h : Host F) (reserved required : ℤ)
    → InRange h reserved required
    → ltb_ℤ (pos 0) (accept_available h reserved) ≡ true
    → (accept_available h reserved ≤ℤ h.available_mem -ℤ reserved -ℤ h.roommates)
      × ((h.budget.total ≤ℤ pos 0)
          ⊎ (accept_available h reserved ≤ℤ remaining h.budget -ℤ reserved))
unfolding accept_available
accept_available-le h reserved required r =
    rw (int64_exact _ r.free, int64_exact _ r.shared, int64_exact _ r.left)
      (tighter-le h.budget.total (remaining h.budget -ℤ reserved)
        (h.available_mem -ℤ reserved -ℤ h.roommates))

module _ {F : Type 0} (ops : FloatOps F) where
  admitted-fits :
      (h : Host F) (req : AcceptRequest) (s : Server) (gpu : ℤ)
      → Granted ops h req s gpu
      → ltb_ℤ (pos 0) req.required_mem ≡ true
      → s.leases ≢ []
      → req.required_mem ≤ℤ accept_available h (reserved_mem s)
  unfolding admit
  admitted-fits h req s gpu g p busy = ground (arith, g.mem_admitted, length-nonempty s.leases busy)

  -- A daemon that holds a lease already promises no more than it has: after a lease with a new id
  -- and a need for memory is granted, the reserved total and what the other daemons on the machine
  -- hold are within the free memory, and the total is within the budget where one is known. The
  -- byte counts are within an int64.
  pub process_accept-fits :
      (h : Host F) (id : String) (now : ℕ) (req : AcceptRequest) (s : Server)
      → get id s.leases ≡ none
      → s.leases ≢ []
      → ltb_ℤ (pos 0) req.required_mem ≡ true
      → InRange h (reserved_mem s) req.required_mem
      → (process_accept ops h id now req s).0.accepted ≡ true
      → let after = (process_accept ops h id now req s).1 in
        (reserved_mem after +ℤ h.roommates ≤ℤ h.available_mem)
        × ((h.budget.total ≤ℤ pos 0) ⊎ (reserved_mem after ≤ℤ remaining h.budget))
  process_accept-fits h id now req s new busy p r ok =
      elim (process_accept-Outcome ops h id now req s) [
        | inl (no', e) ↦ absurd (ground (arith, no', ok))
        | inr (gpu, _, _, e, g) ↦
            let fits : req.required_mem ≤ℤ accept_available h (reserved_mem s) =
              admitted-fits h req s gpu g p busy in
            let total : reserved_mem (add_lease id now req gpu s)
                ≡ reserved_mem s +ℤ req.required_mem =
              reserved_mem-add_lease id now req gpu s new ∙ int64_exact _ r.total in
            let bounds =
              accept_available-le h (reserved_mem s) req.required_mem r (ground (arith, fits, p)) in
            rw (e, total)
              (
                omega (arith, +ℤ_parts, -ℤ_parts),
                elim bounds.1 [
                  | inl unknown ↦ inl unknown
                  | inr b ↦ inr (omega (arith, +ℤ_parts, -ℤ_parts))
                ],
              )
      ]
