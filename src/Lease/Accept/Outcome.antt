-- ===== src/Lease/Accept/Outcome.antt =====
-- The two ways in which an accept request ends (processAccept of
-- src/internal/daemonapi/serverhttp.go): refused with the table untouched, or granted.
use pipedpeer.Base.{
  ℕ, String, Bool, true, false, ◌≡◌, refl, inl, inr, Bool-cases, ltb, leb, length, nat_beq, ◌&&◌,
  not,
}
use pipedpeer.Base.Eq.{◌==◌, string_eq}
use pipedpeer.Base.Int.{pos, negsuc, ltb_ℤ, eq_ℤ}
use pipedpeer.Base.Float.{FloatOps}
use pipedpeer.Lease.{Server, reserved_mem}
use pipedpeer.Lease.Host.{Host, accept_available, admit, free_cores}
use pipedpeer.Lease.Accept.{
  AcceptRequest, process_accept, Outcome, reserve_gpu, admit_gpu, admit_mem, admit_locked,
}

module _ {F : Type 0} (ops : FloatOps F) (h : Host F) (id : String) (now : ℕ) (req : AcceptRequest)
    (s : Server) where
  abbrev below_cap : Bool
  below_cap = ltb 0 s.max_concurrent && leb s.max_concurrent (length s.leases)

  abbrev no_memory : Bool
  no_memory =
      ltb_ℤ (pos 0) req.required_mem
      && not (
          admit req.required_mem (accept_available h (reserved_mem s))
            (nat_beq (length s.leases) 0 && eq_ℤ h.roommates (pos 0)))

  module _ (here : (req.target_id == s.node_id) ≡ true) (jobs : (h.role == "") ≡ true)
      (cap : below_cap ≡ false) where
    admit_gpu-Outcome :
        no_memory ≡ false → Outcome ops h id now req s (admit_gpu ops h id now req s)
    unfolding admit_gpu
    admit_gpu-Outcome mem = elim (Bool-cases req.require_gpu) [
      | inr plain ↦ rw plain (
          inr (
            negsuc 0,
            refl,
            refl,
            refl,
            record {
              for_this_node = here;
              takes_jobs = jobs;
              below_cap = cap;
              mem_admitted = mem;
              gpu_chosen = refl;
              gpu_found = refl;
            },
          ))
      | inl wanted ↦
          elim (Bool-cases
            (ltb_ℤ (reserve_gpu s.leases h.devices h.gpu_present req.required_gpu_mem) (pos 0))) [
              | inl none_free ↦ rw (wanted, none_free) (inl (refl, refl))
              | inr found ↦
                  rw (wanted, found)
                    (inr (
                      reserve_gpu s.leases h.devices h.gpu_present req.required_gpu_mem,
                      refl,
                      refl,
                      refl,
                      record {
                        for_this_node = here;
                        takes_jobs = jobs;
                        below_cap = cap;
                        mem_admitted = mem;
                        gpu_chosen = refl;
                        gpu_found = found;
                      },
                    ))
            ]
    ]

    admit_mem-Outcome : Outcome ops h id now req s (admit_mem ops h id now req s)
    unfolding admit_mem
    admit_mem-Outcome = elim (Bool-cases no_memory) [
      | inl e ↦ rw e (inl (refl, refl))
      | inr e ↦ rw e (admit_gpu-Outcome e)
    ]

  admit_locked-Outcome :
      (req.target_id == s.node_id) ≡ true
      → (h.role == "") ≡ true
      → Outcome ops h id now req s (admit_locked ops h id now req s)
  unfolding admit_locked
  admit_locked-Outcome here jobs = elim (Bool-cases below_cap) [
    | inl e ↦ rw e (inl (refl, refl))
    | inr e ↦ rw e (admit_mem-Outcome here jobs e)
  ]

  pub process_accept-Outcome : Outcome ops h id now req s (process_accept ops h id now req s)
  unfolding process_accept
  process_accept-Outcome = elim (Bool-cases (req.target_id == "")) [
    | inl e ↦ rw e (inl (refl, refl))
    | inr e ↦ rw e (elim (Bool-cases (req.target_id == s.node_id)) [
      | inr e ↦ rw e (inl (refl, refl))
      | inl here ↦ rw here (elim (Bool-cases (h.role == "")) [
        | inr e ↦ rw e (inl (refl, refl))
        | inl jobs ↦
            rw jobs
              (elim (Bool-cases (
                ltb_ℤ (pos 0) req.required_cores
                && ops.lt (free_cores ops h) (ops.of_int req.required_cores))) [
                  | inl e ↦ rw e (inl (refl, refl))
                  | inr e ↦ rw e (admit_locked-Outcome here jobs)
                ])
      ])
    ])
  ]
