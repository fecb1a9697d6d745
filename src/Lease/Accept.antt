-- ===== src/Lease/Accept.antt =====
-- processAccept and reserveGPULocked (src/internal/daemonapi/serverhttp.go).
pub mod Outcome
use pipedpeer.Base.{
  ℕ, suc, String, Bool, true, false, if◌then◌else◌, Option, none, some, List, [], ◌∷◌, ◌+◌, ◌&&◌,
  ◌||◌, ◌≡◌, ◌⊎◌, not, ltb, leb, nat_beq, length,
}
use pipedpeer.Base.Eq.{◌==◌, string_eq}
use pipedpeer.Base.Int.{ℤ, pos, negsuc, ltb_ℤ, leb_ℤ, eq_ℤ}
use pipedpeer.Base.Float.{FloatOps}
use pipedpeer.Base.Map.{Map, insert}
use pipedpeer.Lease.{Lease, Server, reserved, is_reserved, is_running, reserved_mem, persist}
use pipedpeer.Lease.Host.{Host, DeviceUsage, free_cores, accept_available, admit}

pub record AcceptRequest : Type 0 where
  pub target_id : String
  pub job_name : String
  pub submitter_node : String
  pub required_mem : ℤ
  pub required_cores : ℤ
  pub require_gpu : Bool
  pub required_gpu_mem : ℤ

-- The reason texts, with what they quote.
pub data Reason (F : Type 0) : Type 0 where
  target_required target_mismatch no_gpu : Reason F
  takes_no_jobs : String → Reason F
  insufficient_cores : ℤ → F → Reason F
  at_limit : ℕ → ℕ → Reason F
  insufficient_memory : ℤ → ℤ → Reason F

pub record AcceptResponse (F : Type 0) : Type 0 where
  pub accepted : Bool
  pub node_id : String
  pub reason : Option (Reason F)
  pub lease_id : String
  pub gpu_index : ℤ
  pub expires_at : Option ℕ
  pub status : ℕ

-- The devices that live leases hold.
unfoldable pub gpu_taken : ℤ → Map String Lease → Bool
gpu_taken i [] = false
gpu_taken i ((k, l) ∷ m) =
    (leb_ℤ (pos 0) l.gpu_index && (is_reserved l.state || is_running l.state) && eq_ℤ l.gpu_index i)
    || gpu_taken i m

-- The loop over the devices: the free one with the most memory.
unfoldable pub pick_gpu : Map String Lease → ℤ → ℤ → ℤ → List DeviceUsage → ℤ
pick_gpu m min_vram best best_free [] = best
pick_gpu m min_vram best best_free (d ∷ ds) =
    let skip =
      gpu_taken d.index m
      || (ltb_ℤ (pos 0) min_vram && ltb_ℤ d.memory_free min_vram)
      || not (ltb_ℤ best_free d.memory_free) in
    pick_gpu m min_vram (if skip then best else d.index) (if skip then best_free else d.memory_free)
      ds

unfoldable pub reserve_gpu : Map String Lease → List DeviceUsage → Bool → ℤ → ℤ
unfolding gpu_taken pick_gpu
reserve_gpu m [] gpu_present min_vram =
    if gpu_present && eq_ℤ min_vram (pos 0) then pos 0 else negsuc 0
reserve_gpu m (d ∷ ds) gpu_present min_vram = pick_gpu m min_vram (negsuc 0) (negsuc 0) (d ∷ ds)

abbrev pub new_lease : String → ℕ → AcceptRequest → ℤ → Server → Lease
new_lease id now req gpu s = record {
  ref = s.next_ref;
  lease_id = id;
  job_name = req.job_name;
  submitter_node = req.submitter_node;
  state = reserved;
  mem_bytes = req.required_mem;
  gpu_index = gpu;
  created_at = now;
  expires_at = now + s.lease_duration;
  renewed_at = 0;
  job_id = "";
}

unfoldable pub add_lease : String → ℕ → AcceptRequest → ℤ → Server → Server
add_lease id now req gpu s = persist (record s {
  leases = insert id (new_lease id now req gpu s) s.leases;
  next_ref = suc s.next_ref;
})

module _ {F : Type 0} (ops : FloatOps F) where
  abbrev refuse : Server → Reason F → ℕ → AcceptResponse F × Server
  refuse s why status = (
    record {
      accepted = false;
      node_id = s.node_id;
      reason = some why;
      lease_id = "";
      gpu_index = pos 0;
      expires_at = none;
      status = status;
    },
    s,
  )

  -- Create the lease and answer.
  grant : String → ℕ → AcceptRequest → ℤ → Server → AcceptResponse F × Server
  unfolding add_lease
  grant id now req gpu s = (
    record {
      accepted = true;
      node_id = s.node_id;
      reason = none;
      lease_id = id;
      gpu_index = gpu;
      expires_at = some (now + s.lease_duration);
      status = 200;
    },
    add_lease id now req gpu s,
  )

  -- From the device admission on.
  admit_gpu : Host F → String → ℕ → AcceptRequest → Server → AcceptResponse F × Server
  unfolding grant
  admit_gpu h id now req s =
      if req.require_gpu
      then (let gpu = reserve_gpu s.leases h.devices h.gpu_present req.required_gpu_mem in
          if ltb_ℤ gpu (pos 0) then refuse s no_gpu 503 else grant id now req gpu s)
      else grant id now req (negsuc 0) s

  -- From the memory admission on.
  admit_mem : Host F → String → ℕ → AcceptRequest → Server → AcceptResponse F × Server
  unfolding admit_gpu
  admit_mem h id now req s =
      let available = accept_available h (reserved_mem s) in
      let idle = nat_beq (length s.leases) 0 && eq_ℤ h.roommates (pos 0) in
      if ltb_ℤ (pos 0) req.required_mem && not (admit req.required_mem available idle)
      then refuse s (insufficient_memory req.required_mem available) 503
      else admit_gpu h id now req s

  -- The part under the lock: the cap first.
  admit_locked : Host F → String → ℕ → AcceptRequest → Server → AcceptResponse F × Server
  unfolding admit_mem
  admit_locked h id now req s =
      let active = length s.leases in
      if ltb 0 s.max_concurrent && leb s.max_concurrent active
      then refuse s (at_limit active s.max_concurrent) 503
      else admit_mem h id now req s

  unfoldable pub process_accept :
      Host F → String → ℕ → AcceptRequest → Server → AcceptResponse F × Server
  unfolding admit_locked
  process_accept h id now req s =
      let free = free_cores ops h in
      if req.target_id == ""
      then refuse s target_required 400
      else if not (req.target_id == s.node_id)
      then refuse s target_mismatch 409
      else if not (h.role == "")
      then refuse s (takes_no_jobs h.role) 503
      else if ltb_ℤ (pos 0) req.required_cores && ops.lt free (ops.of_int req.required_cores)
      then refuse s (insufficient_cores req.required_cores free) 503
      else admit_locked h id now req s

  -- What is known of a request that was granted the device `gpu`.
  pub record Granted (h : Host F) (req : AcceptRequest) (s : Server) (gpu : ℤ) : Type 0 where
    pub for_this_node : (req.target_id == s.node_id) ≡ true
    pub takes_jobs : (h.role == "") ≡ true
    pub below_cap : (ltb 0 s.max_concurrent && leb s.max_concurrent (length s.leases)) ≡ false
    pub mem_admitted :
        (ltb_ℤ (pos 0) req.required_mem
          && not (
              admit req.required_mem
                (accept_available h (reserved_mem s))
                (nat_beq (length s.leases) 0 && eq_ℤ h.roommates (pos 0))))
        ≡ false
    pub gpu_chosen : gpu ≡ (
        if req.require_gpu
        then reserve_gpu s.leases h.devices h.gpu_present req.required_gpu_mem
        else negsuc 0)
    pub gpu_found : (req.require_gpu && ltb_ℤ gpu (pos 0)) ≡ false

  abbrev pub Outcome :
      Host F → String → ℕ → AcceptRequest → Server → AcceptResponse F × Server → Type 0
  Outcome h id now req s r =
      ((r.0.accepted ≡ false) × (r.1 ≡ s))
      ⊎ ((gpu : ℤ) × (r.0.accepted ≡ true)
          × (r.0.gpu_index ≡ gpu)
          × (r.1 ≡ add_lease id now req gpu s)
          × Granted h req s gpu)
