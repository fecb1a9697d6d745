-- ===== src/Lease/Gpu.antt =====
-- Which lease holds which GPU (reserveGPULocked of src/internal/daemonapi/serverhttp.go).
use pipedpeer.Base.{
  ℕ, String, Bool, false, none, some, List, [], ◌∷◌, ◌≡◌, refl, sym, ◌≢◌, ◌⊎◌, inl, inr, arith, ◌∙◌,
  Bool-cases, Option-cases,
}
use pipedpeer.Base.Eq.{◌==◌, nat_eq, string_eq}
use pipedpeer.Base.Int.{ℤ, pos, negsuc, ◌≤ℤ◌, ltb_ℤ}
use pipedpeer.Base.Float.{FloatOps}
use pipedpeer.Base.Map.{
  Map, get, insert, remove, filter_map, get-insert, get-remove, get-filter_map, Distinct,
  insert-Distinct, remove-Distinct, filter_map-Distinct,
}
use pipedpeer.Lease.{Lease, Server}
use pipedpeer.Lease.Host.{Host, DeviceUsage}
use pipedpeer.Lease.Accept.{AcceptRequest, Granted, new_lease, gpu_taken, pick_gpu, reserve_gpu}
use pipedpeer.Lease.Commit.{start_running}
use pipedpeer.Lease.Life.{renew_lease, new_bound_lease}
use pipedpeer.Lease.Table.{Distinct-start_running}
use pipedpeer.Lease.Rule.{Holds, Kept, Along, Holds-run}
use pipedpeer.Lease.Calls.{Call, accepts, run}

-- The device chosen is held by no lease, unless it is the one that the loop began with.
pick_gpu-free :
    (m : Map String Lease) (min_vram best best_free : ℤ) (ds : List DeviceUsage)
    → (pick_gpu m min_vram best best_free ds ≡ best)
      ⊎ (gpu_taken (pick_gpu m min_vram best best_free ds) m ≡ false)
unfolding pick_gpu
pick_gpu-free m min_vram best best_free [] = inl refl
pick_gpu-free m min_vram best best_free (d ∷ ds) = ground (
  arith,
  pick_gpu-free m min_vram best best_free ds,
  pick_gpu-free m min_vram d.index d.memory_free ds,
)

-- With device readings, a device that is granted is held by no lease.
reserve_gpu-free :
    (m : Map String Lease) (ds : List DeviceUsage) (present : Bool) (min_vram : ℤ)
    → ds ≢ []
    → ltb_ℤ (reserve_gpu m ds present min_vram) (pos 0) ≡ false
    → gpu_taken (reserve_gpu m ds present min_vram) m ≡ false
unfolding reserve_gpu
reserve_gpu-free m [] present min_vram some_device found = absurd (some_device refl)
reserve_gpu-free m (d ∷ ds) present min_vram some_device found =
    ground (arith, pick_gpu-free m min_vram (negsuc 0) (negsuc 0) (d ∷ ds))

gpu_taken-get :
    (i : ℤ) (k : String) (m : Map String Lease) (l : Lease)
    → gpu_taken i m ≡ false
    → get k m ≡ some l
    → pos 0 ≤ℤ l.gpu_index
    → l.gpu_index ≢ i
unfolding gpu_taken get
gpu_taken-get i k [] l free e h same = cc
gpu_taken-get i k ((j, x) ∷ m) l free e h same = ground (arith, gpu_taken-get i k m l)

-- No two leases hold one device.
abbrev pub Apart : Map String Lease → Type 0
Apart m =
    (k j : String) (l n : Lease)
    → get k m ≡ some l
    → get j m ≡ some n
    → k ≢ j
    → pos 0 ≤ℤ l.gpu_index
    → l.gpu_index ≢ n.gpu_index

abbrev pub IsExclusive : ℕ → Map String Lease → Type 0
IsExclusive cap m = Distinct m × Apart m

-- Each lease of the first table stands in the second under its key, with the same device.
abbrev Under : Map String Lease → Map String Lease → Type 0
Under m' m =
    (k : String) (l : Lease)
    → get k m' ≡ some l
    → (n : Lease) × (get k m ≡ some n) × (n.gpu_index ≡ l.gpu_index)

Apart-Under : (m' m : Map String Lease) → Under m' m → Apart m → Apart m'
Apart-Under m' m under apart k j l n ek ej other h same =
    let (l', fk, sl) = under k l ek in
    let (n', fj, sn) = under j n ej in apart k j l' n' fk fj other (rw sl h) (sl ∙ same ∙ sym sn)

Under-insert :
    (id : String) (l l' : Lease) (m : Map String Lease)
    → get id m ≡ some l
    → l'.gpu_index ≡ l.gpu_index
    → Under (insert id l' m) m
Under-insert id l l' m e same k n f = elim (Bool-cases (id == k)) [
  | inl hit ↦
      let eq : id ≡ k = (string_eq.beq_iff id k).0 hit in
      (l, rw eq at e, ground (arith, get-insert id k l' m, same))
  | inr miss ↦ (n, ground (arith, get-insert id k l' m), refl)
]

Under-remove : (id : String) (m : Map String Lease) → Under (remove id m) m
Under-remove id m k l e = (l, ground (arith, get-remove id k m), refl)

Under-filter_map :
    (p : String → Lease → Bool) (m : Map String Lease) → Distinct m → Under (filter_map p m) m
Under-filter_map p m d k l e = elim (Option-cases (get k m)) [
  | inl f ↦ absurd (ground (arith, get-filter_map p k m d))
  | inr (n, f) ↦ (n, f, ground (arith, get-filter_map p k m d))
]

Under-start_running :
    (id : String) (ref now : ℕ) (m : Map String Lease) → Under (start_running id ref now m) m
unfolding start_running
Under-start_running id ref now m = elim (Option-cases (get id m)) [
  | inl e ↦ rw (e, start_running) (λ k l f. (l, f, refl))
  | inr (l, e) ↦
      rw (e, start_running)
        (elim (Bool-cases (l.ref == ref)) [
          | inl same ↦ rw same (Under-insert id l _ m e refl)
          | inr other ↦ rw other (λ k l f. (l, f, refl))
        ])
]

-- A new lease whose device nobody holds, or that holds none.
Apart-insert_new :
    (id : String) (l : Lease) (m : Map String Lease)
    → get id m ≡ none
    → (pos 0 ≤ℤ l.gpu_index → gpu_taken l.gpu_index m ≡ false)
    → Apart m
    → Apart (insert id l m)
Apart-insert_new id l m new free apart k j a b ek ej other h same = ground (
  arith,
  get-insert id k l m,
  get-insert id j l m,
  string_eq.beq_iff id k,
  string_eq.beq_iff id j,
  apart k j a b,
  gpu_taken-get l.gpu_index j m b,
  gpu_taken-get l.gpu_index k m a,
  free,
)

Apart-nil : Apart []
unfolding get
Apart-nil k j l n ek ej other h = absurd (ground arith)

gpu_index-renew_lease : (l : Lease) (now d : ℕ) → (renew_lease now d l).gpu_index ≡ l.gpu_index
unfolding renew_lease
gpu_index-renew_lease l now d = refl

module _ {F : Type 0} (ops : FloatOps F) where
  -- Every accept is made with device readings at hand, under a lease id that is new.
  abbrev pub HasReadings : Server → Call F → Type 0
  HasReadings s (accepts h id now req) = (h.devices ≢ []) × (get id s.leases ≡ none)
  HasReadings s c = Unit {0}

  Granted-IsExclusive :
      (h : Host F) (id : String) (now : ℕ) (req : AcceptRequest) (s : Server) (gpu : ℤ)
      → HasReadings s (accepts h id now req)
      → Granted ops h req s gpu
      → Apart s.leases
      → Apart (insert id (new_lease id now req gpu s) s.leases)
  Granted-IsExclusive h id now req s gpu a g apart =
      Apart-insert_new id (new_lease id now req gpu s) s.leases a.1
        (λ h0. ground (
          arith,
          g.gpu_chosen,
          g.gpu_found,
          reserve_gpu-free s.leases h.devices h.gpu_present req.required_gpu_mem a.0,
        ))
        apart

  IsExclusive-Kept : Kept ops IsExclusive HasReadings
  IsExclusive-Kept = record {
    empty = λ cap. (tt, Apart-nil);
    granted = λ h id now req s gpu a g v.
        (insert-Distinct id _ s.leases v.0, Granted-IsExclusive h id now req s gpu a g v.1);
    started = λ cap id ref now m v. (
      Distinct-start_running id ref now m v.0,
      Apart-Under _ m (Under-start_running id ref now m) v.1,
    );
    renewed = λ cap id l now d m e v. (
      insert-Distinct id _ m v.0,
      Apart-Under _ m (Under-insert id l (renew_lease now d l) m e (gpu_index-renew_lease l now d))
          v.1,
    );
    bound = λ cap id job l m e v. (
      insert-Distinct id _ m v.0,
      Apart-Under _ m (Under-insert id l (record l { job_id = job }) m e refl) v.1,
    );
    adopted = λ id job now s a named e v. (
      insert-Distinct id _ s.leases v.0,
      Apart-insert_new id (new_bound_lease id job now s.next_ref) s.leases e
          (λ h. absurd (omega arith)) v.1,
    );
    dropped = λ cap id m v. (remove-Distinct id m v.0, Apart-Under _ m (Under-remove id m) v.1);
    kept =
        λ cap p m v. (filter_map-Distinct p m v.0, Apart-Under _ m (Under-filter_map p m v.0) v.1);
  }

  -- Through any history in which every accept has device readings and a new lease id, no device is
  -- ever held by two leases, if none is at the start.
  pub run-IsExclusive :
      (s : Server) (cs : List (Call F))
      → Along ops IsExclusive HasReadings s cs
      → Holds IsExclusive s
      → Holds IsExclusive (run ops s cs)
  run-IsExclusive s cs a v = Holds-run ops IsExclusive HasReadings IsExclusive-Kept s cs a v
