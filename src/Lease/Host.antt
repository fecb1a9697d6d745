-- ===== src/Lease/Host.antt =====
-- What admission reads of the machine, and the memory that a daemon may still promise
-- (src/internal/daemonapi/serverhttp.go, serverlease.go, src/internal/cgroups/budget.go,
-- src/internal/resourceest/estimator.go). The readings themselves are inputs.
use pipedpeer.Base.{String, Bool, true, false, if◌then◌else◌, List, ◌||◌, not, ◌&&◌}
use pipedpeer.Base.Int.{ℤ, pos, ◌-ℤ◌, ltb_ℤ, leb_ℤ, int64}
use pipedpeer.Base.Float.{FloatOps}

pub record Budget : Type 0 where
  pub total : ℤ
  pub used : ℤ

unfoldable pub remaining : Budget → ℤ
remaining b =
    if leb_ℤ b.total (pos 0)
    then pos 0
    else (let r = int64 (b.total -ℤ b.used) in if ltb_ℤ (pos 0) r then r else pos 0)

pub record DeviceUsage : Type 0 where
  pub index : ℤ
  pub memory_free : ℤ

-- `role` is "" on a node that takes jobs; `roommates` is what other daemons on this machine hold.
pub record Host (F : Type 0) : Type 0 where
  pub role : String
  pub available_mem : ℤ
  pub total_cpus : ℤ
  pub num_cpu : ℤ
  pub cpu_percent : F
  pub roommates : ℤ
  pub budget : Budget
  pub devices : List DeviceUsage
  pub gpu_present : Bool

unfoldable pub free_cores : {F : Type 0} → FloatOps F → Host F → F
free_cores ops h =
    let cores = if leb_ℤ h.total_cpus (pos 0) then h.num_cpu else h.total_cpus in
    let free = mul (of_int cores) (sub (of_int (pos 1)) (div h.cpu_percent (of_int (pos 100)))) in
    if lt free (of_int (pos 0)) then of_int (pos 0) else free
  where
    open ops use {of_int, mul, sub, div, lt}

-- grantableFrom: `available` has this daemon's reservations taken off already.
unfoldable pub grantable_from : ℤ → ℤ → Budget → ℤ → ℤ
unfolding remaining
grantable_from available roommates b reserved =
    let free = int64 (available -ℤ roommates) in
    let avail = if ltb_ℤ free (pos 0) then pos 0 else free in
    if ltb_ℤ (pos 0) b.total
    then (let left = int64 (remaining b -ℤ reserved) in
        let r = if ltb_ℤ left (pos 0) then pos 0 else left in if ltb_ℤ r avail then r else avail)
    else avail

-- The bounds of processAccept: the budget's where it is known and tighter, and never below 0.
unfoldable pub tighter : ℤ → ℤ → ℤ → ℤ
tighter total left free =
    let bound = if ltb_ℤ (pos 0) total && ltb_ℤ left free then left else free in
    if ltb_ℤ bound (pos 0) then pos 0 else bound

-- The figure of processAccept, from the memory reserved in the lease table.
unfoldable pub accept_available : {F : Type 0} → Host F → ℤ → ℤ
unfolding remaining tighter
accept_available h reserved =
    tighter h.budget.total (int64 (remaining h.budget -ℤ reserved))
      (int64 (int64 (h.available_mem -ℤ reserved) -ℤ h.roommates))

-- resourceest.Admit
unfoldable pub admit : ℤ → ℤ → Bool → Bool
admit required available idle =
    if leb_ℤ required (pos 0) || leb_ℤ required available
    then true
    else (if not idle || leb_ℤ available (pos 0) then false else true)
