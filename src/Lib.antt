-- ===== src/Lib.antt =====
-- Verification library of pipedpeer: the parts of the daemon that decide who gets which work.
--
-- A daemon holds leases for the jobs that it takes, keeps a flight book of the parts of pool maps that
-- run on its peers, sends those parts as frames, and shares work out by a schedule. Accept, commit and
-- complete requests, the sweeper and the start and end of jobs change the lease table; the pool picks
-- peers, passes the gate of the flight book, and reads the schedule for the worth of a copy. The daemon
-- of a training ring's first rank keeps the ring's board: the ranks' payloads come to it in rounds, it
-- averages them, shares the work out again by the ranks' speed, and takes ranks out and in. Place picks
-- the nodes of a ring by the schedule, Nat finds what a router does, by the STUN client and a reflector.
--
-- Base: numbers, lists, finite maps, int64 and float64. Base.Float takes the operations on float64
--   as a parameter; OrderLaws names the two laws of `<` that some theorems use.
-- Lease: the lease table. Lease is the state of src/internal/daemonapi/server.go with its readers and
--   persist of serverlease.go; Lease.Host the memory figures (grantableFrom, Budget.Remaining of
--   src/internal/cgroups/budget.go, Admit of src/internal/resourceest/estimator.go); Lease.Accept
--   processAccept and reserveGPULocked, Lease.Commit processCommit, Lease.Life processComplete,
--   processRenew, sweepExpired, bindLease and releaseJobLease (serverhttp.go, serverlease.go);
--   Lease.Calls the histories of those, with load of state.go and failOrphanedJobs of joblog.go.
--   Lease.Rule is the induction that the invariants share; the other modules are named for what they
--   prove.
-- Pool: Pool.Book is the flight book and acquireFirst (poolrates.go, poolsteal.go of
--   src/internal/daemonapi, Backlog of src/internal/schedule/pool.go), Pool.Peers the choice of peers
--   (pool.go, poolrun.go, poolsteal.go), Pool.Rates the observations of a peer (poolrates.go);
--   Pool.Choice, Pool.Gate, Pool.Routes and Pool.Window are about them.
-- Wire: src/internal/daemonapi/poolwire.go. Wire.Frames is the frames, Wire.Held the sending of globals
--   by hash, Wire.Decode the receiving side and its cache; Wire.Trips, Wire.Read, Wire.Sent and
--   Wire.Restored are about them.
-- JobState: src/internal/jobhistory/states.go.
-- Prune: the eviction of src/internal/narpack/prune.go.
-- Schedule: Compute of src/internal/schedule/schedule.go and what it calls.
-- Stun: the reading of a reply of src/internal/nattype/stun.go.
-- Ring: the gradient ring of src/internal/daemonapi. Ring.Half is the codec of half precision numbers,
--   Ring.Sum and Ring.Mean the sum of payloads and its mean (ddpreduce.go), Ring.Ranks and Ring.Run the
--   state of one run with its ranks that go down (ddpboard.go, ddpdown.go), Ring.Plan the sharing out
--   (ddprebalance.go, ddppacing.go), Ring.Round one round and what it does with a payload
--   (ddprequest.go, ddpsync.go), Ring.Sync a request up to its wait, Ring.Patience the end of a wait
--   and Ring.Reply the answer (handleDDPSync, completePartial, handoverHolds of ddpsync.go),
--   Ring.Joining a rank that joins (ddpup.go), Ring.Board the rounds and runs by key, Ring.Local the
--   rounds of one machine's ranks (ddplocal.go). Ring.Events is the histories of one round; the other
--   modules are named for what they prove.
-- Place: admit, Select and the scores of src/internal/ddpplace/ddpplace.go; Place.Worth is about it.
-- Nat: src/internal/nattype/nattype.go; Nat.Verdict is about it.
-- Coordinator: the order of the candidates and a pass over them, in PlaceWithRetry of
--   src/internal/coordinator/place.go; Coordinator.Pass is about it.
-- Examples: runs on concrete input.
--
-- A function is one critical section, so an interleaving is a list of steps (Lease.Calls, Pool.Gate).
-- A request saves the table in the step that changes it, where the code saves after it gave the lock
-- up, so saves that overtake one another are not covered.
-- A commit gives the lock up while it reads the memory, and is two steps. A lease in the table carries
-- the identity of its object, since a commit keeps a pointer. Times are natural numbers, 0 the zero
-- time; the memory sums wrap as int64 does. A Go map is an association list, whose order stands for
-- the order of iteration. Readings of the machine, lease ids and clock values are arguments.
-- The loop of Compute that drops devices runs on fuel, one more than the eligible devices, which is
-- enough since each pass but the last drops one. The loop over the attributes of a STUN reply runs on
-- one more than the bytes, and drops four at least in a pass.
--
-- In the ring, FloatBits takes the bits of a float, its square root and its rounding as a parameter, and
-- itoa the text of a number. The loop that widens a subnormal half runs on 10, the width of its
-- mantissa. A joiner carries the identity of its ddpJoin, since its handler compares pointers; a note is
-- a value in place of its JSON. The two sorts of Place, the answers of the probes, and what a socket
-- reads before its deadline are arguments.
--
-- A sweep of the ring's board is applied at the end of a round's history (swept); JobState is
-- Transition, which FinalizeAt of src/internal/jobhistory/history.go does not call.
--
-- Not modelled: the HTTP handlers, sockets, subprocesses and files, except as the arguments above;
-- the prior rates of the pool, the choice to compress, the submitter's side of a ring, the scoring
-- and the retries of the coordinator, discovery, identity, environments and the command line. JSON,
-- SHA-256, zstd and the removal of files are parameters.
pub mod Base
pub mod Lease
pub mod Pool
pub mod Wire
pub mod JobState
pub mod Prune
pub mod Schedule
pub mod Stun
pub mod Ring
pub mod Place
pub mod Nat
pub mod Coordinator
pub mod Examples
