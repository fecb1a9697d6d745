-- ===== src/Pool/Peers.antt =====
-- Which peers the parts of a chunk may go to, and which peer takes a copy of a late part
-- (src/internal/daemonapi/pool.go, poolrun.go, poolsteal.go). A Go map of Booleans reads false on a
-- missing key.
use pipedpeer.Base.{
  ℕ, zero, suc, ◌+◌, ◌*◌, ◌%◌, ◌^◌, String, Bool, true, false, if◌then◌else◌, Option, none, some,
  List, [], ◌∷◌, ◌++◌, ◌&&◌, ◌||◌, not, length, get_or, keep_if, ltb,
}
use Prim.Native.Nat.{bit_xor}
use Prim.Native.Char.{nul}
use Prim.Native.String.{◌++◌ as ◌⧺◌}
use pipedpeer.Base.Eq.{◌==◌, string_eq}
use pipedpeer.Base.Int.{pos}
use pipedpeer.Base.Float.{FloatOps}
use pipedpeer.Base.Map.{Map, get, insert}
use pipedpeer.Pool.Book.{Book, Slot, Release, free, try_acquire}

-- The fields of poolManager that these functions use. `node_fn` and `machine_fn` may be nil.
pub record PoolManager : Type 0 where
  pub node_fn : Option (String → String)
  pub machine_fn : Option (String → String)
  pub reply_ids : Map String String
  pub warm : Map String Bool
  pub dead_peers : Map String Bool

abbrev pub text_or : Option String → String
text_or none = ""
text_or (some s) = s

abbrev pub bool_or : Option Bool → Bool
bool_or none = false
bool_or (some b) = b

-- What the peer named in its last reply, else its address.
unfoldable pub reply_key : PoolManager → String → String
reply_key pm peer = let id = text_or (get peer pm.reply_ids) in if id == "" then peer else id

unfoldable pub key : PoolManager → String → String
unfolding reply_key
key pm peer = elim pm.node_fn [
  | none ↦ reply_key pm peer
  | some node ↦ if node peer == "" then reply_key pm peer else node peer
]

unfoldable pub saw_node : String → String → PoolManager → PoolManager
saw_node peer id pm = if id == "" then pm else record pm { reply_ids = insert peer id pm.reply_ids }

-- node + "\x00" + fn
abbrev pub warm_key : String → String → String
warm_key node fn = node ⧺ String.◌∷◌ nul fn

unfoldable pub first_part : String → String → PoolManager → Bool × PoolManager
first_part node fn pm =
    let k = warm_key node fn in
    if bool_or (get k pm.warm)
    then (false, pm)
    else (true, record pm { warm = insert k true pm.warm })

-- heartbeat.SameMachine
unfoldable pub same_machine : String → String → Bool
same_machine a b = not (a == "") && a == b

-- A peer that is dropped by offloadPeers.
unfoldable pub on_machine : PoolManager → String → String → Bool
unfolding same_machine
on_machine pm machine p = elim pm.machine_fn [ none ↦ false | some f ↦ same_machine (f p) machine ]

unfoldable pub offload_peers : PoolManager → String → List String → String → List String × Bool
unfolding on_machine same_machine
offload_peers pm self_machine peers machine =
    if machine == ""
    then (peers, false)
    else (keep_if (λ p. not (on_machine pm machine p)) peers, same_machine self_machine machine)

unfoldable pub drop_forwarder : PoolManager → List String → String → List String
unfolding key
drop_forwarder pm peers node_id =
    if node_id == "" then peers else keep_if (λ p. not (key pm p == node_id)) peers

-- affinityKey over the chunk's cache keys and item keys
unfoldable pub affinity_key : List String → List String → ℕ → String
affinity_key cache_keys item_keys i =
    if ltb i (length cache_keys)
    then get_or cache_keys i ""
    else if ltb i (length item_keys)
    then get_or item_keys i ""
    else ""

-- FNV-1a over the bytes of the key, on uint32.
hash_from : ℕ → List ℕ → ℕ
hash_from h [] = h
hash_from h (b ∷ bs) = hash_from (bit_xor h b * 16_777_619 % 2 ^ 32) bs

unfoldable pub affinity_hash : List ℕ → ℕ
unfolding hash_from
affinity_hash bs = hash_from 2_166_136_261 bs

-- The loop of sinkPeerLast: the first occurrence that is not the last peer moves to the end.
unfoldable pub sink : String → List String → List String
sink submitter [] = []
sink submitter (p ∷ []) = p ∷ []
sink submitter (p ∷ q ∷ ps) =
    let rest = sink submitter (q ∷ ps) in
    if p == submitter then (q ∷ ps) ++ submitter ∷ [] else p ∷ rest

unfoldable pub sink_peer_last : List String → String → List String
unfolding sink
sink_peer_last peers submitter = if submitter == "" then peers else sink submitter peers

unfoldable pub first_other : String → List String → Option String
first_other submitter [] = none
first_other submitter (p ∷ ps) =
    let rest = first_other submitter ps in if p == submitter then rest else some p

-- The first peer that is not the submitter, else the first peer, else "".
unfoldable pub best_of : String → List String → String
unfolding first_other
best_of submitter ps = elim (first_other submitter ps) [ some p ↦ p | none ↦ get_or ps 0 "" ]

-- bestPeer; `ranked` is what peerFn answers, none when it is nil.
unfoldable pub best_peer : PoolManager → String → Option (List String) → String → String → String
unfolding best_of offload_peers
best_peer pm self_machine none submitter offload = ""
best_peer pm self_machine (some ranked) submitter offload =
    best_of submitter (offload_peers pm self_machine ranked offload).0

unfoldable pub peer_dead : PoolManager → String → Bool
peer_dead pm peer = bool_or (get peer pm.dead_peers)

unfoldable pub mark_peer_dead : String → PoolManager → PoolManager
mark_peer_dead peer pm = record pm { dead_peers = insert peer true pm.dead_peers }

module _ {F : Type 0} (ops : FloatOps F) where
  open ops use {of_int, ratio, inf, add, sub, mul, lt}

  -- schedule.BackupWorth
  unfoldable pub backup_worth : F → F → F → F → Bool × F
  backup_worth expected elapsed fresh fresh_setup =
      let left =
        if lt expected elapsed
        then ops.max (sub elapsed expected) expected
        else sub expected elapsed in
      let gain = sub left fresh in (lt (ops.max fresh_setup (ratio 2 10)) gain, gain)

  -- A peer that the loop of backupPeer takes over a gain of `most`.
  unfoldable pub better_backup : PoolManager → F → F → Book F → F → String × Slot F → Bool
  better_backup pm expected elapsed b most (peer, c) =
      let worth = backup_worth expected elapsed c.pred (of_int (pos 0)) in
      not (peer_dead pm peer || not (free c b)) && (worth.0 && lt most worth.1)

  -- The loop of backupPeer over the peers with their slots (partSlots): the peer, slot and gain
  -- picked so far.
  unfoldable pub pick_backup :
      PoolManager
      → F
      → F
      → Book F
      → Option (String × Slot F)
      → F
      → List (String × Slot F)
      → Option (String × Slot F) × F
  pick_backup pm expected elapsed b best most [] = (best, most)
  pick_backup pm expected elapsed b best most (c ∷ cs) =
      let gain = (backup_worth expected elapsed c.1.pred (of_int (pos 0))).1 in
      let taken = pick_backup pm expected elapsed b (some c) gain cs in
      let kept = pick_backup pm expected elapsed b best most cs in
      if better_backup pm expected elapsed b most c then taken else kept

  -- What follows the loop: the booking of the peer picked. A peer named "" counts as none.
  unfoldable pub start_copy :
      ℕ → Book F → Option (String × Slot F) × F → Option (String × Release × F) × Book F
  start_copy now b (none, gain) = (none, b)
  start_copy now b (some (peer, c), gain) =
      if peer == ""
      then (none, b)
      else (let (got, after) = try_acquire c now b in
          elim got [ none ↦ (none, after) | some r ↦ (some (peer, r, gain), after) ])

  unfoldable pub backup_peer :
      PoolManager
      → F
      → F
      → ℕ
      → List (String × Slot F)
      → Book F
      → Option (String × Release × F) × Book F
  backup_peer pm expected elapsed now others b =
      start_copy now b (pick_backup pm expected elapsed b none (of_int (pos 0)) others)

  -- The loop of soonestPeer from `k` on, over what each peer is predicted to take.
  unfoldable pub soonest_from : List F → ℕ → ℕ → F → ℕ → ℕ → ℕ
  soonest_from secs rotate best best_sec k zero = best
  soonest_from secs rotate best best_sec k (suc left) =
      let j = (rotate + k) % length secs in
      let sec = get_or secs j inf in
      let taken = soonest_from secs rotate j sec (suc k) left in
      let kept = soonest_from secs rotate best best_sec (suc k) left in
      if lt sec (mul best_sec (ratio 9 10)) then taken else kept

  unfoldable pub soonest_peer : List F → ℕ → ℕ
  unfolding soonest_from
  soonest_peer secs rotate = soonest_from secs rotate 0 inf 0 (length secs)
