-- ===== src/Examples/Parts.antt =====
-- Runs of the flight book and of the choice of peers (src/internal/daemonapi/poolrates.go,
-- poolsteal.go, pool.go, poolrun.go).
use pipedpeer.Base.{ℕ, true, false, none, some, inr, List, [], ◌∷◌, ◌≡◌, refl, arith}
use pipedpeer.Base.Eq.{nat_eq, string_eq}
use pipedpeer.Base.Int.{pos}
use pipedpeer.Base.Float.{whole, whole-OrderLaws}
use pipedpeer.Base.Map.{get, insert}
use pipedpeer.Pool.Book.{
  Book, Slot, empty_book, busy, held, limit, free, book, seconds, rest_of, soonest, earliest_free,
  stealable, pick_other, pick_slot, acquire_first,
}
use pipedpeer.Pool.Choice.{Chosen, acquire_first-Chosen}
use pipedpeer.Pool.Gate.{Event, acquires, tries, ends, IsGated, happen_all, happen_all-IsGated}
use pipedpeer.Pool.Peers.{PoolManager}
use pipedpeer.Pool.Rates.{Obs, PeerObs, add_obs}
use pipedpeer.Pool.Window.{IsRing, oldest_first, remember, add_obs-refines}

abbrev fast : Slot ℕ
fast = record { key = "fast"; depth = pos 1; pred = 10 }

abbrev slow : Slot ℕ
slow = record { key = "slow"; depth = pos 1; pred = 12 }

-- A book in which the fast node is full.
abbrev full_book : Book ℕ
full_book = record {
  next = 1;
  nodes = ("fast", (1, record { start = 0; pred = 10 }) ∷ []) ∷ [];
  wakes = 0;
}

abbrev both_full : Book ℕ
both_full = record {
  next = 2;
  nodes =
      ("fast", (1, record { start = 0; pred = 10 }) ∷ [])
      ∷ ("slow", (2, record { start = 0; pred = 12 }) ∷ [])
      ∷ [];
  wakes = 0;
}

abbrev events : List (Event ℕ)
events =
    acquires fast (slow ∷ []) 5
    ∷ tries slow 6
    ∷ ends (record { key = "fast"; id = 1; once = false })
    ∷ []

happen_all-IsGated_example : IsGated 1 (happen_all whole empty_book events)
unfolding limit held busy get
happen_all-IsGated_example =
    happen_all-IsGated whole whole-OrderLaws 1 empty_book events
      ((omega arith, (omega arith, tt)), (omega arith, (tt, tt))) (λ k. omega arith)

acquire_first-Chosen_example :
    (c : Slot ℕ) × Chosen whole whole-OrderLaws fast (slow ∷ []) 5 full_book 1 c
    × ((acquire_first whole fast (slow ∷ []) 5 full_book).1 ≡ (book c 5 full_book).1)
    × ((book slow 5 full_book).0 ≡ (book c 5 full_book).0)
unfolding acquire_first pick_slot pick_other stealable free held busy limit book get insert
    earliest_free soonest rest_of seconds
acquire_first-Chosen_example =
    acquire_first-Chosen whole whole-OrderLaws fast (slow ∷ []) 5 full_book 1
      (book slow 5 full_book).0 refl

abbrev manager : PoolManager
manager = record {
  node_fn = none;
  machine_fn = some (λ p. p);
  reply_ids = [];
  warm = [];
  dead_peers = ("gone", true) ∷ [];
}

abbrev first_obs : Obs ℕ
first_obs = record { items = 4; sec = 2 }

abbrev ninth : Obs ℕ
ninth = record { items = 9; sec = 3 }

abbrev full_ring : PeerObs ℕ
full_ring = record {
  ring =
      first_obs ∷ first_obs ∷ first_obs ∷ first_obs ∷ first_obs ∷ first_obs ∷ first_obs ∷ first_obs
      ∷ [];
  next = 7;
}

add_obs-refines_example :
    IsRing (add_obs ninth full_ring)
    × (oldest_first (add_obs ninth full_ring) ≡ remember (oldest_first full_ring) ninth)
add_obs-refines_example = add_obs-refines ninth full_ring (inr (refl, omega arith))
