-- ===== src/Nat/Verdict.antt =====
-- What the verdicts mean (src/internal/nattype/nattype.go).
use mathlib.Core.List.{reverse}
use pipedpeer.Base.{
  ℕ, zero, suc, ◌≤◌, ◌≡◌, ◌≢◌, refl, Bool, true, false, if◌then◌else◌, ltb, ◌&&◌, ◌||◌, not, Option,
  none, some, List, [], ◌∷◌, ◌++◌, map, length, take, String, arith, Bool-cases, inl, inr,
}
use pipedpeer.Base.Eq.{◌==◌, nat_eq, string_eq}
use pipedpeer.Nat.{
  Mapping, endpoint_independent, address_dependent, unknown, Filtering, open_filter, restricted,
  filter_unknown, Reflection, Packet, Result, filter_reads, filter_test, Attempt, contains,
  note_seen, verdict, probe, Socket, asked_socket, other_socket, reflect_pair,
}

-- The addresses that servers answered, in their order.
abbrev pub answers_in : List (Option String) → List String
answers_in [] = []
answers_in (none ∷ answers) = answers_in answers
answers_in (some ext ∷ answers) =
    let rest = answers_in answers in if ext == "" then rest else ext ∷ rest

abbrev pub all_eq : String → List String → Bool
all_eq x [] = true
all_eq x (y ∷ ys) = x == y && all_eq x ys

-- What the answers say of the router: nothing, one address for everybody, or several.
abbrev pub mapping_of : List String → Mapping
mapping_of [] = unknown
mapping_of (x ∷ xs) = if all_eq x xs then endpoint_independent else address_dependent

abbrev pub first_of : List String → String
first_of [] = ""
first_of (x ∷ xs) = x

several_seen :
    (f : Filtering) (x y : String) (os : List String) (answers : List (Option String))
    → let res = verdict f (note_seen (x ∷ y ∷ os) answers) in
      (res.mapping ≡ address_dependent) × (res.external ≡ x) × (res.blocked ≡ false)
unfolding note_seen verdict
several_seen f x y os [] = (refl, refl, refl)
several_seen f x y os (none ∷ answers) = several_seen f x y os answers
several_seen f x y os (some ext ∷ answers) =
    elim (Bool-cases (ext == "" || contains ext (x ∷ y ∷ os))) [
      | inl old ↦ rw (old, note_seen) (several_seen f x y os answers)
      | inr new ↦ rw (new, note_seen) (several_seen f x y (os ++ ext ∷ []) answers)
    ]

one_seen :
    (f : Filtering) (x : String) (answers : List (Option String))
    → let res = verdict f (note_seen (x ∷ []) answers) in
      (res.mapping
        ≡ (if all_eq x (answers_in answers) then endpoint_independent else address_dependent))
      × (res.external ≡ x)
      × (res.blocked ≡ false)
unfolding note_seen verdict contains
one_seen f x [] = (refl, refl, refl)
one_seen f x (none ∷ answers) = one_seen f x answers
one_seen f x (some ext ∷ answers) = elim (Bool-cases (ext == "")) [
  | inl empty ↦ rw (empty, note_seen) (one_seen f x answers)
  | inr full ↦ elim (Bool-cases (x == ext)) [
    | inl same ↦ rw (full, same, note_seen) (one_seen f x answers)
    | inr other ↦ rw (full, other, note_seen) (several_seen f x ext [] answers)
  ]
]

none_seen :
    (f : Filtering) (answers : List (Option String))
    → let res = verdict f (note_seen [] answers) in
      let said = answers_in answers in
      (res.mapping ≡ mapping_of said)
      × (res.external ≡ first_of said)
      × (res.blocked ≡ (length said == 0))
unfolding note_seen verdict contains
none_seen f [] = (refl, refl, refl)
none_seen f (none ∷ answers) = none_seen f answers
none_seen f (some ext ∷ answers) = elim (Bool-cases (ext == "")) [
  | inl empty ↦ rw (empty, note_seen) (none_seen f answers)
  | inr full ↦
      let one = one_seen f ext answers in rw (full, note_seen) (one.0, one.1, ground (arith, one.2))
]

-- With two servers or more there is a verdict, and it is what their answers say, in the order asked:
-- unknown and blocked if none answered, endpoint independent if all that answered saw one address,
-- address dependent if two saw different ones; the external address is the first one seen.
pub probe-mapping_of :
    (tested : Option Filtering) (answers : List (Option String))
    → 2 ≤ length answers
    → (res : Result) × (probe tested answers ≡ some res)
      × (res.mapping ≡ mapping_of (answers_in answers))
      × (res.external ≡ first_of (answers_in answers))
      × (res.blocked ≡ (length (answers_in answers) == 0))
unfolding probe
probe-mapping_of tested answers two =
    let f : Filtering = elim tested [ none ↦ filter_unknown | some g ↦ g ] in
    let enough : ltb (length answers) 2 ≡ false = ground (arith, two) in
    let n = none_seen f answers in (verdict f (note_seen [] answers), rw enough refl, n.0, n.1, n.2)

-- A reply of the reflector as the client reads it: from the port asked or from another one.
abbrev pub as_packet : ℕ → ℕ → Socket × Reflection → Option Packet
as_packet port other (asked_socket, r) = some (record { port = port; reflection = some r })
as_packet port other (other_socket, r) = some (record { port = other; reflection = some r })

-- The filtering test against this package's own reflector with two sockets. If both its replies
-- arrive, in either order, the router is found open; if only the acknowledgement does, and then
-- nothing, it is found restricted.
pub filter_test-reflect_pair :
    (port other : ℕ) (from here there : String) (more : List (Attempt (List (Option Packet))))
    → port ≢ other
    → here ≢ ""
    → there ≢ ""
    → let sent = map (as_packet port other) (reflect_pair true from here (some there)) in
      let swapped =
        map (as_packet port other) (reverse (reflect_pair true from here (some there))) in
      let first = take 1 sent in
      (filter_test 3 port false ((true, sent) ∷ more) ≡ some open_filter)
      × (filter_test 3 port false ((true, swapped) ∷ more) ≡ some open_filter)
      × (filter_test 3 port false ((true, first) ∷ more) ≡ some restricted)
unfolding filter_test filter_reads reflect_pair
filter_test-reflect_pair port other from here there more apart named_here named_there = (
  ground (arith, apart, string_eq.beq_iff here "", string_eq.beq_iff there ""),
  ground (arith, apart, string_eq.beq_iff here "", string_eq.beq_iff there ""),
  ground (arith, apart, string_eq.beq_iff here ""),
)

-- A packet with a reflection that names its source, from another port than the one asked.
abbrev pub is_stranger : ℕ → Option Packet → Bool
is_stranger port none = false
is_stranger port (some p) = elim p.reflection [
  | none ↦ false
  | some r ↦ not (r.from == "") && not (p.port == port)
]

abbrev pub any_stranger : ℕ → List (Option Packet) → Bool
any_stranger port [] = false
any_stranger port (p ∷ ps) = is_stranger port p || any_stranger port ps

abbrev pub stranger_in : ℕ → List (Attempt (List (Option Packet))) → Bool
stranger_in port [] = false
stranger_in port ((written, reads) ∷ attempts) =
    any_stranger port reads || stranger_in port attempts

filter_reads-stranger :
    (n port : ℕ) (acked : Bool) (reads : List (Option Packet))
    → (filter_reads n port acked reads).1 ≡ true
    → any_stranger port reads ≡ true
unfolding filter_reads
filter_reads-stranger zero port acked reads h = cc
filter_reads-stranger (suc n) port acked [] h = cc
filter_reads-stranger (suc n) port acked (none ∷ reads) h = cc
filter_reads-stranger (suc n) port acked (some p ∷ reads) h =
    ground
      (arith, h, filter_reads-stranger n port acked reads, filter_reads-stranger n port true reads)

-- A router is found open only if a packet came from a port that the socket never wrote to.
pub filter_test-stranger :
    (n port : ℕ) (acked : Bool) (attempts : List (Attempt (List (Option Packet))))
    → filter_test n port acked attempts ≡ some open_filter
    → stranger_in port attempts ≡ true
unfolding filter_test
filter_test-stranger zero port acked attempts h = cc
filter_test-stranger (suc n) port acked [] h = cc
filter_test-stranger (suc n) port acked ((written, reads) ∷ attempts) h = ground (
  arith,
  h,
  filter_reads-stranger 4 port acked reads,
  filter_test-stranger n port acked attempts,
  filter_test-stranger n port (filter_reads 4 port acked reads).0 attempts,
)
