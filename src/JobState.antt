-- ===== src/JobState.antt =====
-- The states of a task and the moves between them (src/internal/jobhistory/states.go). A state is a
-- text, as in the source, so that a text which names no state is covered.
use pipedpeer.Base.{
  ℕ, suc, ◌+◌, ◌≤◌, ◌≡◌, ◌≢◌, ◌↔◌, subst, sym, refl, String, Bool, true, false, if◌then◌else◌,
  Option, none, some, List, [], ◌∷◌, ◌⊎◌, inl, inr, ◌||◌, arith, Option-cases,
}
use pipedpeer.Base.Eq.{◌==◌, string_eq}
use pipedpeer.Base.Map.{Map, get, has}

abbrev pub state_queued : String
state_queued = "queued"

abbrev pub state_reserved : String
state_reserved = "reserved"

abbrev pub state_running : String
state_running = "running"

abbrev pub state_succeeded : String
state_succeeded = "succeeded"

abbrev pub state_failed : String
state_failed = "failed"

abbrev pub state_cancelled : String
state_cancelled = "cancelled"

abbrev pub state_expired : String
state_expired = "expired"

abbrev pub all_states : List String
all_states =
    state_queued ∷ state_reserved ∷ state_running ∷ state_succeeded ∷ state_failed ∷ state_cancelled
    ∷ state_expired ∷ []

unfoldable pub valid_transitions : Map String (Map String Bool)
valid_transitions =
    (state_queued, (state_reserved, true) ∷ (state_cancelled, true) ∷ [])
    ∷ (state_reserved, (state_running, true) ∷ (state_expired, true) ∷ (state_cancelled, true) ∷ [])
    ∷ (state_running, (state_succeeded, true) ∷ (state_failed, true) ∷ (state_cancelled, true) ∷ [])
    ∷ (state_succeeded, [])
    ∷ (state_failed, [])
    ∷ (state_cancelled, [])
    ∷ (state_expired, [])
    ∷ []

unfoldable pub is_terminal : String → Bool
is_terminal state =
    ((state == state_succeeded || state == state_failed) || state == state_cancelled)
    || state == state_expired

pub data TransitionError : Type 0 where
  unknown_state : String → TransitionError
  invalid_transition : String → String → TransitionError

-- A missing key of a map of Booleans reads as false.
abbrev pub allows : Map String Bool → String → Bool
allows targets to = elim (get to targets) [ none ↦ false | some b ↦ b ]

unfoldable pub validate_transition : String → String → Option TransitionError
validate_transition from to = elim (get from valid_transitions) [
  | none ↦ some (unknown_state from)
  | some targets ↦ if allows targets to then none else some (invalid_transition from to)
]

-- The status of the record after the call, and the error.
unfoldable pub transition : String → String → String × Option TransitionError
transition status to = elim (validate_transition status to) [
  | some e ↦ (status, some e)
  | none ↦ (to, none)
]

unfoldable pub moves : String → List String → String
moves status [] = status
moves status (to ∷ tos) = moves (transition status to).0 tos

-- How many moves a state is from the start.
unfoldable rank : String → ℕ
rank s =
    if state_queued == s
    then 0
    else (if state_reserved == s then 1 else (if state_running == s then 2 else 3))

by_state :
    (s : String)
    → (state_queued ≡ s)
      ⊎ (state_reserved ≡ s)
      ⊎ (state_running ≡ s)
      ⊎ ((state_queued == s) ≡ false)
        × ((state_reserved == s) ≡ false)
        × ((state_running == s) ≡ false)
by_state s = ground (
  arith,
  string_eq.beq_iff state_queued s,
  string_eq.beq_iff state_reserved s,
  string_eq.beq_iff state_running s,
)

validate-later :
    (from to : String)
    → (state_queued == from) ≡ false
    → (state_reserved == from) ≡ false
    → (state_running == from) ≡ false
    → validate_transition from to ≢ none
unfolding validate_transition valid_transitions get
validate-later from to q r n = ground arith

-- From a state that is known the moves lead to states of a higher rank.
abbrev Forward : String → String → Type 0
Forward from to = validate_transition from to ≡ none → suc (rank from) ≤ rank to

Forward-queued : (to : String) → Forward state_queued to
unfolding rank validate_transition valid_transitions get
Forward-queued to h = elim (by_state to) [
  | inl q ↦
      absurd (ground (arith, subst (λ t. validate_transition state_queued t ≡ none) (sym q) h))
  | inr (inl q) ↦ subst (λ t. 1 ≤ rank t) q (omega arith)
  | inr (inr (inl q)) ↦ subst (λ t. 1 ≤ rank t) q (omega arith)
  | inr (inr (inr (q, r, n))) ↦ ground (arith, q, r, n)
]

Forward-reserved : (to : String) → Forward state_reserved to
unfolding rank validate_transition valid_transitions get
Forward-reserved to h = elim (by_state to) [
  | inl q ↦
      absurd (ground (arith, subst (λ t. validate_transition state_reserved t ≡ none) (sym q) h))
  | inr (inl q) ↦
      absurd (ground (arith, subst (λ t. validate_transition state_reserved t ≡ none) (sym q) h))
  | inr (inr (inl q)) ↦ subst (λ t. 2 ≤ rank t) q (omega arith)
  | inr (inr (inr (q, r, n))) ↦ ground (arith, q, r, n)
]

Forward-running : (to : String) → Forward state_running to
unfolding rank validate_transition valid_transitions get
Forward-running to h = elim (by_state to) [
  | inl q ↦
      absurd (ground (arith, subst (λ t. validate_transition state_running t ≡ none) (sym q) h))
  | inr (inl q) ↦
      absurd (ground (arith, subst (λ t. validate_transition state_running t ≡ none) (sym q) h))
  | inr (inr (inl q)) ↦
      absurd (ground (arith, subst (λ t. validate_transition state_running t ≡ none) (sym q) h))
  | inr (inr (inr (q, r, n))) ↦ ground (arith, q, r, n)
]

validate_transition-Forward : (from to : String) → Forward from to
validate_transition-Forward from to = elim (by_state from) [
  | inl q ↦ subst (λ s. Forward s to) q (Forward-queued to)
  | inr (inl q) ↦ subst (λ s. Forward s to) q (Forward-reserved to)
  | inr (inr (inl q)) ↦ subst (λ s. Forward s to) q (Forward-running to)
  | inr (inr (inr (q, r, n))) ↦ λ h. absurd (validate-later from to q r n h)
]

rank-le : (s : String) → rank s ≤ 3
unfolding rank
rank-le s = ground arith

abbrev tally : Option TransitionError → ℕ → ℕ
tally none n = suc n
tally (some e) n = n

-- How many of the moves that are tried from a state are made.
unfoldable pub count_moves : String → List String → ℕ
count_moves status [] = 0
count_moves status (to ∷ tos) =
    let rest = count_moves (transition status to).0 tos in tally (transition status to).1 rest

count_moves-step :
    (s to : String) (tos : List String) (t : String × Option TransitionError)
    → transition s to ≡ t
    → count_moves s (to ∷ tos) ≡ tally t.1 (count_moves t.0 tos)
unfolding count_moves
count_moves-step s to tos t e =
    subst (λ r. count_moves s (to ∷ tos) ≡ tally r.1 (count_moves r.0 tos)) e refl

transition-made : (s to : String) → validate_transition s to ≡ none → transition s to ≡ (to, none)
unfolding transition
transition-made s to e = rw (e, transition) refl

transition-refused :
    (s to : String) (x : TransitionError)
    → validate_transition s to ≡ some x
    → transition s to ≡ (s, some x)
unfolding transition
transition-refused s to x e = rw (e, transition) refl

count_moves-rank : (s : String) (tos : List String) → count_moves s tos + rank s ≤ 3
unfolding count_moves
count_moves-rank s [] = omega (arith, rank-le s)
count_moves-rank s (to ∷ tos) = elim (Option-cases (validate_transition s to)) [
  | inl e ↦ omega (
    arith,
    count_moves-step s to tos (to, none) (transition-made s to e),
    count_moves-rank to tos,
    validate_transition-Forward s to e,
  )
  | inr (x, e) ↦ omega (
    arith,
    count_moves-step s to tos (s, some x) (transition-refused s to x e),
    count_moves-rank s tos,
  )
]

-- Whatever states are asked of Transition one after another, from any state, at most three of the
-- calls move the task. A state that is written without Transition is not counted.
pub count_moves-le : (s : String) (tos : List String) → count_moves s tos ≤ 3
count_moves-le s tos = omega (arith, count_moves-rank s tos)

no_move : (s : String) → is_terminal s ≡ true → (to : String) → validate_transition s to ≢ none
unfolding is_terminal
no_move s h to = elim (by_state s) [
  | inl q ↦ absurd (ground (arith, subst (λ t. is_terminal t ≡ true) (sym q) h))
  | inr (inl q) ↦ absurd (ground (arith, subst (λ t. is_terminal t ≡ true) (sym q) h))
  | inr (inr (inl q)) ↦ absurd (ground (arith, subst (λ t. is_terminal t ≡ true) (sym q) h))
  | inr (inr (inr (q, r, n))) ↦ validate-later s to q r n
]

-- A state that has no way out.
abbrev pub IsStuck : String → Type 0
IsStuck s = (to : String) → validate_transition s to ≢ none

first-moves : (s : String) → (s ≡ state_queued) ⊎ (s ≡ state_reserved) → ¬ IsStuck s
unfolding validate_transition valid_transitions get
first-moves s (inl q) stuck = subst IsStuck q stuck state_cancelled refl
first-moves s (inr q) stuck = subst IsStuck q stuck state_cancelled refl

running-moves : ¬ IsStuck state_running
unfolding validate_transition valid_transitions get
running-moves stuck = stuck state_failed refl

last_states :
    (s : String)
    → has s valid_transitions ≡ true
    → (state_queued == s) ≡ false
    → (state_reserved == s) ≡ false
    → (state_running == s) ≡ false
    → is_terminal s ≡ true
unfolding is_terminal valid_transitions has
last_states s known q r n = ground (
  arith,
  string_eq.beq_iff s state_succeeded,
  string_eq.beq_iff s state_failed,
  string_eq.beq_iff s state_cancelled,
  string_eq.beq_iff s state_expired,
  string_eq.beq_iff state_succeeded s,
  string_eq.beq_iff state_failed s,
  string_eq.beq_iff state_cancelled s,
  string_eq.beq_iff state_expired s,
)

-- A known state is terminal exactly if no move leaves it.
pub is_terminal-IsStuck :
    (s : String) → has s valid_transitions ≡ true → (is_terminal s ≡ true) ↔ IsStuck s
is_terminal-IsStuck s known = (
  no_move s,
  λ stuck. elim (by_state s) [
    | inl q ↦ absurd (first-moves s (inl (sym q)) stuck)
    | inr (inl q) ↦ absurd (first-moves s (inr (sym q)) stuck)
    | inr (inr (inl q)) ↦ absurd (running-moves (subst IsStuck (sym q) stuck))
    | inr (inr (inr (q, r, n))) ↦ last_states s known q r n
  ],
)

-- A task in a terminal state stays there, whatever states are set.
pub moves-is_terminal : (s : String) (tos : List String) → is_terminal s ≡ true → moves s tos ≡ s
unfolding moves
moves-is_terminal s [] h = refl
moves-is_terminal s (to ∷ tos) h = elim (Option-cases (validate_transition s to)) [
  | inl e ↦ absurd (no_move s h to e)
  | inr (x, e) ↦ rw (transition-refused s to x e) (moves-is_terminal s tos h)
]
