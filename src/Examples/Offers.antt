-- ===== src/Examples/Offers.antt =====
-- A pass over two nodes (src/internal/coordinator/place.go).
use pipedpeer.Base.{ℕ, ◌≡◌, true, false, Option, none, some, List, [], ◌∷◌, String, if◌then◌else◌}
use pipedpeer.Base.Eq.{◌==◌, string_eq}
use pipedpeer.Base.Float.{whole}
use pipedpeer.Coordinator.{ScoredNode, gpu_preferred, place_pass, has_gpu}
use pipedpeer.Coordinator.Pass.{is_given, place_pass-is_eligible}

abbrev offer : String → String → ℕ → ScoredNode ℕ
offer id gpu score = record {
  node = record { node_id = id; gpu_capability = gpu; gpu_model = ""; gpus = 0 };
  score = score;
  rejected = false;
}

-- Only the node without a GPU grants a lease.
abbrev answer_of : ScoredNode ℕ → Option String
answer_of c = if c.node.node_id == "b" then some "lease" else none

abbrev offers : List (ScoredNode ℕ)
offers = offer "a" "rtx" 3 ∷ offer "b" "" 9 ∷ []

place_pass-is_eligible_example :
    is_given (place_pass whole answer_of gpu_preferred (("a", 1) ∷ []) offers) ≡ true
unfolding has_gpu
place_pass-is_eligible_example =
    place_pass-is_eligible whole answer_of gpu_preferred (("a", 1) ∷ []) offers
