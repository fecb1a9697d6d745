-- ===== src/Coordinator.antt =====
-- The order in which a submitter offers a job to the nodes, and one pass over them (the smart strategy
-- of PlaceWithRetry in src/internal/coordinator/place.go). What a node answers is an argument.
pub mod Pass
use pipedpeer.Base.{
  ℕ, zero, suc, Bool, true, false, not, if◌then◌else◌, ltb, ◌&&◌, ◌||◌, Option, none, some, List,
  [], ◌∷◌, ◌++◌, String,
}
use pipedpeer.Base.Eq.{◌==◌, nat_eq, string_eq}
use pipedpeer.Base.Float.{FloatOps}
use pipedpeer.Base.Map.{Map, get}

-- What the order reads of a registry.NodeRecord; a capability that is missing is empty.
pub record Node : Type 0 where
  pub node_id : String
  pub gpu_capability : String
  pub gpu_model : String
  pub gpus : ℕ

pub record ScoredNode (F : Type 0) : Type 0 where
  pub node : Node
  pub score : F
  pub rejected : Bool

unfoldable pub has_gpu : Node → Bool
has_gpu n =
    (not (n.gpu_capability == "") && not (n.gpu_capability == "none"))
    || not (n.gpu_model == "")
    || not (n.gpus == 0)

-- sort.SliceStable: equal elements keep their order.
module _ {A : Type 0} (less : A → A → Bool) where
  unfoldable pub insert_stable : A → List A → List A
  insert_stable x [] = x ∷ []
  insert_stable x (y ∷ ys) =
      let later = insert_stable x ys in if less y x then y ∷ later else x ∷ (y ∷ ys)

  unfoldable pub sort_stable : List A → List A
  sort_stable [] = []
  sort_stable (x ∷ xs) = insert_stable x (sort_stable xs)

-- How a job wants a GPU.
pub data GpuWish : Type 0 where
  gpu_required gpu_preferred gpu_no_matter : GpuWish

module _ {F : Type 0} (ops : FloatOps F) where
  -- The candidates that are not rejected, with a GPU or without one.
  unfoldable pub group : Bool → List (ScoredNode F) → List (ScoredNode F)
  group wants [] = []
  group wants (c ∷ cs) =
      let rest = group wants cs in
      let mine = if wants then has_gpu c.node else not (has_gpu c.node) in
      if not c.rejected && mine then c ∷ rest else rest

  abbrev pub better : ScoredNode F → ScoredNode F → Bool
  better c d = ops.lt d.score c.score

  unfoldable pub tries_of : Map String ℕ → ScoredNode F → ℕ
  tries_of tried c = elim (get c.node.node_id tried) [ none ↦ 0 | some n ↦ n ]

  abbrev pub fewer : Map String ℕ → ScoredNode F → ScoredNode F → Bool
  fewer tried c d = ltb (tries_of tried c) (tries_of tried d)

  unfoldable pub wished : GpuWish → List (ScoredNode F) → List (ScoredNode F)
  wished wish cands =
      let gpus = sort_stable better (group true cands) in
      let cpus = sort_stable better (group false cands) in
      elim wish [
        | gpu_required ↦ gpus
        | gpu_preferred ↦ gpus ++ cpus
        | gpu_no_matter ↦ sort_stable better (gpus ++ cpus)
      ]

  unfoldable pub candidate_order :
      GpuWish → Map String ℕ → List (ScoredNode F) → List (ScoredNode F)
  candidate_order wish tried cands = sort_stable (fewer tried) (wished wish cands)

  -- The candidates in their order, until one grants a lease; `try` is tryCandidate.
  module _ {R : Type 0} (try : ScoredNode F → Option R) where
    unfoldable pub first_granted : List (ScoredNode F) → Option R
    first_granted [] = none
    first_granted (c ∷ cs) =
        let later = first_granted cs in elim (try c) [ none ↦ later | some lease ↦ some lease ]

    unfoldable pub place_pass : GpuWish → Map String ℕ → List (ScoredNode F) → Option R
    place_pass wish tried cands = first_granted (candidate_order wish tried cands)
