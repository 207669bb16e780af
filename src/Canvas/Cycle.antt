-- ===== src/Canvas/Cycle.antt =====
-- `wouldCycle` of frontend/src/components/topology/FleetTopologyCanvas.tsx: a depth-first search
-- with an explicit stack. The stack has its top at the head.
pub mod Correct
use vortex_flow.Common.{
  ℕ, zero, suc, ◌+◌, String, Bool, true, false, Option, none, some, List, [], ◌∷◌, ◌++◌, map,
  reverse, ◌==◌, if◌then◌else◌, has, length, Dict, get, map_of,
}
use vortex_flow.Types.{TransformStage}

-- `new Map(stages.map((s) => [s.id, s.inputs]))`
abbrev pub inputs_of : List TransformStage → Dict (List String)
inputs_of stages = map_of (map (λ s. (s.id, s.inputs)) stages)

-- `stack.push(...ins)`
abbrev pub push_all : Option (List String) → List String → List String
push_all none stack = stack
push_all (some ins) stack = reverse ins ++ stack

-- The `while (stack.length)` loop; `none` means that the fuel ran out.
unfoldable pub search_from :
    Dict (List String) → String → ℕ → List String → List String → Option Bool
search_from m target zero seen stack = none
search_from m target (suc f) seen [] = some false
search_from m target (suc f) seen (cur ∷ stack) =
    let skip = search_from m target f seen stack in
    let go = search_from m target f (cur ∷ seen) (push_all (get cur m) stack) in
    if cur == target then some true else if has seen cur then skip else go

abbrev pub weight : Dict (List String) → ℕ
weight [] = 0
weight ((k, ins) ∷ m) = length ins + weight m

-- A round pops one id, and each entry of the map is pushed at most once.
unfoldable pub cycle_search : List TransformStage → String → String → Option Bool
unfolding search_from
cycle_search stages src target =
    let m = inputs_of stages in search_from m target (2 + weight m) [] (src ∷ [])

abbrev pub answer : Option Bool → Bool
answer none = false
answer (some b) = b

-- Whether an edge from `src` to `target` would close a cycle.
unfoldable pub would_cycle : List TransformStage → String → String → Bool
would_cycle stages src target = answer (cycle_search stages src target)
