-- ===== src/Routes/Branches.antt =====
-- frontend/src/components/routes/RouteEditor.tsx: the edits of the branches, each with an id of its
-- own for React. The counter of the module is part of the state.
pub mod Apart
pub mod Plain
use vortex_flow.Common.{
  ℕ, zero, suc, ◌+◌, ◌≤◌, ◌<◌, String, Bool, true, false, Option, none, some, List, [], ◌∷◌, ◌++◌,
  map, has, Distinct, length, length-append, ◌≡◌, refl, ap, sym, ◌∙◌, arith, ◌==◌, ◌+s◌, show,
  show-inj, if◌then◌else◌, text_append_cancel_left, test_of_ne, has-append, In, Bool-cases, inl,
  inr, eq_iff, All, Distinct-snoc, All-append,
}
use vortex_flow.Types.{RouteBranch}

pub record EditableBranch : Type 0 where
  pub branch : RouteBranch
  pub uid : String

pub record Editor : Type 0 where
  pub branches : List EditableBranch
  pub branch_uid_counter : ℕ

abbrev pub uid_at : ℕ → String
uid_at n = "b" +s show n

abbrev pub blank_branch : String → RouteBranch
blank_branch name = record { name = name; condition = ""; sink_ids = [] }

-- A branch at the end, with the next id.
abbrev pub append_branch : RouteBranch → Editor → Editor
append_branch b e = record {
  branches = e.branches ++ (record { branch = b; uid = uid_at (suc e.branch_uid_counter) } ∷ []);
  branch_uid_counter = suc e.branch_uid_counter;
}

unfoldable pub append_branches : List RouteBranch → Editor → Editor
append_branches [] e = e
append_branches (b ∷ bs) e = append_branches bs (append_branch b e)

-- The branches of a stored route, or one blank branch; `n` is the counter before.
abbrev pub open_branches : Option (List RouteBranch) → ℕ → Editor
open_branches none n =
    append_branch (blank_branch "branch_1") (record { branches = []; branch_uid_counter = n })
open_branches (some bs) n = append_branches bs (record { branches = []; branch_uid_counter = n })

unfoldable pub add_branch : Editor → Editor
add_branch e = append_branch (blank_branch ("branch_" +s show (length e.branches + 1))) e

unfoldable pub update_at : ℕ → RouteBranch → List EditableBranch → List EditableBranch
update_at i b [] = []
update_at zero b (x ∷ xs) = record x { branch = b } ∷ xs
update_at (suc i) b (x ∷ xs) = x ∷ update_at i b xs

unfoldable pub update_branch : ℕ → RouteBranch → Editor → Editor
update_branch i b e = record e { branches = update_at i b e.branches }

unfoldable pub remove_at : ℕ → List EditableBranch → List EditableBranch
remove_at i [] = []
remove_at zero (x ∷ xs) = xs
remove_at (suc i) (x ∷ xs) = x ∷ remove_at i xs

unfoldable pub remove_branch : ℕ → Editor → Editor
remove_branch i e = record e { branches = remove_at i e.branches }

-- What a save sends.
unfoldable pub clean_branches : Editor → List RouteBranch
clean_branches e = map (λ x. x.branch) e.branches

pub data Edit : Type 0 where
  adds : Edit
  updates : ℕ → RouteBranch → Edit
  removes : ℕ → Edit

unfoldable pub edit : Edit → Editor → Editor
edit adds e = add_branch e
edit (updates i b) e = update_branch i b e
edit (removes i) e = remove_branch i e

unfoldable pub edit_all : List Edit → Editor → Editor
edit_all [] e = e
edit_all (x ∷ xs) e = edit_all xs (edit x e)

abbrev pub uids : List EditableBranch → List String
uids xs = map (λ x. x.uid) xs
