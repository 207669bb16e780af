-- ===== src/Routes/Branches/Plain.antt =====
-- The editor of a route against a list of branches without ids.
use vortex_flow.Common.{
  ℕ, zero, suc, ◌+◌, Option, none, some, List, [], ◌∷◌, ◌++◌, map, map-append, length, length-map,
  append_assoc, append-nil, ◌≡◌, refl, ap, sym, ◌∙◌, ◌+s◌, show, Distinct,
}
use vortex_flow.Types.{RouteBranch}
use vortex_flow.Routes.Branches.{
  EditableBranch, Editor, blank_branch, append_branch, append_branches, open_branches, add_branch,
  update_at, update_branch, remove_at, remove_branch, clean_branches, Edit, adds, updates, removes,
  edit, edit_all, uids,
}
use vortex_flow.Routes.Branches.Apart.{edit_all-Distinct}

-- The edits on a list of branches without ids.
update_plain : ℕ → RouteBranch → List RouteBranch → List RouteBranch
update_plain i b [] = []
update_plain zero b (x ∷ xs) = b ∷ xs
update_plain (suc i) b (x ∷ xs) = x ∷ update_plain i b xs

remove_plain : ℕ → List RouteBranch → List RouteBranch
remove_plain i [] = []
remove_plain zero (x ∷ xs) = xs
remove_plain (suc i) (x ∷ xs) = x ∷ remove_plain i xs

pub edit_plain : Edit → List RouteBranch → List RouteBranch
unfolding update_plain remove_plain
edit_plain adds xs = xs ++ (blank_branch ("branch_" +s show (length xs + 1)) ∷ [])
edit_plain (updates i b) xs = update_plain i b xs
edit_plain (removes i) xs = remove_plain i xs

pub edit_all_plain : List Edit → List RouteBranch → List RouteBranch
edit_all_plain [] xs = xs
edit_all_plain (e ∷ es) xs = edit_all_plain es (edit_plain e xs)

abbrev pub opened_plain : Option (List RouteBranch) → List RouteBranch
opened_plain none = blank_branch "branch_1" ∷ []
opened_plain (some bs) = bs

clean-append_branch :
    (b : RouteBranch) (e : Editor)
    → clean_branches (append_branch b e) ≡ clean_branches e ++ (b ∷ [])
unfolding clean_branches
clean-append_branch b e = map-append (λ x. x.branch) e.branches _

clean-append_branches :
    (bs : List RouteBranch) (e : Editor)
    → clean_branches (append_branches bs e) ≡ clean_branches e ++ bs
unfolding append_branches
clean-append_branches [] e = sym (append-nil (clean_branches e))
clean-append_branches (b ∷ bs) e =
    clean-append_branches bs (append_branch b e)
    ∙ ap (λ l. l ++ bs) (clean-append_branch b e)
    ∙ append_assoc (clean_branches e) (b ∷ []) bs

clean-open_branches :
    (stored : Option (List RouteBranch)) (counter : ℕ)
    → clean_branches (open_branches stored counter) ≡ opened_plain stored
unfolding clean_branches
clean-open_branches none counter = refl
clean-open_branches (some bs) counter =
    clean-append_branches bs (record { branches = []; branch_uid_counter = counter })

clean-update_at :
    (i : ℕ) (b : RouteBranch) (xs : List EditableBranch)
    → map (λ x. x.branch) (update_at i b xs) ≡ update_plain i b (map (λ x. x.branch) xs)
unfolding update_at update_plain
clean-update_at zero b [] = refl
clean-update_at (suc i) b [] = refl
clean-update_at zero b (x ∷ xs) = refl
clean-update_at (suc i) b (x ∷ xs) = ap (λ l. x.branch ∷ l) (clean-update_at i b xs)

clean-remove_at :
    (i : ℕ) (xs : List EditableBranch)
    → map (λ x. x.branch) (remove_at i xs) ≡ remove_plain i (map (λ x. x.branch) xs)
unfolding remove_at remove_plain
clean-remove_at zero [] = refl
clean-remove_at (suc i) [] = refl
clean-remove_at zero (x ∷ xs) = refl
clean-remove_at (suc i) (x ∷ xs) = ap (λ l. x.branch ∷ l) (clean-remove_at i xs)

clean-edit : (x : Edit) (e : Editor) → clean_branches (edit x e) ≡ edit_plain x (clean_branches e)
unfolding edit add_branch update_branch remove_branch edit_plain clean_branches
clean-edit adds e =
    clean-append_branch (blank_branch ("branch_" +s show (length e.branches + 1))) e
    ∙ ap (λ n. clean_branches e ++ (blank_branch ("branch_" +s show (n + 1)) ∷ []))
        (sym (length-map (λ x. x.branch) e.branches))
clean-edit (updates i b) e = clean-update_at i b e.branches
clean-edit (removes i) e = clean-remove_at i e.branches

clean-edit_all :
    (xs : List Edit) (e : Editor)
    → clean_branches (edit_all xs e) ≡ edit_all_plain xs (clean_branches e)
unfolding edit_all edit_all_plain
clean-edit_all [] e = refl
clean-edit_all (x ∷ xs) e = clean-edit_all xs (edit x e) ∙ ap (edit_all_plain xs) (clean-edit x e)

-- However the branches of a route, stored or new, are added, changed and removed, no two of them have
-- the same id; and a save sends what the same edits make of the stored branches, or of one blank
-- branch, as a list with no ids.
pub edit_all_refines :
    (stored : Option (List RouteBranch)) (counter : ℕ) (edits : List Edit)
    → let e = edit_all edits (open_branches stored counter) in
      Distinct (uids e.branches) × (clean_branches e ≡ edit_all_plain edits (opened_plain stored))
edit_all_refines stored counter edits = (
  edit_all-Distinct stored counter edits,
  clean-edit_all edits (open_branches stored counter)
      ∙ ap (edit_all_plain edits) (clean-open_branches stored counter),
)
