-- ===== src/Routes/Branches/Apart.antt =====
-- The ids of the branches in the editor of a route.
use vortex_flow.Common.{
  ℕ, zero, suc, ◌≤◌, String, false, Option, none, some, List, [], ◌∷◌, ◌++◌, has, Distinct, ◌≡◌,
  refl, ap, sym, ◌∙◌, arith, show-inj, text_append_cancel_left, map-append, subst, test_of_ne, All,
  Distinct-snoc, All-append,
}
use vortex_flow.Types.{RouteBranch}
use vortex_flow.Routes.Branches.{
  EditableBranch, Editor, blank_branch, uid_at, append_branch, append_branches, open_branches,
  add_branch, update_at, update_branch, remove_at, remove_branch, Edit, adds, updates, removes,
  edit, edit_all, uids,
}

-- Every id was made from a number up to the counter, and none of them stands twice.
IsGiven : ℕ → String → Type 0
IsGiven c u = (n : ℕ) × (n ≤ c) × (u ≡ uid_at n)

abbrev IsApart : List String → ℕ → Type 0
IsApart us c = All (IsGiven c) us × Distinct us

All-IsGiven-suc : (c : ℕ) (us : List String) → All (IsGiven c) us → All (IsGiven (suc c)) us
unfolding IsGiven
All-IsGiven-suc c [] h = tt
All-IsGiven-suc c (u ∷ us) h = ((h.0.0, omega (arith, h.0.1), h.0.2), All-IsGiven-suc c us h.1)

has-next : (c : ℕ) (us : List String) → All (IsGiven c) us → has us (uid_at (suc c)) ≡ false
unfolding IsGiven
has-next c [] h = refl
has-next c (u ∷ us) h =
    rw
      (test_of_ne u (uid_at (suc c)) (λ e.
        omega
          (arith, h.0.1, show-inj h.0.0 (suc c) (text_append_cancel_left "b" _ _ (sym h.0.2 ∙ e)))))
      (has-next c us h.1)

IsApart-next :
    (c : ℕ) (us : List String) → IsApart us c → IsApart (us ++ (uid_at (suc c) ∷ [])) (suc c)
IsApart-next c us h = (
  All-append (IsGiven (suc c)) us (uid_at (suc c) ∷ []) (All-IsGiven-suc c us h.0)
      (unfold IsGiven in ((suc c, omega arith, refl), tt)),
  Distinct-snoc us (uid_at (suc c)) h.1 (has-next c us h.0),
)

IsApart-append_branch :
    (b : RouteBranch) (e : Editor)
    → IsApart (uids e.branches) e.branch_uid_counter
    → IsApart (uids (append_branch b e).branches) (append_branch b e).branch_uid_counter
IsApart-append_branch b e h =
    subst (λ us. IsApart us (suc e.branch_uid_counter)) (sym (map-append (λ x. x.uid) e.branches _))
      (IsApart-next e.branch_uid_counter (uids e.branches) h)

IsApart-append_branches :
    (bs : List RouteBranch) (e : Editor)
    → IsApart (uids e.branches) e.branch_uid_counter
    → IsApart (uids (append_branches bs e).branches) (append_branches bs e).branch_uid_counter
unfolding append_branches
IsApart-append_branches [] e h = h
IsApart-append_branches (b ∷ bs) e h =
    IsApart-append_branches bs (append_branch b e) (IsApart-append_branch b e h)

IsApart-open_branches :
    (o : Option (List RouteBranch)) (n : ℕ)
    → IsApart (uids (open_branches o n).branches) (open_branches o n).branch_uid_counter
IsApart-open_branches none n =
    IsApart-append_branch (blank_branch "branch_1")
      (record { branches = []; branch_uid_counter = n }) (tt, tt)
IsApart-open_branches (some bs) n =
    IsApart-append_branches bs (record { branches = []; branch_uid_counter = n }) (tt, tt)

uids-update_at :
    (i : ℕ) (b : RouteBranch) (xs : List EditableBranch) → uids (update_at i b xs) ≡ uids xs
unfolding update_at
uids-update_at zero b [] = refl
uids-update_at (suc i) b [] = refl
uids-update_at zero b (x ∷ xs) = refl
uids-update_at (suc i) b (x ∷ xs) = ap (λ us. x.uid ∷ us) (uids-update_at i b xs)

has-remove_at :
    (i : ℕ) (xs : List EditableBranch) (a : String)
    → has (uids xs) a ≡ false
    → has (uids (remove_at i xs)) a ≡ false
unfolding remove_at
has-remove_at zero [] a h = refl
has-remove_at (suc i) [] a h = refl
has-remove_at zero (x ∷ xs) a h = ground (arith, h)
has-remove_at (suc i) (x ∷ xs) a h = ground (arith, h, has-remove_at i xs a)

IsApart-remove_at :
    (i c : ℕ) (xs : List EditableBranch) → IsApart (uids xs) c → IsApart (uids (remove_at i xs)) c
unfolding remove_at
IsApart-remove_at zero c [] h = h
IsApart-remove_at (suc i) c [] h = h
IsApart-remove_at zero c (x ∷ xs) h = (h.0.1, h.1.1)
IsApart-remove_at (suc i) c (x ∷ xs) h =
    let rest = IsApart-remove_at i c xs (h.0.1, h.1.1) in
    ((h.0.0, rest.0), (has-remove_at i xs x.uid h.1.0, rest.1))

IsApart-edit :
    (x : Edit) (e : Editor)
    → IsApart (uids e.branches) e.branch_uid_counter
    → IsApart (uids (edit x e).branches) (edit x e).branch_uid_counter
unfolding edit add_branch update_branch remove_branch
IsApart-edit adds e h = IsApart-append_branch _ e h
IsApart-edit (updates i b) e h =
    subst (λ us. IsApart us e.branch_uid_counter) (sym (uids-update_at i b e.branches)) h
IsApart-edit (removes i) e h = IsApart-remove_at i e.branch_uid_counter e.branches h

IsApart-edit_all :
    (xs : List Edit) (e : Editor)
    → IsApart (uids e.branches) e.branch_uid_counter
    → IsApart (uids (edit_all xs e).branches) (edit_all xs e).branch_uid_counter
unfolding edit_all
IsApart-edit_all [] e h = h
IsApart-edit_all (x ∷ xs) e h = IsApart-edit_all xs (edit x e) (IsApart-edit x e h)

pub edit_all-Distinct :
    (stored : Option (List RouteBranch)) (counter : ℕ) (edits : List Edit)
    → Distinct (uids (edit_all edits (open_branches stored counter)).branches)
edit_all-Distinct stored counter edits =
    (IsApart-edit_all edits (open_branches stored counter) (IsApart-open_branches stored counter)).1
