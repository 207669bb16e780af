-- ===== src/Routes/Inputs.antt =====
-- What each sink reads in the preview of a route.
use vortex_flow.Common.{
  String, true, Option, none, some, List, [], ◌∷◌, ◌++◌, map, filter, flat_map, has, add, uniq,
  uniq_from, ◌≡◌, refl, ap, sym, ◌∙◌, inl, inr, Bool-cases, ◌==◌, ◌+s◌, if◌then◌else◌, Dict, get,
  get-insert, has_key, eq_iff,
}
use vortex_flow.Types.{Component, RouteBranch}
use vortex_flow.Routes.{
  RouteYamlInput, with_output, branch_key, add_sink_input, add_sink_inputs, add_branch_inputs,
  sink_inputs,
}
use vortex_flow.Routes.Sinks.{get-Known, Known-sink_inputs}

-- The outputs of the route that name a sink, in the order of the branches.
abbrev outputs_for : String → List String → String → List String
outputs_for id ids out = map (λ s. out) (filter (λ s. s == id) ids)

abbrev pub route_outputs : {V : Type 0} → RouteYamlInput V → String → String → List String
route_outputs i safe_name id =
    flat_map (λ b. outputs_for id b.sink_ids (safe_name +s ("." +s branch_key b))) i.branches
    ++ outputs_for id i.passthrough_sink_ids (safe_name +s ("." +s "_unmatched"))

-- A list, if it is not empty.
abbrev pub unless_empty : List String → Option (List String)
unless_empty [] = none
unless_empty (x ∷ xs) = some (x ∷ xs)

adding : Option (List String) → List String → Option (List String)
adding o [] = o
adding o (x ∷ xs) = adding (some (with_output o x)) xs

adding-append :
    (o : Option (List String)) (xs ys : List String) → adding o (xs ++ ys) ≡ adding (adding o xs) ys
unfolding adding
adding-append o [] ys = refl
adding-append o (x ∷ xs) ys = adding-append (some (with_output o x)) xs ys

adding-some : (seen xs : List String) → adding (some seen) xs ≡ some (uniq_from seen xs)
unfolding adding
adding-some seen [] = refl
adding-some seen (x ∷ xs) = adding-some (add seen x) xs

unless_empty-uniq_from :
    (x : String) (seen xs : List String)
    → unless_empty (uniq_from (x ∷ seen) xs) ≡ some (uniq_from (x ∷ seen) xs)
unless_empty-uniq_from x seen [] = refl
unless_empty-uniq_from x seen (y ∷ ys) = elim (Bool-cases (has (x ∷ seen) y)) [
  | inl e ↦ rw e (unless_empty-uniq_from x seen ys)
  | inr e ↦ rw e (unless_empty-uniq_from x (seen ++ (y ∷ [])) ys)
]

adding-none : (xs : List String) → adding none xs ≡ unless_empty (uniq xs)
unfolding adding uniq
adding-none [] = refl
adding-none (x ∷ xs) = adding-some (x ∷ []) xs ∙ sym (unless_empty-uniq_from x [] xs)

module _ {V : Type 0} (sinks : Dict (Component V)) (safe_name id : String) where
  get-add_sink_input :
      (s out : String) (d : Dict (List String))
      → has_key id sinks ≡ true
      → get id (add_sink_input sinks safe_name s out d)
        ≡ adding (get id d) (outputs_for id (s ∷ []) (safe_name +s ("." +s out)))
  unfolding add_sink_input adding
  get-add_sink_input s out d known = elim (Bool-cases (s == id)) [
    | inl e ↦
        let same : s ≡ id = (eq_iff s id).0 e in
        rw (ap (λ k. has_key k sinks) same ∙ known, get-insert s id, e)
          (ap (λ k. some (with_output (get k d) (safe_name +s ("." +s out)))) same)
    | inr e ↦ elim (Bool-cases (has_key s sinks)) [
      | inl k ↦ rw (k, get-insert s id, e) refl
      | inr k ↦ rw (k, e) refl
    ]
  ]

  get-add_sink_inputs :
      (ids : List String) (out : String) (d : Dict (List String))
      → has_key id sinks ≡ true
      → get id (add_sink_inputs sinks safe_name ids out d)
        ≡ adding (get id d) (outputs_for id ids (safe_name +s ("." +s out)))
  unfolding add_sink_inputs adding
  get-add_sink_inputs [] out d known = refl
  get-add_sink_inputs (s ∷ ids) out d known =
      get-add_sink_inputs ids out (add_sink_input sinks safe_name s out d) known
      ∙ ap (λ o. adding o (outputs_for id ids (safe_name +s ("." +s out))))
          (get-add_sink_input s out d known)
      ∙ elim (Bool-cases (s == id)) [ inl e ↦ rw e refl | inr e ↦ rw e refl ]

  get-add_branch_inputs :
      (bs : List RouteBranch) (d : Dict (List String))
      → has_key id sinks ≡ true
      → get id (add_branch_inputs sinks safe_name bs d)
        ≡ adding
            (get id d)
            (flat_map (λ b. outputs_for id b.sink_ids (safe_name +s ("." +s branch_key b))) bs)
  unfolding add_branch_inputs adding
  get-add_branch_inputs [] d known = refl
  get-add_branch_inputs (b ∷ bs) d known =
      get-add_branch_inputs bs (add_sink_inputs sinks safe_name b.sink_ids (branch_key b) d) known
      ∙ ap
          (λ o.
            adding o
              (flat_map (λ b. outputs_for id b.sink_ids (safe_name +s ("." +s branch_key b))) bs))
          (get-add_sink_inputs b.sink_ids (branch_key b) d known)
      ∙ sym (
          adding-append (get id d) (outputs_for id b.sink_ids (safe_name +s ("." +s branch_key b)))
            _)

-- A sink that the editor knows is written just where some branch or the rest of the events goes to
-- it, and then reads each output of the route that names it once; no other id is written.
pub get-sink_inputs :
    {V : Type 0} (i : RouteYamlInput V) (safe_name id : String)
    → get id (sink_inputs i safe_name) ≡ (
        if has_key id i.sink_by_id
        then unless_empty (uniq (route_outputs i safe_name id))
        else none)
get-sink_inputs i safe_name id = elim (Bool-cases (has_key id i.sink_by_id)) [
  | inl e ↦ rw e (
      unfold sink_inputs get in
      get-add_sink_inputs i.sink_by_id safe_name id i.passthrough_sink_ids "_unmatched"
        (add_branch_inputs i.sink_by_id safe_name i.branches []) e
      ∙ ap
          (λ o.
            adding o (outputs_for id i.passthrough_sink_ids (safe_name +s ("." +s "_unmatched"))))
          (get-add_branch_inputs i.sink_by_id safe_name id i.branches [] e)
      ∙ sym (
          adding-append none
            (flat_map (λ b. outputs_for id b.sink_ids (safe_name +s ("." +s branch_key b)))
              i.branches)
            _)
      ∙ adding-none (route_outputs i safe_name id))
  | inr e ↦
      rw e (get-Known i.sink_by_id id (sink_inputs i safe_name) (Known-sink_inputs i safe_name) e)
]
