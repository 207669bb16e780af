-- ===== src/Routes/Sinks.antt =====
-- The entries of the preview of a route are all sinks that the editor knows.
use vortex_flow.Common.{
  String, true, false, none, some, List, [], ◌∷◌, ◌≡◌, refl, ap, inl, inr, Bool-cases, arith, ◌==◌,
  Dict, get, has_key, insert, eq_iff,
}
use vortex_flow.Types.{Component, RouteBranch}
use vortex_flow.Routes.{
  RouteYamlInput, branch_key, sink_inputs, add_sink_input, add_sink_inputs, add_branch_inputs,
}

pub get-has_key :
    {A : Type 0} (k : String) (d : Dict A) → has_key k d ≡ true → (v : A) × (get k d ≡ some v)
unfolding get
get-has_key k [] h = cc
get-has_key k ((j, v) ∷ d) h = elim (Bool-cases (j == k)) [
  | inl e ↦ rw e (v, refl)
  | inr e ↦ rw e (get-has_key k d (rw e at h))
]

module _ {V : Type 0} where
  -- The ids of the entries are all known.
  unfoldable pub Known : Dict (Component V) → Dict (List String) → Type 0
  Known sinks [] = Unit
  Known sinks ((id, inputs) ∷ rest) = (has_key id sinks ≡ true) × Known sinks rest

  Known-insert :
      (sinks : Dict (Component V)) (id : String) (outs : List String) (entries : Dict (List String))
      → has_key id sinks ≡ true
      → Known sinks entries
      → Known sinks (insert id outs entries)
  unfolding Known insert
  Known-insert sinks id outs [] h known = (h, tt)
  Known-insert sinks id outs ((j, w) ∷ entries) h known = elim (Bool-cases (j == id)) [
    | inl e ↦ rw e known
    | inr e ↦ rw e (known.0, Known-insert sinks id outs entries h known.1)
  ]

  Known-add_sink_inputs :
      (sinks : Dict (Component V)) (safe_name : String) (ids : List String) (out : String)
      (entries : Dict (List String))
      → Known sinks entries
      → Known sinks (add_sink_inputs sinks safe_name ids out entries)
  unfolding add_sink_inputs add_sink_input
  Known-add_sink_inputs sinks safe_name [] out entries known = known
  Known-add_sink_inputs sinks safe_name (id ∷ ids) out entries known =
      Known-add_sink_inputs sinks safe_name ids out (add_sink_input sinks safe_name id out entries)
        (elim (Bool-cases (has_key id sinks)) [
          | inl e ↦ rw e (Known-insert sinks id _ entries e known)
          | inr e ↦ rw e known
        ])

  Known-add_branch_inputs :
      (sinks : Dict (Component V)) (safe_name : String) (bs : List RouteBranch)
      (entries : Dict (List String))
      → Known sinks entries
      → Known sinks (add_branch_inputs sinks safe_name bs entries)
  unfolding add_branch_inputs
  Known-add_branch_inputs sinks safe_name [] entries known = known
  Known-add_branch_inputs sinks safe_name (b ∷ bs) entries known =
      Known-add_branch_inputs sinks safe_name bs
        (add_sink_inputs sinks safe_name b.sink_ids (branch_key b) entries)
        (Known-add_sink_inputs sinks safe_name b.sink_ids (branch_key b) entries known)

  pub Known-sink_inputs :
      (i : RouteYamlInput V) (safe_name : String) → Known i.sink_by_id (sink_inputs i safe_name)
  unfolding sink_inputs
  Known-sink_inputs i safe_name =
      Known-add_sink_inputs i.sink_by_id safe_name i.passthrough_sink_ids "_unmatched"
        (add_branch_inputs i.sink_by_id safe_name i.branches [])
        (Known-add_branch_inputs i.sink_by_id safe_name i.branches [] (unfold Known in tt))

  pub get-Known :
      (sinks : Dict (Component V)) (id : String) (entries : Dict (List String))
      → Known sinks entries
      → has_key id sinks ≡ false
      → get id entries ≡ none
  unfolding get Known
  get-Known sinks id [] known h = refl
  get-Known sinks id ((j, outs) ∷ entries) known h =
      let apart : (j == id) ≡ false =
        ground (arith, eq_iff j id, ap (λ k. has_key k sinks), known.0) in
      rw apart (get-Known sinks id entries known.1 h)
