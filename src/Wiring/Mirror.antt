-- ===== src/Wiring/Mirror.antt =====
-- `fedBy` and `feeds` are mirrors of each other.
use vortex_flow.Common.{
  char-append, text_tests, String, ◌≡◌, ◌≢◌, sym, subst, ap, ◌∙◌, true, Bool, ◌&&◌, not, some, List,
  [], ◌∷◌, ◌++◌, map, inl, inr, ◌==◌, In, In-append_left, In-append_right, find-In, In-filter,
  In-map, map-In, any-In, not-In-nil, find, split, join, includes, first_part, later_parts,
  first_part-includes, ◌+s◌, ◌∷ᶜ◌, starts_with, starts_with-append, arith, eq_iff, Bool-cases,
  Option-cases, eq_of_test,
}
use text.Mathlib.TextLemmas.{append_assoc}
use vortex_flow.Types.{Route}
use vortex_flow.Wiring.{
  FleetGraph, NodeRef, matches_id, matches_target, stage_ref, route_ref, component_ref,
  resolve_branch, resolve, feeds, inputs_of_node, ref_of, fed_by,
}

matches_id_self : (i : String) → matches_id i i ≡ true
matches_id_self i = ground (arith, eq_iff i i)

matches_id_same : (t i : String) → (t == i) ≡ true → matches_id t i ≡ true
matches_id_same t i h = grind text_tests

regroup : (p r : String) → (p +s ".") +s r ≡ p +s ("." ∷ᶜ r)
regroup p r = append_assoc p "." r ∙ ap (λ t. p +s t) (char-append "." r)

-- An output of a route starts with the id of the route and a dot.
matches_id_branch :
    (t i : String)
    → includes "." i ≡ true
    → (t == first_part (split "." i)) ≡ true
    → matches_id t i ≡ true
matches_id_branch t i h e =
    let shape : i ≡ (t +s ".") +s join "." (later_parts (split "." i)) =
      rw (eq_of_test t _ e)
        (first_part-includes "." i h ∙ sym (regroup (first_part (split "." i)) _)) in
    let begins : starts_with i (t +s ".") ≡ true =
      subst (λ s. starts_with s (t +s ".") ≡ true) (sym shape) (starts_with-append (t +s ".") _) in
    ground arith

resolve_branch-matches :
    (routes : List Route) (i : String) (r : NodeRef)
    → resolve_branch routes i ≡ some r
    → matches_id r.id i ≡ true
unfolding resolve_branch
resolve_branch-matches routes i r h = elim (Bool-cases (includes "." i)) [
  | inr e ↦ ground arith
  | inl e ↦ elim (Option-cases (find (λ q. q.id == first_part (split "." i)) routes)) [
    | inl f ↦ ground arith
    | inr (q, f) ↦
        let same : q.id ≡ r.id = ground arith in
        rw (← same) (matches_id_branch q.id i e (find-In _ routes f).1)
  ]
]

matches_target-append :
    (ids more : List String) (t : String)
    → matches_target ids t ≡ true
    → matches_target (ids ++ more) t ≡ true
unfolding matches_target
matches_target-append [] more t h = cc
matches_target-append (i ∷ ids) more t h = ground (arith, matches_target-append ids more t)

-- The test of `feeds` on the node that was found.
listed :
    (k r n : String) {b : Bool} → (k == n) ≡ true → r ≢ n → b ≡ true → (not (k == r) && b) ≡ true
listed k r n found ne reads = grind text_tests

module _ {V : Type 0} where
  resolve-matches :
      (g : FleetGraph V) (i : String) (r : NodeRef)
      → resolve g i ≡ some r
      → matches_id r.id i ≡ true
  unfolding resolve
  resolve-matches g i r h = elim (Option-cases (find (λ c. c.id == i) g.components)) [
    | inr (c, e) ↦
        let same : c.id ≡ r.id = ground arith in
        rw (← same) (matches_id_same c.id i (find-In _ g.components e).1)
    | inl e ↦ elim (Option-cases (find (λ s. s.id == i) g.stages)) [
      | inr (s, f) ↦
          let same : s.id ≡ r.id = ground arith in
          rw (← same) (matches_id_same s.id i (find-In _ g.stages f).1)
      | inl f ↦ elim (Option-cases (find (λ r. r.id == i) g.routes)) [
        | inr (q, k) ↦
            let same : q.id ≡ r.id = ground arith in
            rw (← same) (matches_id_same q.id i (find-In _ g.routes k).1)
        | inl k ↦ resolve_branch-matches g.routes i r (ground arith)
      ]
    ]
  ]

  -- Whatever an input resolves to, the input is that node or an output of it.
  ref_of-matches : (g : FleetGraph V) (i : String) → matches_id (ref_of g i).id i ≡ true
  ref_of-matches g i = elim (Option-cases (resolve g i)) [
    | inl e ↦ rw e (matches_id_self i)
    | inr (r, e) ↦ rw e (resolve-matches g i r e)
  ]

  refs-matches_target :
      (g : FleetGraph V) (ids : List String) (r : NodeRef)
      → In r (map (ref_of g) ids)
      → matches_target ids r.id ≡ true
  unfolding matches_target
  refs-matches_target g ids r h =
      let (i, at, e) = map-In (ref_of g) ids h in
      any-In (matches_id r.id) ids at (rw e (ref_of-matches g i))

  -- Every node that `fedBy` lists for a node, itself apart, lists that node among its `feeds`.
  pub fed_by-feeds :
      (g : FleetGraph V) (n : String) (r : NodeRef)
      → In r (fed_by g n)
      → r.id ≢ n
      → (k : NodeRef) × (k.id ≡ n) × In k (feeds g r.id)
  unfolding fed_by feeds matches_target
  fed_by-feeds g n r h ne = elim (Option-cases (find (λ c. c.id == n) g.components)) [
    | inr (c, e) ↦
        let declared : inputs_of_node g n ≡ c.inputs = ground arith in
        let (at, found) = find-In _ g.components e in
        let reads =
          refs-matches_target g c.inputs r (subst (λ ids. In r (map (ref_of g) ids)) declared h) in
        (
          component_ref c,
          eq_of_test c.id n found,
          In-append_left _ _ (
              In-map component_ref _
                (In-filter _ g.components at (listed c.id r.id n found ne reads))),
        )
    | inl e ↦ elim (Option-cases (find (λ s. s.id == n) g.stages)) [
      | inr (s, f) ↦
          let declared : inputs_of_node g n ≡ s.inputs = ground arith in
          let (at, found) = find-In _ g.stages f in
          let reads =
            refs-matches_target g s.inputs r
              (subst (λ ids. In r (map (ref_of g) ids)) declared h) in
          (
            stage_ref s,
            eq_of_test s.id n found,
            In-append_right _ _ (
                In-append_left _ _ (
                  In-map stage_ref _
                    (In-filter _ g.stages at (listed s.id r.id n found ne reads)))),
          )
      | inl f ↦ elim (Option-cases (find (λ r. r.id == n) g.routes)) [
        | inr (q, k) ↦
            let declared : inputs_of_node g n ≡ q.source_ids = ground arith in
            let (at, found) = find-In _ g.routes k in
            let reads =
              refs-matches_target g q.source_ids r
                (subst (λ ids. In r (map (ref_of g) ids)) declared h) in
            (
              route_ref q,
              eq_of_test q.id n found,
              In-append_right _ _ (
                  In-append_right _ _ (
                    In-map route_ref _ (
                      In-filter _ g.routes at (
                        listed q.id r.id n found ne
                          (matches_target-append q.source_ids _ r.id reads))))),
            )
        | inl k ↦
            let declared : inputs_of_node g n ≡ [] = ground arith in
            not-In-nil (subst (λ ids. In r (map (ref_of g) ids)) declared h)
      ]
    ]
  ]
