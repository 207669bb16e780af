-- ===== src/Routes/Written.antt =====
-- The preview of a route is always written, and no component key stands twice in it.
use vortex_flow.Common.{
  text_tests, list_laws, String, Bool, false, none, some, List, [], ◌∷◌, ◌++◌, map, filter, has,
  Distinct, ◌≡◌, refl, ap, sym, ◌∙◌, subst, inl, inr, Bool-cases, arith, ◌+s◌, Dict, get,
  text_append_cancel_left, text_append_cancel_right, has-append, eq_iff, join,
}
use vortex_flow.Types.{Component}
use vortex_flow.Routes.{
  generate_route_yaml, key_of, RouteYamlInput, Draft, first_draft, push, write_route, add_source,
  add_sources, write_sources, add_sink, put_sink, add_sinks, write_sinks, sink_inputs, route_draft,
  input_item,
}
use vortex_flow.Routes.Slugs.{has-key_of}
use vortex_flow.Routes.Keys.{
  is_key_line, component_keys, key_line, is_key_line-deep, component_keys-append, Grown, Grown-refl,
  Grown-trans, Grown-push, Grown-put_component, keys-write_route,
}
use vortex_flow.Routes.Sinks.{Known, get-has_key, Known-sink_inputs}

module _ {V : Type 0} where
  Grown-add_source : (c : Component V) (d : Draft) → Grown d (add_source c d)
  unfolding add_source
  Grown-add_source c d =
      let k = key_of d.used c.name c.id in
      let placed = record d { source_keys = (add_source c d).source_keys } in
      let g =
        Grown-put_component k (λ k. []) c.component_type placed (has-key_of d.used c.name c.id)
          refl in
      record { given = g.given; used = g.used; keys = g.keys; apart = g.apart }

  Grown-add_sources : (cs : List (Component V)) (d : Draft) → Grown d (add_sources cs d)
  unfolding add_sources
  Grown-add_sources [] d = Grown-refl d
  Grown-add_sources (c ∷ cs) d =
      Grown-trans (Grown-add_source c d) (Grown-add_sources cs (add_source c d))

  Grown-write_sources : (cs : List (Component V)) (d : Draft) → Grown d (write_sources cs d)
  unfolding write_sources is_key_line
  Grown-write_sources [] d = Grown-refl d
  Grown-write_sources (c ∷ cs) d =
      let headed = push ("sources:" ∷ []) d in
      Grown-trans (Grown-push ("sources:" ∷ []) d refl) (
        Grown-trans (Grown-add_sources (c ∷ cs) headed)
          (Grown-push ("" ∷ []) (add_sources (c ∷ cs) headed) refl))

  Grown-put_sink :
      (sink : Component V) (inputs : List String) (d : Draft) → Grown d (put_sink sink inputs d)
  Grown-put_sink sink inputs d =
      Grown-put_component (key_of d.used sink.name sink.id)
        (λ k. ("    inputs: [" +s (join ", " (map input_item inputs) +s "]")) ∷ [])
        sink.component_type d (has-key_of d.used sink.name sink.id)
        (rw (is_key_line-deep " inputs: [" (join ", " (map input_item inputs) +s "]")) refl)

  add_sinks-cons :
      (sinks : Dict (Component V)) (id : String) (inputs : List String) (rest : Dict (List String))
      (d : Draft) {sink : Component V}
      → get id sinks ≡ some sink
      → add_sinks sinks ((id, inputs) ∷ rest) d ≡ add_sinks sinks rest (put_sink sink inputs d)
  unfolding add_sinks
  add_sinks-cons sinks id inputs rest d there =
      ap (λ o. elim (add_sink o inputs d) [ none ↦ none | some e ↦ add_sinks sinks rest e ]) there

  Grown-add_sinks :
      (sinks : Dict (Component V)) (entries : Dict (List String)) (d : Draft)
      → Known sinks entries
      → (e : Draft) × (add_sinks sinks entries d ≡ some e) × Grown d e
  unfolding add_sinks Known
  Grown-add_sinks sinks [] d known = (d, refl, Grown-refl d)
  Grown-add_sinks sinks ((id, inputs) ∷ rest) d known =
      let (sink, there) = get-has_key id sinks known.0 in
      let (e, written, g) = Grown-add_sinks sinks rest (put_sink sink inputs d) known.1 in
      (
        e,
        add_sinks-cons sinks id inputs rest d there ∙ written,
        Grown-trans (Grown-put_sink sink inputs d) g,
      )

  Grown-write_sinks :
      (sinks : Dict (Component V)) (entries : Dict (List String)) (d : Draft)
      → Known sinks entries
      → (e : Draft) × (write_sinks sinks entries d ≡ some e) × Grown d e
  unfolding write_sinks is_key_line
  Grown-write_sinks sinks [] d known = (d, refl, Grown-refl d)
  Grown-write_sinks sinks (entry ∷ rest) d known =
      let (e, written, g) = Grown-add_sinks sinks (entry ∷ rest) (push ("sinks:" ∷ []) d) known in
      (e, written, Grown-trans (Grown-push ("sinks:" ∷ []) d refl) g)

has-filter :
    (p : String → Bool) (xs : List String) (a : String)
    → has xs a ≡ false
    → has (filter p xs) a ≡ false
has-filter p [] a h = refl
has-filter p (x ∷ xs) a h = ground (arith, has-filter p xs a)

Distinct-filter : (p : String → Bool) (xs : List String) → Distinct xs → Distinct (filter p xs)
Distinct-filter p [] h = tt
Distinct-filter p (x ∷ xs) h = elim (Bool-cases (p x)) [
  | inl e ↦ rw e (has-filter p xs x h.0, Distinct-filter p xs h.1)
  | inr e ↦ rw e (Distinct-filter p xs h.1)
]

key_line-inj : (a b : String) → key_line a ≡ key_line b → a ≡ b
key_line-inj a b e = text_append_cancel_right a b ":" (text_append_cancel_left "  " _ _ e)

has-key_lines :
    (xs : List String) (a : String) → has xs a ≡ false → has (map key_line xs) (key_line a) ≡ false
has-key_lines [] a h = refl
has-key_lines (x ∷ xs) a h =
    ground
      (arith, eq_iff (key_line x) (key_line a), eq_iff x a, key_line-inj x a, has-key_lines xs a)

Distinct-key_lines : (xs : List String) → Distinct xs → Distinct (map key_line xs)
Distinct-key_lines [] h = tt
Distinct-key_lines (x ∷ xs) h = (has-key_lines xs x h.0, Distinct-key_lines xs h.1)

Distinct-move :
    (a : String) (xs ys : List String) → Distinct (a ∷ (xs ++ ys)) → Distinct (xs ++ (a ∷ ys))
Distinct-move a [] ys h = h
Distinct-move a (x ∷ xs) ys h =
    (grind (text_tests, has-append, h.1.0, h.0), Distinct-move a xs ys (ground (arith, h.0), h.1.1))

keys_of_names :
    (xs : List String) (a : String) (ys : List String)
    → (component_keys (map key_line xs) ++ component_keys (map key_line (a ∷ [])))
        ++ component_keys (map key_line ys)
      ≡ component_keys (map key_line (xs ++ (a ∷ ys)))
keys_of_names xs a ys =
    simp (component_keys-append, list_laws)
      (ap (λ l. component_keys (map key_line xs) ++ l)
        (sym (component_keys-append (map key_line (a ∷ [])) (map key_line ys))))

-- The lines are written, and no two of them are the same key of a component.
route_draft-Distinct :
    {V : Type 0} (i : RouteYamlInput V)
    → (d : Draft) × (route_draft i ≡ some d) × Distinct (component_keys d.lines)
unfolding route_draft
route_draft-Distinct i =
    let safe_name = key_of [] i.route_name "my_route" in
    let d1 = write_sources i.sources (first_draft safe_name) in
    let d2 = write_route safe_name i.branches d1 in
    let g = Grown-write_sources i.sources (first_draft safe_name) in
    let (e, written, h) =
      Grown-write_sinks i.sink_by_id (sink_inputs i safe_name) d2 (Known-sink_inputs i safe_name) in
    let names = g.given ++ (safe_name ∷ h.given) in
    let keys : component_keys e.lines ≡ component_keys (map key_line names) =
      h.keys
      ∙ ap (λ l. l ++ component_keys (map key_line h.given))
          (keys-write_route safe_name i.branches d1
            ∙ ap (λ l. l ++ component_keys (map key_line (safe_name ∷ []))) g.keys)
      ∙ keys_of_names g.given safe_name h.given in
    let apart : Distinct names =
      Distinct-move safe_name g.given h.given
        (subst Distinct (h.used ∙ ap (λ u. u ++ h.given) g.used) (h.apart (g.apart (refl, tt)))) in
    (
      e,
      written,
      subst Distinct (sym keys)
          (Distinct-filter is_key_line (map key_line names) (Distinct-key_lines names apart)),
    )

-- Whatever the route, its preview is written: no sink is missing. And no two of the lines that the code
-- pushes and joins are the key of a component, be it a source, the route or a sink, with the same text.
pub generate_route_yaml-Distinct :
    {V : Type 0} (i : RouteYamlInput V)
    → (d : Draft) × (route_draft i ≡ some d)
      × (generate_route_yaml i ≡ some (join "\n" d.lines))
      × Distinct (component_keys d.lines)
unfolding generate_route_yaml
generate_route_yaml-Distinct i =
    let (d, written, apart) = route_draft-Distinct i in
    (
      d,
      written,
      ap (λ o. elim o [ none ↦ none | some d ↦ some (join "\n" d.lines) ]) written,
      apart,
    )
