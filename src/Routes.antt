-- ===== src/Routes.antt =====
-- frontend/src/components/routes/RouteEditor.tsx: the preview of a route as YAML.
-- `V` stands for the values that the configs of components hold.
pub mod Slugs
pub mod Keys
pub mod Sinks
pub mod Written
pub mod Inputs
pub mod Quoted
pub mod Branches
mod Tests
use vortex_flow.Common.{
  ℕ, zero, suc, String, Bool, true, false, Option, none, some, List, [], ◌∷◌, ◌++◌, map, filter,
  has, add, length, show, slug, ◌+s◌, ◌∷ᶜ◌, char_eq, ◌==◌, if◌then◌else◌, Dict, get, insert,
  has_key, map_of, join,
}
use vortex_flow.Types.{Component, RouteBranch}
use vortex_flow.FleetTopology.{sources_of, sinks_of}

-- `${base}_${n}`
abbrev pub numbered : String → ℕ → String
numbered base n = base +s ("_" +s show n)

-- The loop of `uniqueSlugger`, on the rounds that are left.
unfoldable pub next_key : ℕ → List String → String → String → ℕ → String
next_key zero used base key n = key
next_key (suc f) used base key n =
    let rest = next_key f used base (numbered base n) (suc n) in if has used key then rest else key

-- The key that is handed out where the keys `used` are taken: one of `length used + 1` is free.
unfoldable pub key_of : List String → String → String → String
key_of used raw fallback =
    let base = slug raw fallback in next_key (suc (length used)) used base base 2

pub record RouteYamlInput (V : Type 0) : Type 0 where
  pub route_name : String
  pub branches : List RouteBranch
  pub sources : List (Component V)
  pub passthrough_sink_ids : List String
  pub sink_by_id : Dict (Component V)

-- The keys in use, the lines and the keys of the sources so far.
pub record Draft : Type 0 where
  pub used : List String
  pub lines : List String
  pub source_keys : Dict String

-- The key of the route is taken first.
abbrev pub first_draft : String → Draft
first_draft safe_name = record { used = safe_name ∷ []; lines = []; source_keys = [] }

abbrev pub push : List String → Draft → Draft
push ls d = record d { lines = d.lines ++ ls }

-- `keyOf(name, id)`, whose key begins the lines of a component.
abbrev pub put_component : String → (String → List String) → String → Draft → Draft
put_component k rest component_type d = record d {
  used = add d.used k;
  lines = d.lines ++ (("  " +s (k +s ":")) ∷ ("    type: " +s component_type) ∷ rest k);
}

-- `s.replace(/'/g, "''")`
unfoldable pub double_quotes : String → String
double_quotes String.[] = ""
double_quotes (String.◌∷◌ c s) =
    let rest = double_quotes s in if char_eq c "'" then c ∷ᶜ (c ∷ᶜ rest) else c ∷ᶜ rest

abbrev pub branch_key : RouteBranch → String
branch_key b = slug b.name "branch"

abbrev pub branch_line : RouteBranch → String
branch_line b = "      " +s (branch_key b +s (": '" +s (double_quotes b.condition +s "'")))

abbrev pub values : {A : Type 0} → Dict A → List A
values [] = []
values ((k, v) ∷ d) = v ∷ values d

-- The part of the route transform.
abbrev pub write_route : String → List RouteBranch → Draft → Draft
write_route safe_name branches d =
    push
      ("transforms:"
        ∷ ("  " +s (safe_name +s ":"))
        ∷ "    type: route"
        ∷ ("    inputs: [" +s (join ", " (values d.source_keys) +s "]"))
        ∷ "    route:"
        ∷ (map branch_line branches ++ ("" ∷ [])))
      d

-- `existing` with the output, or a list of its own where there is none.
abbrev pub with_output : Option (List String) → String → List String
with_output none out = out ∷ []
with_output (some existing) out = add existing out

abbrev pub input_item : String → String
input_item i = "\"" +s (i +s "\"")

module _ {V : Type 0} where
  unfoldable pub add_source : Component V → Draft → Draft
  add_source c d =
      let k = key_of d.used c.name c.id in
      put_component k (λ k. []) c.component_type
        (record d { source_keys = insert c.id k d.source_keys })

  unfoldable pub add_sources : List (Component V) → Draft → Draft
  add_sources [] d = d
  add_sources (c ∷ cs) d = add_sources cs (add_source c d)

  unfoldable pub write_sources : List (Component V) → Draft → Draft
  write_sources [] d = d
  write_sources (c ∷ cs) d = push ("" ∷ []) (add_sources (c ∷ cs) (push ("sources:" ∷ []) d))

  unfoldable pub add_sink_input :
      Dict (Component V) → String → String → String → Dict (List String) → Dict (List String)
  add_sink_input sinks safe_name sink_id route_output inputs =
      if has_key sink_id sinks
      then insert sink_id (with_output (get sink_id inputs) (safe_name +s ("." +s route_output)))
          inputs
      else inputs

  unfoldable pub add_sink_inputs :
      Dict (Component V) → String → List String → String → Dict (List String) → Dict (List String)
  add_sink_inputs sinks safe_name [] route_output inputs = inputs
  add_sink_inputs sinks safe_name (id ∷ ids) route_output inputs =
      add_sink_inputs sinks safe_name ids route_output
        (add_sink_input sinks safe_name id route_output inputs)

  unfoldable pub add_branch_inputs :
      Dict (Component V) → String → List RouteBranch → Dict (List String) → Dict (List String)
  add_branch_inputs sinks safe_name [] inputs = inputs
  add_branch_inputs sinks safe_name (b ∷ bs) inputs =
      add_branch_inputs sinks safe_name bs
        (add_sink_inputs sinks safe_name b.sink_ids (branch_key b) inputs)

  -- The outputs of the route that each sink consumes.
  unfoldable pub sink_inputs : RouteYamlInput V → String → Dict (List String)
  sink_inputs i safe_name =
      add_sink_inputs i.sink_by_id safe_name i.passthrough_sink_ids "_unmatched"
        (add_branch_inputs i.sink_by_id safe_name i.branches [])

  abbrev pub put_sink : Component V → List String → Draft → Draft
  put_sink sink inputs d =
      put_component (key_of d.used sink.name sink.id)
        (λ k. ("    inputs: [" +s (join ", " (map input_item inputs) +s "]")) ∷ [])
        sink.component_type d

  -- None where the code reads a field of a sink that is not there.
  abbrev pub add_sink : Option (Component V) → List String → Draft → Option Draft
  add_sink none inputs d = none
  add_sink (some sink) inputs d = some (put_sink sink inputs d)

  unfoldable pub add_sinks : Dict (Component V) → Dict (List String) → Draft → Option Draft
  add_sinks sinks [] d = some d
  add_sinks sinks ((id, inputs) ∷ rest) d = elim (add_sink (get id sinks) inputs d) [
    | none ↦ none
    | some e ↦ add_sinks sinks rest e
  ]

  unfoldable pub write_sinks : Dict (Component V) → Dict (List String) → Draft → Option Draft
  write_sinks sinks [] d = some d
  write_sinks sinks (entry ∷ rest) d = add_sinks sinks (entry ∷ rest) (push ("sinks:" ∷ []) d)

  unfoldable pub route_draft : RouteYamlInput V → Option Draft
  route_draft i =
      let safe_name = key_of [] i.route_name "my_route" in
      write_sinks i.sink_by_id (sink_inputs i safe_name)
        (write_route safe_name i.branches (write_sources i.sources (first_draft safe_name)))

  unfoldable pub generate_route_yaml : RouteYamlInput V → Option String
  generate_route_yaml i = elim (route_draft i) [ none ↦ none | some d ↦ some (join "\n" d.lines) ]

  -- What the editor shows for its fields and the components of its fleet.
  abbrev pub editor_input :
      String → List RouteBranch → List String → List String → List (Component V) → RouteYamlInput V
  editor_input name branches source_ids passthrough_sink_ids components = record {
    route_name = if name == "" then "my_route" else name;
    branches = branches;
    sources = filter (λ s. has source_ids s.id) (sources_of components);
    passthrough_sink_ids = passthrough_sink_ids;
    sink_by_id = map_of (map (λ s. (s.id, s)) (sinks_of components));
  }
