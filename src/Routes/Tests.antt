-- ===== src/Routes/Tests.antt =====
-- The route editor on small inputs: two sinks with one name, and a branch that goes to one of them
-- twice.
use vortex_flow.Common.{
  List, ◌+s◌, ℕ, String, none, some, [], ◌∷◌, Distinct, uniq, ◌≡◌, refl, slug, lower, underscored,
  is_word_char, translate, show, get, insert, map_of, map_from, has_key, if◌then◌else◌, join,
}
use vortex_flow.Types.{Component, sink, RouteBranch}
use vortex_flow.Routes.{
  generate_route_yaml, branch_line, RouteYamlInput, Draft, key_of, next_key, branch_key,
  route_draft, sink_inputs, editor_input, write_sinks, write_sources, add_sinks, add_sink_inputs,
  add_sink_input, add_branch_inputs, double_quotes,
}
use vortex_flow.Routes.Keys.{component_keys, is_key_line}
use vortex_flow.Routes.Written.{generate_route_yaml-Distinct}
use vortex_flow.Routes.Inputs.{route_outputs, unless_empty, get-sink_inputs}
use vortex_flow.Routes.Quoted.{read_quoted, read_quoted-branch_line}
use vortex_flow.Routes.Branches.{
  Edit, clean_branches, open_branches, edit_all, adds, updates, removes, uids,
}
use vortex_flow.Routes.Branches.Plain.{edit_all_plain, opened_plain, edit_all_refines}

abbrev part : String → String → Component ℕ
part id name = record {
  id = id;
  fleet_id = "f";
  kind = sink;
  name = name;
  component_type = "console";
  config = [];
  inputs = [];
  cert_refs = [];
  created_by = none;
  created_at = "";
  updated_at = "";
}

abbrev errors : RouteBranch
errors = record {
  name = "Errors";
  condition = ".level == 'error'";
  sink_ids = "a" ∷ "a" ∷ "b" ∷ [];
}

abbrev shouted : RouteBranch
shouted = record { name = "ERRORS"; condition = "true"; sink_ids = [] }

abbrev small : RouteYamlInput ℕ
small = editor_input "out" (errors ∷ []) [] ("b" ∷ []) (part "a" "out" ∷ part "b" "Out" ∷ [])

key_of-third : key_of ("out" ∷ "out_2" ∷ []) "Out" "x" ≡ "out_3"
unfolding key_of next_key slug lower underscored is_word_char translate show
key_of-third = refl

small_keys :
    (d : Draft) × (route_draft small ≡ some d)
    × (component_keys d.lines ≡ "  out:" ∷ "  out_2:" ∷ "  out_3:" ∷ [])
unfolding route_draft sink_inputs write_sinks write_sources add_sinks add_sink_inputs add_sink_input
    add_branch_inputs key_of next_key slug lower underscored is_word_char translate show get insert
    map_of map_from double_quotes is_key_line join
small_keys = (_, refl, refl)

generate_route_yaml-Distinct_example :
    (d : Draft) × (route_draft small ≡ some d)
    × (generate_route_yaml small ≡ some (join "\n" d.lines))
    × Distinct (component_keys d.lines)
generate_route_yaml-Distinct_example = generate_route_yaml-Distinct small

get-sink_inputs_example : get "b" (sink_inputs small "out") ≡ (
    if has_key "b" small.sink_by_id
    then unless_empty (uniq (route_outputs small "out" "b"))
    else none)
get-sink_inputs_example = get-sink_inputs small "out" "b"

-- Two branches whose names have the same slug have the same key.
same_key : branch_key errors ≡ branch_key shouted
unfolding slug lower underscored is_word_char translate
same_key = refl

read_quoted-branch_line_example :
    (rest : String) × (branch_line errors ≡ ("      " +s (branch_key errors +s ": '")) +s rest)
    × (read_quoted rest ≡ some ".level == 'error'")
read_quoted-branch_line_example = read_quoted-branch_line errors

abbrev edits : List Edit
edits = adds ∷ removes 0 ∷ adds ∷ updates 1 errors ∷ []

edit_all_refines_example :
    let e = edit_all edits (open_branches none 7) in
    Distinct (uids e.branches) × (clean_branches e ≡ edit_all_plain edits (opened_plain none))
edit_all_refines_example = edit_all_refines none 7 edits
