-- ===== src/CatalogGen/Nodes.antt =====
-- frontend/src/lib/catalogGen.ts: what is read of one node of the schema, up to `exampleString`.
use vortex_flow.Common.{
  String, Bool, true, false, not, ◌&&◌, Option, none, some, List, [], ◌∷◌, if◌then◌else◌, filter,
  find, length, nat_eq, ltb, starts_with, slice_text,
}
use vortex_flow.CatalogGen.Outcome.{Outcome, returns, throws, ◌>>=◌}
use vortex_flow.CatalogGen.Json.{
  Json, undefined, null, boolean, num, string, array, object, NumberTests, field, prop, elements,
  is_string, is_nullish, string_of, spread, without_key, truthy, or_value, guarded, or_undefined,
}

-- `ref.replace(/^#\/definitions\//, '')`
abbrev pub ref_key : String → String
ref_key ref = if starts_with ref "#/definitions/" then slice_text 14 ref else ref

-- `ref.replace(...)` of a value that is no text throws.
abbrev pub ref_text : {N : Type 0} → Json N → Outcome String
ref_text undefined = throws
ref_text null = throws
ref_text (boolean b) = throws
ref_text (num n) = throws
ref_text (string s) = returns s
ref_text (array vs) = throws
ref_text (object es) = throws

abbrev pub filter_map : {A B : Type 0} → (A → Option B) → List A → List B
filter_map f [] = []
filter_map f (x ∷ xs) = elim (f x) [ none ↦ filter_map f xs | some y ↦ y ∷ filter_map f xs ]

abbrev pub is_nil : {A : Type 0} → List A → Bool
is_nil [] = true
is_nil (x ∷ xs) = false

module _ {N : Type 0} where
  -- `branch && branch.type === 'null'`
  abbrev pub is_null_branch : Json N → Bool
  is_null_branch b = is_string "null" (field "type" b)

  abbrev pub non_null : List (Json N) → List (Json N)
  non_null union = filter (λ b. not (is_null_branch b)) union

  abbrev pub const_value : Json N → Option String
  const_value branch = string_of (field "const" branch)

  -- The one branch that is left, where others were null.
  abbrev pub only_branch : List (Json N) → List (Json N) → Option (Json N)
  only_branch [] union = none
  only_branch (b ∷ []) union = if ltb 1 (length union) then some b else none
  only_branch (b ∷ c ∷ bs) union = none

  abbrev pub unwrap_union : Json N → Option (List (Json N)) → Json N
  unwrap_union node none = node
  unwrap_union node (some union) = elim (only_branch (non_null union) union) [
    | none ↦ node
    | some b ↦ spread (without_key "anyOf" (without_key "oneOf" node)) b
  ]

  -- The constants of a union, where all of the branches counted are constants.
  abbrev pub all_consts : List (Json N) → List (Json N) → Option (List String)
  all_consts branches counted =
      let consts = filter_map const_value branches in
      if not (is_nil consts) && nat_eq (length consts) (length counted) then some consts else none

  abbrev pub first_type : Json N → Option (List (Json N)) → Json N
  first_type t none = t
  first_type t (some ts) = or_undefined (find (λ x. not (is_string "null" x)) ts)

  unfoldable pub scalar_type : Json N → Outcome (Json N)
  scalar_type node = prop "type" node >>= λ t. returns (first_type t (elements t))

module _ {N : Type 0} (js : NumberTests N) where
  -- `node.oneOf || node.anyOf`
  abbrev pub union_of : Json N → Json N
  union_of node = or_value js (field "oneOf" node) (field "anyOf" node)

  unfoldable pub unwrap_option : Json N → Json N
  unwrap_option node = if truthy js node then unwrap_union node (elements (union_of node)) else node

  abbrev pub nested_consts : Option (List (Json N)) → Option (List String)
  nested_consts none = none
  nested_consts (some nested) = all_consts nested nested

  abbrev pub found_or :
      Option (List String) → Outcome (Option (List String)) → Outcome (Option (List String))
  found_or none next = next
  found_or (some consts) next = returns (some consts)

  unfoldable pub first_nested : List (Json N) → Outcome (Option (List String))
  first_nested [] = returns none
  first_nested (b ∷ bs) =
      let next = first_nested bs in
      if is_nullish b then throws else found_or (nested_consts (elements (union_of b))) next

  -- One round of the loop over `oneOf` and `anyOf`.
  unfoldable pub enum_of_union : Option (List (Json N)) → Outcome (Option (List String))
  enum_of_union none = returns none
  enum_of_union (some branches) =
      found_or (all_consts branches (non_null branches)) (first_nested branches)

  abbrev pub enum_values : Option (List (Json N)) → List String
  enum_values none = []
  enum_values (some vs) = filter_map string_of vs

  unfoldable pub enum_of_unions : Json N → Outcome (Option (List String))
  enum_of_unions node = enum_of_union (elements (field "oneOf" node)) >>= λ found.
      found_or found (enum_of_union (elements (field "anyOf" node)))

  unfoldable pub extract_enum : Json N → Outcome (Option (List String))
  extract_enum node =
      let vals = enum_values (elements (field "enum" node)) in
      if not (truthy js node)
      then returns none
      else if not (is_nil vals)
      then returns (some vals)
      else enum_of_unions node

  abbrev pub first_of : Json N → Option (List (Json N)) → Json N
  first_of ex none = ex
  first_of ex (some []) = undefined
  first_of ex (some (v ∷ vs)) = v

  -- A text, or `String(v)` of a number or a truth value.
  abbrev pub example_text : Json N → Option String
  example_text undefined = none
  example_text null = none
  example_text (boolean b) = some (if b then "true" else "false")
  example_text (num n) = some (js.show_number n)
  example_text (string s) = some s
  example_text (array vs) = none
  example_text (object es) = none

  unfoldable pub example_string : Json N → Outcome (Option String)
  example_string node = prop "_metadata" node >>= λ meta. returns (
      let ex = guarded js "docs::examples" meta in
      if is_nullish ex then none else example_text (first_of ex (elements ex)))
