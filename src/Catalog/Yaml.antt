-- ===== src/Catalog/Yaml.antt =====
-- frontend/src/lib/catalog.ts: quoting, nesting of dotted keys and printing of a config as YAML.
-- `json` stands for `JSON.stringify` on texts.
use vortex_flow.Common.{
  ℕ, ◌+◌, String, Bool, true, false, Option, none, some, List, [], ◌∷◌, ◌++◌, map, ◌==◌, ◌||◌,
  if◌then◌else◌, has, Dict, split, join, includes, char_eq, lower, ◌+s◌, spaces,
}
use vortex_flow.Catalog.{Value, missing, null_value, text, flag, number, items, JsNumbers}

abbrev pub yaml_reserved : List String
yaml_reserved = "null" ∷ "~" ∷ "true" ∷ "false" ∷ "yes" ∷ "no" ∷ "on" ∷ "off" ∷ ".inf" ∷ ".nan" ∷ []

-- `/[:{}\[\],#&*!|>'"$%@`]/.test(s)`
unfoldable pub has_special : String → Bool
has_special String.[] = false
has_special (String.◌∷◌ c s) = includes c ":{}[],#&*!|>'\"$%@`" || has_special s

-- `/^[-?]/.test(s)`
unfoldable pub starts_marked : String → Bool
starts_marked String.[] = false
starts_marked (String.◌∷◌ c s) = char_eq c "-" || char_eq c "?"

unfoldable pub must_quote : String → Bool
must_quote s =
    has_special s
    || (includes "\n" s || (starts_marked s || (has yaml_reserved (lower s) || s == "")))

unfoldable pub quote_yaml_string : (String → String) → String → String
quote_yaml_string json s = if must_quote s then json s else s

abbrev pub show_bool : Bool → String
show_bool true = "true"
show_bool false = "false"

abbrev pub to_yaml_items : (String → String) → ℕ → List String → String
to_yaml_items json indent [] = "[]"
to_yaml_items json indent (x ∷ xs) =
    "\n" +s join "\n" (map (λ v. spaces indent +s "- " +s quote_yaml_string json v) (x ∷ xs))

unfoldable pub to_yaml_value : {N : Type 0} → JsNumbers N → (String → String) → Value N → ℕ → String
to_yaml_value js json missing indent = "undefined"
to_yaml_value js json null_value indent = "null"
to_yaml_value js json (text s) indent = quote_yaml_string json s
to_yaml_value js json (flag b) indent = show_bool b
to_yaml_value js json (number n) indent = js.show_number n
to_yaml_value js json (items xs) indent = to_yaml_items json indent xs

-- A nested object: its keys in insertion order, each with a value or an object.
mutual
  pub data Node (N : Type 0) : Type 0 where
    leaf : Value N → Node N
    block : Entries N → Node N

  pub data Entries (N : Type 0) : Type 0 where
    nothing : Entries N
    entry : String → Node N → Entries N → Entries N

module _ {N : Type 0} where
  -- `cursor[key] = node`: a key that is there keeps its place.
  unfoldable pub put : String → Node N → Entries N → Entries N
  put key n nothing = entry key n nothing
  put key n (entry j m es) = if j == key then entry j n es else entry j m (put key n es)

  unfoldable pub node_at : String → Entries N → Option (Node N)
  node_at key nothing = none
  node_at key (entry j m es) = if j == key then some m else node_at key es

  -- The object that the cursor moves to: the one that stands there, or a new one.
  abbrev pub open_block : Option (Node N) → Entries N
  open_block none = nothing
  open_block (some (leaf v)) = nothing
  open_block (some (block es)) = es

  -- One round of the loop of `nestDotKeys`, along the parts of the key.
  unfoldable pub put_path : List String → Value N → Entries N → Entries N
  put_path [] v es = es
  put_path (p ∷ []) v es = put p (leaf v) es
  put_path (p ∷ q ∷ ps) v es = put p (block (put_path (q ∷ ps) v (open_block (node_at p es)))) es

  unfoldable pub nest_from : Dict (Value N) → Entries N → Entries N
  nest_from [] out = out
  nest_from ((key, v) ∷ flat) out = nest_from flat (put_path (split "." key) v out)

  unfoldable pub nest_dot_keys : Dict (Value N) → Entries N
  nest_dot_keys flat = nest_from flat nothing

module _ {N : Type 0} (js : JsNumbers N) (json : String → String) where
  unfoldable mutual
    pub object_to_yaml : Entries N → ℕ → List String
    object_to_yaml nothing indent = []
    object_to_yaml (entry key n es) indent = node_to_yaml key n indent ++ object_to_yaml es indent

    pub node_to_yaml : String → Node N → ℕ → List String
    node_to_yaml key (leaf v) indent =
        (spaces indent +s key +s ": " +s to_yaml_value js json v (indent + 2)) ∷ []
    node_to_yaml key (block es) indent =
        (spaces indent +s key +s ":") ∷ object_to_yaml es (indent + 2)
