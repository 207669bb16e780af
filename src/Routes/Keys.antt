-- ===== src/Routes/Keys.antt =====
-- The keys of the components in the preview of a route.
use vortex_flow.Common.{
  list_laws, String, Bool, false, not, ◌&&◌, List, [], ◌∷◌, ◌++◌, map, filter, has, add, Distinct,
  ◌≡◌, refl, ap, ◌∙◌, arith, ◌+s◌, if◌then◌else◌, starts_with, starts_with-append,
  text_append_assoc, join, Distinct-add,
}
use vortex_flow.Types.{RouteBranch}
use vortex_flow.Routes.{
  Draft, push, put_component, branch_line, branch_key, double_quotes, write_route, values,
}

-- A line that begins with two spaces and no third one: the key of a component.
unfoldable pub is_key_line : String → Bool
is_key_line l = starts_with l "  " && not (starts_with l "   ")

abbrev pub component_keys : List String → List String
component_keys lines = filter is_key_line lines

abbrev pub key_line : String → String
key_line k = "  " +s (k +s ":")

-- A line that begins with three spaces is no key, whatever follows.
pub is_key_line-deep : (p t : String) → is_key_line (("   " +s p) +s t) ≡ false
unfolding is_key_line
is_key_line-deep p t = ground (
  arith,
  ap (λ l. starts_with l "   ") (text_append_assoc "   " p t),
  starts_with-append "   " (p +s t),
)

pub component_keys-append :
    (xs ys : List String) → component_keys (xs ++ ys) ≡ component_keys xs ++ component_keys ys
component_keys-append [] ys = refl
component_keys-append (x ∷ xs) ys = ground (arith, component_keys-append xs ys)

-- Between two drafts, components with new keys were written and nothing else that reads as a key.
pub record Grown (d e : Draft) : Type 0 where
  pub given : List String
  pub used : e.used ≡ d.used ++ given
  pub keys : component_keys e.lines ≡ component_keys d.lines ++ component_keys (map key_line given)
  pub apart : Distinct d.used → Distinct e.used

pub Grown-refl : (d : Draft) → Grown d d
Grown-refl d = record { given = []; used = simp list_laws; keys = simp list_laws; apart = λ h. h }

pub Grown-trans : {d e f : Draft} → Grown d e → Grown e f → Grown d f
Grown-trans {d} {e} {f} g h = record {
  given = g.given ++ h.given;
  used = simp (h.used, g.used, list_laws);
  keys = simp (h.keys, g.keys, component_keys-append, list_laws);
  apart = λ a. h.apart (g.apart a);
}

pub Grown-push : (ls : List String) (d : Draft) → component_keys ls ≡ [] → Grown d (push ls d)
Grown-push ls d e = record {
  given = [];
  used = simp list_laws;
  keys = simp (component_keys-append, e);
  apart = λ h. h;
}

add-new : (used : List String) (k : String) → has used k ≡ false → add used k ≡ used ++ (k ∷ [])
add-new used k e = rw e refl

pub Grown-put_component :
    (k : String) (rest : String → List String) (component_type : String) (d : Draft)
    → has d.used k ≡ false
    → component_keys (rest k) ≡ []
    → Grown d (put_component k rest component_type d)
Grown-put_component k rest component_type d fresh e = record {
  given = k ∷ [];
  used = add-new d.used k fresh;
  keys =
      component_keys-append d.lines (key_line k ∷ ("    type: " +s component_type) ∷ rest k)
      ∙ ap (λ l. component_keys d.lines ++ l)
          (rw (is_key_line-deep " type: " component_type, e) refl);
  apart = λ h. Distinct-add d.used k h;
}

no_keys-branch_lines : (bs : List RouteBranch) → component_keys (map branch_line bs) ≡ []
no_keys-branch_lines [] = refl
no_keys-branch_lines (b ∷ bs) =
    rw (is_key_line-deep "   " (branch_key b +s (": '" +s (double_quotes b.condition +s "'"))))
      (no_keys-branch_lines bs)

route_lines : String → List RouteBranch → List String → List String
route_lines safe_name branches source_keys =
    ("  " +s (safe_name +s ":"))
    ∷ "    type: route"
    ∷ ("    inputs: [" +s (join ", " source_keys +s "]"))
    ∷ "    route:"
    ∷ (map branch_line branches ++ ("" ∷ []))

keys-route_lines :
    (safe_name : String) (branches : List RouteBranch) (source_keys : List String)
    → component_keys (route_lines safe_name branches source_keys)
      ≡ component_keys (map key_line (safe_name ∷ []))
unfolding route_lines
keys-route_lines safe_name branches source_keys =
    ap (λ l. if is_key_line (key_line safe_name) then key_line safe_name ∷ l else l)
      (rw (is_key_line-deep " inputs: [" (join ", " source_keys +s "]")) (
        tail
        ∙ component_keys-append (map branch_line branches) ("" ∷ [])
        ∙ ap (λ l. l ++ component_keys ("" ∷ [])) (no_keys-branch_lines branches)
        ∙ unfold is_key_line in refl))
  where
    tail :
        component_keys ("    type: route" ∷ "    route:" ∷ (map branch_line branches ++ ("" ∷ [])))
        ≡ component_keys (map branch_line branches ++ ("" ∷ []))
    tail = unfold is_key_line in refl

-- The part of the route transform has one key, that of the route.
pub keys-write_route :
    (safe_name : String) (branches : List RouteBranch) (d : Draft)
    → component_keys (write_route safe_name branches d).lines
      ≡ component_keys d.lines ++ component_keys (map key_line (safe_name ∷ []))
unfolding route_lines is_key_line
keys-write_route safe_name branches d =
    let ls = route_lines safe_name branches (values d.source_keys) in
    component_keys-append d.lines ("transforms:" ∷ ls)
    ∙ ap (λ l. component_keys d.lines ++ l)
        (keys-route_lines safe_name branches (values d.source_keys))
