-- ===== src/Tap/Inferred/Tests.antt =====
-- The fields of two events, of which one is no JSON.
use vortex_flow.Common.{
  ℕ, String, Bool, false, Option, none, some, List, [], ◌∷◌, ◌*◌, ◌/◌, any, has, keys, All, ◌==◌,
  if◌then◌else◌, ◌≡◌, refl, get,
}
use vortex_flow.CatalogGen.Json.{Json, string, num, object_of, field}
use vortex_flow.Tap.Inferred.{infer_fields, records_of, count_all}
use vortex_flow.Tap.Inferred.Counted.{names_of, share, having, infer_fields-share}

abbrev parse : String → Option (Json ℕ)
parse s = if s == "{a}" then some (object_of (("a", num 1) ∷ [])) else none

abbrev percent : ℕ → ℕ → ℕ
percent count n = 100 * count / n

abbrev before : String → String → Bool
before a b = false

abbrev raw : String → Json ℕ
raw s = object_of (("string", string s) ∷ [])

abbrev events : List (Json ℕ)
events = raw "{a}" ∷ raw "text" ∷ object_of (("a", num 1) ∷ []) ∷ []

-- An event with no JSON text counts for nothing, whatever else it has.
one_record : records_of parse events ≡ (("a", num 1) ∷ []) ∷ []
unfolding records_of field get
one_record = refl

infer_fields-share_example :
    (has (names_of (infer_fields parse percent before events)) "a"
      ≡ any (λ d. has (keys d) "a") (records_of parse events))
    × All
        (λ f.
          f.pct
          ≡ share percent
              (count_all (records_of parse events))
              (having f.name (records_of parse events)))
        (infer_fields parse percent before events)
unfolding records_of field get
infer_fields-share_example = infer_fields-share parse percent before events "a" ((refl, tt), tt)
