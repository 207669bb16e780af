-- ===== src/Common/Maps.antt =====
-- A JavaScript `Map` or plain object with string keys: its entries in insertion order.
use Prim.Native.String.{String}
use mathlib.Core.Path.{◌≡◌, refl}
use mathlib.Core.Bool.{Bool, false}
use mathlib.Core.Option.{Option, none, some}
use mathlib.Core.List.{List, [], ◌∷◌}
use native.Mathlib.Omega.{arith}
use text.Mathlib.TextEquality.{eq_iff}
use vortex_flow.Common.Tests.{◌==◌, if◌then◌else◌}
use vortex_flow.Common.Lists.{has}

abbrev pub Dict {ℓ} : Type ℓ → Type ℓ
Dict V = List (String × V)

module _ {ℓ} {V : Type ℓ} where
  abbrev pub keys : Dict V → List String
  keys [] = []
  keys ((j, v) ∷ d) = j ∷ keys d

  unfoldable pub get : String → Dict V → Option V
  get k [] = none
  get k ((j, v) ∷ d) = if j == k then some v else get k d

  -- A key that is there keeps its place.
  unfoldable pub insert : String → V → Dict V → Dict V
  insert k v [] = (k, v) ∷ []
  insert k v ((j, w) ∷ d) = if j == k then (j, v) ∷ d else (j, w) ∷ insert k v d

  abbrev pub has_key : String → Dict V → Bool
  has_key k d = has (keys d) k

  unfoldable pub map_from : Dict V → List (String × V) → Dict V
  map_from d [] = d
  map_from d ((k, v) ∷ ps) = map_from (insert k v d) ps

  -- `new Map(pairs)`
  unfoldable pub map_of : List (String × V) → Dict V
  unfolding map_from
  map_of ps = map_from [] ps

  pub get-insert :
      (k j : String) (v : V) (d : Dict V)
      → get j (insert k v d) ≡ (if k == j then some v else get j d)
  unfolding get insert
  get-insert k j v [] = refl
  get-insert k j v ((i, w) ∷ d) =
      ground (arith, eq_iff k j, eq_iff i k, eq_iff i j, get-insert k j v d)

  pub has-keys : (k : String) (d : Dict V) → (has (keys d) k ≡ false) → get k d ≡ none
  unfolding get
  has-keys k [] h = refl
  has-keys k ((j, v) ∷ d) h = ground (arith, has-keys k d)

  -- The last of the pairs with the key counts.
  abbrev pub or_else : Option V → Option V → Option V
  or_else none o = o
  or_else (some v) o = some v

  abbrev pub get_last : String → List (String × V) → Option V
  get_last k [] = none
  get_last k ((j, v) ∷ ps) = or_else (get_last k ps) (if j == k then some v else none)

  get-map_from :
      (k : String) (d : Dict V) (ps : List (String × V))
      → get k (map_from d ps) ≡ or_else (get_last k ps) (get k d)
  unfolding map_from
  get-map_from k d [] = refl
  get-map_from k d ((j, v) ∷ ps) =
      ground (arith, get-map_from k (insert j v d) ps, get-insert j k v d)

  pub get-map_of : (k : String) (ps : List (String × V)) → get k (map_of ps) ≡ get_last k ps
  unfolding map_of
  get-map_of k ps = ground (arith, get-map_from k [] ps, get_nil k)
    where
      get_nil : (k : String) → get k [] ≡ none
      get_nil k = unfold get in refl

  pub get_last-none :
      (k : String) (ps : List (String × V)) → has (keys ps) k ≡ false → get_last k ps ≡ none
  get_last-none k [] h = refl
  get_last-none k ((j, v) ∷ ps) h = ground (arith, get_last-none k ps)
