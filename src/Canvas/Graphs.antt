-- ===== src/Canvas/Graphs.antt =====
-- Maps from ids to the ids that they read, as graphs: adding one edge, or taking edges away.
use vortex_flow.Common.{String, some, List, ◌≡◌, ◌⊎◌, inl, inr, sym, subst, true, has, Dict, get}
use vortex_flow.Canvas.Cycle.Correct.{Reads, here, through}

-- `a` reads `b`.
abbrev pub Edge : Dict (List String) → String → String → Type 0
Edge m a b = (ins : List String) × (get a m ≡ some ins) × (has ins b ≡ true)

-- No id reads itself through a chain of one edge or more.
abbrev pub IsAcyclic : Dict (List String) → Type 0
IsAcyclic m = (a b : String) → Edge m a b → ¬ Reads m a b

pub Reads-Edge : {m : Dict (List String)} {a b t : String} → Edge m a b → Reads m t b → Reads m t a
Reads-Edge {b} (ins, g, h) r = through ins b g h r

pub Reads-trans :
    {m : Dict (List String)} {b c a : String} → Reads m b a → Reads m c b → Reads m c a
Reads-trans {m} {c} (here e) s = subst (Reads m c) (sym e) s
Reads-trans (through ins d g h r) s = through ins d g h (Reads-trans r s)

-- Every edge of `m'` is one of `m`, or leads from `t` to `s`.
abbrev pub Extends : Dict (List String) → Dict (List String) → String → String → Type 0
Extends m m' t s = (a b : String) → Edge m' a b → Edge m a b ⊎ ((a ≡ t) × (b ≡ s))

module _ {m m' : Dict (List String)} {t s : String} (ext : Extends m m' t s)
    (clear : ¬ Reads m t s) where
  Reads-extended : (x a : String) → Reads m' x a → Reads m x a ⊎ (Reads m t a × Reads m x s)
  Reads-extended x a (here e) = inl (here e)
  Reads-extended x a (through ins b g h r) = elim (ext a b (ins, g, h)) [
    | inl old ↦ elim (Reads-extended x b r) [
      | inl q ↦ inl (Reads-Edge old q)
      | inr (q, p) ↦ inr (Reads-Edge old q, p)
    ]
    | inr (at, bs) ↦ elim (Reads-extended x b r) [
      | inl q ↦ inr (here at, subst (Reads m x) bs q)
      | inr (q, p) ↦ absurd (clear (subst (Reads m t) bs q))
    ]
  ]

  -- An edge to an id that does not read back keeps a graph acyclic.
  pub extended-IsAcyclic : IsAcyclic m → IsAcyclic m'
  extended-IsAcyclic acyclic a b edge r = elim (ext a b edge) [
    | inl old ↦ elim (Reads-extended a b r) [
      | inl q ↦ acyclic a b old q
      | inr (q, p) ↦ clear (Reads-trans p (Reads-Edge old q))
    ]
    | inr (at, bs) ↦ elim (Reads-extended a b r) [
      | inl q ↦ clear (subst (λ k. Reads m k s) at (subst (Reads m a) bs q))
      | inr (q, p) ↦ clear (subst (Reads m t) bs q)
    ]
  ]

module _ {m m' : Dict (List String)} (sub : (a b : String) → Edge m' a b → Edge m a b) where
  Reads-reduced : (x a : String) → Reads m' x a → Reads m x a
  Reads-reduced x a (here e) = here e
  Reads-reduced x a (through ins b g h r) = Reads-Edge (sub a b (ins, g, h)) (Reads-reduced x b r)

  -- Fewer edges keep a graph acyclic.
  pub reduced-IsAcyclic : IsAcyclic m → IsAcyclic m'
  reduced-IsAcyclic acyclic a b edge r = acyclic a b (sub a b edge) (Reads-reduced a b r)
