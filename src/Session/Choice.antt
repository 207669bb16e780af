-- ===== src/Session/Choice.antt =====
-- The fleet that becomes active.
use vortex_flow.Common.{
  String, Option, none, some, List, ◌∷◌, ◌≡◌, refl, ap, sym, ◌∙◌, ◌==◌, find, In, at_head, find-In,
  Option-cases, Bool-cases, inl, inr, arith,
}
use vortex_flow.Types.{Fleet}
use vortex_flow.Session.{or_else, stored_fleet, choose_fleet}

-- The fleet is in the list; it is the stored one where the list has that, and else a default one
-- where the list has any.
pub record IsChoice (stored : Option String) (list : List Fleet) (f : Fleet) : Type 0 where
  pub listed : In f list
  pub keeps_stored : (g : Fleet) → stored_fleet stored list ≡ some g → f ≡ g
  pub or_default :
      (g : Fleet) → stored_fleet stored list ≡ none → find (λ s. s.is_default) list ≡ some g → f ≡ g

one_value : {A : Type 0} {a b : A} → some a ≡ some b → a ≡ b
one_value h = ground arith

stored_fleet-In :
    (stored : Option String) (list : List Fleet) (g : Fleet)
    → stored_fleet stored list ≡ some g
    → In g list
stored_fleet-In none list g h = ground arith
stored_fleet-In (some id) list g h = elim (Bool-cases (id == "")) [
  | inl e ↦ let clash : none ≡ some g = rw e at h in ground arith
  | inr e ↦ (find-In (λ s. s.id == id) list (rw e at h)).0
]

-- Where there is a fleet, one becomes active: it is in the list, it is the stored one where the list
-- has that, and else the default one where the list has one.
pub choose_fleet-IsChoice :
    (stored : Option String) (first : Fleet) (others : List Fleet)
    → (f : Fleet) × ((choose_fleet stored (first ∷ others) ≡ some f)
        × IsChoice stored (first ∷ others) f)
unfolding choose_fleet
choose_fleet-IsChoice stored first others =
    let list = first ∷ others in
    elim (Option-cases (stored_fleet stored list)) [
      | inr (g, e) ↦ (
        g,
        (
          rw e refl,
          record {
            listed = stored_fleet-In stored list g e;
            keeps_stored = λ h k. one_value (sym e ∙ k);
            or_default = λ h k l. sym (one_value (ap (λ o. or_else o (some h)) (sym k ∙ e)));
          },
        ),
      )
      | inl e ↦ elim (Option-cases (find (λ s. s.is_default) list)) [
        | inr (g, d) ↦ (
          g,
          (
            rw (e, d) refl,
            record {
              listed = (find-In (λ s. s.is_default) list d).0;
              keeps_stored = λ h k. one_value (ap (λ o. or_else o (some g)) (sym e ∙ k));
              or_default = λ h k l. one_value (sym d ∙ l);
            },
          ),
        )
        | inl d ↦ (
          first,
          (
            rw (e, d) refl,
            record {
              listed = at_head refl;
              keeps_stored = λ h k. one_value (ap (λ o. or_else o (some first)) (sym e ∙ k));
              or_default = λ h k l. one_value (ap (λ o. or_else o (some first)) (sym d ∙ l));
            },
          ),
        )
      ]
    ]
