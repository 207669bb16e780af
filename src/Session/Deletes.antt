-- ===== src/Session/Deletes.antt =====
-- The guarded delete never forces without the word of the user.
use vortex_flow.Common.{
  String, Bool, true, false, Option, none, some, [], ◌∷◌, ◌≡◌, ◌↔◌, refl, ap, ◌+s◌, In, at_head,
  later, not-In-nil, Bool-cases, ◌⊎◌, inl, inr, arith,
}
use vortex_flow.Session.{
  DeleteError, DeleteResult, deleted, cancelled, thrown, in_use_message, is_status, forced_result,
  after_first, delete_guarded,
}

-- The first request was refused with 409, and the user agreed to force the delete.
pub record IsAgreed (call : Bool → Option DeleteError) (confirm : String → Bool) : Type 0 where
  pub error : DeleteError
  pub refused : call false ≡ some error
  pub conflict : is_status error.status 409 ≡ true
  pub agreed : confirm (in_use_message error.detail +s "\n\nForce delete anyway?") ≡ true

only_plain : {B : Type 0} → In true (false ∷ []) → B
only_plain (at_head e) = ground arith
only_plain (later h) = not-In-nil h

first_forces :
    (call : Bool → Option DeleteError) (confirm : String → Bool) (o : Option DeleteError)
    → call false ≡ o
    → In true (after_first call confirm o).1
    → IsAgreed call confirm
unfolding after_first
first_forces call confirm none e h = only_plain h
first_forces call confirm (some err) e h = elim (Bool-cases (is_status err.status 409)) [
  | inr s ↦ only_plain (rw s at h)
  | inl s ↦ elim (Bool-cases (confirm (in_use_message err.detail +s "\n\nForce delete anyway?"))) [
    | inl a ↦ record { error = err; refused = e; conflict = s; agreed = a }
    | inr a ↦ only_plain (rw (s, a) at h)
  ]
]

delete_guarded_forces :
    (call : Bool → Option DeleteError) (confirm : String → Bool)
    → In true (delete_guarded call confirm).1 ↔ IsAgreed call confirm
unfolding delete_guarded after_first
delete_guarded_forces call confirm = (
  λ h. first_forces call confirm (call false) refl h,
  λ a. rw (a.refused, a.conflict, a.agreed) (later (at_head refl)),
)

abbrev is_deleted : DeleteResult → Bool
is_deleted deleted = true
is_deleted cancelled = false
is_deleted (thrown e) = false

forced-deleted : (o : Option DeleteError) → is_deleted (forced_result o) ≡ true → o ≡ none
forced-deleted none h = refl
forced-deleted (some e) h = ground arith

first_deletes :
    (call : Bool → Option DeleteError) (confirm : String → Bool) (o : Option DeleteError)
    → call false ≡ o
    → is_deleted (after_first call confirm o).0 ≡ true
    → (call false ≡ none) ⊎ (IsAgreed call confirm × (call true ≡ none))
unfolding after_first
first_deletes call confirm none e h = inl e
first_deletes call confirm (some err) e h = elim (Bool-cases (is_status err.status 409)) [
  | inr s ↦ let clash : false ≡ true = rw s at h in ground arith
  | inl s ↦ elim (Bool-cases (confirm (in_use_message err.detail +s "\n\nForce delete anyway?"))) [
    | inl a ↦ inr (
      record { error = err; refused = e; conflict = s; agreed = a },
      forced-deleted (call true) (rw (s, a) at h),
    )
    | inr a ↦ let clash : false ≡ true = rw (s, a) at h in ground arith
  ]
]

delete_guarded_deletes :
    (call : Bool → Option DeleteError) (confirm : String → Bool)
    → ((delete_guarded call confirm).0 ≡ deleted)
      ↔ ((call false ≡ none) ⊎ (IsAgreed call confirm × (call true ≡ none)))
unfolding delete_guarded after_first
delete_guarded_deletes call confirm = (
  λ h. first_deletes call confirm (call false) refl (ap is_deleted h),
  λ h. elim h [ inl e ↦ rw e refl | inr (a, e) ↦ rw (a.refused, a.conflict, a.agreed, e) refl ],
)

-- A request with the force flag is sent just where the first was refused with 409 and the user
-- agreed to the message of the refusal; and the delete is reported as done just where the first
-- request succeeded, or where such a forced request did.
pub delete_guarded-IsAgreed :
    (call : Bool → Option DeleteError) (confirm : String → Bool)
    → (In true (delete_guarded call confirm).1 ↔ IsAgreed call confirm)
      × (((delete_guarded call confirm).0 ≡ deleted)
          ↔ ((call false ≡ none) ⊎ (IsAgreed call confirm × (call true ≡ none))))
delete_guarded-IsAgreed call confirm =
    (delete_guarded_forces call confirm, delete_guarded_deletes call confirm)
