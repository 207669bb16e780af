-- ===== src/Canvas/Cycle/Correct.antt =====
-- `wouldCycle` ends, and finds exactly the ids from which the target is reached.
use vortex_flow.Common.{
  ℕ, zero, suc, ◌+◌, ◌≤◌, ◌<◌, String, Bool, true, false, Option, none, some, List, [], ◌∷◌,
  reverse, ◌==◌, ◌≡◌, ◌↔◌, ◌⊎◌, inl, inr, refl, if◌then◌else◌, ◌||◌, has, length, Dict, get, arith,
  length-append, length-reverse, has-append, has-reverse, eq_iff, Bool-cases, Option-cases, ap,
  eq_of_test,
}
use vortex_flow.Types.{TransformStage}
use vortex_flow.Canvas.Cycle.{inputs_of, push_all, search_from, weight, cycle_search, would_cycle}

-- `a` is `t`, or reads it through a chain of stages.
pub data Reads (m : Dict (List String)) (t : String) : String → Type 0 where
  here : {a : String} → a ≡ t → Reads m t a
  through :
      {a : String} (ins : List String) (b : String)
      → get a m ≡ some ins
      → has ins b ≡ true
      → Reads m t b
      → Reads m t a

-- What can still be pushed: the entries whose key has not been seen.
unseen : List String → Dict (List String) → ℕ
unseen seen [] = 0
unseen seen ((k, ins) ∷ m) = (if has seen k then 0 else length ins) + unseen seen m

unseen-le-weight : (m : Dict (List String)) → unseen [] m ≤ weight m
unfolding unseen
unseen-le-weight [] = omega arith
unseen-le-weight ((k, ins) ∷ m) = omega (arith, unseen-le-weight m)

unseen_mono :
    (cur : String) (seen : List String) (m : Dict (List String))
    → unseen (cur ∷ seen) m ≤ unseen seen m
unfolding unseen
unseen_mono cur seen [] = omega arith
unseen_mono cur seen ((k, ins) ∷ m) = ground (arith, unseen_mono cur seen m)

-- Marking an id as seen takes its inputs away from what can be pushed.
unseen-cons :
    (cur : String) (seen : List String) (m : Dict (List String)) (ins : List String)
    → has seen cur ≡ false
    → get cur m ≡ some ins
    → length ins + unseen (cur ∷ seen) m ≤ unseen seen m
unfolding unseen get
unseen-cons cur seen [] ins h g = ground arith
unseen-cons cur seen ((k, js) ∷ m) ins h g =
    ground (arith, unseen-cons cur seen m ins, unseen_mono cur seen m, eq_iff k cur, eq_iff cur k)

length-push_all :
    (cur : String) (seen stack : List String) (m : Dict (List String))
    → has seen cur ≡ false
    → length (push_all (get cur m) stack) + unseen (cur ∷ seen) m ≤ length stack + unseen seen m
length-push_all cur seen stack m h = elim (Option-cases (get cur m)) [
  | inl e ↦ rw e (omega (arith, unseen_mono cur seen m))
  | inr (ins, e) ↦ rw e (
      omega (
        arith,
        length-append (reverse ins) stack,
        length-reverse ins,
        unseen-cons cur seen m ins h e,
      ))
]

-- With more fuel than there are ids to pop, the loop returns.
search_from_total :
    (m : Dict (List String)) (target : String) (f : ℕ) (seen stack : List String)
    → length stack + unseen seen m < f
    → (b : Bool) × (search_from m target f seen stack ≡ some b)
unfolding search_from
search_from_total m target zero seen stack h = elim h [ ]
search_from_total m target (suc f) seen [] h = (false, refl)
search_from_total m target (suc f) seen (cur ∷ stack) h = elim (Bool-cases (cur == target)) [
  | inl e ↦ (true, rw e)
  | inr e ↦ elim (Bool-cases (has seen cur)) [
    | inl old ↦ rw (e, old) (search_from_total m target f seen stack (omega arith))
    | inr new ↦
        rw (e, new)
          (search_from_total m target f (cur ∷ seen) (push_all (get cur m) stack)
            (omega (arith, length-push_all cur seen stack m new)))
  ]
]

has-push_all :
    (o : Option (List String)) (stack : List String) (b : String)
    → has (push_all o stack) b ≡ true
    → (has stack b ≡ true) ⊎ ((ins : List String) × (o ≡ some ins) × (has ins b ≡ true))
has-push_all none stack b h = inl h
has-push_all (some ins) stack b h = elim (Bool-cases (has stack b)) [
  | inl e ↦ inl e
  | inr e ↦ inr (ins, refl, ground (arith, has-append (reverse ins) stack b, has-reverse ins b))
]

has-push_all_stack :
    (o : Option (List String)) (stack : List String) (b : String)
    → has stack b ≡ true
    → has (push_all o stack) b ≡ true
has-push_all_stack none stack b h = h
has-push_all_stack (some ins) stack b h = ground (arith, has-append (reverse ins) stack b)

has-push_all_inputs :
    (ins stack : List String) (b : String)
    → has ins b ≡ true
    → has (push_all (some ins) stack) b ≡ true
has-push_all_inputs ins stack b h =
    ground (arith, has-append (reverse ins) stack b, has-reverse ins b)

-- A search that answers yes has an id on its stack that reads the target.
search_from_sound :
    (m : Dict (List String)) (target : String) (f : ℕ) (seen stack : List String)
    → search_from m target f seen stack ≡ some true
    → (x : String) × (has stack x ≡ true) × Reads m target x
unfolding search_from
search_from_sound m target zero seen stack h = cc
search_from_sound m target (suc f) seen [] h = cc
search_from_sound m target (suc f) seen (cur ∷ stack) h = elim (Bool-cases (cur == target)) [
  | inl e ↦ (cur, ground (arith, eq_iff cur cur), here ((eq_iff cur target).0 e))
  | inr e ↦ elim (Bool-cases (has seen cur)) [
    | inl old ↦
        let (x, i, r) = search_from_sound m target f seen stack (ground arith) in
        (x, ground arith, r)
    | inr new ↦
        let (x, i, r) =
          search_from_sound m target f (cur ∷ seen) (push_all (get cur m) stack) (ground arith) in
        elim (has-push_all (get cur m) stack x i) [
          | inl j ↦ (x, ground arith, r)
          | inr (ins, g, j) ↦ (cur, ground (arith, eq_iff cur cur), through ins x g j r)
        ]
  ]
]

-- What the loop keeps: no seen id is the target, and its inputs are seen or wait on the stack.
record IsClosed (m : Dict (List String)) (target : String) (seen stack : List String) : Type 0 where
  clear : has seen target ≡ false
  inputs :
      (a b : String) (ins : List String)
      → has seen a ≡ true
      → get a m ≡ some ins
      → has ins b ≡ true
      → (has seen b || has stack b) ≡ true

-- Seen ids whose inputs are all seen do not reach the target.
closed-not-Reads :
    (m : Dict (List String)) (target : String) (seen : List String)
    → IsClosed m target seen []
    → (a : String) → has seen a ≡ true
    → ¬ Reads m target a
closed-not-Reads m target seen c a h (here e) = ground (arith, c.clear)
closed-not-Reads m target seen c a h (through ins b g i r) =
    closed-not-Reads m target seen c b (ground (arith, c.inputs a b ins h g i)) r

skip-IsClosed :
    (m : Dict (List String)) (target : String) (seen stack : List String) (cur : String)
    → has seen cur ≡ true
    → IsClosed m target seen (cur ∷ stack)
    → IsClosed m target seen stack
skip-IsClosed m target seen stack cur old c = record {
  clear = c.clear;
  inputs = λ a b ins h g i. ground (arith, c.inputs a b ins h g i, eq_iff cur b);
}

go-IsClosed :
    (m : Dict (List String)) (target : String) (seen stack : List String) (cur : String)
    → (cur == target) ≡ false
    → IsClosed m target seen (cur ∷ stack)
    → IsClosed m target (cur ∷ seen) (push_all (get cur m) stack)
go-IsClosed m target seen stack cur ne c = record {
  clear = ground (arith, c.clear);
  inputs = λ a b ins h g i. elim (Bool-cases (cur == a)) [
    | inl e ↦
        let same : get cur m ≡ some ins = rw (eq_of_test cur a e) g in
        ground (arith, ap (λ o. has (push_all o stack) b) same, has-push_all_inputs ins stack b i)
    | inr e ↦
        ground (arith, c.inputs a b ins (ground arith) g i, has-push_all_stack (get cur m) stack b)
  ];
}

search_from_complete :
    (m : Dict (List String)) (target : String) (f : ℕ) (seen stack : List String)
    → IsClosed m target seen stack
    → search_from m target f seen stack ≡ some false
    → (x : String) → (has seen x || has stack x) ≡ true
    → ¬ Reads m target x
unfolding search_from
search_from_complete m target zero seen stack c h x i = cc
search_from_complete m target (suc f) seen [] c h x i =
    closed-not-Reads m target seen c x (ground arith)
search_from_complete m target (suc f) seen (cur ∷ stack) c h x i =
    elim (Bool-cases (cur == target)) [
      | inl e ↦ ground arith
      | inr e ↦ elim (Bool-cases (has seen cur)) [
        | inl old ↦
            search_from_complete m target f seen stack (skip-IsClosed m target seen stack cur old c)
              (ground arith) x (ground (arith, eq_iff cur x))
        | inr new ↦
            search_from_complete m target f (cur ∷ seen) (push_all (get cur m) stack)
              (go-IsClosed m target seen stack cur e c) (ground arith) x
              (ground (arith, has-push_all_stack (get cur m) stack x))
      ]
    ]

one_of : {x a : String} → has (a ∷ []) x ≡ true → a ≡ x
one_of {x} {a} h = ground (arith, eq_iff a x)

from_answer :
    (m : Dict (List String)) (target src : String) (f : ℕ) (b : Bool)
    → search_from m target f [] (src ∷ []) ≡ some b
    → (b ≡ true) ↔ Reads m target src
from_answer m target src f true e =
    let (x, i, r) = search_from_sound m target f [] (src ∷ []) e in
    (λ _. rw (one_of i) r, λ _. refl)
from_answer m target src f false e =
    let start : IsClosed m target [] (src ∷ []) = record {
      clear = refl;
      inputs = λ a b ins h g i. cc;
    } in
    (
      λ h. cc,
      λ r. absurd (
          search_from_complete m target f [] (src ∷ []) start e src (ground (arith, eq_iff src src))
            r),
    )

cycle_search_total :
    (stages : List TransformStage) (src target : String)
    → (b : Bool) × (cycle_search stages src target ≡ some b)
      × ((b ≡ true) ↔ Reads (inputs_of stages) target src)
unfolding cycle_search
cycle_search_total stages src target =
    let m = inputs_of stages in
    let (b, e) =
      search_from_total m target (2 + weight m) [] (src ∷ []) (omega (arith, unseen-le-weight m)) in
    (b, e, from_answer m target src (2 + weight m) b e)

-- The search behind `wouldCycle` never runs out of fuel, and the answer is yes exactly when the
-- source is the target or reads it through a chain of stages.
pub would_cycle_iff :
    (stages : List TransformStage) (src target : String)
    → (cycle_search stages src target ≡ some (would_cycle stages src target))
      × ((would_cycle stages src target ≡ true) ↔ Reads (inputs_of stages) target src)
unfolding would_cycle
would_cycle_iff stages src target =
    let (b, e, iff) = cycle_search_total stages src target in rw e (refl, iff)
