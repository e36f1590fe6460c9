-- ===== src/Publisher/Candidates/Links.antt =====
-- The index of children in src/publisher.rs as a graph: what the removals do to its links.
use reth_statefeed.Prelude.{
  ℕ, ◌+◌, ◌≤◌, ◌≡◌, ◌≢◌, true, not, some, List, [], ◌∷◌, refl, ◌∙◌, ==_iff, length, retain,
  contains, contains-retain_other, length-retain-le, contains_of_retain, is_empty, if◌then◌else◌,
  ◌==◌, arith, inl, inr, Option-cases, Bool-cases,
}
use reth_statefeed.Prelude.Map.{Map, get, remove, insert, get-remove, get-insert}
use reth_statefeed.Publisher.Candidates.{children_of, drop_child, count_children}

abbrev pub IsLink : Map (List ℕ) → ℕ → ℕ → Type 0
IsLink m parent child = contains (children_of m parent) child ≡ true

-- A hash and those that the links lead to from it.
pub data Descends (m : Map (List ℕ)) : ℕ → ℕ → Type 0 where
  itself : (hash : ℕ) → Descends m hash hash
  below :
      {parent child descendant : ℕ}
      → IsLink m parent child
      → Descends m child descendant
      → Descends m parent descendant

pub IsLink-remove :
    (m : Map (List ℕ)) (gone s t : ℕ) → gone ≢ s → IsLink m s t → IsLink (remove m gone) s t
IsLink-remove m gone s t ne h = ground (arith, get-remove m gone s)

pub IsLink-removed : (m : Map (List ℕ)) (gone t : ℕ) → ¬ IsLink (remove m gone) gone t
IsLink-removed m gone t h = ground (arith, get-remove m gone gone)

is_empty→nil : (xs : List ℕ) → is_empty xs ≡ true → xs ≡ []
is_empty→nil [] h = refl
is_empty→nil (x ∷ xs) h = ground arith

children_of-dropped :
    (m : Map (List ℕ)) (parent gone s : ℕ) (children : List ℕ)
    → get m parent ≡ some children
    → children_of (drop_child m parent gone) s
      ≡ (if parent == s then retain (λ other. not (other == gone)) children else children_of m s)
unfolding drop_child
children_of-dropped m parent gone s children there =
    elim (Bool-cases (is_empty (retain (λ other. not (other == gone)) children))) [
      | inl none_left ↦
          rw (drop_child, there, none_left)
            (ground (
              arith,
              get-remove m parent s,
              is_empty→nil (retain (λ other. not (other == gone)) children) none_left,
            ))
      | inr some_left ↦
          rw (drop_child, there, some_left)
            (ground (arith, get-insert m parent s (retain (λ other. not (other == gone)) children)))
    ]

-- One child leaves the vector of one parent.
children_of-drop_child :
    (m : Map (List ℕ)) (parent gone s : ℕ)
    → children_of (drop_child m parent gone) s ≡ (
        if parent == s
        then retain (λ other. not (other == gone)) (children_of m s)
        else children_of m s)
unfolding drop_child
children_of-drop_child m parent gone s = elim (Option-cases (get m parent)) [
  | inl missing ↦ elim (Bool-cases (parent == s)) [
    | inl same ↦ rw (drop_child, missing, same) (rw (← (==_iff parent s).0 same, missing) refl)
    | inr differs ↦ rw (drop_child, missing, differs) refl
  ]
  | inr (children, there) ↦
      children_of-dropped m parent gone s children there ∙ (elim (Bool-cases (parent == s)) [
        | inl same ↦ rw same (rw (← (==_iff parent s).0 same, there) refl)
        | inr differs ↦ rw differs refl
      ])
]

pub IsLink-drop_child :
    (m : Map (List ℕ)) (parent gone s t : ℕ)
    → gone ≢ t
    → IsLink m s t
    → IsLink (drop_child m parent gone) s t
IsLink-drop_child m parent gone s t ne h =
    rw (children_of-drop_child m parent gone s)
      (ground (arith, contains-retain_other (children_of m s) gone t ne))

pub IsLink-of_drop_child :
    (m : Map (List ℕ)) (parent gone s t : ℕ) → IsLink (drop_child m parent gone) s t → IsLink m s t
IsLink-of_drop_child m parent gone s t h = ground (
  arith,
  children_of-drop_child m parent gone s,
  contains_of_retain (λ other. not (other == gone)) (children_of m s) t,
)

pub count_children-remove :
    (m : Map (List ℕ)) (gone : ℕ)
    → count_children (remove m gone) + length (children_of m gone) ≤ count_children m
unfolding count_children remove get
count_children-remove [] gone = omega arith
count_children-remove ((p, children) ∷ m) gone = ground (arith, count_children-remove m gone)

pub count_children-drop_child :
    (m : Map (List ℕ)) (parent gone : ℕ)
    → count_children (drop_child m parent gone) ≤ count_children m
unfolding drop_child count_children insert
count_children-drop_child m parent gone = elim (Option-cases (get m parent)) [
  | inl missing ↦ rw (drop_child, missing) (omega arith)
  | inr (children, there) ↦
      rw (drop_child, there)
        (ground (
          arith,
          count_children-remove m parent,
          length-retain-le (λ other. not (other == gone)) children,
        ))
]

pub IsLink-of_remove : (m : Map (List ℕ)) (gone s t : ℕ) → IsLink (remove m gone) s t → IsLink m s t
IsLink-of_remove m gone s t h = ground (arith, get-remove m gone s)

-- A path stays where there are more links.
pub Descends-mono :
    (m m' : Map (List ℕ)) (s d : ℕ)
    → ((s t : ℕ) → IsLink m' s t → IsLink m s t)
    → Descends m' s d
    → Descends m s d
Descends-mono m m' _ _ more (itself s) = itself s
Descends-mono m m' _ d more (below {parent = p} {child = x} link path) =
    below (more p x link) (Descends-mono m m' x d more path)
