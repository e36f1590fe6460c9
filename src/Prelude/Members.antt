-- ===== src/Prelude/Members.antt =====
-- Members of lists, and the entries of a map that holds each key once.
use reth_statefeed.Prelude.{
  ℕ, zero, suc, ◌<◌, ◌≡◌, ◌≢◌, ◌⊎◌, ◌↔◌, false, Option, some, List, [], ◌∷◌, ◌++◌, All, length,
  get_elem?, ◌==◌, ==_iff, sym, ap, ◌∙◌, arith, Bool-cases, inl, inr,
}
use reth_statefeed.Prelude.Map.{Map, get}

abbrev pub In : {A : Type 0} → A → List A → Type 0
In x [] = ⊥
In x (y ∷ ys) = (y ≡ x) ⊎ In x ys

pub In-append : {A : Type 0} (x : A) (xs ys : List A) → In x (xs ++ ys) ↔ (In x xs ⊎ In x ys)
In-append x [] ys =
    (λ i. inr i, λ i. elim i [ inl none_there ↦ absurd none_there | inr there ↦ there ])
In-append x (y ∷ xs) ys =
    let (split, join) = In-append x xs ys in
    (
      λ i. elim i [
        | inl here ↦ inl (inl here)
        | inr later ↦ elim (split later) [ inl left ↦ inl (inr left) | inr right ↦ inr right ]
      ],
      λ i. elim i [
        | inl (inl here) ↦ inl here
        | inl (inr left) ↦ inr (join (inl left))
        | inr right ↦ inr (join (inr right))
      ],
    )

unwrap_some : {A : Type 0} (x y : A) → ◌≡◌ {A = Option A} (some x) (some y) → x ≡ y
unwrap_some x y h = cc

pub In-of_get_elem? : {A : Type 0} (xs : List A) (i : ℕ) (x : A) → get_elem? xs i ≡ some x → In x xs
In-of_get_elem? [] i x h = cc
In-of_get_elem? (y ∷ xs) zero x h = inl (unwrap_some y x h)
In-of_get_elem? (y ∷ xs) (suc i) x h = inr (In-of_get_elem? xs i x h)

-- A member has a position.
pub position_of :
    {A : Type 0} (xs : List A) (x : A)
    → In x xs
    → (i : ℕ) × (i < length xs) × (get_elem? xs i ≡ some x)
position_of [] x there = absurd there
position_of (y ∷ xs) x (inl same) = (0, omega arith, ap some same)
position_of (y ∷ xs) x (inr later) =
    let (i, small, at) = position_of xs x later in (suc i, omega arith, at)

-- A map with each key once.
abbrev pub IsUnique : {V : Type 0} → Map V → Type 0
IsUnique [] = Unit
IsUnique ((k, v) ∷ rest) = All (λ later. k ≢ later.0) rest × IsUnique rest

pub In-of_get : {V : Type 0} (m : Map V) (k : ℕ) (v : V) → get m k ≡ some v → In (k, v) m
unfolding get
In-of_get [] k v h = cc
In-of_get {V = V} ((j, u) ∷ m) k v h = elim (Bool-cases (j == k)) [
  | inl same ↦ inl (both ((==_iff j k).0 same) (unwrap (rw same at h)))
  | inr other ↦ inr (In-of_get m k v (rw other at h))
]
  where
    unwrap : ◌≡◌ {A = Option V} (some u) (some v) → u ≡ v
    unwrap h = cc

    both : j ≡ k → u ≡ v → ◌≡◌ {A = ℕ × V} (j, u) (k, v)
    both same same' = ap (λ i. (i, u)) same ∙ ap (λ x. (k, x)) same'

never_later :
    {V : Type 0} (m : Map V) (k j : ℕ) (v : V) → All (λ later. k ≢ later.0) m → In (j, v) m → k ≢ j
never_later [] k j v apart there = absurd there
never_later ((i, u) ∷ m) k j v (first, apart) (inl same) = λ h. first (h ∙ sym (ap (λ e. e.0) same))
never_later ((i, u) ∷ m) k j v (first, apart) (inr later) = never_later m k j v apart later

pub get-of_In :
    {V : Type 0} (m : Map V) (k : ℕ) (v : V) → IsUnique m → In (k, v) m → get m k ≡ some v
unfolding get
get-of_In [] k v unique there = absurd there
get-of_In ((j, u) ∷ m) k v (apart, unique) (inl same) =
    rw ((==_iff j k).1 (ap (λ e. e.0) same)) (ap (λ e. some e.1) same)
get-of_In ((j, u) ∷ m) k v (apart, unique) (inr later) =
    rw (differs (never_later m j k v apart later)) (get-of_In m k v unique later)
  where
    differs : j ≢ k → (j == k) ≡ false
    differs ne = ground arith
