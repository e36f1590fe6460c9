-- ===== src/Watch/Lookup.antt =====
-- What `WatchSet::address` of src/watch.rs finds in a dictionary that `WatchSet::compile` made.
use reth_statefeed.Prelude.{
  ℕ, suc, ◌+◌, ◌≡◌, ◌⊎◌, true, false, Option, none, some, List, [], ◌∷◌, ◌++◌, refl, ap, ◌∙◌, subst,
  ==_iff, ◌==◌, if◌then◌else◌, get_elem?, map, arith, inl, inr, Bool-cases,
}
use mathlib.Core.Option
use mathlib.Core.List.{append_assoc}
use reth_statefeed.Prelude.Map.{Map, get, insert, get-insert}
use reth_statefeed.Watch.{
  WatchConfig, WatchKey, SlotWatch, number_keys, push_grouped, group_keys, address_watch,
  index_addresses, compile, address,
}
use reth_statefeed.Watch.Grouping.{IsSorted, get_of_above, IsSorted-push_grouped, get-push_grouped}

-- The keys of an address, in the order of the configuration.
abbrev pub slots_of : ℕ → List WatchKey → List SlotWatch
slots_of a [] = []
slots_of a (key ∷ rest) =
    if key.address == a
    then record { slot = key.slot; key_id = key.key_id } ∷ slots_of a rest
    else slots_of a rest

-- More slots behind those that are filed already.
abbrev pub filed : Option (List SlotWatch) → List SlotWatch → Option (List SlotWatch)
filed old [] = old
filed old (s ∷ slots) = some (Option.get_or old [] ++ (s ∷ slots))

filed-cons :
    (old : Option (List SlotWatch)) (s : SlotWatch) (slots : List SlotWatch)
    → filed (some (Option.get_or old [] ++ s ∷ [])) slots ≡ filed old (s ∷ slots)
filed-cons old s [] = refl
filed-cons old s (t ∷ slots) = ap some (append_assoc (Option.get_or old []) (s ∷ []) (t ∷ slots))

pub IsSorted-group_keys :
    (keys : List WatchKey) (grouped : Map (List SlotWatch))
    → IsSorted grouped
    → IsSorted (group_keys grouped keys)
unfolding group_keys
IsSorted-group_keys [] grouped sorted = sorted
IsSorted-group_keys (key ∷ keys) grouped sorted =
    let s : SlotWatch = record { slot = key.slot; key_id = key.key_id } in
    IsSorted-group_keys keys (push_grouped grouped key.address s)
      (IsSorted-push_grouped grouped key.address s sorted)

pub get-group_keys :
    (keys : List WatchKey) (grouped : Map (List SlotWatch)) (a : ℕ)
    → IsSorted grouped
    → get (group_keys grouped keys) a ≡ filed (get grouped a) (slots_of a keys)
unfolding group_keys
get-group_keys [] grouped a sorted = refl
get-group_keys (key ∷ keys) grouped a sorted =
    get-group_keys keys (push_grouped grouped key.address s) a
      (IsSorted-push_grouped grouped key.address s sorted)
    ∙ (elim (Bool-cases (key.address == a)) [
      | inl same ↦
          rw (get-push_grouped grouped key.address s a sorted, same)
            (rw ((==_iff key.address a).0 same) (filed-cons (get grouped a) s (slots_of a keys)))
      | inr differs ↦ rw (get-push_grouped grouped key.address s a sorted, differs) refl
    ])
  where
    s : SlotWatch
    s = record { slot = key.slot; key_id = key.key_id }

-- The index of an address that has an entry, or the one that the map held before.
abbrev Indexed : Map ℕ → ℕ → Map (List SlotWatch) → ℕ → Type 0
Indexed m n grouped a =
    ((get grouped a ≡ none) × (get (index_addresses n m (map address_watch grouped)) a ≡ get m a))
    ⊎ ((i : ℕ) × (slots : List SlotWatch) × (get grouped a ≡ some slots)
        × (get (index_addresses n m (map address_watch grouped)) a ≡ some (n + i))
        × (get_elem? (map address_watch grouped) i ≡ some (address_watch (a, slots))))

index_lem :
    (grouped : Map (List SlotWatch)) (m : Map ℕ) (n a : ℕ)
    → IsSorted grouped
    → Indexed m n grouped a
unfolding index_addresses get insert address_watch
index_lem [] m n a sorted = inl (refl, refl)
index_lem ((b, slots) ∷ rest) m n a (above, sorted) = elim (Bool-cases (b == a)) [
  | inl same ↦
      let e : b ≡ a = (==_iff b a).0 same in
      elim (index_lem rest (insert m b n) (suc n) a sorted) [
        | inl (missing, old) ↦ inr (
          0,
          slots,
          rw same refl,
          old ∙ get-insert m b a n ∙ inserted m same,
          ap (λ x. some (address_watch (x, slots))) e,
        )
        | inr (i, found, there, index, element) ↦
            absurd
              (ground (arith, there, subst (λ x. get rest x ≡ none) e (get_of_above rest b above)))
      ]
  | inr differs ↦ elim (index_lem rest (insert m b n) (suc n) a sorted) [
    | inl (missing, old) ↦ inl (rw differs missing, old ∙ get-insert m b a n ∙ passed m differs)
    | inr (i, found, there, index, element) ↦
        inr (suc i, found, rw differs there, index ∙ ap some (omega arith), element)
  ]
]
  where
    inserted : (m : Map ℕ) → (b == a) ≡ true → (if b == a then some n else get m a) ≡ some (n + 0)
    inserted m same = rw same (ap some (omega arith))

    passed : (m : Map ℕ) → (b == a) ≡ false → (if b == a then some n else get m a) ≡ get m a
    passed m differs = rw differs refl

pub get_of_empty {ℓ} : {V : Type ℓ} (a : ℕ) → get {V = V} [] a ≡ none
unfolding get
get_of_empty a = refl

-- A dictionary has an entry for an address just where the configuration names it, and the entry
-- holds the keys of the address with their dense ids and no other ones, sorted by slot, with their
-- index by hash where they are many.
pub address-compile :
    (generation : ℕ) (configured : List WatchConfig) (a : ℕ)
    → address (compile generation configured) a
      ≡ Option.map
          (λ slots. address_watch (a, slots))
          (filed none (slots_of a (number_keys 0 configured)))
unfolding address compile
address-compile generation configured a =
    found (group_keys [] keys) (IsSorted-group_keys keys [] tt)
    ∙ ap (Option.map (λ slots. address_watch (a, slots)))
        (get-group_keys keys [] a tt ∙ empty (slots_of a keys))
  where
    keys : List WatchKey
    keys = number_keys 0 configured

    empty :
        (slots : List SlotWatch) → filed (get {V = List SlotWatch} [] a) slots ≡ filed none slots
    empty slots = ap (λ old. filed old slots) (get_of_empty a)

    found :
        (grouped : Map (List SlotWatch))
        → IsSorted grouped
        → (elim (get (index_addresses 0 [] (map address_watch grouped)) a) [
          | none ↦ none
          | some index ↦ get_elem? (map address_watch grouped) index
        ])
          ≡ Option.map (λ slots. address_watch (a, slots)) (get grouped a)
    found grouped sorted = elim (index_lem grouped [] 0 a sorted) [
      | inl (missing, none_there) ↦ rw (missing, none_there ∙ get_of_empty a) refl
      | inr (i, slots, there, index, element) ↦
          let there_index : get (index_addresses 0 [] (map address_watch grouped)) a ≡ some i =
            index ∙ ap some (omega arith) in
          rw (there, there_index) element
    ]
