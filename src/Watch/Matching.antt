-- ===== src/Watch/Matching.antt =====
-- What `matches_config` of src/watch.rs compares, for dictionaries that `compile` made.
use text.Mathlib.Text.{◌==◌ as str_eq}
use text.Mathlib.TextEquality.{eq_iff}
use text.Mathlib.TextPositions.{eq_refl}
use reth_statefeed.Prelude.{
  ℕ, suc, ◌%◌, ◌≡◌, ◌↔◌, Bool, true, false, ◌&&◌, List, [], ◌∷◌, refl, ap, length, ◌==◌, ==_iff,
  ==_refl, arith, u32_mod, subst,
}
use reth_statefeed.Watch.{
  WatchConfig, WatchKey, number_keys, compile, matches_key, all_match, matches_config,
}

and→both : (a b : Bool) → (a && b) ≡ true → (a ≡ true) × (b ≡ true)
and→both true b h = (refl, h)
and→both false b h = ground arith

-- The configuration that a key of the dictionary comes from.
abbrev pub config_of : WatchKey → WatchConfig
config_of key = record { id = key.id; address = key.address; slot = key.slot }

matches_key→eq : (key : WatchKey) (c : WatchConfig) → matches_key key c ≡ true → config_of key ≡ c
unfolding matches_key
matches_key→eq key c h =
    let (same_id, rest) = and→both (str_eq key.id c.id) _ h in
    let (same_address, same_slot) = and→both (key.address == c.address) _ rest in
    let p = (eq_iff key.id c.id).0 same_id in
    let q = (==_iff key.address c.address).0 same_address in
    let r = (==_iff key.slot c.slot).0 same_slot in
    λ i. record { id = p i; address = q i; slot = r i }

matches_key_refl : (key : WatchKey) → matches_key key (config_of key) ≡ true
unfolding matches_key
matches_key_refl key = rw (eq_refl key.id, ==_refl key.address, ==_refl key.slot) refl

matches-number_keys :
    (index : ℕ) (configured other : List WatchConfig)
    → length (number_keys index configured) ≡ length other
    → all_match (number_keys index configured) other ≡ true
    → configured ≡ other
unfolding number_keys all_match
matches-number_keys index [] [] long h = refl
matches-number_keys index [] (d ∷ other) long h = absurd (omega arith)
matches-number_keys index (c ∷ configured) [] long h = absurd (omega arith)
matches-number_keys index (c ∷ configured) (d ∷ other) long h =
    let key : WatchKey = record {
      key_id = index % u32_mod;
      id = c.id;
      address = c.address;
      slot = c.slot;
    } in
    let (first, rest) = and→both (matches_key key d) _ h in
    let p = matches_key→eq key d first in
    let q = matches-number_keys (suc index) configured other (omega arith) rest in λ i. p i ∷ q i

length-number_keys :
    (index : ℕ) (configured : List WatchConfig)
    → length (number_keys index configured) ≡ length configured
unfolding number_keys
length-number_keys index [] = refl
length-number_keys index (c ∷ configured) = ap suc (length-number_keys (suc index) configured)

all_match-number_keys :
    (index : ℕ) (configured : List WatchConfig)
    → all_match (number_keys index configured) configured ≡ true
unfolding number_keys all_match
all_match-number_keys index [] = refl
all_match-number_keys index (c ∷ configured) =
    let key : WatchKey = record {
      key_id = index % u32_mod;
      id = c.id;
      address = c.address;
      slot = c.slot;
    } in
    rw (matches_key_refl key) (all_match-number_keys (suc index) configured)

-- A dictionary matches the configuration that it was compiled from, whatever its generation, and no
-- other one.
pub matches_config-compile :
    (generation : ℕ) (configured other : List WatchConfig)
    → (matches_config (compile generation configured) other ≡ true) ↔ (configured ≡ other)
unfolding matches_config compile
matches_config-compile generation configured other = (
  λ h.
      let (long, same) = and→both (length (number_keys 0 configured) == length other) _ h in
      matches-number_keys 0 configured other
        ((==_iff (length (number_keys 0 configured)) (length other)).0 long) same,
  λ p.
      subst (λ other. matches_config (compile generation configured) other ≡ true) p
        (rw (length-number_keys 0 configured, ==_refl (length configured))
          (all_match-number_keys 0 configured)),
)
