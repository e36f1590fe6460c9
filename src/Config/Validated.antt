-- ===== src/Config/Validated.antt =====
-- What a configuration that src/config.rs accepts is known to satisfy.
use Prim.Native.String
use text.Mathlib.TextEquality.{eq_iff}
use reth_statefeed.Prelude.{
  ℕ, ◌+◌, ◌*◌, ◌-◌, ◌/◌, ◌≤◌, ◌<◌, ◌≡◌, ◌≢◌, ◌↔◌, true, false, not, List, [], ◌∷◌, length, is_empty,
  leb, All, u32_mod, u64_mod, ok, ensure, >>=-eq-ok, ensure-eq-ok, le→leb, arith, refl,
}
use reth_statefeed.Watch.{WatchConfig}
use reth_statefeed.Config.{
  Config, StreamConfig, no_keys, too_many_keys, duplicate_id, duplicate_coordinate, blank_id,
  is_blank, is_absolute, has_id, has_coordinate, validate_keys, validate_stream, validate, saturate,
  projection_bytes, dictionary_bytes, required_frame_bytes,
}

-- Two keys with two names and two storage coordinates.
abbrev pub AreApart : WatchConfig → WatchConfig → Type 0
AreApart a b = (a.id ≢ b.id) × ¬ ((a.address ≡ b.address) × (a.slot ≡ b.slot))

abbrev pub AreDistinct : List WatchConfig → Type 0
AreDistinct [] = Unit
AreDistinct (key ∷ rest) = All (AreApart key) rest × AreDistinct rest

abbrev pub AreNamed : List WatchConfig → Type 0
AreNamed keys = All (λ key. is_blank key.id ≡ false) keys

-- A key that none of those seen before shares its name or its coordinate with.
abbrev IsFresh : List WatchConfig → WatchConfig → Type 0
IsFresh seen key = All (λ other. AreApart other key) seen

unseen_id :
    (seen : List WatchConfig) (key : WatchConfig) → IsFresh seen key → has_id seen key ≡ false
unfolding has_id
unseen_id [] key h = refl
unseen_id (other ∷ seen) key (h, hs) = ground (arith, eq_iff other.id key.id, unseen_id seen key hs)

unseen_coordinate :
    (seen : List WatchConfig) (key : WatchConfig)
    → IsFresh seen key
    → has_coordinate seen key ≡ false
unfolding has_coordinate
unseen_coordinate [] key h = refl
unseen_coordinate (other ∷ seen) key (h, hs) = ground (arith, unseen_coordinate seen key hs)

IsFresh-of_unseen :
    (seen : List WatchConfig) (key : WatchConfig)
    → has_id seen key ≡ false
    → has_coordinate seen key ≡ false
    → IsFresh seen key
unfolding has_id has_coordinate
IsFresh-of_unseen [] key h k = tt
IsFresh-of_unseen (other ∷ seen) key h k = (
  (λ same. ground (arith, eq_iff other.id key.id), λ (a, s). ground arith),
  IsFresh-of_unseen seen key (ground arith) (ground arith),
)

All-unzip :
    (P Q : WatchConfig → Type 0) (keys : List WatchConfig)
    → All (λ k. P k × Q k) keys
    → All P keys × All Q keys
All-unzip P Q [] all = (tt, tt)
All-unzip P Q (key ∷ rest) ((p, q), all) =
    let (ps, qs) = All-unzip P Q rest all in ((p, ps), (q, qs))

All-zip :
    (P Q : WatchConfig → Type 0) (keys : List WatchConfig)
    → All P keys
    → All Q keys
    → All (λ k. P k × Q k) keys
All-zip P Q [] ps qs = tt
All-zip P Q (key ∷ rest) (p, ps) (q, qs) = ((p, q), All-zip P Q rest ps qs)

AreDistinct-of_validate_keys :
    (seen keys : List WatchConfig)
    → validate_keys seen keys ≡ ok tt
    → AreNamed keys × AreDistinct keys × All (IsFresh seen) keys
unfolding validate_keys
AreDistinct-of_validate_keys seen [] h = (tt, tt, tt)
AreDistinct-of_validate_keys seen (key ∷ rest) h =
    let (_, named, h₁) = >>=-eq-ok (ensure (not (is_blank key.id)) blank_id) _ h in
    let (_, new_id, h₂) = >>=-eq-ok (ensure (not (has_id seen key)) duplicate_id) _ h₁ in
    let (_, new_place, h₃) =
      >>=-eq-ok (ensure (not (has_coordinate seen key)) duplicate_coordinate) _ h₂ in
    let (names, distinct, fresh) = AreDistinct-of_validate_keys (key ∷ seen) rest h₃ in
    let (apart, fresh') = All-unzip (AreApart key) (IsFresh seen) rest fresh in
    (
      (ground arith, names),
      (apart, distinct),
      (IsFresh-of_unseen seen key (ground arith) (ground arith), fresh'),
    )

validate_keys_of_AreDistinct :
    (seen keys : List WatchConfig)
    → AreNamed keys
    → AreDistinct keys
    → All (IsFresh seen) keys
    → validate_keys seen keys ≡ ok tt
unfolding validate_keys
validate_keys_of_AreDistinct seen [] names distinct fresh = refl
validate_keys_of_AreDistinct seen (key ∷ rest) (named, names) (apart, distinct) (new, fresh) =
    rw (named, unseen_id seen key new, unseen_coordinate seen key new)
      (validate_keys_of_AreDistinct (key ∷ seen) rest names distinct
        (All-zip (AreApart key) (IsFresh seen) rest apart fresh))

All-IsFresh_nil : (keys : List WatchConfig) → All (IsFresh []) keys
All-IsFresh_nil [] = tt
All-IsFresh_nil (key ∷ rest) = (tt, All-IsFresh_nil rest)

-- The settings of a stream within the bounds that the program relies on.
pub record IsTuned (s : StreamConfig) : Type 0 where
  pub queue : 2 ≤ s.queue_capacity
  pub buffer : 1 ≤ s.consumer_buffer
  pub consumers : 1 ≤ s.max_consumers
  pub cache : 2 ≤ s.candidate_cache_blocks
  pub metadata : s.candidate_cache_blocks ≤ s.candidate_metadata_entries
  pub retention : 1 ≤ s.candidate_retention
  pub budget : 1 ≤ s.retirement_work_budget
  pub frame : 1024 ≤ s.max_frame_bytes
  pub spin : s.publisher_spin_us ≤ 1000000
  pub socket : is_absolute s.socket ≡ true
  pub mode : s.socket_mode ≤ 511

validate_stream-IsTuned : (s : StreamConfig) → validate_stream s ≡ ok tt → IsTuned s
unfolding validate_stream
validate_stream-IsTuned s h = ground arith

validate_stream_of_IsTuned : (s : StreamConfig) → IsTuned s → validate_stream s ≡ ok tt
unfolding validate_stream
validate_stream_of_IsTuned s t = ground arith

-- What a configuration has to be.
pub record IsUsable (c : Config) : Type 0 where
  pub some_key : 1 ≤ length c.watch
  pub key_count : length c.watch < u32_mod
  pub tuned : IsTuned c.stream
  pub named : AreNamed c.watch
  pub distinct : AreDistinct c.watch
  pub fits : required_frame_bytes c.watch ≤ c.stream.max_frame_bytes

IsUsable-of_validate : (c : Config) → validate c ≡ ok tt → IsUsable c
unfolding validate
IsUsable-of_validate c h =
    let (_, some_key, h₁) = >>=-eq-ok (ensure (not (is_empty c.watch)) no_keys) _ h in
    let (_, few, h₂) = >>=-eq-ok (ensure (leb (length c.watch) (u32_mod - 1)) too_many_keys) _ h₁ in
    let (_, tuned, h₃) = >>=-eq-ok (validate_stream c.stream) _ h₂ in
    let (_, keys, h₄) = >>=-eq-ok (validate_keys [] c.watch) _ h₃ in
    let (names, distinct, fresh) = AreDistinct-of_validate_keys [] c.watch keys in
    record {
      some_key = not_empty c.watch (ensure-eq-ok (not (is_empty c.watch)) no_keys some_key);
      key_count = ground arith;
      tuned = validate_stream-IsTuned c.stream tuned;
      named = names;
      distinct = distinct;
      fits = ground arith;
    }
  where
    not_empty : (keys : List WatchConfig) → not (is_empty keys) ≡ true → 1 ≤ length keys
    not_empty [] h = ground arith
    not_empty (key ∷ keys) h = omega arith

validate_of_IsUsable : (c : Config) → IsUsable c → validate c ≡ ok tt
unfolding validate
validate_of_IsUsable c u =
    rw
      (
        not_empty c.watch u.some_key,
        le→leb (length c.watch) (u32_mod - 1) (omega (arith, u.key_count)),
        validate_stream_of_IsTuned c.stream u.tuned,
        validate_keys_of_AreDistinct [] c.watch u.named u.distinct (All-IsFresh_nil c.watch),
        le→leb (required_frame_bytes c.watch) c.stream.max_frame_bytes u.fits,
      )
      refl
  where
    not_empty : (keys : List WatchConfig) → 1 ≤ length keys → is_empty keys ≡ false
    not_empty [] h = absurd (omega arith)
    not_empty (key ∷ keys) h = refl

-- A configuration is accepted just where it has between one and 2^32 - 1 keys with names, no two of
-- which share a name or a storage coordinate, its stream is within its bounds, and its frame bound
-- covers the estimate for the watch set.
pub validate_iff : (c : Config) → (validate c ≡ ok tt) ↔ IsUsable c
validate_iff c = (IsUsable-of_validate c, validate_of_IsUsable c)

-- The bytes of a dictionary without saturation.
abbrev pub dictionary_size : List WatchConfig → ℕ
dictionary_size [] = 512
dictionary_size (key ∷ rest) = 80 + String.len key.id + dictionary_size rest

dictionary_bytes-exact :
    (size : ℕ) (keys : List WatchConfig)
    → dictionary_bytes size keys < u64_mod - 1
    → dictionary_bytes size keys + 512 ≡ size + dictionary_size keys
unfolding dictionary_bytes
dictionary_bytes-exact size [] h = omega arith
dictionary_bytes-exact size (key ∷ rest) h = omega (
  arith,
  dictionary_bytes-exact (saturate (saturate (size + 80) + String.len key.id)) rest h,
  dictionary_bytes-ge (saturate (saturate (size + 80) + String.len key.id)) rest h,
)
  where
    dictionary_bytes-ge :
        (size : ℕ) (keys : List WatchConfig)
        → dictionary_bytes size keys < u64_mod - 1
        → size ≤ dictionary_bytes size keys
    dictionary_bytes-ge size [] h = omega arith
    dictionary_bytes-ge size (key ∷ rest) h =
        omega
          (arith, dictionary_bytes-ge (saturate (saturate (size + 80) + String.len key.id)) rest h)

-- Under a frame bound below the largest machine word, the estimates of an accepted configuration are
-- exact and fit a frame: that of a projection is 32 bytes for each key, the bitmap and 512 bytes, and
-- that of the dictionary 512 bytes, and 80 and the name for each key.
pub validate-fits :
    (c : Config)
    → c.stream.max_frame_bytes < u64_mod - 1
    → validate c ≡ ok tt
    → (projection_bytes c.watch ≡ length c.watch * 32 + (length c.watch + 7) / 8 + 512)
      × (dictionary_bytes 512 c.watch ≡ dictionary_size c.watch)
      × (projection_bytes c.watch ≤ c.stream.max_frame_bytes)
      × (dictionary_bytes 512 c.watch ≤ c.stream.max_frame_bytes)
unfolding required_frame_bytes projection_bytes
validate-fits c small h =
    let u = IsUsable-of_validate c h in
    (
      omega (arith, u.fits),
      omega (arith, u.fits, dictionary_bytes-exact 512 c.watch (omega (arith, u.fits))),
      omega (arith, u.fits),
      omega (arith, u.fits),
    )
