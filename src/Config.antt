-- ===== src/Config.antt =====
-- src/config.rs: the configuration and its validation. A path is its text; a duration is its
-- nanoseconds. Reading a file and decoding TOML are the arguments of `load`.
pub mod Validated
use Prim.Native.Char.{Char, code}
use Prim.Native.String
use text.Mathlib.Text.{◌==◌ as str_eq}
use reth_statefeed.Prelude.{
  ℕ, ◌+◌, ◌*◌, ◌-◌, ◌/◌, Bool, true, false, not, ◌&&◌, ◌||◌, Option, none, some, String, List, [],
  ◌∷◌, length, is_empty, ltb, leb, ◌==◌, if◌then◌else◌, min, max, u32_mod, u64_mod, Result, ok, err,
  ensure, ok_or, ◌>>=◌, ◌>>◌,
}
use reth_statefeed.Watch.{WatchConfig}

pub record StreamConfig : Type 0 where
  pub publish_executed : Bool
  pub socket : String
  pub socket_mode : ℕ
  pub queue_capacity : ℕ
  pub candidate_cache_blocks : ℕ
  pub candidate_metadata_entries : ℕ
  pub candidate_retention : ℕ
  pub retirement_work_budget : ℕ
  pub consumer_buffer : ℕ
  pub max_consumers : ℕ
  pub max_frame_bytes : ℕ
  pub publisher_cpu : Option ℕ
  pub publisher_spin_us : ℕ

-- `Default for StreamConfig`.
abbrev pub default_stream : StreamConfig
default_stream = record {
  publish_executed = false;
  socket = "/run/reth-statefeed/statefeed.sock";
  socket_mode = 432;
  queue_capacity = 8192;
  candidate_cache_blocks = 128;
  candidate_metadata_entries = 1024;
  candidate_retention = 120000000000;
  retirement_work_budget = 256;
  consumer_buffer = 256;
  max_consumers = 64;
  max_frame_bytes = 4194304;
  publisher_cpu = none;
  publisher_spin_us = 0;
}

pub record Config : Type 0 where
  pub stream : StreamConfig
  pub watch : List WatchConfig

-- One constructor for each message of `Invalid`; the formatted values are left out.
pub data ConfigError : Type 0 where
  read parse : ConfigError
  queue_too_small no_consumer_buffer no_consumers cache_too_small : ConfigError
  metadata_below_cache no_retention no_work_budget frame_too_small : ConfigError
  spin_too_long relative_socket bad_socket_mode : ConfigError
  no_keys too_many_keys blank_id duplicate_id duplicate_coordinate : ConfigError
  frame_below_watch_set : ConfigError

-- `Path::is_absolute` on Unix.
unfoldable pub is_absolute : String → Bool
is_absolute String.[] = false
is_absolute (String.◌∷◌ c path) = code c == 47

unfoldable pub validate_stream : StreamConfig → Result ConfigError (Unit {0})
validate_stream s = do
  ensure (leb 2 s.queue_capacity) queue_too_small
  ensure (not (s.consumer_buffer == 0)) no_consumer_buffer
  ensure (not (s.max_consumers == 0)) no_consumers
  ensure (leb 2 s.candidate_cache_blocks) cache_too_small
  ensure (leb s.candidate_cache_blocks s.candidate_metadata_entries) metadata_below_cache
  ensure (not (s.candidate_retention == 0)) no_retention
  ensure (not (s.retirement_work_budget == 0)) no_work_budget
  ensure (leb 1024 s.max_frame_bytes) frame_too_small
  ensure (leb s.publisher_spin_us 1000000) spin_too_long
  ensure (is_absolute s.socket) relative_socket
  ensure (leb s.socket_mode 511) bad_socket_mode

-- `char::is_whitespace`: the characters with the property White_Space.
unfoldable pub is_whitespace : ℕ → Bool
is_whitespace c =
    (leb 9 c && leb c 13)
    || (c == 32
        || c == 133
        || c == 160
        || c == 5760
        || (leb 8192 c && leb c 8202)
        || c == 8232
        || c == 8233
        || c == 8239
        || c == 8287
        || c == 12288)

-- `trim().is_empty()`.
unfoldable pub is_blank : String → Bool
is_blank String.[] = true
is_blank (String.◌∷◌ c text) = is_whitespace (code c) && is_blank text

-- Whether the set of the keys seen so far has the id, or the coordinate, of a key.
unfoldable pub has_id : List WatchConfig → WatchConfig → Bool
has_id [] key = false
has_id (other ∷ seen) key = str_eq other.id key.id || has_id seen key

unfoldable pub has_coordinate : List WatchConfig → WatchConfig → Bool
has_coordinate [] key = false
has_coordinate (other ∷ seen) key =
    (other.address == key.address && other.slot == key.slot) || has_coordinate seen key

-- The loop over the keys; both sets hold what the keys before contributed.
unfoldable pub validate_keys : List WatchConfig → List WatchConfig → Result ConfigError (Unit {0})
validate_keys seen [] = ok tt
validate_keys seen (key ∷ rest) = do
  ensure (not (is_blank key.id)) blank_id
  ensure (not (has_id seen key)) duplicate_id
  ensure (not (has_coordinate seen key)) duplicate_coordinate
  validate_keys (key ∷ seen) rest

abbrev pub saturate : ℕ → ℕ
saturate n = min n (u64_mod - 1)

-- The two estimates of the frame that a watch set needs.
unfoldable pub projection_bytes : List WatchConfig → ℕ
projection_bytes watch =
    saturate (saturate (saturate (length watch * 32) + (length watch + 7) / 8) + 512)

unfoldable pub dictionary_bytes : ℕ → List WatchConfig → ℕ
dictionary_bytes size [] = size
dictionary_bytes size (key ∷ rest) =
    dictionary_bytes (saturate (saturate (size + 80) + String.len key.id)) rest

unfoldable pub required_frame_bytes : List WatchConfig → ℕ
required_frame_bytes watch = max (projection_bytes watch) (dictionary_bytes 512 watch)

unfoldable pub validate : Config → Result ConfigError (Unit {0})
validate c = do
  ensure (not (is_empty c.watch)) no_keys
  ensure (leb (length c.watch) (u32_mod - 1)) too_many_keys
  validate_stream c.stream
  validate_keys [] c.watch
  ensure (leb (required_frame_bytes c.watch) c.stream.max_frame_bytes) frame_below_watch_set

-- What `load` asks of the file system and of the TOML decoder.
pub record ConfigSource : Type 0 where
  pub read_to_string : String → Option String
  pub from_str : String → Option Config

unfoldable pub load : ConfigSource → String → Result ConfigError Config
load source path = do
  contents ← ok_or (source.read_to_string path) read
  config ← ok_or (source.from_str contents) parse
  validate config
  ok config
