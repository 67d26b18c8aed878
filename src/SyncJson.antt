-- ===== src/SyncJson.antt =====
-- platform/sync_json.h and platform/sync_json.c: the buffer in which JSON is written, and the writing of a
-- string. A `char` is a byte. realloc is a parameter: the cells after it, or none when there is no memory.
pub mod Buffers
pub mod Strings
pub mod Room
mod Examples
use nova_desktop.Base.{
  ℕ, ◌+◌, ◌-◌, ◌*◌, ◌/◌, ◌%◌, Bool, true, false, ◌||◌, List, [], ◌∷◌, ◌++◌, Option, none, some, ltb,
  ◌==◌, if◌then◌else◌, length, take, drop,
}

abbrev pub json_max : ℕ
json_max = 16 * 1024 * 1024

-- The bytes of `data` are `cells`, `capacity` of them.
pub record SyncBuffer : Type 0 where
  pub cells : List ℕ
  pub size : ℕ
  pub capacity : ℕ

-- The capacity that is asked for when `need` cells are wanted.
abbrev pub grown : ℕ → ℕ → ℕ
grown capacity need =
    let doubled = if capacity == 0 then 1024 else capacity * 2 in
    let enough = if ltb doubled need then need else doubled in
    if ltb (json_max + 1) enough then json_max + 1 else enough

-- `memcpy(cells+at,bytes,count)`
abbrev pub memcpy : List ℕ → ℕ → List ℕ → List ℕ
memcpy cells at bytes = take at cells ++ (bytes ++ drop (at + length bytes) cells)

-- The value and its terminator behind what is there.
abbrev pub write_behind : SyncBuffer → List ℕ → SyncBuffer
write_behind b value = record b {
  cells = memcpy b.cells b.size (value ++ 0 ∷ []);
  size = b.size + length value;
}

module _ (realloc : List ℕ → ℕ → Option (List ℕ)) where
  unfoldable pub sync_buffer_add : SyncBuffer → List ℕ → Bool × SyncBuffer
  sync_buffer_add b value =
      let n = length value in
      let need = b.size + n + 1 in
      if ltb json_max n || ltb (json_max - n) b.size
      then (false, b)
      else if ltb b.capacity need
      then (elim (realloc b.cells (grown b.capacity need)) [
        | none ↦ (false, b)
        | some cells ↦ (
          true,
          write_behind (record b { cells = cells; capacity = grown b.capacity need }) value,
        )
      ])
      else (true, write_behind b value)

-- A digit of `%04x`.
abbrev pub hex_digit : ℕ → ℕ
hex_digit d = if ltb d 10 then b'0' + d else b'a' + (d - 10)

-- `text`, what is written for a byte of the string.
abbrev pub escaped : ℕ → List ℕ
escaped c =
    if c == b'"' || c == b'\\'
    then b'\\' ∷ c ∷ []
    else if ltb c 32
    then b'\\' ∷ b'u' ∷ b'0' ∷ b'0' ∷ hex_digit (c / 16) ∷ hex_digit (c % 16) ∷ []
    else c ∷ []

module _ (realloc : List ℕ → ℕ → Option (List ℕ)) where
  -- The loop over the string.
  unfoldable pub add_escaped : SyncBuffer → List ℕ → Bool × SyncBuffer
  add_escaped b [] = (true, b)
  add_escaped b (c ∷ s) =
      let (added, next) = sync_buffer_add realloc b (escaped c) in
      let rest = add_escaped next s in if added then rest else (false, next)

  unfoldable pub sync_buffer_string : SyncBuffer → List ℕ → Bool × SyncBuffer
  unfolding add_escaped
  sync_buffer_string b s =
      let (opened, start) = sync_buffer_add realloc b (b'"' ∷ []) in
      let (written, body) = add_escaped start s in
      let closed = sync_buffer_add realloc body (b'"' ∷ []) in
      if opened then (if written then closed else (false, body)) else (false, start)
