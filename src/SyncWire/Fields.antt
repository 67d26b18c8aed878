-- ===== src/SyncWire/Fields.antt =====
-- platform/sync_wire.c: the text of a request with its action and up to two fields.
use nova_desktop.Base.{ℕ, Bool, true, false, List, [], ◌∷◌, Option, none, some}
use nova_desktop.Text.{Text, c_str, codes}
use nova_desktop.SyncJson.{SyncBuffer, sync_buffer_add, sync_buffer_string}

abbrev empty_buffer : SyncBuffer
empty_buffer = record { cells = []; size = 0; capacity = 0 }

-- `ok&&` before a step on the buffer.
abbrev and_add : (SyncBuffer → Bool × SyncBuffer) → Bool × SyncBuffer → Bool × SyncBuffer
and_add f (true, b) = f b
and_add f (false, b) = (false, b)

abbrev text_of : Bool × SyncBuffer → Option Text
text_of (true, b) = some (c_str b.cells)
text_of (false, b) = none

module _ (realloc : List ℕ → ℕ → Option (List ℕ)) where
  abbrev add : Text → Bool × SyncBuffer → Bool × SyncBuffer
  add text x = and_add (λ b. sync_buffer_add realloc b text) x

  abbrev quote : Text → Bool × SyncBuffer → Bool × SyncBuffer
  quote text x = and_add (λ b. sync_buffer_string realloc b text) x

  abbrev add_fields : List (Text × Text) → Bool × SyncBuffer → Bool × SyncBuffer
  add_fields [] x = x
  add_fields ((name, value) ∷ fields) x =
      add_fields fields (quote value (add (codes ":") (quote name (add (codes ",") x))))

  -- The fields that are not NULL.
  unfoldable pub sy_fields : Text → List (Text × Text) → Option Text
  sy_fields action fields =
      let start = quote action (add (codes "{\"action\":") (true, empty_buffer)) in
      text_of (add (codes "}") (add_fields fields start))
