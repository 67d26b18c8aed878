-- ===== src/SyncJson/Examples.antt =====
-- The theorems on platform/sync_json.c at a realloc that always has memory.
use nova_desktop.Base.{
  ◌∷◌, ℕ, zero, suc, ◌-◌, ◌≡◌, inl, refl, sym, true, List, [], ◌++◌, Option, some, arith, length,
  replicate, length-append, take-append_exact,
}
use nova_desktop.Text.{codes}
use nova_desktop.SyncJson.{SyncBuffer, sync_buffer_string}
use nova_desktop.SyncJson.Room.{HasMemory, sync_buffer_string_succeeds}
use nova_desktop.SyncJson.Buffers.{Reallocs, IsBuffer, written}
use nova_desktop.SyncJson.Strings.{read_string, among}

-- New cells are zeros.
abbrev extend : List ℕ → ℕ → Option (List ℕ)
extend cells capacity = some (cells ++ replicate (capacity - length cells) 0)

length-replicate : (n a : ℕ) → length (replicate n a) ≡ n
length-replicate zero a = refl
length-replicate (suc n) a = omega (arith, length-replicate n a)

extend-Reallocs : Reallocs extend
extend-Reallocs cells capacity next h e =
    let same : cells ++ replicate (capacity - length cells) 0 ≡ next = cc in
    rw (sym same) (
      omega (
        arith,
        length-append cells (replicate (capacity - length cells) 0),
        length-replicate (capacity - length cells) 0,
      ),
      take-append_exact cells (replicate (capacity - length cells) 0),
    )

abbrev nothing : SyncBuffer
nothing = record { cells = []; size = 0; capacity = 0 }

extend-HasMemory : HasMemory extend
extend-HasMemory cells capacity e = cc

sync_buffer_string_succeeds_example :
    let (result, next) = sync_buffer_string extend nothing (codes "a\"b") in
    (result ≡ true)
    × IsBuffer next
    × (text : List ℕ) × (written next ≡ written nothing ++ b'"' ∷ text)
    × (read_string among [] text ≡ some (codes "a\"b", []))
sync_buffer_string_succeeds_example =
    sync_buffer_string_succeeds extend extend-Reallocs extend-HasMemory nothing (codes "a\"b")
      (refl, omega arith, inl (refl, refl)) (omega arith)
