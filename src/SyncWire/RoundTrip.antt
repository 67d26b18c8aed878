-- ===== src/SyncWire/RoundTrip.antt =====
-- platform/sync_wire.c: what one side sends the other receives.
use nova_desktop.Base.{
  append_nil, append_assoc, ℕ, ◌%◌, ◌^◌, Bool, true, false, [], ◌∷◌, ◌++◌, Option, none, some, ltb,
  leb, ◌==◌, if◌then◌else◌, length, take, drop, ◌≡◌, refl, arith, ◌<◌, subst, ap, ◌∙◌, sym,
}
use nova_desktop.Text.{c_str}
use nova_desktop.SyncJson.{json_max}
use nova_desktop.SyncWire.{
  Bytes, packet_max, put32, read32, Run, Outside, send, receive, sy_read, parts, protocol_write,
  protocol_read, after_receive, M, follow, ◌>>◌, pure,
}
use nova_desktop.SyncWire.Frames.{read32-put32}
use nova_desktop.SyncWire.Failures.{body}

take-++ : (xs ys : Bytes) → take (length xs) (xs ++ ys) ≡ xs
take-++ [] ys = refl
take-++ (x ∷ xs) ys = ap (λ zs. x ∷ zs) (take-++ xs ys)

drop-++ : (xs ys : Bytes) → drop (length xs) (xs ++ ys) ≡ ys
drop-++ [] ys = refl
drop-++ (x ∷ xs) ys = drop-++ xs ys

length-++_least : (xs ys : Bytes) → leb (length xs) (length (xs ++ ys)) ≡ true
length-++_least [] ys = ground arith
length-++_least (x ∷ xs) ys = let h = length-++_least xs ys in ground (arith, h)

-- What comes next is read.
sy_read-next :
    (o : Outside) (bytes rest : Bytes) (r : Run)
    → r.incoming ≡ bytes ++ rest
    → sy_read o (length bytes) r ≡ (some bytes, record r { incoming = rest })
unfolding sy_read protocol_read
sy_read-next o bytes rest r e =
    rw (e, length-++_least bytes rest, take-++ bytes rest, drop-++ bytes rest) refl

-- What is in the frame of a header and its bytes.
unfoldable pub frame : Bytes → Bytes → Bytes
frame header wire =
    ((put32 (length header % 2 ^ 32) ++ put32 (length wire % 2 ^ 32)) ++ header) ++ wire

abbrev Writes : (Run → Option (Unit {0}) × Run) → Bytes → Type 0
Writes m bytes = (r : Run) → (m r).0 ≡ some tt → (m r).1.outgoing ≡ r.outgoing ++ bytes

protocol_write-Writes : (bytes : Bytes) → Writes (protocol_write bytes) bytes
unfolding protocol_write
protocol_write-Writes bytes r h = ground arith

follow-Writes :
    (a b : Bytes) (r : Run) (k : M (Unit {0})) (x : Option (Unit {0}) × Run)
    → Writes k b
    → (x.0 ≡ some tt → x.1.outgoing ≡ r.outgoing ++ a)
    → (follow (λ u. k) x).0 ≡ some tt
    → (follow (λ u. k) x).1.outgoing ≡ r.outgoing ++ (a ++ b)
follow-Writes a b r k (none, r') next first h = ground arith
follow-Writes a b r k (some _, r') next first h =
    next r' h ∙ ap (λ xs. xs ++ b) (first refl) ∙ append_assoc r.outgoing a b

then-Writes :
    (m k : M (Unit {0})) (a b : Bytes) → Writes m a → Writes k b → Writes (m >> k) (a ++ b)
then-Writes m k a b first next r = follow-Writes a b r k (m r) next (first r)

no_bytes : (wire : Bytes) → (length wire == 0) ≡ true → wire ≡ []
no_bytes [] h = refl
no_bytes (x ∷ xs) h = ground arith

if-Writes :
    (b : Bool) (wire : Bytes)
    → (b ≡ true → wire ≡ [])
    → Writes (if b then pure tt else protocol_write wire) wire
if-Writes true wire nothing r h = rw (nothing refl) (sym (append_nil r.outgoing))
if-Writes false wire nothing r h = protocol_write-Writes wire r h

body-Writes : (wire : Bytes) → Writes (body wire) wire
body-Writes wire = if-Writes (length wire == 0) wire (no_bytes wire)

send-Writes : (header wire : Bytes) → Writes (send header wire) (frame header wire)
unfolding send frame
send-Writes header wire =
    let sizes : Bytes = put32 (length header % 2 ^ 32) ++ put32 (length wire % 2 ^ 32) in
    then-Writes (protocol_write sizes >> protocol_write header) (body wire) (sizes ++ header) wire
      (then-Writes (protocol_write sizes) (protocol_write header) sizes header
        (protocol_write-Writes sizes) (protocol_write-Writes header))
      (body-Writes wire)

-- A header that receive accepts.
abbrev pub IsMessage : Outside → Bytes → Bytes → Type 0
IsMessage o header wire =
    ((length header == 0) ≡ false)
    × (ltb json_max (length header) ≡ false)
    × (ltb packet_max (length wire) ≡ false)
    × ((length (c_str header) == length header) ≡ true)
    × (o.json_valid header ≡ true)

parts-frame :
    (o : Outside) (header wire rest : Bytes) (r : Run)
    → o.memory ≡ true
    → IsMessage o header wire
    → r.incoming ≡ header ++ (wire ++ rest)
    → parts o (length header) (length wire) r
      ≡ (some (header, wire), after_receive (length wire) (record r { incoming = rest }))
unfolding parts
parts-frame o header wire rest r memory (some_header, small, small_wire, ends, valid) e =
    rw
      (
        some_header,
        small,
        small_wire,
        memory,
        sy_read-next o header (wire ++ rest) r e,
        sy_read-next o wire rest (record r { incoming = wire ++ rest }) refl,
        ends,
        valid,
      )
      refl

sizes-length : (n m : ℕ) → length (put32 n ++ put32 m) ≡ 8
unfolding put32
sizes-length n m = refl

sizes-second : (n m : ℕ) → drop 4 (put32 n ++ put32 m) ≡ put32 m ++ []
unfolding put32
sizes-second n m = refl

-- A frame is its sizes and its parts.
frame-split :
    (header wire rest : Bytes)
    → length header < 2 ^ 32
    → length wire < 2 ^ 32
    → frame header wire ++ rest
      ≡ (put32 (length header) ++ put32 (length wire)) ++ (header ++ (wire ++ rest))
unfolding frame
frame-split header wire rest small small_wire =
    let same : length header % 2 ^ 32 ≡ length header = omega arith in
    let same_wire : length wire % 2 ^ 32 ≡ length wire = omega arith in
    let sizes : Bytes = put32 (length header) ++ put32 (length wire) in
    rw
      (
        same,
        same_wire,
        append_assoc (sizes ++ header) wire rest,
        append_assoc sizes header (wire ++ rest),
      )
      refl

-- What the other side has sent with success is received, wherever it stands in what can be read, with a header
-- that is JSON without a NUL of 1 to 16 MB, at most 128 KB of bytes and memory for both.
pub receive-send :
    (o : Outside) (header wire rest : Bytes) (sender r : Run)
    → o.memory ≡ true
    → IsMessage o header wire
    → sender.outgoing ≡ []
    → (send header wire sender).0 ≡ some tt
    → r.incoming ≡ (send header wire sender).1.outgoing ++ rest
    → receive o r
      ≡ (some (header, wire), after_receive (length wire) (record r { incoming = rest }))
unfolding receive
receive-send o header wire rest sender r memory message empty sent e =
    let small : length header < 2 ^ 32 = ground arith in
    let small_wire : length wire < 2 ^ 32 = ground arith in
    let sizes : Bytes = put32 (length header) ++ put32 (length wire) in
    let eq : r.incoming ≡ sizes ++ (header ++ (wire ++ rest)) =
      e
      ∙ ap (λ xs. xs ++ rest) (send-Writes header wire sender sent)
      ∙ rw empty (frame-split header wire rest small small_wire) in
    let r' : Run = record r { incoming = header ++ (wire ++ rest) } in
    let read : sy_read o 8 r ≡ (some sizes, r') =
      subst (λ n. sy_read o n r ≡ (some sizes, r')) (sizes-length (length header) (length wire))
        (sy_read-next o sizes (header ++ (wire ++ rest)) r eq) in
    let first : read32 sizes ≡ length header =
      read32-put32 (length header) small (put32 (length wire)) in
    let second : read32 (drop 4 sizes) ≡ length wire =
      rw (sizes-second (length header) (length wire)) (read32-put32 (length wire) small_wire []) in
    rw (read, first, second) (parts-frame o header wire rest r' memory message refl)
