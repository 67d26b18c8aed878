-- ===== src/SyncWire/Frames.antt =====
-- platform/sync_wire.c: the frames on the wire.
use nova_desktop.Base.{
  ℕ, ◌+◌, ◌^◌, true, ◌++◌, Option, none, some, leb, ℤ, pos, negsuc, length, ◌≡◌, refl, arith, ◌<◌,
}
use nova_desktop.Text.{Text, codes}
use nova_desktop.SyncWire.{
  follow, Bytes, packet_max, put32, read32, Run, Outside, SyncReply, sy_fail, accept_reply, sy_rpc,
  exchange, decoded, answered, replied, inflated, rejected,
}

-- The four bytes of a number below 2^32, whatever comes behind them, read back as that number.
pub read32-put32 : (v : ℕ) → v < 2 ^ 32 → (rest : Bytes) → read32 (put32 v ++ rest) ≡ v
unfolding read32 put32
read32-put32 v small rest = omega arith

inflated-length :
    (raw_size binary_size : ℕ) (answer : Option (Bytes × ℕ)) (bytes : Bytes)
    → inflated raw_size binary_size answer ≡ some bytes
    → raw_size ≡ length bytes
inflated-length raw_size binary_size none bytes h = ground arith
inflated-length raw_size binary_size (some (out, consumed)) bytes h = ground arith

-- What was decoded is as long as the server said.
abbrev IsSized : ℤ → Bytes → Type 0
IsSized raw_size bytes = (raw_size ≡ pos (length bytes)) × (leb (length bytes) packet_max ≡ true)

decoded-length :
    (o : Outside) (raw_size : ℤ) (encoding : Option Bytes) (binary bytes : Bytes)
    → decoded o raw_size encoding binary ≡ some bytes
    → IsSized raw_size bytes
decoded-length o (pos n) none binary bytes h = ground arith
decoded-length o (negsuc n) none binary bytes h = ground arith
decoded-length o (pos n) (some e) binary bytes h =
    let eq : n ≡ length bytes =
      inflated-length n (length binary) (o.inflate binary (n + 1)) bytes (ground arith) in
    ground (arith, eq)
decoded-length o (negsuc n) (some e) binary bytes h = ground arith

abbrev IsWhole : SyncReply → Type 0
IsWhole reply = (reply.size ≡ length reply.bytes) × (leb reply.size packet_max ≡ true)

replied-size :
    (o : Outside) (raw_size : ℤ) (bytes : Bytes) (json : Option Bytes) (r : Run) (reply : SyncReply)
    → IsSized raw_size bytes
    → (replied o raw_size bytes json r).0 ≡ some reply
    → IsWhole reply
unfolding sy_fail
replied-size o (pos n) bytes none r reply sized h = ground arith
replied-size o (negsuc n) bytes none r reply sized h = ground arith
replied-size o (pos n) bytes (some json) r reply sized h = ground arith
replied-size o (negsuc n) bytes (some json) r reply sized h = ground arith

answered-size :
    (o : Outside) (request header : Bytes) (raw_size : ℤ) (bytes : Option Bytes) (r : Run)
    (reply : SyncReply)
    → ((b : Bytes) → bytes ≡ some b → IsSized raw_size b)
    → (answered o request header raw_size bytes r).0 ≡ some reply
    → IsWhole reply
unfolding sy_fail rejected
answered-size o request header raw_size none r reply sized h = ground arith
answered-size o request header raw_size (some bytes) r reply sized h =
    replied-size o raw_size bytes (o.json_string header (codes "$.result")) r reply
      (sized bytes refl) (ground arith)

accept_reply-size :
    (o : Outside) (request : Bytes) (message : Bytes × Bytes) (r : Run) (reply : SyncReply)
    → (accept_reply o request message r).0 ≡ some reply
    → IsWhole reply
unfolding accept_reply
accept_reply-size o request (header, binary) r reply h =
    let raw_size : ℤ = o.json_int header (codes "$._raw_size") (pos 0) in
    let encoding : Option Bytes = o.json_string header (codes "$._encoding") in
    answered-size o request header raw_size (decoded o raw_size encoding binary) r reply
      (λ b. decoded-length o raw_size encoding binary b) h

-- A call that follows another and answers has found its answer.
followed :
    {A B : Type 0} (f : A → Run → Option B × Run) (m : Option A × Run) (b : B)
    → (follow f m).0 ≡ some b
    → (a : A) × (r : Run) × ((f a r).0 ≡ some b)
followed f (none, r) b h = ground arith
followed f (some a, r) b h = (a, r, h)

-- Where a call answers, the size of its bytes is the size of what it received and decoded, and at most 128 KB:
-- what reads the reply up to its size stays within it.
pub sy_rpc-size :
    (o : Outside) (node_id : Text) (role : ℕ) (request bytes : Bytes) (r : Run) (reply : SyncReply)
    → (sy_rpc o node_id role request bytes r).0 ≡ some reply
    → (reply.size ≡ length reply.bytes) × (leb reply.size packet_max ≡ true)
unfolding sy_rpc
sy_rpc-size o node_id role request bytes r reply h =
    let (message, r', answer) =
      followed (accept_reply o request) (exchange o node_id role request bytes r) reply h in
    accept_reply-size o request message r' reply answer
