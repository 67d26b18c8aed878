-- ===== src/SyncWire.antt =====
-- platform/sync_wire.c: the request and the reply of one call to the synchronisation server, and the error state
-- of a run. A byte is a number below 256. The channel, zlib, the JSON functions of sync_json.c, memory and the
-- cancel event are outside of the model: the channel is the bytes to come and whether writes go
-- through, the rest parameters. The log lines and the callback of sy_progress are results.
pub mod Fields
pub mod Frames
pub mod Failures
pub mod RoundTrip
mod Examples
use nova_desktop.Base.{
  ℕ, ◌+◌, ◌-◌, ◌*◌, ◌/◌, ◌%◌, ◌^◌, Bool, true, false, ◌&&◌, ◌||◌, not, List, [], ◌∷◌, ◌++◌, Option,
  none, some, ltb, leb, ◌==◌, if◌then◌else◌, ℤ, pos, negsuc, length, take, drop,
}
use nova_desktop.Text.{Text, c_str, codes, text_eq}
use nova_desktop.Decimal.{to_decimal}
use nova_desktop.SyncJson.{json_max}

abbrev pub Bytes : Type 0
Bytes = List ℕ

abbrev pub packet_max : ℕ
packet_max = 128 * 1024

pub data SyncFailure : Type 0 where
  ok cancelled storage path cache protocol conflict remote network delete moved frozen upgrade :
      SyncFailure

abbrev pub is_ok : SyncFailure → Bool
is_ok failure = elim failure [ ok ↦ true | _ ↦ false ]

abbrev pub is_cancelled : SyncFailure → Bool
is_cancelled failure = elim failure [ cancelled ↦ true | _ ↦ false ]

-- The run with the parts of its result that are written here. `writes` says of the writes to come
-- whether they go through, and those beyond the list do; `incoming` are the bytes that can still be
-- read; `stopped` is the flag of the channel that the user has cancelled.
pub record Run : Type 0 where
  pub failure : SyncFailure
  pub native_error : ℕ
  pub sent : ℕ
  pub received : ℕ
  pub route : Option Bytes
  pub detail : Text
  pub phase : ℕ
  pub progress_tick : ℕ
  pub file_events : ℕ
  pub skip_events : ℕ
  pub phase_events : ℕ
  pub writes : List Bool
  pub outgoing : Bytes
  pub incoming : Bytes
  pub stopped : Bool

-- A call with a result; none is FALSE. The run comes back either way.
abbrev pub M : Type 0 → Type 0
M A = Run → Option A × Run

abbrev pub pure : {A : Type 0} → A → M A
pure a r = (some a, r)

abbrev pub follow : {A B : Type 0} → (A → M B) → Option A × Run → Option B × Run
follow f (none, r) = (none, r)
follow f (some a, r) = f a r

infixl 5 ◌>>=◌ ◌>>◌
abbrev pub ◌>>=◌ : {A B : Type 0} → M A → (A → M B) → M B
◌>>=◌ m f r = follow f (m r)

abbrev pub ◌>>◌ : {B : Type 0} → M (Unit {0}) → M B → M B
m >> k = m >>= λ _. k

-- `file_events++` and its like on an unsigned int.
abbrev counted : ℕ → ℕ
counted n = (n + 1) % 2 ^ 32

-- Whether a line is logged.
pub sy_log_job : Run → Bool × Run
sy_log_job r = (ltb r.file_events 128, record r { file_events = counted r.file_events })

-- `skips` is `!strcmp(event,"file_skip")`, `key` whether the name could be hashed.
abbrev after_skips : Bool → Run → Bool × Run
after_skips key r = (ltb r.file_events 128 && key, record r { file_events = counted r.file_events })

pub sy_log_file : Bool → Bool → Run → Bool × Run
sy_log_file skips key r =
    if skips
    then (let r' = record r { skip_events = counted r.skip_events } in
        if leb 8 r.skip_events then (false, r') else after_skips key r')
    else after_skips key r

-- A run begins with all counters at 0 and logs at most 128 lines about files.
abbrev pub phase_line : ℕ → Run → Bool × Run
phase_line phase r =
    if r.phase == phase
    then (false, r)
    else (ltb r.phase_events 32, record r { phase = phase; phase_events = counted r.phase_events })

-- Whether the phase is logged, and whether the callback is called, at the tick `now`. Ticks are 64-bit numbers.
pub sy_progress : Bool → ℕ → ℕ → ℕ → ℕ → Run → Bool × Bool × Run
sy_progress has_callback now phase done total r =
    let (logged, r') = phase_line phase r in
    if not has_callback
      || (ltb ((now + (2 ^ 64 - r'.progress_tick)) % 2 ^ 64) 150 && not (done == total))
    then (logged, false, r')
    else (logged, true, record r' { progress_tick = now })

-- The code of a big-endian number of 32 bits.
unfoldable pub put32 : ℕ → Bytes
put32 v = v / 2 ^ 24 % 256 ∷ v / 2 ^ 16 % 256 ∷ v / 2 ^ 8 % 256 ∷ v % 256 ∷ []

-- Four bytes from an index on, which are there.
abbrev byte_at : Bytes → ℕ → ℕ
byte_at bytes i = elim (drop i bytes) [ [] ↦ 0 | b ∷ bs ↦ b ]

unfoldable pub read32 : Bytes → ℕ
read32 p = byte_at p 0 * 2 ^ 24 + byte_at p 1 * 2 ^ 16 + byte_at p 2 * 2 ^ 8 + byte_at p 3

-- `last_error` is GetLastError, and 1223 is ERROR_CANCELLED. The first failure stays unless the run is cancelled.
unfoldable pub sy_fail : {A : Type 0} → ℕ → SyncFailure → M A
sy_fail last_error code r = (
  none,
  if is_ok r.failure || is_cancelled code
      then record r {
        failure = code;
        native_error = if is_cancelled code then 1223 else last_error;
      }
      else r,
)

-- ssh_client_protocol_write: all bytes, or none.
unfoldable pub protocol_write : Bytes → M (Unit {0})
protocol_write bytes r = elim r.writes [
  | [] ↦ (some tt, record r { outgoing = r.outgoing ++ bytes })
  | w ∷ ws ↦
      if w
      then (some tt, record r { outgoing = r.outgoing ++ bytes; writes = ws })
      else (none, record r { writes = ws })
]

-- ssh_client_protocol_read of `n` bytes.
unfoldable pub protocol_read : ℕ → M Bytes
protocol_read n r =
    if leb n (length r.incoming)
    then (some (take n r.incoming), record r { incoming = drop n r.incoming })
    else (none, r)

-- What a call of sy_rpc finds outside.
pub record Outside : Type 0 where
  -- the cancel event is set
  pub cancel_set : Bool
  pub last_error : ℕ
  -- sync_json_patch: document, path, value, and whether the value is JSON
  pub patch : Bytes → Bytes → Bytes → Bool → Option Bytes
  pub json_valid : Bytes → Bool
  pub json_string : Bytes → Bytes → Option Bytes
  pub json_int : Bytes → Bytes → ℤ → ℤ
  pub utf8 : Text → Option Bytes
  -- sync_wide into `detail`
  pub wide : Bytes → Text
  -- malloc and compress2
  pub compress : Bytes → Option Bytes
  -- inflate with room for so many bytes: what came out, and how many bytes were read
  pub inflate : Bytes → ℕ → Option (Bytes × ℕ)
  -- calloc and malloc of the reply
  pub memory : Bool

pub record SyncReply : Type 0 where
  pub json : Bytes
  pub bytes : Bytes
  pub size : ℕ

-- `r->result->stats.sent+=wire_size`
abbrev after_send : ℕ → Option (Unit {0}) × Run → Option (Unit {0}) × Run
after_send size (none, r) = (none, r)
after_send size (some _, r) = (some tt, record r { sent = (r.sent + size) % 2 ^ 64 })

abbrev after_receive : ℕ → Run → Run
after_receive size r = record r { received = (r.received + size) % 2 ^ 64 }

abbrev network_failure : Run → SyncFailure
network_failure r = if r.stopped then cancelled else network

unfoldable pub send : Bytes → Bytes → M (Unit {0})
unfolding protocol_write put32
send header wire =
    protocol_write (put32 (length header % 2 ^ 32) ++ put32 (length wire % 2 ^ 32))
    >> protocol_write header
    >> (if length wire == 0 then pure tt else protocol_write wire)

abbrev inflated : ℕ → ℕ → Option (Bytes × ℕ) → Option Bytes
inflated raw_size binary_size none = none
inflated raw_size binary_size (some (out, consumed)) =
    if length out == raw_size && consumed == binary_size then some out else none

abbrev is_text : Option Bytes → Bytes → Bool
is_text none t = false
is_text (some s) t = text_eq s t

-- The message of servers that know no codes.
abbrev unsupported_message : Bytes
unsupported_message =
    228 ∷ 184 ∷ 141 ∷ 230 ∷ 148 ∷ 175 ∷ 230 ∷ 140 ∷ 129 ∷ 231 ∷ 154 ∷ 132 ∷ 232 ∷ 175 ∷ 183 ∷ 230
    ∷ 177 ∷ 130 ∷ []

unfoldable pub reason_of : Option Bytes → Option Bytes → Option Bytes → SyncFailure
reason_of code message action =
    if (is_text code (codes "unsupported") || is_text message unsupported_message)
      && (is_text action (codes "overview")
          || is_text action (codes "repairs")
          || is_text action (codes "repair_prepare"))
    then upgrade
    else if is_text code (codes "moved")
    then moved
    else if is_text code (codes "frozen")
    then frozen
    else if is_text code (codes "conflict")
    then conflict
    else remote

abbrev is_one : ℤ → Bool
is_one (pos n) = n == 1
is_one (negsuc n) = false

module _ (o : Outside) where
  -- FALSE with a failure where the call before was FALSE.
  abbrev pub or_else : {A : Type 0} → (Run → SyncFailure) → Option A × Run → Option A × Run
  or_else code (some a, r) = (some a, r)
  or_else code (none, r) = sy_fail o.last_error (code r) r

  abbrev pub demand : Bool → SyncFailure → M (Unit {0})
  demand b code r = if b then (some tt, r) else sy_fail o.last_error code r

  -- sy_cancel, where FALSE goes on.
  unfoldable pub sy_cancel : M (Unit {0})
  unfolding sy_fail
  sy_cancel r = if o.cancel_set then sy_fail o.last_error cancelled r else (some tt, r)

  -- The header with the raw size, and the bytes to send: packed where that saves a twentieth.
  abbrev sized : ℕ → Option Bytes × Bytes → Option (Bytes × Bytes)
  sized size (none, wire) = none
  sized size (some header, wire) =
      elim (o.patch header (codes "$._raw_size") (to_decimal size) true) [
        | none ↦ none
        | some next ↦ some (next, wire)
      ]

  abbrev packed_or_raw : Bytes → Bytes → Option Bytes → Option Bytes × Bytes
  packed_or_raw header bytes none = (some header, bytes)
  packed_or_raw header bytes (some packed) =
      if ltb (length packed) (length bytes * 95 / 100)
      then (o.patch header (codes "$._encoding") (codes "zlib") false, packed)
      else (some header, bytes)

  unfoldable pub packed : Bytes → Bytes → Option (Bytes × Bytes)
  packed header bytes =
      if length bytes == 0
      then some (header, bytes)
      else sized (length bytes) (packed_or_raw header bytes (o.compress bytes))

  abbrev with_node : Option Bytes → Bytes → Option Bytes
  with_node none header = none
  with_node (some node) header = o.patch header (codes "$.node_id") node false

  abbrev with_device : Bytes → ℕ → Option Bytes → Option Bytes
  with_device request role none = none
  with_device request role (some node) =
      elim (o.patch request (codes "$.device") ((b'A' + role) ∷ []) false) [
        | none ↦ none
        | some header ↦ with_node (some node) header
      ]

  -- The request as it is sent.
  unfoldable pub outgoing_message : Text → ℕ → Bytes → Bytes → Option (Bytes × Bytes)
  unfolding packed
  outgoing_message node_id role request bytes = elim (with_device request role (o.utf8 node_id)) [
    | none ↦ none
    | some header ↦ packed header bytes
  ]

  unfoldable pub sy_read : ℕ → M Bytes
  unfolding protocol_read sy_fail
  sy_read n r = or_else network_failure (protocol_read n r)

  -- The two parts of the reply after their sizes.
  abbrev checked_parts : Bytes → Bytes → ℕ → M (Bytes × Bytes)
  checked_parts header binary json_size =
      demand (length (c_str header) == json_size && o.json_valid header) protocol
      >> (λ r. (some (header, binary), after_receive (length binary) r))

  unfoldable pub parts : ℕ → ℕ → M (Bytes × Bytes)
  unfolding sy_read sy_fail
  parts json_size binary_size =
      demand (not (json_size == 0 || ltb json_max json_size || ltb packet_max binary_size)) protocol
      >> demand o.memory storage
      >> (sy_read json_size >>= λ header.
          sy_read binary_size >>= λ binary. checked_parts header binary json_size)

  unfoldable pub receive : M (Bytes × Bytes)
  unfolding sy_read read32 parts
  receive = sy_read 8 >>= λ prefix. parts (read32 prefix) (read32 (drop 4 prefix))

  -- The bytes of the reply; none where its sizes or its encoding do not fit.
  abbrev decoded : ℤ → Option Bytes → Bytes → Option Bytes
  decoded (negsuc n) encoding binary = none
  decoded (pos raw_size) none binary =
      if leb raw_size packet_max && raw_size == length binary then some binary else none
  decoded (pos raw_size) (some encoding) binary =
      if leb raw_size packet_max && text_eq encoding (codes "zlib") && o.memory
      then inflated raw_size (length binary) (o.inflate binary (raw_size + 1))
      else none

  abbrev detail_of : Text → Option Bytes → Text
  detail_of old none = old
  detail_of old (some message) = o.wide message

  -- `sync_json_int(r->db,header,"$.ok",0)!=1`
  unfoldable pub rejected : Bytes → Bytes → M SyncReply
  unfolding reason_of sy_fail
  rejected request header r =
      sy_fail o.last_error
        (reason_of (o.json_string header (codes "$.code")) (o.json_string header (codes "$.error"))
          (o.json_string request (codes "$.action")))
        (record r {
          route = o.json_string header (codes "$.state");
          detail = detail_of r.detail (o.json_string header (codes "$.error"));
        })

  -- `reply->size=(size_t)raw_size`
  abbrev replied : ℤ → Bytes → Option Bytes → M SyncReply
  replied raw_size bytes none r = sy_fail o.last_error protocol r
  replied (negsuc n) bytes (some json) r = sy_fail o.last_error protocol r
  replied (pos raw_size) bytes (some json) r =
      (some (record { json = json; bytes = bytes; size = raw_size }), r)

  abbrev answered : Bytes → Bytes → ℤ → Option Bytes → M SyncReply
  answered request header raw_size none r = sy_fail o.last_error protocol r
  answered request header raw_size (some bytes) r =
      if is_one (o.json_int header (codes "$.ok") (pos 0))
      then replied raw_size bytes (o.json_string header (codes "$.result")) r
      else rejected request header r

  unfoldable pub accept_reply : Bytes → Bytes × Bytes → M SyncReply
  unfolding rejected sy_fail
  accept_reply request (header, binary) r =
      let raw_size : ℤ = o.json_int header (codes "$._raw_size") (pos 0) in
      answered request header raw_size
        (decoded raw_size (o.json_string header (codes "$._encoding")) binary) r

  abbrev transmit : Option (Bytes × Bytes) → M (Unit {0})
  transmit none r = sy_fail o.last_error storage r
  transmit (some (header, wire)) r =
      after_send (length wire) (or_else network_failure (send header wire r))

  -- The call until the reply is there; a request that is too large is FALSE without a failure.
  unfoldable pub exchange : Text → ℕ → Bytes → Bytes → M (Bytes × Bytes)
  unfolding sy_cancel outgoing_message send receive sy_fail
  exchange node_id role request bytes =
      sy_cancel
      >> (λ r. (if leb (length bytes) packet_max then some tt else none, r))
      >> transmit (outgoing_message node_id role request bytes)
      >> receive

  -- The settings give `node_id` and `role`.
  unfoldable pub sy_rpc : Text → ℕ → Bytes → Bytes → M SyncReply
  unfolding exchange accept_reply
  sy_rpc node_id role request bytes =
      exchange node_id role request bytes >>= λ message. accept_reply request message
