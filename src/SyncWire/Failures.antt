-- ===== src/SyncWire/Failures.antt =====
-- platform/sync_wire.c: the failure that a call leaves in the run.
use nova_desktop.Base.{
  ℕ, ◌%◌, ◌^◌, Bool, true, false, ◌&&◌, ◌||◌, not, ◌++◌, Option, none, some, ltb, leb, ◌==◌,
  if◌then◌else◌, ℤ, pos, negsuc, length, drop, ◌≡◌, refl, arith, ◌⊎◌, inl, inr, ◌∙◌,
}
use nova_desktop.Text.{Text, codes, c_str}
use nova_desktop.SyncWire.{
  Bytes, M, pure, follow, ◌>>=◌, ◌>>◌, packet_max, Run, Outside, SyncFailure, cancelled, storage,
  protocol, or_else, demand, send, receive, sy_read, parts, checked_parts, transmit, sy_cancel,
  exchange, outgoing_message, protocol_write, protocol_read, sy_fail, accept_reply, sy_rpc, is_ok,
  is_cancelled, decoded, answered, replied, rejected, reason_of, network_failure, detail_of, put32,
  read32, after_send, after_receive, is_one,
}
use nova_desktop.SyncJson.{json_max}

-- A call that does not answer leaves a failure, and an earlier failure stays unless the run is cancelled.
abbrev pub Ends : {A : Type 0} → Run → Option A × Run → Type 0
Ends r x =
    (x.0 ≡ none → is_ok x.1.failure ≡ false)
    × (is_ok r.failure ≡ false → (x.1.failure ≡ r.failure) ⊎ (is_cancelled x.1.failure ≡ true))

abbrev pub Blames : {A : Type 0} → M A → Type 0
Blames m = (r : Run) → Ends r (m r)

pub sy_fail-Blames :
    {A : Type 0} (last_error : ℕ) (code : SyncFailure)
    → is_ok code ≡ false
    → Blames (sy_fail {A = A} last_error code)
unfolding sy_fail
sy_fail-Blames last_error code bad r = (λ h. ground arith, λ h. ground arith)

cancelled_not_ok : (f : SyncFailure) → is_cancelled f ≡ true → is_ok f ≡ false
cancelled_not_ok f h = ground arith

kept :
    (f g h : SyncFailure)
    → is_ok f ≡ false
    → (g ≡ f) ⊎ (is_cancelled g ≡ true)
    → (is_ok g ≡ false → (h ≡ g) ⊎ (is_cancelled h ≡ true))
    → (h ≡ f) ⊎ (is_cancelled h ≡ true)
kept f g h bad (inl e) next = elim (next (rw e bad)) [ inl e' ↦ inl (e' ∙ e) | inr c ↦ inr c ]
kept f g h bad (inr c) next = elim (next (cancelled_not_ok g c)) [
  | inl e ↦ inr (rw e c)
  | inr c' ↦ inr c'
]

follow-Ends :
    {A B : Type 0} (r : Run) (f : A → M B) (x : Option A × Run)
    → Ends r x
    → ((a : A) → Blames (f a))
    → Ends r (follow f x)
follow-Ends r f (none, r') ends next = (λ h. ends.0 refl, ends.1)
follow-Ends r f (some a, r') ends next =
    ((next a r').0, λ h. kept r.failure r'.failure (f a r').1.failure h (ends.1 h) (next a r').1)

or_else-Ends :
    {A : Type 0} (o : Outside) (code : Run → SyncFailure) (r : Run) (x : Option A × Run)
    → x.1.failure ≡ r.failure
    → is_ok (code x.1) ≡ false
    → Ends r (or_else o code x)
unfolding sy_fail
or_else-Ends o code r (none, r') same bad = (λ h. ground arith, λ h. ground arith)
or_else-Ends o code r (some a, r') same bad = (λ h. ground arith, λ h. ground arith)

network_failure-bad : (r : Run) → is_ok (network_failure r) ≡ false
network_failure-bad r = ground arith

sy_read-Blames : (o : Outside) (n : ℕ) → Blames (sy_read o n)
unfolding sy_read protocol_read
sy_read-Blames o n r =
    or_else-Ends o network_failure r (protocol_read n r) (ground arith)
      (network_failure-bad (protocol_read n r).1)

demand-Blames :
    (o : Outside) (b : Bool) (code : SyncFailure) → is_ok code ≡ false → Blames (demand o b code)
demand-Blames o true code bad r = (λ h. ground arith, λ h. ground arith)
demand-Blames o false code bad r = sy_fail-Blames o.last_error code bad r

sy_cancel-Blames : (o : Outside) → Blames (sy_cancel o)
unfolding sy_cancel
sy_cancel-Blames o r =
    elim o.cancel_set
      as (λ b. Ends r (if b then sy_fail o.last_error cancelled r else (some tt, r))) [
        | true ↦ sy_fail-Blames o.last_error cancelled refl r
        | false ↦ (λ h. ground arith, λ h. inl refl)
      ]

-- A call that keeps the failure.
abbrev Spares : {A : Type 0} → M A → Type 0
Spares m = (r : Run) → (m r).1.failure ≡ r.failure

follow-Spares :
    {A B : Type 0} (f : A → M B)
    → ((a : A) → Spares (f a))
    → (r : Run) → (x : Option A × Run) → x.1.failure ≡ r.failure
    → (follow f x).1.failure ≡ r.failure
follow-Spares f next r (none, r') same = same
follow-Spares f next r (some a, r') same = next a r' ∙ same

protocol_write-Spares : (bytes : Bytes) → Spares (protocol_write bytes)
unfolding protocol_write
protocol_write-Spares bytes r = ground arith

then-Spares : {B : Type 0} (m : M (Unit {0})) (k : M B) → Spares m → Spares k → Spares (m >> k)
then-Spares m k first next r = follow-Spares (λ a. k) (λ a. next) r (m r) (first r)

-- The bytes of a frame that follow its header.
abbrev pub body : Bytes → M (Unit {0})
body wire = if length wire == 0 then pure tt else protocol_write wire

body-Spares : (wire : Bytes) → Spares (body wire)
body-Spares wire r =
    elim (length wire == 0)
      as (λ b. ((if b then pure tt else protocol_write wire) r).1.failure ≡ r.failure) [
        | true ↦ refl
        | false ↦ protocol_write-Spares wire r
      ]

send-Spares : (header wire : Bytes) → Spares (send header wire)
unfolding send
send-Spares header wire =
    let sizes : Bytes = put32 (length header % 2 ^ 32) ++ put32 (length wire % 2 ^ 32) in
    then-Spares (protocol_write sizes >> protocol_write header) (body wire)
      (then-Spares (protocol_write sizes) (protocol_write header) (protocol_write-Spares sizes)
        (protocol_write-Spares header))
      (body-Spares wire)

after_send-Ends :
    (size : ℕ) (r : Run) (x : Option (Unit {0}) × Run) → Ends r x → Ends r (after_send size x)
after_send-Ends size r (none, r') ends = ends
after_send-Ends size r (some _, r') ends = (λ h. ground arith, ends.1)

transmit-Blames : (o : Outside) (message : Option (Bytes × Bytes)) → Blames (transmit o message)
transmit-Blames o none r = sy_fail-Blames o.last_error storage refl r
transmit-Blames o (some (header, wire)) r =
    after_send-Ends (length wire) r (or_else o network_failure (send header wire r)) (
      or_else-Ends o network_failure r (send header wire r) (send-Spares header wire r)
        (network_failure-bad (send header wire r).1))

bind-Blames :
    {A B : Type 0} (m : M A) (f : A → M B) → Blames m → ((a : A) → Blames (f a)) → Blames (m >>= f)
bind-Blames m f first next r = follow-Ends r f (m r) (first r) next

then-Blames : {B : Type 0} (m : M (Unit {0})) (k : M B) → Blames m → Blames k → Blames (m >> k)
then-Blames m k first next = bind-Blames m (λ a. k) first (λ a. next)

checked_parts-Blames :
    (o : Outside) (header binary : Bytes) (json_size : ℕ)
    → Blames (checked_parts o header binary json_size)
checked_parts-Blames o header binary json_size =
    then-Blames (demand o (length (c_str header) == json_size && o.json_valid header) protocol)
      (λ r. (some (header, binary), after_receive (length binary) r))
      (demand-Blames o (length (c_str header) == json_size && o.json_valid header) protocol refl)
      (λ r. (λ h. ground arith, λ h. inl refl))

parts-Blames : (o : Outside) (json_size binary_size : ℕ) → Blames (parts o json_size binary_size)
unfolding parts
parts-Blames o json_size binary_size =
    let fits : Bool =
      not (json_size == 0 || ltb json_max json_size || ltb packet_max binary_size) in
    then-Blames (demand o fits protocol >> demand o o.memory storage)
      (sy_read o json_size >>= λ header.
        sy_read o binary_size >>= λ binary. checked_parts o header binary json_size)
      (then-Blames (demand o fits protocol) (demand o o.memory storage)
        (demand-Blames o fits protocol refl) (demand-Blames o o.memory storage refl))
      (bind-Blames (sy_read o json_size)
        (λ header. sy_read o binary_size >>= λ binary. checked_parts o header binary json_size)
        (sy_read-Blames o json_size)
        (λ header.
          bind-Blames (sy_read o binary_size) (λ binary. checked_parts o header binary json_size)
            (sy_read-Blames o binary_size)
            (λ binary. checked_parts-Blames o header binary json_size)))

receive-Blames : (o : Outside) → Blames (receive o)
unfolding receive
receive-Blames o =
    bind-Blames (sy_read o 8) (λ prefix. parts o (read32 prefix) (read32 (drop 4 prefix)))
      (sy_read-Blames o 8) (λ prefix. parts-Blames o (read32 prefix) (read32 (drop 4 prefix)))

exchange-Blames :
    (o : Outside) (node_id : Text) (role : ℕ) (request bytes : Bytes)
    → leb (length bytes) packet_max ≡ true
    → Blames (exchange o node_id role request bytes)
unfolding exchange
exchange-Blames o node_id role request bytes fits =
    let message : Option (Bytes × Bytes) = outgoing_message o node_id role request bytes in
    let sized : M (Unit {0}) = λ r. (if leb (length bytes) packet_max then some tt else none, r) in
    then-Blames (sy_cancel o >> sized >> transmit o message) (receive o)
      (then-Blames (sy_cancel o >> sized) (transmit o message)
        (then-Blames (sy_cancel o) sized (sy_cancel-Blames o)
          (λ r. rw fits (λ h. ground arith, λ h. inl refl)))
        (transmit-Blames o message))
      (receive-Blames o)

reason_of-bad : (code message action : Option Bytes) → is_ok (reason_of code message action) ≡ false
unfolding reason_of
reason_of-bad code message action = ground arith

replied-Blames :
    (o : Outside) (raw_size : ℤ) (bytes : Bytes) (json : Option Bytes)
    → Blames (replied o raw_size bytes json)
replied-Blames o raw_size bytes none r = sy_fail-Blames o.last_error protocol refl r
replied-Blames o (negsuc n) bytes (some json) r = sy_fail-Blames o.last_error protocol refl r
replied-Blames o (pos n) bytes (some json) r = (λ h. ground arith, λ h. inl refl)

rejected-Blames : (o : Outside) (request header : Bytes) → Blames (rejected o request header)
unfolding rejected
rejected-Blames o request header r =
    let code : SyncFailure =
      reason_of (o.json_string header (codes "$.code")) (o.json_string header (codes "$.error"))
        (o.json_string request (codes "$.action")) in
    sy_fail-Blames o.last_error code
      (reason_of-bad (o.json_string header (codes "$.code"))
        (o.json_string header (codes "$.error")) (o.json_string request (codes "$.action")))
      (record r {
        route = o.json_string header (codes "$.state");
        detail = detail_of o r.detail (o.json_string header (codes "$.error"));
      })

answered-Blames :
    (o : Outside) (request header : Bytes) (raw_size : ℤ) (bytes : Option Bytes)
    → Blames (answered o request header raw_size bytes)
answered-Blames o request header raw_size none r = sy_fail-Blames o.last_error protocol refl r
answered-Blames o request header raw_size (some bytes) r =
    elim (is_one (o.json_int header (codes "$.ok") (pos 0)))
      as (λ b. Ends r (
        if b
        then replied o raw_size bytes (o.json_string header (codes "$.result")) r
        else rejected o request header r)) [
          | true ↦ replied-Blames o raw_size bytes (o.json_string header (codes "$.result")) r
          | false ↦ rejected-Blames o request header r
        ]

accept_reply-Blames :
    (o : Outside) (request : Bytes) (message : Bytes × Bytes)
    → Blames (accept_reply o request message)
unfolding accept_reply
accept_reply-Blames o request (header, binary) r =
    let raw_size : ℤ = o.json_int header (codes "$._raw_size") (pos 0) in
    answered-Blames o request header raw_size
      (decoded o raw_size (o.json_string header (codes "$._encoding")) binary) r

sy_rpc-Blames :
    (o : Outside) (node_id : Text) (role : ℕ) (request bytes : Bytes)
    → leb (length bytes) packet_max ≡ true
    → Blames (sy_rpc o node_id role request bytes)
unfolding sy_rpc
sy_rpc-Blames o node_id role request bytes fits =
    bind-Blames (exchange o node_id role request bytes) (λ message. accept_reply o request message)
      (exchange-Blames o node_id role request bytes fits)
      (λ message. accept_reply-Blames o request message)

-- A call with a request of at most 128 KB that is FALSE leaves a failure in the run.
pub sy_rpc_failed :
    (o : Outside) (node_id : Text) (role : ℕ) (request bytes : Bytes) (r : Run)
    → leb (length bytes) packet_max ≡ true
    → (sy_rpc o node_id role request bytes r).0 ≡ none
    → is_ok (sy_rpc o node_id role request bytes r).1.failure ≡ false
sy_rpc_failed o node_id role request bytes r fits =
    (sy_rpc-Blames o node_id role request bytes fits r).0

-- A call with a request of at most 128 KB leaves an earlier failure as it is, unless the run is cancelled.
pub sy_rpc_first_failure :
    (o : Outside) (node_id : Text) (role : ℕ) (request bytes : Bytes) (r : Run)
    → leb (length bytes) packet_max ≡ true
    → is_ok r.failure ≡ false
    → ((sy_rpc o node_id role request bytes r).1.failure ≡ r.failure)
      ⊎ (is_cancelled (sy_rpc o node_id role request bytes r).1.failure ≡ true)
sy_rpc_first_failure o node_id role request bytes r fits =
    (sy_rpc-Blames o node_id role request bytes fits r).1
