-- ===== src/SyncWire/Examples.antt =====
-- The theorems on platform/sync_wire.c at a call of two bytes.
use nova_desktop.Base.{
  true, false, [], ◌∷◌, ◌++◌, none, some, if◌then◌else◌, pos, length, ◌≡◌, refl, ◌⊎◌,
}
use nova_desktop.Text.{codes, text_eq, c_str}
use nova_desktop.SyncWire.{
  Bytes, put32, Run, Outside, ok, conflict, send, receive, sy_read, parts, protocol_write,
  protocol_read, sy_fail, sy_rpc, exchange, outgoing_message, packed, sy_cancel, is_ok,
  is_cancelled, after_receive,
}
use nova_desktop.SyncWire.Failures.{sy_rpc_failed, sy_rpc_first_failure}
use nova_desktop.SyncWire.RoundTrip.{receive-send}

-- A server that answers every call with two bytes.
abbrev answering : Outside
answering = record {
  cancel_set = false;
  last_error = 0;
  patch = λ document path value json. some document;
  json_valid = λ document. true;
  json_string =
      λ document path. if text_eq path (codes "$.result") then some (codes "{}") else none;
  json_int = λ document path else_value. if text_eq path (codes "$.ok") then pos 1 else pos 2;
  utf8 = λ text. some text;
  wide = λ bytes. bytes;
  compress = λ bytes. none;
  inflate = λ bytes room. none;
  memory = true;
}

abbrev started : Run
started = record {
  failure = ok;
  native_error = 0;
  sent = 0;
  received = 0;
  route = none;
  detail = [];
  phase = 0;
  progress_tick = 0;
  file_events = 0;
  skip_events = 0;
  phase_events = 0;
  writes = [];
  outgoing = [];
  incoming = [];
  stopped = false;
}

abbrev two : Bytes
two = 7 ∷ 8 ∷ []

abbrev waiting : Run
waiting = record started { incoming = (send (codes "{}") two started).1.outgoing ++ (9 ∷ []) }

sent : (send (codes "{}") two started).0 ≡ some tt
unfolding send protocol_write
sent = refl

is_text : (length (c_str (codes "{}"))) ≡ 2
unfolding c_str
is_text = refl

receive-send_example :
    receive answering waiting
    ≡ (some (codes "{}", two), after_receive 2 (record waiting { incoming = 9 ∷ [] }))
receive-send_example =
    receive-send answering (codes "{}") two (9 ∷ []) started waiting refl
      (refl, refl, refl, rw is_text refl, refl) refl sent refl

-- Nothing comes back.
fails : (sy_rpc answering (codes "n") 0 (codes "{}") two started).0 ≡ none
unfolding sy_rpc exchange outgoing_message packed sy_cancel send receive sy_read parts
    protocol_write protocol_read sy_fail put32
fails = refl

sy_rpc_failed_example :
    is_ok (sy_rpc answering (codes "n") 0 (codes "{}") two started).1.failure ≡ false
sy_rpc_failed_example = sy_rpc_failed answering (codes "n") 0 (codes "{}") two started refl fails

abbrev conflicting : Run
conflicting = record waiting { failure = conflict }

sy_rpc_first_failure_example :
    ((sy_rpc answering (codes "n") 0 (codes "{}") two conflicting).1.failure ≡ conflict)
    ⊎ (is_cancelled (sy_rpc answering (codes "n") 0 (codes "{}") two conflicting).1.failure ≡ true)
sy_rpc_first_failure_example =
    sy_rpc_first_failure answering (codes "n") 0 (codes "{}") two conflicting refl refl
