-- ===== src/SshClient.antt =====
-- platform/ssh_client.c: one connection to an SSH server. What the network, libssh2 and the files answer are parameters;
-- the error texts, which only the user reads, and the log are left out.
pub mod Keys
pub mod Connect
pub mod Verified
pub mod Codes
pub mod Output
pub mod Names
pub mod Deletion
pub mod Transfer
pub mod Download
mod Examples
use nova_desktop.Base.{
  ℕ, ◌+◌, Bool, true, false, ◌&&◌, ◌||◌, not, List, [], ◌∷◌, ◌++◌, Option, none, some, ltb, leb,
  ◌==◌, if◌then◌else◌, ℤ, pos, negsuc,
}
use nova_desktop.Text.{Text}

abbrev pub Bytes : Type 0
Bytes = List ℕ

pub data SshPhase : Type 0 where
  no_phase resolve tcp handshake host_key key_file key_parse auth sftp directory file command :
      SshPhase

-- What leaves this computer towards the server, as far as it matters: the user and the secrets.
pub data Sent : Type 0 where
  user_named : Bytes → Sent
  key_used : Bytes → Bytes → Sent
  password : Bytes → Sent

-- The client with its result. `code` is 0 for success, 1 for an error, 2 where the host is to be verified, and 3
-- for cancelled or unknown.
pub record Connection : Type 0 where
  pub phase : SshPhase
  pub native_error : ℕ
  pub code : ℕ
  pub result_phase : SshPhase
  pub result_native_error : ℕ
  pub cancelled : Bool
  pub fingerprint : Text
  pub auth_methods : Option Bytes
  pub sent : List Sent

-- One wait of 100 ms for the socket: the cancel event is set, the deadline has passed, or what select says.
pub record Waiting : Type 0 where
  pub cancel_set : Bool
  pub late : Bool
  pub select_error : Option ℕ

abbrev selected : Option ℕ → ℕ → Bool × ℕ
selected none native_error = (true, native_error)
selected (some e) native_error = (false, e)

unfoldable pub waiting : Waiting → ℕ → Bool × ℕ
waiting w native_error =
    if w.cancel_set || w.late then (false, native_error) else selected w.select_error native_error

-- A call of libssh2: LIBSSH2_ERROR_EAGAIN with the wait for the socket, or its result. A call that returns a pointer has the
-- result 0 where there is one.
pub data Try : Type 0 where
  again : Waiting → Try
  gives : ℤ → Try

abbrev pub eagain : ℤ
eagain = negsuc 36

abbrev pub went_on : Bool × ℕ → (ℕ → ℤ × ℕ) → ℤ × ℕ
went_on (goes, native_error) rest = if goes then rest native_error else (eagain, native_error)

-- RETRY; in no run of the code do the calls end before.
unfoldable pub retry : List Try → ℕ → ℤ × ℕ
unfolding waiting
retry [] native_error = (eagain, native_error)
retry (gives rc ∷ calls) native_error = (rc, native_error)
retry (again w ∷ calls) native_error = went_on (waiting w native_error) (retry calls)

-- A part of an operation goes on, goes to `fail`, or returns with what it has put into the result.
pub data Outcome (A : Type 0) : Type 0 where
  next : A → Outcome A
  fails : Outcome A
  stops : Outcome A

abbrev pub M : Type 0 → Type 0
M A = Connection → Outcome A × Connection

abbrev pub follow : {A B : Type 0} → (A → M B) → Outcome A × Connection → Outcome B × Connection
follow f (next a, c) = f a c
follow f (fails, c) = (fails, c)
follow f (stops, c) = (stops, c)

infixl 5 ◌>>=◌ ◌>>◌
abbrev pub ◌>>=◌ : {A B : Type 0} → M A → (A → M B) → M B
◌>>=◌ m f c = follow f (m c)

abbrev pub ◌>>◌ : {B : Type 0} → M (Unit {0}) → M B → M B
m >> k = m >>= λ _. k

abbrev pub go_on : M (Unit {0})
go_on c = (next tt, c)

abbrev pub demand : Bool → M (Unit {0})
demand b c = if b then (next tt, c) else (fails, c)

abbrev pub set_phase : SshPhase → M (Unit {0})
set_phase phase c = (next tt, record c { phase = phase })

-- The result `rc` of RETRY.
abbrev pub called : List Try → M ℤ
called calls c =
    let (rc, native_error) = retry calls c.native_error in
    (next rc, record c { native_error = native_error })

abbrev pub is_zero : ℤ → Bool
is_zero (pos n) = n == 0
is_zero (negsuc n) = false

abbrev pub failed_code : Bool → ℕ
failed_code may_be_done = if may_be_done then 3 else 1

-- WSAETIMEDOUT is 10060.
unfoldable pub failed : Bool → Bool → Connection → Connection
failed cancel_set late c = record c {
  cancelled = cancel_set;
  code = failed_code (cancel_set || late);
  result_phase = c.phase;
  result_native_error = if late then 10060 else c.native_error;
}
