-- ===== src/SshClient/Connect.antt =====
-- platform/ssh_client.c: connect_impl, from the address of the host to the SFTP session.
use nova_desktop.Base.{
  ℕ, ◌*◌, Bool, true, false, ◌&&◌, ◌||◌, not, List, [], ◌∷◌, Option, none, some, ltb, ◌==◌,
  if◌then◌else◌, ℤ, pos, negsuc, length, take,
}
use nova_desktop.Text.{Text, c_str, text_eq}
use nova_desktop.Credentials.{SshLogin, is_empty}
use nova_desktop.SyncFiles.{hex}
use nova_desktop.SshClient.{
  Bytes, file, resolve, tcp, handshake, host_key, key_file, key_parse, auth, sftp, Sent, user_named,
  key_used, password, Connection, Try, Outcome, next, fails, stops, M, ◌>>=◌, ◌>>◌, go_on, demand,
  set_phase, called, retry, is_zero, failed,
}
use nova_desktop.SshClient.Keys.{SshKeyKind, public, putty, utf16, ssh_key_kind, without_mark}

-- What a round of the wait for a connection sees: an error of select, nothing, an error of getsockopt, or the error of the
-- socket and whether it can be written. The rounds end where the run is cancelled or late.
pub data Poll : Type 0 where
  select_fails : ℕ → Poll
  idle : Poll
  unknown : ℕ → Poll
  answers : ℕ → Bool → Poll

-- Whether it is connected, and the last error.
unfoldable pub wait_connected : List Poll → ℕ → Bool × ℕ
wait_connected [] native_error = (false, native_error)
wait_connected (select_fails e ∷ polls) native_error = (false, e)
wait_connected (idle ∷ polls) native_error = wait_connected polls native_error
wait_connected (unknown e ∷ polls) native_error = (false, e)
wait_connected (answers e writable ∷ polls) native_error = (e == 0 && writable, e)

-- An address: the cancel event was set before, a call fails with an error, or connect does so, with the wait that follows.
pub data Attempt : Type 0 where
  cancelled_before : Attempt
  no_socket : ℕ → Attempt
  connects : Attempt
  refuses : ℕ → List Poll → Attempt

abbrev pub or_later : (ℕ → Bool × ℕ) → Bool × ℕ → Bool × ℕ
or_later later (connected, native_error) =
    if connected then (true, native_error) else later native_error

-- WSAEWOULDBLOCK is 10035.
unfoldable pub connect_any : List Attempt → ℕ → Bool × ℕ
unfolding wait_connected
connect_any [] native_error = (false, native_error)
connect_any (cancelled_before ∷ attempts) native_error = (false, native_error)
connect_any (no_socket e ∷ attempts) native_error = connect_any attempts e
connect_any (connects ∷ attempts) native_error = (true, 0)
connect_any (refuses e polls ∷ attempts) native_error =
    or_later (connect_any attempts) (if e == 10035 then wait_connected polls e else (false, e))

-- The file of a key: not opened, or its size and what was read of it in whole, with the last error.
pub data KeyFile : Type 0 where
  closed : ℕ → KeyFile
  opened : ℕ → Option Bytes → ℕ → KeyFile

-- What one call of connect_impl meets.
pub record Answers : Type 0 where
  pub memory : Bool
  pub lookup : ℕ
  pub attempts : List Attempt
  pub session : Bool
  pub preferences : Bool
  pub handshake_calls : List Try
  -- the SHA-256 hash of the key of the host
  pub host_hash : Option Bytes
  pub utf8 : Text → ℕ → Option Bytes
  pub last_error : ℕ
  pub list_calls : List Try
  pub methods : Bytes
  pub authenticated : Bool
  pub key : KeyFile
  pub key_calls : List Try
  pub password_calls : List Try
  pub sftp_calls : List Try
  -- at `fail`: the cancel event is set, and the deadline has passed
  pub cancel_set : Bool
  pub late : Bool

abbrev pub fails_with : {A : Type 0} → ℕ → M A
fails_with e c = (fails, record c { native_error = e })

abbrev pub stops_with : {A : Type 0} → ℕ → M A
stops_with code c = (stops, record c { code = code })

abbrev pub sends : Sent → M (Unit {0})
sends what c = (next tt, record c { sent = what ∷ c.sent })

abbrev pub connected_or_not : Bool × ℕ → M (Unit {0})
connected_or_not (connected, native_error) c =
    (if connected then next tt else fails, record c { native_error = native_error })

-- The end of a part that succeeds where its call has the result 0.
abbrev pub done_with : ℤ → M (Unit {0})
done_with rc = demand (is_zero rc)

module _ (o : Answers) where
  unfoldable pub open_socket : M (Unit {0})
  unfolding connect_any
  open_socket =
      set_phase resolve
      >> (if o.lookup == 0 then go_on else fails_with o.lookup)
      >> set_phase tcp
      >> (λ c. connected_or_not (connect_any o.attempts c.native_error) c)

  unfoldable pub shake_hands : M (Unit {0})
  unfolding retry
  shake_hands =
      (λ c. (next tt, record c { native_error = 0; phase = handshake }))
      >> (if o.session then go_on else fails_with 8)
      >> demand o.preferences
      >> (called o.handshake_calls >>= done_with)

  abbrev pub checked_fingerprint : Text → Option Bytes → M (Unit {0})
  checked_fingerprint pinned none c = (fails, c)
  checked_fingerprint pinned (some hash) c =
      let c' : Connection = record c { fingerprint = hex hash } in
      if length pinned == 0
      then stops_with 2 c'
      else if text_eq pinned (hex hash)
      then (next tt, c')
      else stops_with 1 c'

  unfoldable pub verify_host : SshLogin → M (Unit {0})
  unfolding hex
  verify_host login =
      (λ c. (next tt, record c { phase = host_key; result_phase = host_key }))
      >> checked_fingerprint (c_str login.fingerprint) o.host_hash

  abbrev pub both : Option Bytes → Option Bytes → M (Bytes × Bytes)
  both none secret = fails_with o.last_error
  both (some user) none = fails_with o.last_error
  both (some user) (some secret) = λ c. (next (user, secret), c)

  -- The user and the secret in UTF-8.
  unfoldable pub encoded : SshLogin → M (Bytes × Bytes)
  encoded login =
      set_phase auth
      >> both (o.utf8 (c_str login.server.user) 512) (o.utf8 (c_str login.secret) 2048)

  abbrev pub listed : ℤ → M (Unit {0})
  listed rc c =
      if is_zero rc
      then (next tt, record c { auth_methods = some (take 255 o.methods) })
      else if o.authenticated
      then (next tt, c)
      else (fails, c)

  abbrev pub list_methods : Bytes → M (Unit {0})
  list_methods user = sends (user_named user) >> (called o.list_calls >>= listed)

  -- LIBSSH2_ERROR_FILE and LIBSSH2_ERROR_KEYFILE_AUTH_FAILED.
  abbrev pub is_key_error : ℤ → Bool
  is_key_error (pos n) = false
  is_key_error (negsuc n) = n == 15 || n == 47

  abbrev pub after_key : ℤ → M (Unit {0})
  after_key rc = (if is_key_error rc then set_phase key_parse else go_on) >> done_with rc

  abbrev pub is_wrong_kind : SshKeyKind → Bool
  is_wrong_kind kind = elim kind [ public ↦ true | putty ↦ true | utf16 ↦ true | _ ↦ false ]

  abbrev pub use_key : Bytes → Bytes → Bytes → M (Unit {0})
  use_key user secret key c =
      if is_wrong_kind (ssh_key_kind key)
      then (stops, record c { code = 1; result_phase = key_parse })
      else (set_phase auth
            >> sends (key_used (without_mark key) secret)
            >> (called o.key_calls >>= after_key))
          c

  -- ERROR_INVALID_DATA is 13.
  abbrev pub read_key : Bytes → Bytes → KeyFile → M (Unit {0})
  read_key user secret (closed e) = fails_with e
  read_key user secret (opened size none e) = fails_with (if e == 0 then 13 else e)
  read_key user secret (opened size (some key) e) =
      if size == 0 || ltb (1024 * 1024) size
      then fails_with (if e == 0 then 13 else e)
      else use_key user secret key

  -- The part of the authentication that needs a secret.
  abbrev pub prove_identity : SshLogin → Bytes → Bytes → M (Unit {0})
  prove_identity login user secret =
      if o.authenticated
      then go_on
      else if is_empty login.key_file
      then sends (password secret) >> (called o.password_calls >>= done_with)
      else set_phase key_file >> read_key user secret o.key

  unfoldable pub authenticate : SshLogin → Bytes × Bytes → M (Unit {0})
  unfolding retry ssh_key_kind without_mark
  authenticate login (user, secret) = list_methods user >> prove_identity login user secret

  unfoldable pub open_sftp : M (Unit {0})
  unfolding retry
  open_sftp = set_phase sftp >> (called o.sftp_calls >>= done_with)

  -- All parts, in their order.
  unfoldable pub connect_parts : SshLogin → M (Unit {0})
  unfolding open_socket shake_hands verify_host encoded authenticate open_sftp
  connect_parts login =
      open_socket
      >> shake_hands
      >> verify_host login
      >> (encoded login >>= authenticate login)
      >> open_sftp

  -- TRUE is a client; with FALSE the client is closed, and the result tells why.
  abbrev pub finished : Outcome (Unit {0}) × Connection → Bool × Connection
  finished (next _, c) = (true, c)
  finished (fails, c) = (false, failed o.cancel_set o.late c)
  finished (stops, c) = (false, c)

  unfoldable pub connect_impl : SshLogin → Connection → Bool × Connection
  unfolding connect_parts failed
  connect_impl login c =
      if not o.memory
      then (false, record c { code = 1 })
      else finished (connect_parts login (record c { phase = file; native_error = 0 }))
