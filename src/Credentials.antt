-- ===== src/Credentials.antt =====
-- platform/ssh_credentials.c: the secrets of the saved SSH servers in a credential store. The store is the interface
-- SshCredentialStore, whose context is the state `S`; the one of Windows stands behind it and is not modelled.
-- The bytes of a credential are its struct with the length that the store gives. The clearing of
-- memory is visible where the caller sees it.
mod Loaded
mod Saved
mod Restored
mod Examples
use nova_desktop.Base.{
  ℕ, Bool, false, ◌&&◌, ◌||◌, not, Option, none, some, ◌==◌, if◌then◌else◌, ℤ, replicate,
  is_positive, same_int, ◌++◌,
}
use nova_desktop.Text.{Text, Buffer, bounded, c_str, codes, first}
use nova_desktop.Decimal.Signed.{print_int}
use nova_desktop.ServerProfile.{SshServer, is_port}
use nova_desktop.SyncStore.{filled}

abbrev pub magic_number : ℕ
magic_number = 0x4e534331

-- sizeof(CredentialRecord)
abbrev pub record_size : ℕ
record_size = 2336

abbrev pub secret_cap : ℕ
secret_cap = 512

abbrev pub key_cap : ℕ
key_cap = 260

-- ERROR_INVALID_DATA, ERROR_INVALID_PARAMETER, ERROR_NOT_FOUND and ERROR_REVISION_MISMATCH
abbrev pub invalid_data : ℕ
invalid_data = 13

abbrev pub invalid_parameter : ℕ
invalid_parameter = 87

abbrev pub not_found : ℕ
not_found = 1168

abbrev pub revision_mismatch : ℕ
revision_mismatch = 1306

pub record CredentialRecord : Type 0 where
  pub magic : ℕ
  pub version : ℕ
  pub server_id : ℤ
  pub port : ℤ
  pub host : Buffer
  pub user : Buffer
  pub key_file : Buffer
  pub secret : Buffer

pub record Credential : Type 0 where
  pub length : ℕ
  pub fields : CredentialRecord

-- A result, or FALSE with `*error`.
pub data Answer (A : Type 0) : Type 0 where
  done : A → Answer A
  refused : ℕ → Answer A

pub record SshCredentialStore (S : Type 0) : Type 0 where
  pub read : S → Text → Answer Credential
  pub write : S → Text → Credential → Answer (Unit {0}) × S
  pub remove : S → Text → Answer (Unit {0}) × S

pub record SshLogin : Type 0 where
  pub fingerprint : Buffer
  pub server : SshServer
  pub secret : Buffer
  pub key_file : Buffer

-- none where `*error` is ERROR_INVALID_PARAMETER.
unfoldable pub target_name : ℤ → Option Text
target_name server_id =
    if is_positive server_id
    then some (codes "NOVA Desktop SSH login:" ++ print_int server_id)
    else none

abbrev pub fields_valid : CredentialRecord → ℤ → Bool
fields_valid c server_id =
    c.magic == magic_number
    && same_int c.server_id server_id
    && is_port c.port
    && bounded c.host 256
    && not (first (c_str c.host) == 0)
    && bounded c.user 128
    && not (first (c_str c.user) == 0)
    && bounded c.key_file key_cap
    && bounded c.secret secret_cap

-- none is TRUE, and some `*error` FALSE.
unfoldable pub valid_record : Credential → ℤ → Option ℕ
valid_record c server_id =
    if not (c.length == record_size)
    then some invalid_data
    else if not (fields_valid c.fields server_id)
    then some invalid_data
    else if not (c.fields.version == 1)
    then some revision_mismatch
    else none

abbrev pub checked : Credential → Option ℕ → Answer (Option Credential)
checked c none = done (some c)
checked c (some error) = refused error

abbrev pub snapshot_of : ℤ → Answer Credential → Answer (Option Credential)
snapshot_of server_id (done c) = checked c (valid_record c server_id)
snapshot_of server_id (refused error) = if error == not_found then done none else refused error

abbrev pub endpoint_valid : SshServer → Bool
endpoint_valid s =
    is_port s.port
    && bounded s.host 256
    && not (first (c_str s.host) == 0)
    && bounded s.user 128
    && not (first (c_str s.user) == 0)

abbrev pub is_empty : Buffer → Bool
is_empty b = first (c_str b) == 0

-- The credential that is written.
abbrev pub credential_of : SshLogin → Credential
credential_of login = record {
  length = record_size;
  fields = record {
    magic = magic_number;
    version = 1;
    server_id = login.server.id;
    port = login.server.port;
    host = filled 256 (c_str login.server.host);
    user = filled 128 (c_str login.server.user);
    key_file = filled key_cap (c_str login.key_file);
    secret = filled secret_cap (c_str login.secret);
  };
}

-- ERROR_NOT_FOUND is a deletion too.
abbrev pub removed : {S : Type 0} → Answer (Unit {0}) × S → Answer (Unit {0}) × S
removed (done u, s) = (done u, s)
removed (refused error, s) = (if error == not_found then done tt else refused error, s)

-- The comparisons of Windows by the language of the user, where the answer is 0: lstrcmpiW and lstrcmpW.
pub record Comparisons : Type 0 where
  pub eqi : Text → Text → Bool
  pub eq : Text → Text → Bool

abbrev pub same_endpoint : Comparisons → CredentialRecord → SshServer → Bool
same_endpoint by c s =
    same_int c.port s.port
    && by.eqi (c_str c.host) (c_str s.host)
    && by.eq (c_str c.user) (c_str s.user)

abbrev pub cleared : SshLogin → SshLogin
cleared login = record login { secret = replicate secret_cap 0; key_file = replicate key_cap 0 }

-- The login with what was found, and whether there is anything.
abbrev pub taken : Comparisons → SshLogin → Answer (Option Credential) → SshLogin × Answer Bool
taken by login (refused error) = (cleared login, refused error)
taken by login (done none) = (cleared login, done false)
taken by login (done (some c)) =
    if same_endpoint by c.fields login.server
    then (
      record login {
        secret = filled secret_cap (c_str c.fields.secret);
        key_file = filled key_cap (c_str c.fields.key_file);
      },
      done (not (is_empty c.fields.secret) || not (is_empty c.fields.key_file)),
    )
    else (cleared login, done false)

module _ {S : Type 0} (store : SshCredentialStore S) where
  abbrev pub named_snapshot : ℤ → Option Text → S → Answer (Option Credential)
  named_snapshot server_id none s = refused invalid_parameter
  named_snapshot server_id (some target) s = snapshot_of server_id (store.read s target)

  unfoldable pub ssh_credentials_snapshot : ℤ → S → Answer (Option Credential)
  unfolding valid_record target_name
  ssh_credentials_snapshot server_id s = named_snapshot server_id (target_name server_id) s

  abbrev pub named_delete : Option Text → S → Answer (Unit {0}) × S
  named_delete none s = (refused invalid_parameter, s)
  named_delete (some target) s = removed (store.remove s target)

  unfoldable pub ssh_credentials_delete : ℤ → S → Answer (Unit {0}) × S
  unfolding target_name
  ssh_credentials_delete server_id s = named_delete (target_name server_id) s

  abbrev pub write_checked : Text → Credential → Option ℕ → S → Answer (Unit {0}) × S
  write_checked target c none s = store.write s target c
  write_checked target c (some error) s = (refused error, s)

  abbrev pub named_restore : ℤ → Option Text → Option Credential → S → Answer (Unit {0}) × S
  named_restore server_id none snapshot s = (refused invalid_parameter, s)
  named_restore server_id (some target) none s = ssh_credentials_delete server_id s
  named_restore server_id (some target) (some c) s =
      write_checked target c (valid_record c server_id) s

  unfoldable pub ssh_credentials_restore : ℤ → Option Credential → S → Answer (Unit {0}) × S
  unfolding ssh_credentials_delete
  ssh_credentials_restore server_id snapshot s =
      named_restore server_id (target_name server_id) snapshot s

  -- The login is left with its secrets cleared where nothing fits.
  unfoldable pub ssh_credentials_load : Comparisons → SshLogin → S → SshLogin × Answer Bool
  unfolding ssh_credentials_snapshot
  ssh_credentials_load by login s =
      if not (endpoint_valid login.server)
      then (cleared login, refused invalid_parameter)
      else taken by login (ssh_credentials_snapshot login.server.id s)

  abbrev pub named_save : Option Text → SshLogin → S → Answer (Unit {0}) × S
  named_save none login s = (refused invalid_parameter, s)
  named_save (some target) login s =
      if not (
        endpoint_valid login.server
        && bounded login.secret secret_cap
        && bounded login.key_file key_cap)
      then (refused invalid_parameter, s)
      else if is_empty login.secret && is_empty login.key_file
      then ssh_credentials_delete login.server.id s
      else store.write s target (credential_of login)

  unfoldable pub ssh_credentials_save : SshLogin → S → Answer (Unit {0}) × S
  unfolding ssh_credentials_delete
  ssh_credentials_save login s = named_save (target_name login.server.id) login s
