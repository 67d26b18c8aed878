-- ===== src/Credentials/Loaded.antt =====
-- platform/ssh_credentials.c: what a login gets of the store, and for whom.
use nova_desktop.Base.{
  Bool, true, ◌||◌, not, [], some, ℤ, pos, negsuc, ◌≡◌, ◌≢◌, ◌⊎◌, arith, same_int,
}
use nova_desktop.Text.{Text, c_str}
use nova_desktop.ServerProfile.{SshServer}
use nova_desktop.SyncStore.{filled}
use nova_desktop.Credentials.{
  SshCredentialStore, SshLogin, Credential, CredentialRecord, Comparisons, Answer, done,
  endpoint_valid, is_empty, secret_cap, key_cap, ssh_credentials_snapshot,
}

-- A valid credential of the store is for the endpoint of the login: its port, and the same host and user as Windows
-- compares them.
abbrev pub IsFor : Comparisons → CredentialRecord → SshServer → Type 0
IsFor by c s =
    (c.port ≡ s.port)
    × (by.eqi (c_str c.host) (c_str s.host) ≡ true)
    × (by.eq (c_str c.user) (c_str s.user) ≡ true)

-- The login is as before but for its secret and its key file.
abbrev pub carrying : SshLogin → Text → Text → SshLogin
carrying login secret key_file = record login {
  secret = filled secret_cap secret;
  key_file = filled key_cap key_file;
}

abbrev pub Loads :
    {S : Type 0}
    → SshCredentialStore S
    → Comparisons
    → SshLogin
    → S
    → SshLogin
    → Answer Bool
    → Type 0
Loads store by login s after found =
    ((c : Credential) × (ssh_credentials_snapshot store login.server.id s ≡ done (some c))
      × IsFor by c.fields login.server
      × (after ≡ carrying login (c_str c.fields.secret) (c_str c.fields.key_file))
      × (found ≡ done (not (is_empty c.fields.secret) || not (is_empty c.fields.key_file))))
    ⊎ ((after ≡ carrying login [] [])
        × (found ≢ done true)
        × ((c : Credential)
            → endpoint_valid login.server ≡ true
            → ssh_credentials_snapshot store login.server.id s ≡ done (some c)
            → ¬ IsFor by c.fields login.server))

pub same_int_self : (n : ℤ) → same_int n n ≡ true
same_int_self (pos n) = ground arith
same_int_self (negsuc n) = ground arith
