-- ===== src/Credentials/Saved.antt =====
-- platform/ssh_credentials.c: what is loaded of what was saved.
use nova_desktop.Base.{
  zero, suc, Bool, true, false, ◌&&◌, ◌||◌, not, [], ◌∷◌, Option, none, some, ◌==◌, ◌≡◌, refl,
  arith, ◌∙◌, inl, inr, Bool-cases,
}
use nova_desktop.Text.{Text, Buffer, c_str, bounded, wcscpy, first}
use nova_desktop.ServerProfile.{is_port}
use nova_desktop.SyncStore.{filled}
use nova_desktop.SyncStore.Refilled.{c_str-filled, bounded-filled}
use nova_desktop.Credentials.{
  SshCredentialStore, SshLogin, Credential, Comparisons, Answer, done, refused, invalid_parameter,
  valid_record, named_save, target_name, taken, endpoint_valid, is_empty, credential_of, secret_cap,
  key_cap, ssh_credentials_snapshot, ssh_credentials_delete, ssh_credentials_load,
  ssh_credentials_save,
}
use nova_desktop.Credentials.Restored.{ReadsWritten, ForgetsRemoved, ssh_credentials_delete_lem}
use nova_desktop.Credentials.Loaded.{same_int_self}

credential_of-valid :
    (login : SshLogin)
    → endpoint_valid login.server ≡ true
    → bounded login.secret secret_cap ≡ true
    → bounded login.key_file key_cap ≡ true
    → valid_record (credential_of login) login.server.id ≡ none
unfolding valid_record
credential_of-valid login endpoint secret key =
    let host : bounded login.server.host 256 ≡ true = ground arith in
    let user : bounded login.server.user 128 ≡ true = ground arith in
    let port : is_port login.server.port ≡ true = ground arith in
    let some_host : (first (c_str login.server.host) == 0) ≡ false = ground arith in
    let some_user : (first (c_str login.server.user) == 0) ≡ false = ground arith in
    rw
      (
        same_int_self login.server.id,
        port,
        bounded-filled 256 login.server.host host,
        bounded-filled 128 login.server.user user,
        bounded-filled key_cap login.key_file key,
        bounded-filled secret_cap login.secret secret,
        c_str-filled 256 login.server.host,
        c_str-filled 128 login.server.user,
        some_host,
        some_user,
      )
      refl

-- The login with its own secrets in zeroed arrays, and whether it has any.
abbrev pub kept : SshLogin → SshLogin × Answer Bool
kept login = (
  record login {
    secret = filled secret_cap (c_str login.secret);
    key_file = filled key_cap (c_str login.key_file);
  },
  done (not (is_empty login.secret) || not (is_empty login.key_file)),
)

taken-own :
    (by : Comparisons) (login : SshLogin)
    → by.eqi (c_str login.server.host) (c_str login.server.host) ≡ true
    → by.eq (c_str login.server.user) (c_str login.server.user) ≡ true
    → taken by login (done (some (credential_of login))) ≡ kept login
taken-own by login same same_user =
    rw
      (
        same_int_self login.server.port,
        c_str-filled 256 login.server.host,
        c_str-filled 128 login.server.user,
        c_str-filled secret_cap login.secret,
        c_str-filled key_cap login.key_file,
        same,
        same_user,
      )
      refl

nothing : (b : Buffer) → is_empty b ≡ true → c_str b ≡ []
unfolding c_str
nothing [] h = refl
nothing (zero ∷ cells) h = refl
nothing (suc c ∷ cells) h = ground arith

taken-empty :
    (by : Comparisons) (login : SshLogin)
    → is_empty login.secret ≡ true
    → is_empty login.key_file ≡ true
    → taken by login (done none) ≡ kept login
unfolding filled wcscpy
taken-empty by login secret key = rw (nothing login.secret secret, nothing login.key_file key) refl

loaded :
    {S : Type 0} (store : SshCredentialStore S) (by : Comparisons) (login : SshLogin) (s : S)
    (found : Option Credential)
    → endpoint_valid login.server ≡ true
    → ssh_credentials_snapshot store login.server.id s ≡ done found
    → ssh_credentials_load store by login s ≡ taken by login (done found)
unfolding ssh_credentials_load
loaded store by login s found valid h = rw (valid, h) refl

snapshot-write :
    {S : Type 0} (store : SshCredentialStore S) (login : SshLogin) (target : Text) (s : S)
    → ReadsWritten store
    → target_name login.server.id ≡ some target
    → valid_record (credential_of login) login.server.id ≡ none
    → (store.write s target (credential_of login)).0 ≡ done tt
    → ssh_credentials_snapshot store login.server.id (store.write s target (credential_of login)).1
      ≡ done (some (credential_of login))
unfolding ssh_credentials_snapshot
snapshot-write store login target s law named valid h =
    rw (named, law s target (credential_of login) h, valid) refl

-- The tests on a login that is saved.
abbrev fits : SshLogin → Bool
fits login =
    endpoint_valid login.server && bounded login.secret secret_cap && bounded login.key_file key_cap

module _ {S : Type 0} (store : SshCredentialStore S) (by : Comparisons)
    (same : (t : Text) → (by.eqi t t ≡ true) × (by.eq t t ≡ true)) (reads : ReadsWritten store)
    (forgets : ForgetsRemoved store) (login : SshLogin) (s : S) where
  named_save-refuses :
      (target : Text)
      → fits login ≡ false
      → named_save store (some target) login s ≡ (refused invalid_parameter, s)
  named_save-refuses target e = rw e refl

  named_save-deletes :
      (target : Text)
      → fits login ≡ true
      → (is_empty login.secret && is_empty login.key_file) ≡ true
      → named_save store (some target) login s ≡ ssh_credentials_delete store login.server.id s
  named_save-deletes target e empty = rw (e, empty) refl

  named_save-writes :
      (target : Text)
      → fits login ≡ true
      → (is_empty login.secret && is_empty login.key_file) ≡ false
      → named_save store (some target) login s ≡ store.write s target (credential_of login)
  named_save-writes target e empty = rw (e, empty) refl

  -- Of what was saved the same is loaded.
  abbrev Returns : Answer (Unit {0}) × S → Type 0
  Returns x = x.0 ≡ done tt → ssh_credentials_load store by login x.1 ≡ kept login

  delete-Returns :
      fits login ≡ true
      → (is_empty login.secret && is_empty login.key_file) ≡ true
      → Returns (ssh_credentials_delete store login.server.id s)
  delete-Returns e empty h =
      let s' : S = (ssh_credentials_delete store login.server.id s).1 in
      loaded store by login s' none (ground arith)
        (ssh_credentials_delete_lem store login.server.id s forgets h)
      ∙ taken-empty by login (ground arith) (ground arith)

  write-Returns :
      (target : Text)
      → target_name login.server.id ≡ some target
      → fits login ≡ true
      → Returns (store.write s target (credential_of login))
  write-Returns target named e h =
      let s' : S = (store.write s target (credential_of login)).1 in
      loaded store by login s' (some (credential_of login)) (ground arith) (
        snapshot-write store login target s reads named
          (credential_of-valid login (ground arith) (ground arith) (ground arith)) h)
      ∙ taken-own by login (same (c_str login.server.host)).0 (same (c_str login.server.user)).1

  named_save-Returns :
      (name : Option Text)
      → target_name login.server.id ≡ name
      → Returns (named_save store name login s)
  named_save-Returns none named = λ h. ground arith
  named_save-Returns (some target) named = elim (Bool-cases (fits login)) [
    | inr e ↦ rw (named_save-refuses target e) (λ h. ground arith)
    | inl e ↦ elim (Bool-cases (is_empty login.secret && is_empty login.key_file)) [
      | inl empty ↦ rw (named_save-deletes target e empty) (delete-Returns e empty)
      | inr empty ↦ rw (named_save-writes target e empty) (write-Returns target named e)
    ]
  ]

  -- A login that was saved with success in a store that keeps what it is given is loaded with the same secret and key
  -- file, none of them included, and found where it has one. A host and a user are the same as themselves.
  pub ssh_credentials_load-ssh_credentials_save :
      (ssh_credentials_save store login s).0 ≡ done tt
      → ssh_credentials_load store by login (ssh_credentials_save store login s).1 ≡ kept login
  unfolding ssh_credentials_save
  ssh_credentials_load-ssh_credentials_save = named_save-Returns (target_name login.server.id) refl
