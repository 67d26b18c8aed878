-- ===== src/Credentials/Restored.antt =====
-- platform/ssh_credentials.c: a credential that is put back after a failed change of the saved servers.
use nova_desktop.Base.{ℕ, Option, none, some, ℤ, ◌≡◌, refl, arith, ap, subst}
use nova_desktop.Text.{Text}
use nova_desktop.Credentials.{
  SshCredentialStore, Credential, Answer, done, refused, not_found, snapshot_of, removed,
  valid_record, named_snapshot, named_delete, named_restore, write_checked, target_name,
  ssh_credentials_snapshot, ssh_credentials_delete, ssh_credentials_restore,
}

-- What is documented of a store: a credential that was written is read, and one that was removed, or was not there, is
-- not found.
abbrev pub ReadsWritten : {S : Type 0} → SshCredentialStore S → Type 0
ReadsWritten {S} store =
    (s : S) (target : Text) (c : Credential)
    → (store.write s target c).0 ≡ done tt
    → store.read (store.write s target c).1 target ≡ done c

abbrev pub ForgetsRemoved : {S : Type 0} → SshCredentialStore S → Type 0
ForgetsRemoved {S} store =
    (s : S) (target : Text)
    → (removed (store.remove s target)).0 ≡ done tt
    → store.read (store.remove s target).1 target ≡ refused not_found

removed-state : {S : Type 0} (x : Answer (Unit {0}) × S) → (removed x).1 ≡ x.1
removed-state (done u, s) = refl
removed-state (refused e, s) = refl

deleted :
    {S : Type 0} (store : SshCredentialStore S) (server_id : ℤ) (name : Option Text) (s : S)
    → ForgetsRemoved store
    → (named_delete store name s).0 ≡ done tt
    → named_snapshot store server_id name (named_delete store name s).1 ≡ done none
deleted store server_id none s law h = ground arith
deleted store server_id (some target) s law h =
    rw (removed-state (store.remove s target), law s target h) refl

-- After a deletion that is TRUE there is no credential.
pub ssh_credentials_delete_lem :
    {S : Type 0} (store : SshCredentialStore S) (server_id : ℤ) (s : S)
    → ForgetsRemoved store
    → (ssh_credentials_delete store server_id s).0 ≡ done tt
    → ssh_credentials_snapshot store server_id (ssh_credentials_delete store server_id s).1
      ≡ done none
unfolding ssh_credentials_delete ssh_credentials_snapshot
ssh_credentials_delete_lem store server_id s law h =
    deleted store server_id (target_name server_id) s law h

written :
    {S : Type 0} (store : SshCredentialStore S) (server_id : ℤ) (target : Text) (c : Credential)
    (found : Option ℕ) (s : S)
    → valid_record c server_id ≡ found
    → ReadsWritten store
    → (write_checked store target c found s).0 ≡ done tt
    → snapshot_of server_id (store.read (write_checked store target c found s).1 target)
      ≡ done (some c)
written store server_id target c none s valid law h = rw (law s target c h, valid) refl
written store server_id target c (some e) s valid law h = ground arith

restored :
    {S : Type 0} (store : SshCredentialStore S) (server_id : ℤ) (name : Option Text)
    (snapshot : Option Credential) (s : S)
    → target_name server_id ≡ name
    → ReadsWritten store
    → ForgetsRemoved store
    → (named_restore store server_id name snapshot s).0 ≡ done tt
    → named_snapshot store server_id name (named_restore store server_id name snapshot s).1
      ≡ done snapshot
unfolding ssh_credentials_delete
restored store server_id none snapshot s named writes forgets h = ground arith
restored store server_id (some target) none s named writes forgets h =
    let eq : ssh_credentials_delete store server_id s ≡ named_delete store (some target) s =
      ap (λ n. named_delete store n s) named in
    rw eq (deleted store server_id (some target) s forgets (subst (λ x. x.0 ≡ done tt) eq h))
restored store server_id (some target) (some c) s named writes forgets h =
    written store server_id target c (valid_record c server_id) s refl writes h

-- A restore that is TRUE leaves the store as it was at the snapshot, whatever happened in between: the same
-- credential, or none.
pub ssh_credentials_snapshot-ssh_credentials_restore :
    {S : Type 0} (store : SshCredentialStore S) (server_id : ℤ) (snapshot : Option Credential)
    (s : S)
    → ReadsWritten store
    → ForgetsRemoved store
    → (ssh_credentials_restore store server_id snapshot s).0 ≡ done tt
    → ssh_credentials_snapshot store server_id
        (ssh_credentials_restore store server_id snapshot s).1
      ≡ done snapshot
unfolding ssh_credentials_restore ssh_credentials_snapshot
ssh_credentials_snapshot-ssh_credentials_restore store server_id snapshot s writes forgets h =
    restored store server_id (target_name server_id) snapshot s refl writes forgets h
