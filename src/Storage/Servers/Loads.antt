-- ===== src/Storage/Servers/Loads.antt =====
-- What store_load_ssh_servers of platform/storage.c accepts.
use nova_desktop.Base.{
  ℕ, ◌≡◌, refl, Bool, true, false, ◌==◌, Option, none, some, arith, Bool-cases, inl, inr, ◌⊎◌,
  replicate,
}
use nova_desktop.ServerProfile.{SshServers, ssh_servers_valid, server_limit}
use nova_desktop.ServerProfile.Servers.{no_servers-IsValid}
use nova_desktop.Storage.{Store, loaded, count_rows}
use nova_desktop.Storage.Servers.{
  servers_scope, zeroed, load_stored_servers, load_counted, store_load_ssh_servers,
}

stored-IsValid :
    (rows : Option ℕ) (s : Store) (c : SshServers)
    → (load_stored_servers rows s).0 ≡ some c
    → ssh_servers_valid c ≡ true
unfolding load_stored_servers
stored-IsValid rows s c e = ground arith

-- The servers are valid, or nothing was loaded and the out argument is as before.
abbrev pub ValidOrKept : SshServers → (Bool × SshServers) × Store → Type 0
ValidOrKept old r =
    ((r.0.0 ≡ true) × (ssh_servers_valid r.0.1 ≡ true)) ⊎ ((r.0.0 ≡ false) × (r.0.1 ≡ old))

-- Servers that were loaded are valid, whatever the table holds and whatever SQLite refuses. Where
-- nothing was loaded, the out argument is as before.
pub store_load_ssh_servers-IsValid :
    (old : SshServers) (s : Store) → ValidOrKept old (store_load_ssh_servers old s)
unfolding store_load_ssh_servers
store_load_ssh_servers-IsValid old s = go (count_rows servers_scope s)
  where
    stored :
        (r : Option SshServers × Store)
        → ((c : SshServers) → r.0 ≡ some c → ssh_servers_valid c ≡ true)
        → ValidOrKept old (loaded old r)
    stored (none, s') k = inr (refl, refl)
    stored (some c, s') k = inl (refl, k c refl)

    go : (r : Bool × Option ℕ × Store) → ValidOrKept old (load_counted old (r.0, r.1) r.2)
    go (false, rows, s') = inr (refl, refl)
    go (true, none, s') = stored (load_stored_servers none s') (stored-IsValid none s')
    go (true, some n, s') = elim (Bool-cases (n == 0)) [
      | inl empty ↦ rw empty (inl (refl, no_servers-IsValid (replicate server_limit zeroed)))
      | inr filled ↦
          rw filled (stored (load_stored_servers (some n) s') (stored-IsValid (some n) s'))
    ]
