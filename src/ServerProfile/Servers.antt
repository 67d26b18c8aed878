-- ===== src/ServerProfile/Servers.antt =====
-- The empty list under ssh_servers_valid of core/server_profile.c.
use nova_desktop.Base.{◌≡◌, refl, true, List, pos}
use nova_desktop.ServerProfile.{SshServer, servers_valid, ssh_servers_valid}

-- No servers at all are valid.
pub no_servers-IsValid :
    (items : List SshServer) → ssh_servers_valid (record { items = items; count = pos 0 }) ≡ true
unfolding ssh_servers_valid servers_valid
no_servers-IsValid items = refl
