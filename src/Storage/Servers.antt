-- ===== src/Storage/Servers.antt =====
-- The saved SSH servers in platform/storage.c: save_ssh_servers_impl behind store_save_ssh_servers, and
-- store_load_ssh_servers.
pub mod Loads
use nova_desktop.Base.{
  ℕ, ◌+◌, ◌-◌, ◌*◌, Bool, true, false, ◌&&◌, not, List, [], ◌∷◌, ◌++◌, Option, none, some, leb,
  ◌==◌, if◌then◌else◌, ℤ, pos, negsuc, is_positive, take, replicate,
}
use nova_desktop.Text.{Text, Buffer, c_str, codes, text_eq, first, wcscpy}
use nova_desktop.Decimal.{long_long_max}
use nova_desktop.Decimal.Signed.{print_int, wcsto, long_max}
use nova_desktop.ServerProfile.{
  SshServer, SshServers, server_limit, path_cap, name_cap, is_port, ssh_servers_valid,
}
use nova_desktop.Storage.{
  ◌>>=◌, Store, M, Selected, not_prepared, not_stepped, no_row, row, ◌>>◌, pure, require, accept,
  loaded, in_transaction, store_clear, write_all, write_loop, in_section, read_loop, whole,
  select_value, count_rows,
}

abbrev pub servers_scope : Text
servers_scope = codes "ssh_servers"

abbrev pub collection : Text
collection = codes "Servers"

-- The value of a query, as far as it fits and holds no terminator.
abbrev fitting : ℕ → Selected → Option Text
fitting capacity not_prepared = none
fitting capacity not_stepped = none
fitting capacity no_row = none
fitting capacity (row cells) = whole capacity cells

-- A refused step is not checked here.
unfoldable pub ssh_read : Text → Text → ℕ → M Text
unfolding select_value
ssh_read section key capacity s =
    let (found, s') = select_value servers_scope section key s in (fitting capacity found, s')

-- `text[0]&&!*end` behind wcstol or, with errno, wcstoll.
abbrev number_in : ℕ → Bool → Text → Option ℤ
number_in max checks_errno text =
    let (n, errno, end) = wcsto max text in
    if not (first text == 0) && first end == 0 && not (checks_errno && errno) then some n else none

abbrev pub header_entries : SshServers → List (Text × Text)
header_entries servers =
    (codes "Version", print_int (pos 1)) ∷ (codes "Count", print_int servers.count) ∷ []

abbrev pub server_entries : SshServer → List (Text × Text)
server_entries s =
    (codes "Id", print_int s.id)
    ∷ (codes "Port", print_int s.port)
    ∷ (codes "Name", c_str s.name)
    ∷ (codes "Host", c_str s.host)
    ∷ (codes "User", c_str s.user)
    ∷ (codes "Directory", c_str s.directory)
    ∷ []

-- A negative count leaves no server.
abbrev pub count_of : ℤ → ℕ
count_of (pos n) = n
count_of (negsuc n) = 0

unfoldable pub write_ssh_servers : SshServers → M (Unit {0})
unfolding write_loop
write_ssh_servers servers =
    (store_clear servers_scope
      >> write_all servers_scope (in_section collection (header_entries servers)))
    >> write_loop (write_all servers_scope) (codes "Server") server_entries 0
        (take (count_of servers.count) servers.items)

unfoldable pub store_save_ssh_servers : SshServers → M (Unit {0})
unfolding write_ssh_servers
store_save_ssh_servers servers s =
    if not (ssh_servers_valid servers)
    then (none, s)
    else in_transaction (write_ssh_servers servers) s

-- An array of zeros with a string at its front.
abbrev pub filled : ℕ → Text → Buffer
filled cap text = wcscpy (replicate cap 0) text

abbrev pub zeroed : SshServer
zeroed = record {
  id = pos 0;
  name = replicate name_cap 0;
  host = replicate 256 0;
  user = replicate 128 0;
  directory = replicate path_cap 0;
  port = pos 0;
}

abbrev as_number : ℕ → Bool → (ℤ → Bool) → Text → M ℤ
as_number max checks_errno is_ok text s = (
  (elim (number_in max checks_errno text) [
    | none ↦ none
    | some n ↦ if is_ok n then some n else none
  ]),
  s,
)

unfoldable pub load_server : Text → M SshServer
unfolding ssh_read
load_server section = do
  id_text ← ssh_read section (codes "Id") 64
  id ← as_number long_long_max true is_positive id_text
  port_text ← ssh_read section (codes "Port") 64
  port ← as_number long_max false is_port port_text
  name ← ssh_read section (codes "Name") name_cap
  host ← ssh_read section (codes "Host") 256
  user ← ssh_read section (codes "User") 128
  directory ← ssh_read section (codes "Directory") path_cap
  pure (record {
    id = id;
    name = filled name_cap name;
    host = filled 256 host;
    user = filled 128 user;
    directory = filled path_cap directory;
    port = port;
  })

abbrev in_limit : ℤ → Bool
in_limit (pos n) = leb n server_limit
in_limit (negsuc n) = false

abbrev pub next_servers : ℕ → List SshServer → SshServers
next_servers count items = record {
  items = items ++ replicate (server_limit - count) zeroed;
  count = pos count;
}

-- `rows` is the number of rows of the scope, or none where the step is refused.
abbrev pub is_complete : Option ℕ → ℕ → Bool
is_complete none count = false
is_complete (some rows) count = rows == 2 + count * 6

unfoldable pub load_stored_servers : Option ℕ → M SshServers
unfolding load_server read_loop
load_stored_servers rows = do
  version ← ssh_read collection (codes "Version") 64
  require (text_eq version (codes "1"))
  count_text ← ssh_read collection (codes "Count") 64
  count ← as_number long_max false in_limit count_text
  items ← read_loop load_server (codes "Server") 0 (count_of count)
  accept (λ next. is_complete rows (count_of count) && ssh_servers_valid next)
      (next_servers (count_of count) items)

-- `ZeroMemory(servers,sizeof(*servers))`
abbrev pub no_servers : SshServers
no_servers = record { items = replicate server_limit zeroed; count = pos 0 }

-- No rows at all are an empty list.
abbrev pub load_counted : SshServers → Bool × Option ℕ → Store → (Bool × SshServers) × Store
load_counted old (false, rows) s = ((false, old), s)
load_counted old (true, none) s = loaded old (load_stored_servers none s)
load_counted old (true, some rows) s =
    if rows == 0 then ((true, no_servers), s) else loaded old (load_stored_servers (some rows) s)

unfoldable pub store_load_ssh_servers : SshServers → Store → (Bool × SshServers) × Store
unfolding load_stored_servers
store_load_ssh_servers old s =
    let (prepared, rows, s') = count_rows servers_scope s in load_counted old (prepared, rows) s'
