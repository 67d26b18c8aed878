-- ===== src/ServerProfile/Examples.antt =====
-- The theorems on core/server_profile.c at a saved server and some paths.
use nova_desktop.Base.{◌≤◌, ◌<◌, ◌≡◌, refl, some, arith, pos}
use nova_desktop.Text.{Text, codes, first}
use nova_desktop.Decimal.{long_long_max, to_decimal, print_digits}
use nova_desktop.ServerProfile.{ssh_location_format, ssh_location_parse}
use nova_desktop.ServerProfile.Location.{
  location, ssh_location_parse-format, ssh_location_parse-eq-some,
}

abbrev home : Text
home = codes "/home/nova"

written : ssh_location_format 64 (pos 42) home ≡ some (codes "nova-ssh:42:/home/nova")
unfolding ssh_location_format to_decimal print_digits
written = refl

ssh_location_parse-format_example :
    ssh_location_parse (codes "nova-ssh:42:/home/nova") ≡ some (42, home)
ssh_location_parse-format_example = ssh_location_parse-format 64 42 home (omega arith) written

ssh_location_parse-eq-some_example :
    (codes "nova-ssh:42:/home/nova" ≡ location 42 home)
    × (0 < 42)
    × (42 ≤ long_long_max)
    × (first home ≡ b'/')
ssh_location_parse-eq-some_example =
    ssh_location_parse-eq-some (codes "nova-ssh:42:/home/nova") ssh_location_parse-format_example

abbrev joined : Text
joined = codes "/home/nova/notes"
