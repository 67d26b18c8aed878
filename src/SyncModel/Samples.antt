-- ===== src/SyncModel/Samples.antt =====
-- Settings with two pairs, for the examples.
use nova_desktop.Base.{ℕ, ◌≡◌, refl, true, false, [], ◌∷◌, ◌++◌, pos, replicate, checked, any_clash}
use nova_desktop.Text.{Text, Buffer, codes, c_str, bounded, text_eq, has_char, has_any, wcscpy}
use nova_desktop.SyncModel.{
  SyncPair, SyncSettings, pair_valid, header_valid, same_pair, equal_path, sync_settings_valid,
  sync_settings_default, sync_identifier, identifier_from,
}

-- Names compared as they stand.
abbrev pub lower : ℕ → ℕ
lower c = c

abbrev pub buffer : Text → Buffer
buffer s = s ++ 0 ∷ []

abbrev pub pair_1 : SyncPair
pair_1 = record {
  id = buffer (codes "p1");
  dataset = buffer (codes "d1");
  name = buffer (codes "Notes");
  group = buffer (codes "All");
  directory = buffer (codes "C:\\Notes");
  excludes = buffer [];
  paused = false;
  sync_deletes = true;
}

abbrev pub pair_2 : SyncPair
pair_2 = record pair_1 {
  id = buffer (codes "p2");
  dataset = buffer (codes "d2");
  directory = buffer (codes "C:\\Code");
}

abbrev pub settings : SyncSettings
settings = record sync_settings_default {
  count = pos 2;
  server_id = pos 7;
  pairs = pair_1 ∷ pair_2 ∷ replicate 14 pair_1;
}

pub settings-valid : sync_settings_valid lower settings ≡ true
unfolding sync_settings_valid header_valid pair_valid same_pair equal_path sync_identifier
    identifier_from sync_settings_default wcscpy text_eq bounded c_str has_any has_char checked
    any_clash
settings-valid = refl
