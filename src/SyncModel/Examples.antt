-- ===== src/SyncModel/Examples.antt =====
-- The theorems on core/sync_model.c at settings with two pairs and at some paths and bytes.
use nova_desktop.Base.{ℕ, ◌≡◌, List, ◌*◌, replicate}
use nova_desktop.SyncModel.Chunks.{cut, joined, Sized, cut_lem}

abbrev bytes : List ℕ
bytes = replicate 19 7

cut_lem_example : (joined (cut (λ b. b * 31) bytes) ≡ bytes) × Sized (cut (λ b. b * 31) bytes)
cut_lem_example = cut_lem (λ b. b * 31) bytes
