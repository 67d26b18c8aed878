-- ===== src/BatchRunner/Examples.antt =====
-- The theorems on platform/batch_runner.c at a task of two steps, some output and a PATH.
use nova_desktop.Base.{◌≡◌, refl, true, false, [], ◌∷◌, ◌++◌, arith, replicate, length}
use nova_desktop.Text.{codes, has_char}
use nova_desktop.BatchRunner.{Surroundings, OutputReader, read_output, safe_folders}
use nova_desktop.BatchRunner.Output.{kept, last_bytes, IsReader, read_output_lem}
use nova_desktop.BatchRunner.Search.{AllAbsolute, safe_folders-AllAbsolute}

-- Nobody cancels, and every command succeeds.
abbrev calm : Surroundings
calm = record {
  cancellation_requested = λ index. false;
  execute = λ index command directory. record { ok = true; code = 0; error = 0 };
  thread_created = λ index. true;
  thread_error = λ index. 0;
}

abbrev reader : OutputReader
reader = record { tail = replicate 8192 0; length = 0 }

read_output_lem_example :
    IsReader (read_output reader (codes "ab" ∷ codes "c" ∷ []))
    × (kept (read_output reader (codes "ab" ∷ codes "c" ∷ []))
        ≡ last_bytes (kept reader ++ codes "abc"))
read_output_lem_example =
    read_output_lem reader (codes "ab" ∷ codes "c" ∷ []) (refl, omega arith)
      (omega arith, (omega arith, tt))

safe_folders-AllAbsolute_example : AllAbsolute (safe_folders (codes "C:\\bin;bin; D:/git"))
unfolding has_char
safe_folders-AllAbsolute_example = safe_folders-AllAbsolute (codes "C:\\bin;bin; D:/git") refl
