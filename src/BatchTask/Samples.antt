-- ===== src/BatchTask/Samples.antt =====
-- A batch task of one step, for the examples.
use nova_desktop.Base.{
  ℕ, zero, suc, ◌+◌, ◌≡◌, refl, inl, ◌&&◌, [], ◌∷◌, ◌++◌, some, arith, leb, if◌then◌else◌, pos,
  get_elem?, replicate,
}
use nova_desktop.Text.{Buffer, codes, c_str, bounded}
use nova_desktop.BatchTask.{BatchTask, all_blank, any_same}
use nova_desktop.BatchTask.Directories.{IsValid, IsEmptied}

-- towlower for ASCII.
abbrev pub lower : ℕ → ℕ
lower c = if leb b'A' c && leb c b'Z' then c + 32 else c

abbrev pub empty_text : Buffer
empty_text = 0 ∷ []

-- One step in `C:\a`, which runs the command of the task.
abbrev pub build : BatchTask
build = record {
  id = pos 7;
  name = codes "build" ++ empty_text;
  mode = pos 0;
  command = codes "make" ++ empty_text;
  directory_count = pos 1;
  directories = (codes "C:\\a" ++ empty_text) ∷ replicate 23 empty_text;
  commands = replicate 24 empty_text;
}

get_elem?-replicate :
    (n k : ℕ) (c : Buffer) → get_elem? (replicate n empty_text) k ≡ some c → IsEmptied c
get_elem?-replicate zero k c e = cc
get_elem?-replicate (suc n) zero c e = subst_emptied c e
  where
    subst_emptied : (c : Buffer) → some empty_text ≡ some c → IsEmptied c
    subst_emptied [] e = cc
    subst_emptied (zero ∷ c) e = tt
    subst_emptied (suc x ∷ c) e = ground arith
get_elem?-replicate (suc n) (suc k) c e = get_elem?-replicate n k c e

pub build-IsValid : IsValid lower build
unfolding bounded c_str any_same all_blank
build-IsValid = record {
  count = 1;
  counted = refl;
  within = omega arith;
  cells = refl;
  command_cells = refl;
  mode_known = refl;
  name_bounded = refl;
  command_bounded = refl;
  steps = (
    record {
      command_bounded = refl;
      command_full = inl refl;
      directory_bounded = refl;
      directory_full = omega arith;
      directory_within = omega arith;
    },
    tt,
  );
  apart = (refl, tt);
  unused = λ k c le e. get_elem?-replicate 24 k c e;
}
