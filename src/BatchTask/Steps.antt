-- ===== src/BatchTask/Steps.antt =====
-- The steps that batch_task_is_valid of core/batch_task.c accepts.
use nova_desktop.Base.{ℕ, ◌<◌, ◌≡◌, refl, ◌⊎◌, ◌↔◌, true, false, List, [], ◌∷◌, arith, length}
use nova_desktop.Text.{Text, Buffer, c_str, bounded, first}
use nova_desktop.BatchTask.{
  same_directory, any_same, any_earlier, steps_valid, all_blank, command_cap, directory_cap,
}

-- What a step must satisfy by itself.
pub record IsStep (c d : Buffer) : Type 0 where
  pub command_bounded : bounded c command_cap ≡ true
  pub command_full : (first c ≡ 0) ⊎ (all_blank (c_str c) ≡ false)
  pub directory_bounded : bounded d directory_cap ≡ true
  pub directory_full : 0 < length (c_str d)
  pub directory_within : length (c_str d) < directory_cap

module _ (towlower : ℕ → ℕ) where
  pub same_directory_comm : (a b : Text) → same_directory towlower a b ≡ same_directory towlower b a
  unfolding same_directory
  same_directory_comm [] [] = refl
  same_directory_comm [] (b ∷ bs) = refl
  same_directory_comm (a ∷ as') [] = refl
  same_directory_comm (a ∷ as') (b ∷ bs) = ground (arith, same_directory_comm as' bs)

  -- Each step is well formed by itself, and no directory is that of another step.
  abbrev pub Steps : List Buffer → List Buffer → Type 0
  Steps [] [] = Unit
  Steps [] (d ∷ ds) = ⊥
  Steps (c ∷ cs) [] = ⊥
  Steps (c ∷ cs) (d ∷ ds) = IsStep c d × Steps cs ds

  abbrev pub Apart : List Buffer → Type 0
  Apart [] = Unit
  Apart (d ∷ ds) = (any_same towlower ds (c_str d) ≡ false) × Apart ds

  abbrev Clear : List Buffer → List Buffer → Type 0
  Clear [] ds = Unit
  Clear (x ∷ earlier) ds = (any_same towlower ds (c_str x) ≡ false) × Clear earlier ds

  Clear-cons :
      (earlier : List Buffer) (d : Buffer) (ds : List Buffer)
      → Clear earlier (d ∷ ds)
        ↔ ((any_earlier towlower (c_str d) earlier ≡ false) × Clear earlier ds)
  unfolding any_same any_earlier
  Clear-cons [] d ds = (λ h. (refl, tt), λ h. tt)
  Clear-cons (x ∷ earlier) d ds = (
    λ h. ground (arith, (Clear-cons earlier d ds).0 h.1),
    λ h. (ground arith, (Clear-cons earlier d ds).1 (ground arith, h.1.1)),
  )

  Clear-nil : (earlier : List Buffer) → Clear earlier []
  unfolding any_same
  Clear-nil [] = tt
  Clear-nil (x ∷ earlier) = (refl, Clear-nil earlier)

  steps_valid-cons :
      (earlier : List Buffer) (c : Buffer) (cs : List Buffer) (d : Buffer) (ds : List Buffer)
      → (steps_valid towlower earlier (c ∷ cs) (d ∷ ds) ≡ true) ↔ (
          IsStep c d
          × (any_earlier towlower (c_str d) earlier ≡ false)
          × (steps_valid towlower (d ∷ earlier) cs ds ≡ true))
  unfolding steps_valid
  steps_valid-cons earlier c cs d ds = (λ h. ground arith, λ h. ground arith)

  steps_valid-Clear_iff :
      (earlier cs ds : List Buffer)
      → length cs ≡ length ds
      → (steps_valid towlower earlier cs ds ≡ true) ↔ (Steps cs ds × Apart ds × Clear earlier ds)
  unfolding steps_valid
  steps_valid-Clear_iff earlier [] [] e = (λ h. (tt, tt, Clear-nil earlier), λ h. refl)
  steps_valid-Clear_iff earlier [] (d ∷ ds) e = absurd (omega arith)
  steps_valid-Clear_iff earlier (c ∷ cs) [] e = absurd (omega arith)
  steps_valid-Clear_iff earlier (c ∷ cs) (d ∷ ds) e = (
    λ h.
        let s = (steps_valid-cons earlier c cs d ds).0 h in
        let r = (steps_valid-Clear_iff (d ∷ earlier) cs ds (omega arith)).0 s.2 in
        ((s.0, r.0), (r.2.0, r.1), (Clear-cons earlier d ds).1 (s.1, r.2.1)),
    λ h.
        let k = (Clear-cons earlier d ds).0 h.2 in
        (steps_valid-cons earlier c cs d ds).1 (
          h.0.0,
          k.0,
          (steps_valid-Clear_iff (d ∷ earlier) cs ds (omega arith)).1 (h.0.1, h.1.1, (h.1.0, k.1)),
        ),
  )

  -- What the loop accepts, from its start.
  pub steps_valid_iff :
      (cs ds : List Buffer)
      → length cs ≡ length ds
      → (steps_valid towlower [] cs ds ≡ true) ↔ (Steps cs ds × Apart ds)
  steps_valid_iff cs ds e =
      let i = steps_valid-Clear_iff [] cs ds e in
      (λ h. let r = i.0 h in (r.0, r.1), λ h. i.1 (h.0, h.1, tt))
