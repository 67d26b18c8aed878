-- ===== src/SyncClient/Checks.antt =====
-- platform/sync_client.c: what the checks before a version takes its place have found.
use nova_desktop.Base.{
  ◌%◌, ◌^◌, Bool, true, false, not, ◌||◌, Option, none, some, ◌==◌, length, ◌≡◌, refl, ◌⊎◌, inl,
  inr, arith, ◌∙◌, sym, ap, Bool-cases,
}
use nova_desktop.Text.{Text, text_eq, text_eq_iff}
use nova_desktop.SyncWire.{conflict, path}
use nova_desktop.SyncClient.{Client, File, Phase, is_same, demand, from}
use nova_desktop.SyncClient.Jobs.{
  Job, Seen, probe, probe_of, is_adopted, is_already, is_unchanged, is_accepted,
}
use nova_desktop.SyncClient.Apply.{temporary, open_temporary, check_content, check_file, same_seen}
use nova_desktop.SyncClient.Receive.{hash_in, manifest_of, is_resolving, examine}
use nova_desktop.SyncClient.Quiet.{View, IsQuiet, quiet}
use nova_desktop.SyncClient.Looks.{probe-IsQuiet, seed-IsQuiet}
use nova_desktop.SyncClient.Facts.{
  from-Finds, Local, Finds, bind-Finds, then-Finds, before-Finds, last-Finds, of_option-Finds,
  pure-Finds, check-Finds, or_do-Finds, cancelled_none, demand-Finds, weaken-Finds,
}
use nova_desktop.SyncClient.Outcome.{
  recorded, IsVersion, IsCoveredFile, IsCoveredSeen, IsSeen, left_over, seed_previous-IsQuiet,
  same_hash, same_size,
}

module _ (c : Client) where
  pub examine-IsQuiet :
      {O : Type 0} {g : View → O} (place manifest : Text) (job : Job) (phase : Option Phase)
      (resolving : Bool) (previous : Option Text)
      → IsQuiet g (examine c place manifest job phase resolving previous)
  unfolding examine
  examine-IsQuiet place manifest job phase resolving previous =
      search (quiet, probe-IsQuiet, seed-IsQuiet, seed_previous-IsQuiet) depth 20

module _ (c : Client) (v : Local) where
  probe_of-Finds : (file : Option File) → Finds v (probe_of c file) (IsSeen c file)
  probe_of-Finds none = last-Finds (search quiet) (weaken-Finds (pure-Finds none) (λ a e. rw e tt))
  probe_of-Finds (some file) =
      bind-Finds (search quiet depth 14)
        (or_do-Finds _ (cancelled_none c path)
          (last-Finds (search quiet) (of_option-Finds (c.sha file.content))))
        (λ hash known. weaken-Finds (pure-Finds _) (λ a e. rw e known))

  pub covered_seen :
      (job : Job) (file : Option File) (seen : Option Seen)
      → IsSeen c file seen
      → IsCoveredSeen c v job seen
      → IsCoveredFile c v job file
  covered_seen job none seen s h = tt
  covered_seen job (some file) none s h = cc
  covered_seen job (some file) (some seen) s h = (seen.hash, s, h)

  pub same_covered :
      (job : Job) (now seen : Option Seen)
      → same_seen now seen ≡ true
      → IsCoveredSeen c v job seen
      → IsCoveredSeen c v job now
  same_covered job none seen e h = tt
  same_covered job (some now) none e h = cc
  same_covered job (some now) (some seen) e h = rw ((text_eq_iff now.hash seen.hash).0 e) h

  unchanged_hash :
      (old : Option Text) (seen : Seen) → is_unchanged old (some seen) ≡ true → old ≡ some seen.hash
  unfolding is_unchanged
  unchanged_hash none seen h = cc
  unchanged_hash (some hash) seen h = ap some (sym ((text_eq_iff seen.hash hash).0 (ground arith)))

  unchanged_recorded :
      (job : Job) (previous : Option Text) (hash : Text)
      → (previous ≡ none) ⊎ (previous ≡ manifest_of (v.heads job.dataset job.key))
      → hash_in c previous ≡ some hash
      → recorded c v job ≡ some hash
  unchanged_recorded job previous hash (inl p) h = cc (sym (ap (hash_in c) p) ∙ h)
  unchanged_recorded job previous hash (inr p) h = sym (ap (hash_in c) p) ∙ h

  accepted_eq :
      (seen : Seen) (r : Bool)
      → r ≡ true
      → not r || is_accepted (some seen) v.accepted_local ≡ true
      → text_eq seen.hash v.accepted_local ≡ true
  accepted_eq seen r h a = ground arith

  -- What the checks of the code let through, where the version is not in place.
  pub covered_lem :
      (job : Job) (previous : Option Text) (already adopted : Bool) (seen : Option Seen)
      → (previous ≡ none) ⊎ (previous ≡ manifest_of (v.heads job.dataset job.key))
      → not (is_resolving c job) || is_accepted seen v.accepted_local ≡ true
      → is_resolving c job || already || adopted || is_unchanged (hash_in c previous) seen ≡ true
      → already || adopted ≡ false
      → IsCoveredSeen c v job seen
  covered_lem job previous already adopted none p a u n = tt
  covered_lem job previous already adopted (some seen) p a u n =
      elim (Bool-cases (is_resolving c job)) [
        | inl r ↦ inr (
          r,
          (text_eq_iff seen.hash v.accepted_local).0 (accepted_eq seen (is_resolving c job) r a),
        )
        | inr r ↦ inl (
            unchanged_recorded job previous seen.hash p (
              unchanged_hash (hash_in c previous) seen (
                left_over (is_resolving c job) already adopted
                  (is_unchanged (hash_in c previous) (some seen)) r n u)))
      ]

  pub probe-Finds : (place : Text) → Finds v (probe c place) (IsSeen c (v.working place))
  unfolding probe
  probe-Finds place =
      from-Finds (λ w. w.working place) (λ l. l.working place) (probe_of c) (λ w. refl)
        (probe_of-Finds (v.working place))

  -- What a file must be so that the version can take its place.
  abbrev IsChecked : Text → Job → Bool → Option Phase → Option Text → Option Seen → Type 0
  IsChecked place job resolving phase previous seen =
      IsSeen c (v.working place) seen
      × (not resolving || is_accepted seen v.accepted_local ≡ true)
      × (resolving
            || is_already job phase seen
            || is_adopted job seen
            || is_unchanged (hash_in c previous) seen
          ≡ true)

  accepted-Finds :
      (resolving : Bool) (seen : Option Seen)
      → Finds v
          (from
            (λ w. w.accepted_local)
            (λ accepted. demand c (not resolving || is_accepted seen accepted) conflict))
          (λ _. not resolving || is_accepted seen v.accepted_local ≡ true)
  accepted-Finds resolving seen =
      from-Finds (λ w. w.accepted_local) (λ l. l.accepted_local)
        (λ accepted. demand c (not resolving || is_accepted seen accepted) conflict) (λ w. refl)
        (demand-Finds c (not resolving || is_accepted seen v.accepted_local) conflict)

  pub examine-Finds :
      (place manifest : Text) (job : Job) (phase : Option Phase) (resolving : Bool)
      (previous : Option Text)
      → Finds v
          (examine c place manifest job phase resolving previous)
          (IsChecked place job resolving phase previous)
  unfolding examine
  examine-Finds place manifest job phase resolving previous =
      bind-Finds (probe-IsQuiet c place) (probe-Finds place) (λ seen known.
        weaken-Finds
          (then-Finds (search (quiet, seed-IsQuiet, seed_previous-IsQuiet) depth 14)
            (before-Finds _ (
              before-Finds _ (
                then-Finds (search quiet) (accepted-Finds resolving seen)
                  (demand-Finds c _ conflict))))
            (pure-Finds seen))
          (λ a found. rw (found.1) (known, found.0.0, found.0.1)))

  check_content-Finds :
      (job : Job) (file : Option File)
      → Finds v (check_content c job file) (λ _. IsVersion c job file)
  check_content-Finds job none = weaken-Finds (check-Finds false) (λ a e. cc)
  check_content-Finds job (some file) =
      bind-Finds (search quiet depth 12)
        (last-Finds (search quiet) (of_option-Finds (c.sha file.content)))
        (λ final hash. weaken-Finds (check-Finds _) (λ a found. (
          final,
          hash,
          sym (
                same_hash (c.sha file.content) job.expected final
                  (length file.content % 2 ^ 64 == job.total) hash found)
              ∙ hash,
          same_size (length file.content % 2 ^ 64) job.total (is_same job.expected final) found,
        )))

  pub check_file-Finds :
      (name : Text) (job : Job)
      → Finds v (check_file c name job) (λ _. IsVersion c job (v.working name))
  unfolding check_file
  check_file-Finds name job =
      from-Finds (λ w. w.working name) (λ l. l.working name) (check_content c job) (λ w. refl)
        (check_content-Finds job (v.working name))

  -- The temporary file has a name beside the file.
  pub open_temporary-Finds :
      (place : Text) (job : Job)
      → Finds v (open_temporary c place job) (λ name. temporary c place job.id ≡ some name)
  unfolding open_temporary
  open_temporary-Finds place job =
      bind-Finds (search quiet depth 12)
        (last-Finds (search quiet) (of_option-Finds (temporary c place job.id)))
        (λ name known.
          weaken-Finds (last-Finds (search quiet depth 12) (pure-Finds name)) (λ a e. rw e known))
