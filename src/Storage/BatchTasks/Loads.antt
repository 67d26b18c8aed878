-- ===== src/Storage/BatchTasks/Loads.antt =====
-- What store_load_batch_tasks of platform/storage.c hands out.
use nova_desktop.Base.{
  ℕ, zero, suc, ◌+◌, ◌-◌, ◌≤◌, ◌≡◌, refl, ap, Bool, true, false, List, [], ◌∷◌, Option, none, some,
  arith, ltb, leb, ◌==◌, if◌then◌else◌, pos, length, replicate, Bool-cases, inl, inr, ◌⊎◌,
  length-append, length-replicate,
}
use nova_desktop.Text.{Text, codes}
use nova_desktop.BatchTask.{BatchTask}
use nova_desktop.Storage.{Store, M, require, follow, loaded, read_number, store_count}
use nova_desktop.Storage.Reads.{followed, read_number-le}
use nova_desktop.Storage.BatchTasks.{
  BatchTaskList, task_limit, tasks_scope, collection, zeroed, load_task, load_tasks,
  store_save_batch_tasks, after_save, load_stored_tasks, stored_or_saved, list_of,
}
use nova_desktop.Storage.BatchTasks.Checks.{
  AllUsable, IsLoaded, store_save_batch_tasks_lem, load_tasks-AllUsable, list-IsLoaded,
}
use nova_desktop.Storage.BatchTasks.Legacy.{
  store_load_batch_task, store_load_batch_tasks, load_first_list, first_list,
}

after_save_lem :
    (r : (Bool × BatchTaskList) × Store) (c : BatchTaskList)
    → (after_save r).0 ≡ some c
    → (r.0.0 ≡ true) × (r.0.1 ≡ c)
after_save_lem ((true, tasks), s) c e = (refl, cc)
after_save_lem ((false, tasks), s) c e = cc

module _ (towlower : ℕ → ℕ) (new_id : ℕ → ℕ) where
  -- A list that was saved on loading.
  saved-IsLoaded :
      (tasks c : BatchTaskList) (s : Store)
      → length tasks.tasks ≡ task_limit
      → (after_save (store_save_batch_tasks towlower new_id tasks s)).0 ≡ some c
      → IsLoaded towlower c
  saved-IsLoaded tasks c s cells e =
      let (ok, same) = after_save_lem (store_save_batch_tasks towlower new_id tasks s) c e in
      rw (← same) (store_save_batch_tasks_lem towlower new_id tasks s cells ok)

  stored_or_saved-IsLoaded :
      (version count : ℕ) (tasks : List BatchTask) (c : BatchTaskList) (s : Store)
      → count ≤ task_limit
      → length tasks ≡ count
      → (leb 2 version ≡ true → AllUsable towlower [] tasks)
      → (stored_or_saved towlower new_id version (list_of count tasks) s).0 ≡ some c
      → IsLoaded towlower c
  stored_or_saved-IsLoaded version count tasks c s le long usable e =
      elim (Bool-cases (ltb version 3)) [
        | inl older ↦
            saved-IsLoaded (list_of count tasks) c s
              (omega (
                arith,
                length-append tasks (replicate (task_limit - count) zeroed),
                length-replicate (task_limit - count) zeroed,
                long,
                le,
              ))
              (rw older at e)
        | inr newest ↦
            let made : some (list_of count tasks) ≡ some c = rw newest at e in
            let same : list_of count tasks ≡ c = cc in
            rw (← same) (
              list-IsLoaded towlower (pos count) count tasks (replicate (task_limit - count) zeroed)
                refl le long (usable (ground arith)))
      ]

  load_tasks_length :
      (version : ℕ) (earlier : List BatchTask) (i n : ℕ) (s : Store) (ts : List BatchTask)
      → (load_tasks towlower version earlier i n s).0 ≡ some ts
      → length ts ≡ n
  unfolding load_tasks
  load_tasks_length version earlier i zero s ts e = let nil : [] ≡ ts = cc in rw (← nil) refl
  load_tasks_length version earlier i (suc n) s ts e =
      let (t, s1, first_read, e1) = followed (load_task towlower version earlier _ s) _ ts e in
      let (rest, s2, rest_read, e2) =
        followed (load_tasks towlower version (t ∷ earlier) (i + 1) n s1) _ ts e1 in
      let made : t ∷ rest ≡ ts = cc in
      rw (← made) (
        ap suc
          (load_tasks_length version (t ∷ earlier) (i + 1) n s1 rest (ap (λ r. r.0) rest_read)))

  stored-IsLoaded :
      (c : BatchTaskList) (s : Store)
      → (load_stored_tasks towlower new_id s).0 ≡ some c
      → IsLoaded towlower c
  unfolding load_stored_tasks
  stored-IsLoaded c s e =
      let (version, s1, a1, e1) =
        followed (read_number tasks_scope collection (codes "Version") 3 s) _ c e in
      let (u, s2, a2, e2) = followed (require (leb 1 version) s1) _ c e1 in
      let (count, s3, a3, e3) =
        followed (read_number tasks_scope collection (codes "Count") task_limit s2) _ c e2 in
      let (tasks, s4, a4, e4) = followed (load_tasks towlower version [] 0 count s3) _ c e3 in
      stored_or_saved-IsLoaded version count tasks c s4
        (read_number-le tasks_scope collection (codes "Count") task_limit count s2
          (ap (λ r. r.0) a3))
        (load_tasks_length version [] 0 count s3 tasks (ap (λ r. r.0) a4))
        (λ v. (load_tasks-AllUsable towlower version [] 0 count s3 tasks v (ap (λ r. r.0) a4)).0) e4

  first-IsLoaded :
      (first_name : Text) (c : BatchTaskList) (s : Store)
      → (load_first_list towlower new_id first_name s).0 ≡ some c
      → IsLoaded towlower c
  unfolding load_first_list
  first-IsLoaded first_name c s e =
      let (task, s1, a1, e1) = followed (store_load_batch_task towlower s) _ c e in
      saved-IsLoaded (first_list first_name task) c s1 (ap suc (length-replicate 15 zeroed)) e1

  -- The tasks can be used, or nothing was loaded and the out argument is as before.
  abbrev pub LoadedOrKept : BatchTaskList → (Bool × BatchTaskList) × Store → Type 0
  LoadedOrKept old r =
      ((r.0.0 ≡ true) × (IsLoaded towlower r.0.1)) ⊎ ((r.0.0 ≡ false) × (r.0.1 ≡ old))

  -- Where the load of the batch tasks succeeds, whatever the table holds and in whatever version, the
  -- list counts at most 16 tasks, each of them is valid and has a name and a command, and no two have
  -- the same id. Where it fails, the out argument is as before.
  pub store_load_batch_tasks-IsLoaded :
      (first_name : Text) (old : BatchTaskList) (s : Store)
      → LoadedOrKept old (store_load_batch_tasks towlower new_id first_name old s)
  unfolding store_load_batch_tasks
  store_load_batch_tasks-IsLoaded first_name old s =
      go (follow by_rows (store_count tasks_scope s)) refl
    where
      by_rows : ℕ → M BatchTaskList
      by_rows rows =
          if rows == 0
          then load_first_list towlower new_id first_name
          else load_stored_tasks towlower new_id

      reached :
          (rows : ℕ) (c : BatchTaskList) (s' : Store)
          → (by_rows rows s').0 ≡ some c
          → IsLoaded towlower c
      reached rows c s' e = elim (Bool-cases (rows == 0)) [
        | inl fresh ↦ first-IsLoaded first_name c s' (rw fresh at e)
        | inr stored ↦ stored-IsLoaded c s' (rw stored at e)
      ]

      go :
          (r : Option BatchTaskList × Store)
          → follow by_rows (store_count tasks_scope s) ≡ r
          → LoadedOrKept old (loaded old r)
      go (none, s') e = inr (refl, refl)
      go (some c, s') e =
          let (rows, s1, a, e') =
            followed (store_count tasks_scope s) by_rows c (ap (λ r. r.0) e) in
          inl (refl, reached rows c s1 e')
