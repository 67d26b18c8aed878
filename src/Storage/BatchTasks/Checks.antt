-- ===== src/Storage/BatchTasks/Checks.antt =====
-- What the loads and saves of batch tasks in platform/storage.c accept.
use nova_desktop.Base.{
  ℕ, zero, suc, ◌+◌, ◌≤◌, ◌≡◌, refl, Bool, true, false, List, [], ◌∷◌, ◌++◌, Option, none, some,
  arith, leb, ◌==◌, ℤ, pos, count_in, length, take, drop, ap, count_in-eq-some, length-take,
  take-append_exact, checked, any_clash, same_int,
}
use nova_desktop.Text.{c_str, codes, first}
use nova_desktop.BatchTask.{BatchTask, all_blank, count_or_zero}
use nova_desktop.Storage.{Store, in_transaction, numbered}
use nova_desktop.Storage.Reads.{followed}
use nova_desktop.Storage.BatchTasks.{
  BatchTaskList, task_limit, has_id, used, usable, savable, prepare_tasks, with_id, load_task,
  load_tasks, with_ids, save_prepared, save_counted, saved_list, write_batch_tasks,
  store_save_batch_tasks,
}

-- A text that is not blank is not empty.
blank_lem : (cells : List ℕ) → all_blank (c_str cells) ≡ false → first cells == 0 ≡ false
unfolding all_blank c_str
blank_lem [] h = cc
blank_lem (zero ∷ cells) h = cc
blank_lem (suc c ∷ cells) h = ground arith

-- `tasks[j].id==t->id`
abbrev pub same_id : BatchTask → BatchTask → Bool
same_id t s = same_int s.id t.id

any_clash-has_id :
    (is_ok : BatchTask → Bool) (t : BatchTask) (ts : List BatchTask)
    → any_clash is_ok same_id t ts ≡ has_id t.id ts
unfolding any_clash has_id
any_clash-has_id is_ok t [] = refl
any_clash-has_id is_ok t (s ∷ ts) = ground (arith, any_clash-has_id is_ok t ts)

module _ (towlower : ℕ → ℕ) where
  savable→usable : (t : BatchTask) → savable towlower t ≡ true → usable towlower t ≡ true
  unfolding savable usable
  savable→usable t h = ground (arith, blank_lem t.name, blank_lem t.command)

  -- Every task is valid and has a name and a command, and no two have the same id.
  abbrev pub AllUsable : List BatchTask → List BatchTask → Type 0
  AllUsable earlier ts = checked (usable towlower) same_id earlier ts ≡ true

  prepare_tasks-AllUsable :
      (new_id : ℕ → ℕ) (i : ℕ) (earlier ts : List BatchTask)
      → (prepare_tasks towlower new_id i earlier ts).0 ≡ true
      → AllUsable earlier (prepare_tasks towlower new_id i earlier ts).1
        × (length (prepare_tasks towlower new_id i earlier ts).1 ≡ length ts)
  unfolding prepare_tasks checked
  prepare_tasks-AllUsable new_id i earlier [] h = (refl, refl)
  prepare_tasks-AllUsable new_id i earlier (t ∷ ts) h = ground (
    arith,
    any_clash-has_id (usable towlower) (with_id new_id i t) earlier,
    savable→usable (with_id new_id i t),
    prepare_tasks-AllUsable new_id (i + 1) (with_id new_id i t ∷ earlier) ts,
  )

  load_task_lem :
      (version : ℕ) (earlier : List BatchTask) (section : List ℕ) (s : Store) (t : BatchTask)
      → leb 2 version ≡ true
      → (load_task towlower version earlier section s).0 ≡ some t
      → (usable towlower t ≡ true) × (has_id t.id earlier ≡ false)
  unfolding load_task
  load_task_lem version earlier section s t v e = ground arith

  pub load_tasks-AllUsable :
      (version : ℕ) (earlier : List BatchTask) (i n : ℕ) (s : Store) (ts : List BatchTask)
      → leb 2 version ≡ true
      → (load_tasks towlower version earlier i n s).0 ≡ some ts
      → AllUsable earlier ts × (length ts ≡ n)
  unfolding load_tasks checked
  load_tasks-AllUsable version earlier i zero s ts v e =
      let nil : [] ≡ ts = cc in rw (← nil) (refl, refl)
  load_tasks-AllUsable version earlier i (suc n) s ts v e =
      let (t, s1, first_read, e1) = followed (load_task towlower version earlier _ s) _ ts e in
      let (rest, s2, rest_read, e2) =
        followed (load_tasks towlower version (t ∷ earlier) (i + 1) n s1) _ ts e1 in
      let here =
        load_task_lem version earlier (numbered (codes "Task") i) s t v
          (ap (λ r. r.0) first_read) in
      let behind =
        load_tasks-AllUsable version (t ∷ earlier) (i + 1) n s1 rest v (ap (λ r. r.0) rest_read) in
      let made : t ∷ rest ≡ ts = cc in
      rw (← made) (
        ground (arith, here, behind, any_clash-has_id (usable towlower) t earlier),
        omega (arith, behind.1),
      )

  -- The list counts tasks that are there, and each of them can be used.
  abbrev pub IsLoaded : BatchTaskList → Type 0
  IsLoaded tasks =
      (tasks.count ≡ pos (count_or_zero tasks.count))
      × (count_or_zero tasks.count ≤ task_limit)
      × AllUsable [] (used tasks)

  pub list-IsLoaded :
      (count : ℤ) (n : ℕ) (ts rest : List BatchTask)
      → count ≡ pos n
      → n ≤ task_limit
      → length ts ≡ n
      → AllUsable [] ts
      → IsLoaded (record { count = count; tasks = ts ++ rest })
  list-IsLoaded count n ts rest e le l h =
      rw (e, ← l) (refl, rw l le, rw (take-append_exact ts rest) h)

  -- A save that succeeds leaves tasks that can be used.
  pub store_save_batch_tasks_lem :
      (new_id : ℕ → ℕ) (tasks : BatchTaskList) (s : Store)
      → length tasks.tasks ≡ task_limit
      → (store_save_batch_tasks towlower new_id tasks s).0.0 ≡ true
      → IsLoaded (store_save_batch_tasks towlower new_id tasks s).0.1
  unfolding store_save_batch_tasks
  store_save_batch_tasks_lem new_id tasks s cells h =
      counted (count_in tasks.count task_limit) refl h
    where
      prepared :
          (n : ℕ) (r : Bool × List BatchTask)
          → tasks.count ≡ pos n
          → n ≤ task_limit
          → (r.0 ≡ true → AllUsable [] r.1 × (length r.1 ≡ n))
          → (save_prepared tasks n r s).0.0 ≡ true
          → IsLoaded (save_prepared tasks n r s).0.1
      prepared n (false, ps) e le k h = cc
      prepared n (true, ps) e le k h =
          ended (in_transaction (write_batch_tasks (with_ids tasks n ps)) s)
            (list-IsLoaded tasks.count n ps (drop n tasks.tasks) e le (k refl).1 (k refl).0) h
        where
          ended :
              (r : Option (Unit {0}) × Store)
              → IsLoaded (with_ids tasks n ps)
              → (saved_list (with_ids tasks n ps) r).0.0 ≡ true
              → IsLoaded (saved_list (with_ids tasks n ps) r).0.1
          ended (none, s') good h = cc
          ended (some u, s') good h = good

      counted :
          (o : Option ℕ)
          → count_in tasks.count task_limit ≡ o
          → (save_counted towlower new_id tasks o s).0.0 ≡ true
          → IsLoaded (save_counted towlower new_id tasks o s).0.1
      counted none e h = cc
      counted (some n) e h =
          let (c, le) = count_in-eq-some tasks.count task_limit n e in
          prepared n (prepare_tasks towlower new_id 0 [] (take n tasks.tasks)) c le
            (λ k.
              let (good, long) = prepare_tasks-AllUsable new_id 0 [] (take n tasks.tasks) k in
              (good, omega (arith, long, length-take n tasks.tasks, cells, le)))
            h
