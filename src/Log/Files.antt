-- ===== src/Log/Files.antt =====
-- platform/app_log.c: the two files of the log.
use nova_desktop.Base.{
  sym, append_nil, ℕ, ◌+◌, Bool, true, false, not, [], ◌∷◌, ◌++◌, Option, none, some, ltb, zero,
  suc, length-append, if◌then◌else◌, length, take, ◌≡◌, refl, arith, ◌≤◌, ◌<◌, ◌⊎◌, inl, inr,
}
use nova_desktop.Text.{Text}
use nova_desktop.Log.{
  Bytes, log_limit, record_size, NovaLogLevel, plain, absent, Log, Answers, Surroundings, content,
  appended, rotated, opened, write_line, written_line, writable, record_of, line_end, message_of,
  nova_log_write,
}

-- Neither file holds more than 2 MB.
abbrev pub IsBounded : Log → Type 0
IsBounded log =
    (length (content log.current) ≤ log_limit) × (length (content log.backup) ≤ log_limit)

length-take_le : (n : ℕ) (xs : Bytes) → length (take n xs) ≤ length xs
length-take_le zero xs = omega arith
length-take_le (suc n) [] = omega arith
length-take_le (suc n) (x ∷ xs) = let h = length-take_le n xs in omega arith

length-appended :
    (a : Answers) (line bytes : Bytes)
    → length (content (appended a line bytes)) ≤ length bytes + length line
length-appended a line bytes =
    let sum : _ = length-append bytes (take a.written line) in
    let part : _ = length-take_le a.written line in ground (arith, sum, part)

rotated-IsBounded :
    (a : Answers) (line bytes : Bytes) (log : Log)
    → length line < record_size
    → length bytes ≤ log_limit
    → IsBounded log
    → IsBounded (rotated a line bytes log)
rotated-IsBounded a line bytes log short small bounded =
    let fresh : _ = length-appended a line [] in ground (arith, fresh, bounded.0, bounded.1)

opened-IsBounded :
    (a : Answers) (line bytes : Bytes) (log : Log)
    → length line < record_size
    → length bytes ≤ log_limit
    → IsBounded log
    → IsBounded (opened a line bytes log)
opened-IsBounded a line bytes log short small bounded =
    let more : _ = length-appended a line bytes in
    let turned : _ = rotated-IsBounded a line bytes log short small bounded in
    ground (arith, more, turned.0, turned.1, bounded.0, bounded.1)

-- What both results of a test have, the result has.
chosen : (P : Log → Type 0) (b : Bool) (x y : Log) → (b ≡ true → P x) → P y → P (if b then x else y)
chosen P true x y h k = h refl
chosen P false x y h k = k

write_line-IsBounded :
    (a : Answers) (line : Bytes) (log : Log) → IsBounded log → IsBounded (write_line a line log)
unfolding write_line
write_line-IsBounded a line log bounded =
    chosen IsBounded (writable a line log) (opened a line (content log.current) log) log
      (λ e. opened-IsBounded a line (content log.current) log (ground arith) bounded.0 bounded)
      bounded

written_line-IsBounded :
    (now : Surroundings) (a : Answers) (level : NovaLogLevel) (component event utf : Option Bytes)
    (log : Log)
    → IsBounded log
    → IsBounded (written_line now a level component event utf log)
written_line-IsBounded now a level component event none log bounded = bounded
written_line-IsBounded now a level component event (some utf) log bounded =
    write_line-IsBounded a (record_of now level component event utf ++ line_end) log bounded

-- Whatever Windows answers, a write keeps both files of the log at no more than 2 MB each.
pub nova_log_write-IsBounded :
    (now : Surroundings) (a : Answers) (level : NovaLogLevel) (component event : Option Bytes)
    (message : Option Text) (log : Log)
    → IsBounded log
    → IsBounded (nova_log_write now a level component event message log)
unfolding nova_log_write
nova_log_write-IsBounded now a level component event message log bounded =
    written_line-IsBounded now a level component event (now.utf8 (message_of message)) log bounded

-- What the current file held begins it still, or is the backup.
abbrev pub IsKept : Bytes → Log → Type 0
IsKept bytes log =
    ((rest : Bytes) × (content log.current ≡ bytes ++ rest)) ⊎ (bytes ≡ content log.backup)

appended-begins :
    (a : Answers) (line bytes : Bytes)
    → (rest : Bytes) × (content (appended a line bytes) ≡ bytes ++ rest)
appended-begins a line bytes =
    elim a.seeks
      as (λ b.
        (rest : Bytes) × ((if b then bytes ++ take a.written line else bytes) ≡ bytes ++ rest)) [
          | true ↦ (take a.written line, refl)
          | false ↦ ([], sym (append_nil bytes))
        ]

rotated-IsKept :
    (a : Answers) (line bytes : Bytes) (log : Log) → IsKept bytes (rotated a line bytes log)
rotated-IsKept a line bytes log =
    chosen (IsKept bytes) (not a.moves) (record log { current = plain bytes })
      (if not a.creates
        then record log { current = absent; backup = plain bytes }
        else record log { current = appended a line []; backup = plain bytes })
      (λ e. inl ([], sym (append_nil bytes)))
      (chosen (IsKept bytes) (not a.creates) (record log { current = absent; backup = plain bytes })
        (record log { current = appended a line []; backup = plain bytes }) (λ e. inr refl)
        (inr refl))

opened-IsKept :
    (a : Answers) (line bytes : Bytes) (log : Log) → IsKept bytes (opened a line bytes log)
opened-IsKept a line bytes log =
    chosen (IsKept bytes) (not a.sizes) (record log { current = plain bytes })
      (if ltb log_limit (length bytes + length line)
        then rotated a line bytes log
        else record log { current = appended a line bytes })
      (λ e. inl ([], sym (append_nil bytes)))
      (chosen (IsKept bytes) (ltb log_limit (length bytes + length line)) (rotated a line bytes log)
        (record log { current = appended a line bytes }) (λ e. rotated-IsKept a line bytes log)
        (inl (appended-begins a line bytes)))

written_line-IsKept :
    (now : Surroundings) (a : Answers) (level : NovaLogLevel) (component event utf : Option Bytes)
    (log : Log)
    → IsKept (content log.current) (written_line now a level component event utf log)
unfolding write_line
written_line-IsKept now a level component event none log =
    inl ([], sym (append_nil (content log.current)))
written_line-IsKept now a level component event (some utf) log =
    let line : Bytes = record_of now level component event utf ++ line_end in
    chosen (IsKept (content log.current)) (writable a line log)
      (opened a line (content log.current) log) log
      (λ e. opened-IsKept a line (content log.current) log)
      (inl ([], sym (append_nil (content log.current))))

-- Whatever Windows answers, what the current file held before a write stands at its beginning afterwards, or it is
-- all of the backup.
pub nova_log_write-IsKept :
    (now : Surroundings) (a : Answers) (level : NovaLogLevel) (component event : Option Bytes)
    (message : Option Text) (log : Log)
    → IsKept (content log.current) (nova_log_write now a level component event message log)
unfolding nova_log_write
nova_log_write-IsKept now a level component event message log =
    written_line-IsKept now a level component event (now.utf8 (message_of message)) log
