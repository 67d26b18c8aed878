-- ===== src/Storage.antt =====
-- platform/storage.h and platform/storage.c: the table of settings in the memory database, and what
-- the program reads from it and writes to it. The SQL of the source is a function on the rows;
-- whether SQLite carries a statement out is not decided here: the state holds the outcomes to come.
-- Error texts and the log are left out, and with them the identifiers of log spans.
pub mod Table
pub mod Writes
pub mod Entries
pub mod Reads
pub mod Commands
pub mod Servers
pub mod BatchTasks
pub mod Preferences
mod Examples
pub mod Works
pub mod Samples
use nova_desktop.Base.{
  ℕ, zero, suc, ◌+◌, ◌-◌, Bool, true, false, ◌&&◌, ◌||◌, not, List, [], ◌∷◌, ◌++◌, Option, none,
  some, ltb, ◌==◌, if◌then◌else◌, ℤ, pos, negsuc, length, take, count_in,
}
use nova_desktop.Text.{Text, c_str, first}
use nova_desktop.Decimal.{to_decimal}
use nova_desktop.Decimal.Signed.{wcsto, print_int, long_max}
use nova_desktop.Storage.Table.{Row, find, upsert, delete_scope, count_scope}

-- How SQLite takes the next statement: it prepares, binds and steps, or a call before the step is
-- refused, or the step is.
pub data SqlOutcome : Type 0 where
  fine unprepared failing : SqlOutcome

-- `is_open` is `db!=NULL`. `snapshot` is none in autocommit mode, else the rows that a rollback brings
-- back. Every outcome beyond the list is `fine`.
pub record Store : Type 0 where
  pub is_open : Bool
  pub rows : List Row
  pub snapshot : Option (List Row)
  pub transaction_failed : Bool
  pub opening : Bool
  pub open_changed : Bool
  pub outcomes : List SqlOutcome

-- A call with a BOOL result and out values: none is FALSE. The store comes back either way.
abbrev pub M : Type 0 → Type 0
M A = Store → Option A × Store

abbrev pub pure : {A : Type 0} → A → M A
pure a s = (some a, s)

abbrev pub fail : {A : Type 0} → M A
fail s = (none, s)

-- What goes on with the result of the first call where it succeeded.
abbrev pub follow : {A B : Type 0} → (A → M B) → Option A × Store → Option B × Store
follow f (none, s) = (none, s)
follow f (some a, s) = f a s

infixl 5 ◌>>=◌ ◌>>◌
abbrev pub ◌>>=◌ : {A B : Type 0} → M A → (A → M B) → M B
◌>>=◌ m f s = follow f (m s)

-- `a&&b`
abbrev pub ◌>>◌ : {B : Type 0} → M (Unit {0}) → M B → M B
m >> k = m >>= λ _. k

abbrev pub require : Bool → M (Unit {0})
require b s = (if b then some tt else none, s)

-- `ok=b&&ok` behind `ok=a`: both calls are made.
abbrev pub and_after : Option (Unit {0}) → Option (Unit {0}) × Store → Option (Unit {0}) × Store
and_after none (ok, s) = (none, s)
and_after (some _) result = result

abbrev pub also : M (Unit {0}) → M (Unit {0}) → M (Unit {0})
also m n s = let (ok, s') = m s in and_after ok (n s')

abbrev pub coming : List SqlOutcome → SqlOutcome
coming [] = fine
coming (o ∷ os) = o

abbrev later : List SqlOutcome → List SqlOutcome
later [] = []
later (o ∷ os) = os

-- `check(rc)` on a refused call.
abbrev pub failed : Store → Store
failed s = record s { outcomes = later s.outcomes; transaction_failed = true }

abbrev pub passed : Store → Store
passed s = record s { outcomes = later s.outcomes }

-- A statement that changes the rows, carried out by `prepare`, `bind_text` and `finish`.
unfoldable pub execute : (List Row → List Row) → M (Unit {0})
execute change s = if not s.is_open then (none, s) else (elim (coming s.outcomes) [
  | fine ↦ (some tt, record s { outcomes = later s.outcomes; rows = change s.rows })
  | unprepared ↦ (none, failed s)
  | failing ↦ (none, failed s)
])

-- BEGIN IMMEDIATE inside a transaction is an error.
abbrev begun : Option (List Row) → SqlOutcome → Store → Option (Unit {0}) × Store
begun none fine s = (some tt, record s { outcomes = later s.outcomes; snapshot = some s.rows })
begun none unprepared s = (none, failed s)
begun none failing s = (none, failed s)
begun (some old) o s = (none, failed s)

unfoldable pub store_begin : M (Unit {0})
store_begin s =
    if not s.is_open
    then (none, s)
    else begun s.snapshot (coming s.outcomes) (record s { transaction_failed = false })

-- ROLLBACK, whose result is only logged.
abbrev rolled_back : Option (List Row) → SqlOutcome → Store → Store
rolled_back (some old) fine s = record s {
  outcomes = later s.outcomes;
  rows = old;
  snapshot = none;
}
rolled_back (some old) unprepared s = passed s
rolled_back (some old) failing s = passed s
rolled_back none o s = passed s

unfoldable pub rollback : Store → Store
rollback s = rolled_back s.snapshot (coming s.outcomes) s

-- COMMIT, and what `execute` or config_json_commit return of it. The latter has rolled back where it
-- fails.
pub commit : M (Unit {0})
unfolding rollback
commit s = elim (coming s.outcomes) [
  | fine ↦ (some tt, record s { outcomes = later s.outcomes; snapshot = none })
  | unprepared ↦ (none, if s.opening then failed s else rollback (passed s))
  | failing ↦ (none, if s.opening then failed s else rollback (passed s))
]

-- After a commit: `open_changed=TRUE` while the store opens; without one, another ROLLBACK.
abbrev ended : Bool → Option (Unit {0}) × Store → Option (Unit {0}) × Store
ended opening (some _, s) = (some tt, if opening then record s { open_changed = true } else s)
ended opening (none, s) = (none, rollback s)

unfoldable pub store_end : Bool → M (Unit {0})
unfolding rollback commit
store_end success s =
    if not s.is_open
    then (none, s)
    else if not success || s.transaction_failed
    then (none, rollback s)
    else ended s.opening (commit s)

abbrev pub is_some : Option (Unit {0}) → Bool
is_some none = false
is_some (some _) = true

-- `if(!store_begin())return FALSE; ok=...; return store_end(ok);`
unfoldable pub in_transaction : M (Unit {0}) → M (Unit {0})
unfolding store_begin store_end
in_transaction body = store_begin >> λ s. (let (ok, s') = body s in store_end (is_some ok) s')

-- `own=sqlite3_get_autocommit(db)` makes a transaction of a change that stands in none.
unfoldable pub own_transaction : (List Row → List Row) → M (Unit {0})
unfolding in_transaction execute
own_transaction change s = if not s.is_open then (none, s) else (elim s.snapshot [
  | none ↦ in_transaction (execute change) s
  | some old ↦ execute change s
])

unfoldable pub store_set : Text → Text → Text → Text → M (Unit {0})
unfolding own_transaction
store_set scope section key value =
    own_transaction (upsert (record { scope = scope; section = section; name = key }) value)

unfoldable pub store_set_int : Text → Text → Text → ℤ → M (Unit {0})
store_set_int scope section key value = store_set scope section key (print_int value)

unfoldable pub store_clear : Text → M (Unit {0})
unfolding own_transaction
store_clear scope = own_transaction (delete_scope scope)

-- What a query of one value finds.
pub data Selected : Type 0 where
  not_prepared not_stepped no_row : Selected
  row : Text → Selected

abbrev selected : Option Text → Selected
selected none = no_row
selected (some cells) = row cells

-- `prepare("SELECT value FROM settings WHERE scope=? AND section=? AND key=?")` and the step.
unfoldable pub select_value : Text → Text → Text → Store → Selected × Store
unfolding find
select_value scope section key s =
    if not s.is_open then (not_prepared, s) else (elim (coming s.outcomes) [
      | unprepared ↦ (not_prepared, failed s)
      | failing ↦ (not_stepped, passed s)
      | fine ↦ (
        selected (find (record { scope = scope; section = section; name = key }) s.rows),
        passed s,
      )
    ])

-- `check(rc)` where the step has failed.
abbrev checked_step : Selected → Store → Store
checked_step not_stepped s = record s { transaction_failed = true }
checked_step not_prepared s = s
checked_step no_row s = s
checked_step (row cells) s = s

-- `lstrcpynW(to,s,capacity)`
abbrev pub lstrcpyn : Text → ℕ → Text
lstrcpyn s capacity = take (capacity - 1) s

abbrev got : Text → ℕ → Selected → Bool × Text
got fallback capacity not_prepared = (false, lstrcpyn fallback capacity)
got fallback capacity not_stepped = (false, lstrcpyn fallback capacity)
got fallback capacity no_row = (true, lstrcpyn fallback capacity)
got fallback capacity (row cells) = (true, lstrcpyn (c_str cells) capacity)

-- The result, and the text that is written on every path.
unfoldable pub store_get : Text → Text → Text → Text → ℕ → Store → (Bool × Text) × Store
unfolding select_value
store_get scope section key fallback capacity s =
    let (found, s') = select_value scope section key s in
    (got fallback capacity found, checked_step found s')

-- `*end?fallback:(int)n` on a text that is not empty.
abbrev int_of : Text → ℤ → ℤ
int_of value fallback =
    if first value == 0
    then fallback
    else let (n, errno, end) = wcsto long_max value in if first end == 0 then n else fallback

unfoldable pub store_int : Text → Text → Text → ℤ → Store → ℤ × Store
unfolding store_get
store_int scope section key fallback s =
    let (result, s') = store_get scope section key [] 48 s in (int_of result.1 fallback, s')

-- `SELECT count(*) FROM settings WHERE scope=...`: whether it was prepared, and the number if it was
-- stepped.
unfoldable pub count_rows : Text → Store → Bool × Option ℕ × Store
unfolding count_scope
count_rows scope s = if not s.is_open then (false, none, s) else (elim (coming s.outcomes) [
  | unprepared ↦ (false, none, failed s)
  | failing ↦ (true, none, passed s)
  | fine ↦ (true, some (count_scope scope s.rows), passed s)
])

-- The same, with `check(rc)`.
abbrev checked_count : Bool × Option ℕ × Store → Option ℕ × Store
checked_count (prepared, some n, s) = (some n, s)
checked_count (true, none, s) = (none, record s { transaction_failed = true })
checked_count (false, none, s) = (none, s)

unfoldable pub store_count : Text → M ℕ
unfolding count_rows
store_count scope s = checked_count (count_rows scope s)

-- A section, a key and a value.
abbrev pub Entry : Type 0
Entry = Text × Text × Text

-- `store_set(scope,...)&&store_set(scope,...)&&...`
unfoldable pub write_all : Text → List Entry → M (Unit {0})
unfolding store_set
write_all scope [] = pure tt
write_all scope ((section, key, value) ∷ es) =
    store_set scope section key value >> write_all scope es

-- `ok=...;ok=store_set(scope,...)&&ok;ok=store_set(scope,...)&&ok;...`
unfoldable pub write_each : M (Unit {0}) → Text → List Entry → M (Unit {0})
unfolding store_set
write_each first_call scope [] = first_call
write_each first_call scope ((section, key, value) ∷ es) =
    write_each (also first_call (store_set scope section key value)) scope es

-- `swprintf(section,32,L"...%d",i)`
abbrev pub numbered : Text → ℕ → Text
numbered prefix i = prefix ++ to_decimal i

-- The entries of one section.
abbrev pub in_section : Text → List (Text × Text) → List Entry
in_section section [] = []
in_section section ((key, value) ∷ es) = (section, key, value) ∷ in_section section es

-- `for(i<count&&ok)`: what is written of each element of a list stands in a section with its index.
unfoldable pub write_loop :
    {A : Type 0}
    → (List Entry → M (Unit {0}))
    → Text
    → (A → List (Text × Text))
    → ℕ
    → List A
    → M (Unit {0})
write_loop write prefix entries i [] = pure tt
write_loop write prefix entries i (x ∷ xs) =
    write (in_section (numbered prefix i) (entries x)) >> write_loop write prefix entries (i + 1) xs

-- `for(i<count&&ok)` over sections that are read.
unfoldable pub read_loop : {A : Type 0} → (Text → M A) → Text → ℕ → ℕ → M (List A)
read_loop read prefix i zero = pure []
read_loop read prefix i (suc n) =
    read (numbered prefix i) >>= λ x. read_loop read prefix (i + 1) n >>= λ xs. pure (x ∷ xs)

-- `text&&bytes>=0&&bytes<capacity*(int)sizeof(wchar_t)&&wcslen(text)==(size_t)bytes/sizeof(wchar_t)`
abbrev pub whole : ℕ → Text → Option Text
whole capacity cells =
    if ltb (length cells) capacity && length (c_str cells) == length cells
    then some (c_str cells)
    else none

abbrev read_cells : ℕ → Selected → Option Text
read_cells capacity not_prepared = none
read_cells capacity not_stepped = none
read_cells capacity no_row = none
read_cells capacity (row cells) = whole capacity cells

-- batch_read_text and command_read_text, each in its scope.
unfoldable pub read_text : Text → Text → Text → ℕ → M Text
unfolding select_value
read_text scope section key capacity s =
    let (found, s') = select_value scope section key s in
    (read_cells capacity found, checked_step found s')

-- `text[0]`, and `*end||parsed<0||parsed>maximum` does not hold.
abbrev pub number_in : ℕ → Text → Option ℕ
number_in maximum text =
    if first text == 0
    then none
    else (let (parsed, errno, end) = wcsto long_max text in
        if first end == 0 then count_in parsed maximum else none)

-- batch_read_number and command_read_number, each in its scope.
unfoldable pub read_number : Text → Text → Text → ℕ → M ℕ
unfolding read_text
read_number scope section key maximum =
    read_text scope section key 32 >>= λ text s. (number_in maximum text, s)

-- `ok=ok&&test(&next);if(ok)*out=next;`
abbrev pub accept : {A : Type 0} → (A → Bool) → A → M A
accept test a s = (if test a then some a else none, s)

-- The result of a load, and what the out argument holds: `old` where nothing was loaded.
abbrev pub loaded : {A : Type 0} → A → Option A × Store → (Bool × A) × Store
loaded old (none, s) = ((false, old), s)
loaded old (some a, s) = ((true, a), s)

-- A store_get whose result is tested.
abbrev pub tested : (Bool × Text) × Store → Option Text × Store
tested ((ok, text), s) = (if ok then some text else none, s)

abbrev pub get_text : Text → Text → Text → Text → ℕ → M Text
get_text scope section key fallback capacity s =
    tested (store_get scope section key fallback capacity s)

-- store_int as a step of a chain.
abbrev pub get_int : Text → Text → Text → ℤ → M ℤ
get_int scope section key fallback s =
    let (n, s') = store_int scope section key fallback s in (some n, s')

-- A BOOL that is stored as 0 or 1.
abbrev pub flag : ℤ → Option Bool
flag (pos n) = if n == 0 then some false else if n == 1 then some true else none
flag (negsuc n) = none

-- Giving up where there is no value.
abbrev pub or_fail : {A : Type 0} → Option A → M A
or_fail o s = (o, s)
