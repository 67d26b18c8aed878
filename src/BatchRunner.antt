-- ===== src/BatchRunner.antt =====
-- platform/batch_runner.h and platform/batch_runner.c: the run of a batch task over its directories, the
-- tail that is kept of a command's output, and the folders of PATH in which git is looked for. What
-- Windows, the cancel event and the command answer are parameters.
pub mod Tasks
pub mod Output
pub mod Search
mod Examples
use nova_desktop.Base.{
  ℕ, ◌+◌, ◌-◌, Bool, true, false, ◌&&◌, ◌||◌, not, List, [], ◌∷◌, ◌++◌, ltb, leb, ◌==◌,
  if◌then◌else◌, ℤ, pos, negsuc, length, take, drop, get_or, memmove,
}
use nova_desktop.Text.{Text, Buffer, c_str, first}
use nova_desktop.BatchTask.{BatchTask, batch_task_is_valid, batch_task_command}

pub data RunState : Type 0 where
  run_none run_succeeded run_failed run_skipped run_cancelled : RunState

-- The events of BatchProgress, with the exit code and the error.
pub data Event : Type 0 where
  event_started : Event
  event_result : ℕ → ℕ → Event
  event_skipped : Event
  event_cancelled : ℕ → ℕ → Event

pub record BatchResult : Type 0 where
  pub success : ℕ
  pub failed : ℕ
  pub skipped : ℕ
  pub cancelled : ℕ

-- What a command leaves: whether it ran, its exit code and its error.
pub record Executed : Type 0 where
  pub ok : Bool
  pub code : ℕ
  pub error : ℕ

abbrev pub error_gen_failure : ℕ
error_gen_failure = 31

abbrev pub error_cancelled : ℕ
error_cancelled = 1223

-- What happens around the steps: whether the cancel event is set before a step, the command of a step in a
-- directory, and, in parallel mode, whether the thread of a step is created or which error there is.
pub record Surroundings : Type 0 where
  pub cancellation_requested : ℕ → Bool
  pub execute : ℕ → Text → Text → Executed
  pub thread_created : ℕ → Bool
  pub thread_error : ℕ → ℕ

-- `if(!ok&&!error)error=ERROR_GEN_FAILURE`
abbrev pub error_of : Executed → ℕ
error_of e = if not e.ok && e.error == 0 then error_gen_failure else e.error

-- The state of a step that was started, and its last event.
pub executed_state : Executed → RunState × Event
executed_state e =
    if error_of e == error_cancelled
    then (run_cancelled, event_cancelled e.code (error_of e))
    else (
      if e.ok && e.code == 0 then run_succeeded else run_failed,
      event_result e.code (error_of e),
    )

-- The state of a step and its events in order.
pub run_directory : Surroundings → ℕ → Text → Text → RunState × List Event
unfolding executed_state
run_directory around index command directory =
    if around.cancellation_requested index
    then (run_skipped, event_skipped ∷ [])
    else let (state, event) = executed_state (around.execute index command directory) in
      (state, event_started ∷ event ∷ [])

-- `-1` as a DWORD.
abbrev pub no_code : ℕ
no_code = 4294967295

-- A step in its mode: 1 is BATCH_PARALLEL.
pub run_step : Surroundings → ℤ → ℕ → Text → Text → RunState × List Event
unfolding run_directory
run_step around mode index command directory = elim mode [
  | negsuc m ↦ run_directory around index command directory
  | pos m ↦
      if m == 1 && not (around.thread_created index)
      then (run_failed, event_result no_code (around.thread_error index) ∷ [])
      else run_directory around index command directory
]

-- The first loop: the steps from `index` on.
pub run_steps : Surroundings → BatchTask → ℕ → List Buffer → List (RunState × List Event)
unfolding run_step
run_steps around task index [] = []
run_steps around task index (directory ∷ directories) =
    run_step around task.mode index (batch_task_command task (pos index)) (c_str directory)
    ∷ run_steps around task (index + 1) directories

-- The second loop.
abbrev pub count_state : RunState → BatchResult → BatchResult
count_state run_skipped r = record r { skipped = r.skipped + 1 }
count_state run_cancelled r = record r { cancelled = r.cancelled + 1 }
count_state run_succeeded r = record r { success = r.success + 1 }
count_state run_failed r = record r { failed = r.failed + 1 }
count_state run_none r = record r { failed = r.failed + 1 }

pub tally : BatchResult → List (RunState × List Event) → BatchResult
tally r [] = r
tally r (run ∷ runs) = tally (count_state run.0 r) runs

abbrev pub no_result : BatchResult
no_result = record { success = 0; failed = 0; skipped = 0; cancelled = 0 }

abbrev pub directory_count : BatchTask → ℕ
directory_count task = elim task.directory_count [ pos n ↦ n | negsuc n ↦ 0 ]

-- The result, and the events of each step.
pub batch_runner_task :
    (ℕ → ℕ) → Surroundings → BatchTask → BatchResult × List (RunState × List Event)
unfolding run_steps tally
batch_runner_task towlower around task =
    if not (batch_task_is_valid towlower task)
    then (no_result, [])
    else let runs = run_steps around task 0 (take (directory_count task) task.directories) in
      (tally no_result runs, runs)

abbrev pub tail_cap : ℕ
tail_cap = 8192

abbrev pub chunk_cap : ℕ
chunk_cap = 1024

-- `tail` has all `tail_cap` cells.
pub record OutputReader : Type 0 where
  pub tail : List ℕ
  pub length : ℕ

-- `memcpy(cells+at,bytes,count)`
abbrev pub memcpy : List ℕ → ℕ → List ℕ → List ℕ
memcpy cells at bytes = take at cells ++ (bytes ++ drop (at + length bytes) cells)

-- `reader->length+count>sizeof(reader->tail)?reader->length+count-sizeof(reader->tail):0`
abbrev pub discard_of : OutputReader → List ℕ → ℕ
discard_of reader chunk =
    if ltb tail_cap (reader.length + length chunk)
    then reader.length + length chunk - tail_cap
    else 0

-- `if(discard)memmove(reader->tail,reader->tail+discard,reader->length-discard)`
abbrev pub moved : OutputReader → ℕ → List ℕ
moved reader discard =
    if discard == 0 then reader.tail else memmove reader.tail 0 discard (reader.length - discard)

-- One round of the loop: a chunk that ReadFile has filled.
pub read_chunk : OutputReader → List ℕ → OutputReader
read_chunk reader chunk =
    let discard = discard_of reader chunk in
    record {
      tail = memcpy (moved reader discard) (reader.length - discard) chunk;
      length = reader.length - discard + length chunk;
    }

-- The chunks until ReadFile fails or has none.
pub read_output : OutputReader → List (List ℕ) → OutputReader
unfolding read_chunk
read_output reader [] = reader
read_output reader (chunk ∷ chunks) = read_output (read_chunk reader chunk) chunks

-- The loop of clean_output; `write` never passes `read`, so it is the list of what is written.
pub cleaned : Bool → Text → Text
cleaned spaced [] = []
cleaned spaced (c ∷ cs) =
    let after_blank = cleaned true cs in
    let after_char = cleaned false cs in
    if c == 13 || c == 10 || c == 9 || ltb c b' '
    then if not spaced then b' ' ∷ after_blank else after_blank
    else c ∷ after_char

-- `while(write>value&&write[-1]==L' ')write--;`
pub without_blanks : Text → Text
without_blanks [] = []
without_blanks (c ∷ cs) =
    let rest = without_blanks cs in if length rest == 0 && c == b' ' then [] else c ∷ rest

pub clean_output : Text → Text
unfolding cleaned without_blanks
clean_output value = without_blanks (cleaned true value)

-- A drive letter with a colon and a slash, or two backslashes.
pub absolute_folder : Text → Bool
absolute_folder value =
    let a = get_or value 0 0 in
    let b = get_or value 1 0 in
    let c = get_or value 2 0 in
    (((leb b'A' a && leb a b'Z') || (leb b'a' a && leb a b'z'))
      && b == b':'
      && (c == b'\\' || c == b'/'))
    || (a == b'\\' && b == b'\\')

-- A blank, a tab or a quote.
abbrev pub is_margin : ℕ → Bool
is_margin c = c == b' ' || c == 9 || c == b'"'

-- `while(*segment==L' '||...)segment++;`
pub without_front : Text → Text
without_front [] = []
without_front (c ∷ cs) = let rest = without_front cs in if is_margin c then rest else c ∷ cs

-- `while(end>segment&&...)*--end=0;`
pub without_end : Text → Text
without_end [] = []
without_end (c ∷ cs) =
    let rest = without_end cs in if length rest == 0 && is_margin c then [] else c ∷ rest

-- The folders that are kept, with a segment more: `if(*safe)wcscat(safe,L";");wcscat(safe,segment);`
pub add_segment : Text → Text → Text
unfolding absolute_folder without_front without_end
add_segment safe segment =
    let trimmed = without_end (without_front segment) in
    if not (first trimmed == 0) && absolute_folder trimmed
    then (if first safe == 0 then trimmed else safe ++ b';' ∷ trimmed)
    else safe

-- The loop over PATH; `segment` are the characters since the last delimiter.
pub safe_from : Bool → Text → Text → Text → Text
unfolding add_segment
safe_from quoted safe segment [] = add_segment safe segment
safe_from quoted safe segment (c ∷ cs) =
    let quoted' = if c == b'"' then not quoted else quoted in
    let next = safe_from quoted' (add_segment safe segment) [] cs in
    let more = safe_from quoted' safe (segment ++ c ∷ []) cs in
    if c == b';' && not quoted' then next else more

-- The folders of PATH that SearchPathW is given.
pub safe_folders : Text → Text
unfolding safe_from
safe_folders search = safe_from false [] [] search
