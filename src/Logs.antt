-- ===== src/Logs.antt =====
-- The feed of the application log in genpi/routes/core.py: the reads of the file's tail and of what was
-- appended to it, and the handler of /api/logs. A file is its bytes, `none` if it cannot be opened.
-- `decode` is the decoding of UTF-8 with replacement, from bytes to code points.
pub mod Routine
mod Tests
pub mod Texts
pub mod Decoding
pub mod Delta
pub mod Parts
pub mod Splits
pub mod Blocks
pub mod Followed
pub mod Panel
pub mod Polls
pub mod Tail
use generatorpi.Base.{
  ltb, leb, if◌then◌else◌, length, take, drop, keep, ◌==◌, ℤ, pos, negsuc, Bytes, ends_with,
  onto_first, split, ℕ, zero, suc, ◌+◌, ◌-◌, ◌*◌, min, max, Bool, true, false, not, ◌&&◌, ◌||◌,
  Option, none, some, List, [], ◌∷◌, ◌++◌, nat_key, bytes_key,
}
use generatorpi.Logs.Routine.{is_routine_http}

-- `data.count(b"\n")`
unfoldable pub feeds : Bytes → ℕ
feeds [] = 0
feeds (c ∷ s) = if c == 10 then suc (feeds s) else feeds s

-- `s.rfind("\n")`, and `none` for -1
unfoldable pub rfind : Bytes → Option ℕ
rfind [] = none
rfind (c ∷ s) = elim (rfind s) [ some i ↦ some (suc i) | none ↦ if c == 10 then some 0 else none ]

-- `xs[-n:]`
unfoldable pub last_lines : ℕ → List Bytes → List Bytes
last_lines n xs = if n == 0 then xs else drop (length xs - n) xs

-- The characters at which `splitlines` ends a line.
abbrev pub is_break : ℕ → Bool
is_break c = (leb 10 c && leb c 13) || (leb 28 c && leb c 30) || c == 133 || c == 8232 || c == 8233

-- `s.splitlines()`; `after_cr` tells that a line feed belongs to the end of the line before.
unfoldable pub splitlines_from : (after_cr : Bool) → Bytes → List Bytes
splitlines_from after_cr [] = []
splitlines_from after_cr (c ∷ s) =
    let rest = splitlines_from false s in
    let next = splitlines_from (c == 13) s in
    if after_cr && c == 10 then rest else if is_break c then [] ∷ next else onto_first c rest

unfoldable pub splitlines : Bytes → List Bytes
unfolding splitlines_from
splitlines s = splitlines_from false s

-- The loop that reads blocks backwards: what was read, and where it starts. The position falls with
-- every block, so that many rounds as the file has bytes are enough.
unfoldable pub read_back : (rounds : ℕ) → (block : ℕ) → Bytes → ℕ → (at : ℕ) → Bytes → Bytes × ℕ
unfolding feeds
read_back zero block file n at found = (found, at)
read_back (suc rounds) block file n at found =
    let step = min block at in
    let rest =
      read_back rounds block file n (at - step) (take step (drop (at - step) file) ++ found) in
    if ltb 0 at && leb (feeds found) n then rest else (found, at)

-- The bytes, where they start, and the size of the file.
unfoldable pub read_tail_block : Option Bytes → ℕ → Bytes × ℕ × ℕ
unfolding read_back
read_tail_block none n = ([], 0, 0)
read_tail_block (some file) n =
    let size = length file in
    if size == 0
    then ([], 0, 0)
    else let (found, at) = read_back size 4096 file n size [] in (found, at, size)

-- A last line without its line feed is dropped.
unfoldable pub drop_partial : Bytes → Bytes
unfolding rfind
drop_partial text =
    if ends_with (10 ∷ []) text
    then text
    else elim (rfind text) [ none ↦ [] | some i ↦ take (suc i) text ]

-- The place behind the last line feed of what starts at `at`.
unfoldable pub cursor_after : (at : ℕ) → Bytes → ℕ
unfolding rfind
cursor_after at found = elim (rfind found) [ none ↦ 0 | some i ↦ at + i + 1 ]

-- `text[text.find("\n") + 1:]`, and nothing if there is no line feed
unfoldable pub after_feed : Bytes → Bytes
after_feed [] = []
after_feed (c ∷ s) = let rest = after_feed s in if c == 10 then s else rest

-- A text that starts in the middle of the file loses its first line.
unfoldable pub drop_leading : (start : ℕ) → Bytes → Bytes
unfolding after_feed
drop_leading zero text = text
drop_leading (suc start) text = after_feed text

unfoldable pub scan_bytes : ℕ
scan_bytes = 2 * 1024 * 1024

pub record LogReply : Type 0 where
  pub lines : List Bytes
  pub offset : ℕ
  pub reset : Bool

-- `max(1, min(n, 1000))`, of a parameter that is 1000 if it is missing or no number
unfoldable pub clamp_lines : Option ℤ → ℕ
clamp_lines none = 1000
clamp_lines (some (pos n)) = max 1 (min n 1000)
clamp_lines (some (negsuc n)) = 1

module _ (decode : Bytes → Bytes) where
  unfoldable pub tail_lines : Option Bytes → ℕ → List Bytes
  unfolding read_tail_block splitlines last_lines
  tail_lines file n =
      let (found, at, size) = read_tail_block file n in
      if size == 0 then [] else last_lines n (splitlines (decode found))

  unfoldable pub tail_with_cursor : Option Bytes → ℕ → List Bytes × ℕ
  unfolding read_tail_block splitlines last_lines drop_partial cursor_after
  tail_with_cursor file n =
      let (found, at, size) = read_tail_block file n in
      if size == 0
      then ([], 0)
      else (last_lines n (splitlines (drop_partial (decode found))), cursor_after at found)

  -- The lines before the last line feed, and the place behind it.
  unfoldable pub range_reply : (start : ℕ) → ℕ → Bytes → (last_nl : Option ℕ) → List Bytes × ℕ
  unfolding last_lines
  range_reply start n chunk none = ([], start)
  range_reply start n chunk (some last_nl) =
      let lines = split 10 (decode (take last_nl chunk)) in
      (if ltb n (length lines) then last_lines n lines else lines, start + last_nl + 1)

  -- `_read_log_range`
  unfoldable pub read_log_range : Option Bytes → (start end : ℕ) → ℕ → List Bytes × ℕ
  unfolding rfind range_reply
  read_log_range none start end n = ([], start)
  read_log_range (some file) start end n =
      let chunk = take (end - start) (drop start file) in range_reply start n chunk (rfind chunk)

  -- `_tail_meaningful_with_cursor`
  unfoldable pub tail_meaningful : Option Bytes → ℕ → List Bytes × ℕ
  unfolding splitlines last_lines drop_partial drop_leading cursor_after
  tail_meaningful none n = ([], 0)
  tail_meaningful (some file) n =
      let size = length file in
      let start = size - scan_bytes in
      let found = drop start file in
      let text = drop_partial (drop_leading start (decode found)) in
      if size == 0 then ([], 0) else (
        last_lines n (keep (λ l. not (is_routine_http l)) (splitlines text)),
        cursor_after start found,
      )

  -- What is read with no cursor, or with one that the file does not reach.
  unfoldable pub full_tail : (hide_http : Bool) → Option Bytes → ℕ → LogReply
  full_tail hide_http file n =
      let (tail, cursor) = if hide_http then tail_meaningful file n else tail_with_cursor file n in
      record { lines = tail; offset = cursor; reset = true }

  unfoldable pub log_delta : (hide_http : Bool) → Option Bytes → (since size : ℕ) → ℕ → LogReply
  log_delta hide_http file since size n =
      let (new_lines, cursor) = read_log_range file since size n in
      record {
        lines = if hide_http then keep (λ l. not (is_routine_http l)) new_lines else new_lines;
        offset = cursor;
        reset = false;
      }

  unfoldable pub from_cursor : (hide_http : Bool) → Option Bytes → (since size : ℕ) → ℕ → LogReply
  from_cursor hide_http file since size n =
      if ltb size since
      then full_tail hide_http file n
      else if leb size since
      then record { lines = []; offset = since; reset = false }
      else log_delta hide_http file since size n

  -- `/api/logs`: the size is taken first, and the file is opened afterwards.
  unfoldable pub api_logs :
      (hide_http : Bool)
      → (lines : Option ℤ) → (since : Option ℤ) → (size : ℕ) → Option Bytes
      → LogReply
  api_logs hide_http lines none size file = full_tail hide_http file (clamp_lines lines)
  api_logs hide_http lines (some (negsuc s)) size file =
      full_tail hide_http file (clamp_lines lines)
  api_logs hide_http lines (some (pos s)) size file =
      from_cursor hide_http file s size (clamp_lines lines)
