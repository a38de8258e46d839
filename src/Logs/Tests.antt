-- ===== src/Logs/Tests.antt =====
-- The log feed on small files.
use generatorpi.Base.{pos, Bytes, codes, ◌≡◌, refl, true, false, none, some, [], ◌∷◌, map, arith}
use generatorpi.Logs.{
  api_logs, last_lines, clamp_lines, tail_with_cursor, read_log_range, full_tail, log_delta,
  from_cursor,
}
use generatorpi.Logs.Panel.{View, receive, row_cap, asked}
use generatorpi.Logs.Polls.{Growth, poll_all}
use generatorpi.Logs.Routine.{is_routine_http}
use generatorpi.Logs.Decoding.{IsDecoder}
use generatorpi.Logs.Texts.{complete_lines, complete_size, lines_parts}
use generatorpi.Logs.Tail.{tail_with_cursor_complete, HasPlainLines}
use generatorpi.Sysmon.History.{last_points}
use generatorpi.Logs.Followed.{poll_all-follows}

abbrev as_is : Bytes → Bytes
as_is s = s

as_is-IsDecoder : IsDecoder as_is
as_is-IsDecoder = record { empty = refl; line = λ l s. refl; feedless = λ s h. h }

-- Two complete lines and a rest, then the end of the third line, and a fourth one while a poll is answered.
abbrev log_file : Bytes
log_file = codes "one\ntwo\nth"

abbrev growths_first : Growth
growths_first = record { before = codes "ree\n"; meanwhile = codes "four\n" }

abbrev growths_next : Growth
growths_next = record { before = codes "fi"; meanwhile = [] }

delta :
    api_logs as_is false none (some (pos 4)) 10 (some log_file)
    ≡ record { lines = codes "two" ∷ []; offset = 8; reset = false }
unfolding api_logs from_cursor log_delta clamp_lines read_log_range
delta = refl

rotated :
    api_logs as_is false none (some (pos 40)) 10 (some log_file)
    ≡ record { lines = codes "one" ∷ codes "two" ∷ []; offset = 8; reset = true }
unfolding api_logs from_cursor full_tail clamp_lines tail_with_cursor
rotated = refl

-- A carriage return ends a line of the tail, and is part of one in a delta.
tail_cuts :
    api_logs as_is false none none 4 (some (97 ∷ 13 ∷ 98 ∷ 10 ∷ []))
    ≡ record { lines = (97 ∷ []) ∷ (98 ∷ []) ∷ []; offset = 4; reset = true }
unfolding api_logs full_tail clamp_lines tail_with_cursor
tail_cuts = refl

delta_joins :
    api_logs as_is false none (some (pos 0)) 4 (some (97 ∷ 13 ∷ 98 ∷ 10 ∷ []))
    ≡ record { lines = (97 ∷ 13 ∷ 98 ∷ []) ∷ []; offset = 4; reset = false }
unfolding api_logs from_cursor log_delta clamp_lines read_log_range
delta_joins = refl

hidden :
    api_logs as_is true none
      (some (pos 0))
      48
      (some (codes "I a@b -> GET /api/state 200\nE a@b -> GET /x 404\n"))
    ≡ record { lines = codes "E a@b -> GET /x 404" ∷ []; offset = 48; reset = false }
unfolding api_logs from_cursor log_delta clamp_lines read_log_range is_routine_http
hidden = refl

log_file-plain : HasPlainLines as_is log_file
unfolding lines_parts
log_file-plain = ((refl, (refl, (refl, tt))), ((refl, (refl, (refl, tt))), tt))

tail_with_cursor_complete_example :
    tail_with_cursor as_is (some log_file) 1
    ≡ (last_lines 1 (map as_is (complete_lines log_file)), complete_size log_file)
tail_with_cursor_complete_example =
    tail_with_cursor_complete as_is as_is-IsDecoder log_file 1 (omega arith) log_file-plain

abbrev empty_view : View
empty_view = record { rows = []; offset = 0 }

poll_all-follows_example :
    poll_all as_is
      (growths_first ∷ growths_next ∷ [])
      log_file
      (receive (api_logs as_is false asked none 10 (some log_file)) empty_view)
    ≡ record {
      rows = last_points row_cap (map as_is (complete_lines (codes "one\ntwo\nthree\nfour\nfi")));
      offset = complete_size (codes "one\ntwo\nthree\nfour\nfi");
    }
poll_all-follows_example =
    poll_all-follows as_is as_is-IsDecoder log_file 10 empty_view growths_first (growths_next ∷ [])
      log_file-plain
