-- ===== src/Logs/Followed.antt =====
-- The log panel of genpi/frontend/app.js from its first reply on.
use generatorpi.Base.{
  length, drop, length-drop, map-append, Bytes, ℕ, ◌+◌, ◌-◌, ◌≤◌, ◌≡◌, sym, ap, ◌∙◌, false, none,
  some, List, ◌∷◌, ◌++◌, map, arith, nat_key,
}
use generatorpi.Sysmon.History.{last_points}
use generatorpi.Logs.{api_logs, clamp_lines, last_lines, full_tail}
use generatorpi.Logs.Panel.{View, receive, row_cap, asked, newest-of_newest}
use generatorpi.Logs.Polls.{Growth, poll_all, last_seen, last_seen-grows, poll_all-caught_up}
use generatorpi.Logs.Decoding.{IsDecoder}
use generatorpi.Logs.Tail.{HasPlainLines, tail_with_cursor_complete}
use generatorpi.Logs.Texts.{complete_size, complete_lines, partial_line}
use generatorpi.Logs.Parts.{
  complete_lines-append, complete_size-append, drop-complete_size, complete_size-le,
}

module _ (decode : Bytes → Bytes) (d : IsDecoder decode) where
  first_reply :
      (file : Bytes) (size : ℕ) (v : View)
      → HasPlainLines decode file
      → receive (api_logs decode false asked none size (some file)) v ≡ record {
        rows = last_points row_cap (map decode (complete_lines file));
        offset = complete_size file;
      }
  unfolding receive api_logs full_tail clamp_lines last_lines
  first_reply file size v plain =
      ap (λ (r : List Bytes × ℕ). record { rows = r.0; offset = r.1 })
        (tail_with_cursor_complete decode d file row_cap (omega arith) plain)

  -- The log panel that starts with a full tail and then polls with the offset of each reply shows, after
  -- any number of polls, the newest 1000 complete lines of the log as the last poll found it, or all if there
  -- are fewer. None of these is lost, shown twice or out of order, and its offset stands behind the last of
  -- them. The conditions: the log only grows, before a poll or while it is answered, so it is not rotated or
  -- truncated in between; routine requests are not hidden; the decoder decodes what stands on the two
  -- sides of a line feed apart and makes no line feed of other bytes; and the complete lines at the start
  -- decode to texts that end nowhere but at their line feeds.
  pub poll_all-follows :
      (file : Bytes) (size : ℕ) (v : View) (g : Growth) (gs : List Growth)
      → HasPlainLines decode file
      → poll_all decode
          (g ∷ gs)
          file
          (receive (api_logs decode false asked none size (some file)) v)
        ≡ record {
          rows = last_points row_cap (map decode (complete_lines (last_seen file g gs)));
          offset = complete_size (last_seen file g gs);
        }
  poll_all-follows file size v g gs plain =
      let old = map decode (complete_lines file) in
      let (more, e) = last_seen-grows file g gs in
      let rest = partial_line file ++ more in
      let start : View = record { rows = last_points row_cap old; offset = complete_size file } in
      let few : length (last_points row_cap old) ≤ row_cap =
        omega (arith, length-drop (length old - row_cap) old) in
      let new : drop (complete_size file) (last_seen file g gs) ≡ rest =
        ap (drop (complete_size file)) e ∙ drop-complete_size file more in
      let rows : last_points row_cap (last_points row_cap old ++ map decode (complete_lines rest))
          ≡ last_points row_cap (map decode (complete_lines (last_seen file g gs))) =
        newest-of_newest row_cap old (map decode (complete_lines rest))
        ∙ ap (last_points row_cap) (
            sym (map-append decode (complete_lines file) (complete_lines rest))
            ∙ ap (map decode) (sym (ap complete_lines e ∙ complete_lines-append file more))) in
      ap (poll_all decode (g ∷ gs) file) (first_reply file size v plain)
      ∙ poll_all-caught_up decode d g gs file start (complete_size-le file) few
      ∙ ap
          (λ t. record {
            rows = last_points row_cap (last_points row_cap old ++ map decode (complete_lines t));
            offset = complete_size file + complete_size t;
          })
          new
      ∙ ap (λ rs. record { rows = rs; offset = complete_size file + complete_size rest }) rows
      ∙ ap
          (λ k. record {
            rows = last_points row_cap (map decode (complete_lines (last_seen file g gs)));
            offset = k;
          })
          (sym (ap complete_size e ∙ complete_size-append file more))
