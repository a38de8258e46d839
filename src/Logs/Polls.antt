-- ===== src/Logs/Polls.antt =====
-- The log panel polls /api/logs with the offset of the reply before, while the program appends to the log.
use generatorpi.Sysmon.History.{last_points}
use generatorpi.Base.{
  ltb, leb, leb→le, Bool-cases, if_true, if_false, length, take, drop, length-append, length-drop,
  drop-append, drop_nil, drop-drop, append_assoc, map-append, pos, Bytes, ℕ, ◌+◌, ◌-◌, ◌≤◌, ◌<◌,
  ◌≡◌, refl, sym, ap, ◌∙◌, inl, inr, false, some, List, [], ◌∷◌, ◌++◌, map, arith, nat_key,
  bytes_key,
}
use generatorpi.Logs.{LogReply, api_logs, log_delta, from_cursor, clamp_lines}
use generatorpi.Logs.Texts.{lines_parts, complete_lines, partial_line, complete_size}
use generatorpi.Logs.Decoding.{IsDecoder, drop-all}
use generatorpi.Logs.Panel.{
  row_cap, asked, View, receive, add_lines-points, newest-of_newest, newest_added, capped-points,
}
use generatorpi.Logs.Delta.{read_log_range_complete, take-append, capped}
use generatorpi.Logs.Parts.{
  drop-complete_size, complete_size-le, complete_lines-append, complete_size-append,
}

new_bytes :
    (file meanwhile : Bytes) (c : ℕ)
    → c ≤ length file
    → take (length file - c) (drop c (file ++ meanwhile)) ≡ drop c file
new_bytes file meanwhile c h =
    ap (take (length file - c)) (sym (drop-append c file meanwhile h))
    ∙ ap (λ n. take n (drop c file ++ meanwhile)) (sym (length-drop c file))
    ∙ take-append (drop c file) meanwhile

-- What is appended before a poll, and what is appended while it is answered.
pub record Growth : Type 0 where
  pub before : Bytes
  pub meanwhile : Bytes

-- The file as the last of these polls finds it.
abbrev pub last_seen : (file : Bytes) → Growth → List Growth → Bytes
last_seen file g [] = file ++ g.before
last_seen file g (h ∷ hs) = last_seen ((file ++ g.before) ++ g.meanwhile) h hs

pub last_seen-grows :
    (file : Bytes) (g : Growth) (gs : List Growth)
    → (more : Bytes) × (last_seen file g gs ≡ file ++ more)
last_seen-grows file g [] = (g.before, refl)
last_seen-grows file g (h ∷ hs) =
    let (more, e) = last_seen-grows ((file ++ g.before) ++ g.meanwhile) h hs in
    (g.before ++ (g.meanwhile ++ more), e ∙ simp append_assoc)

module _ (decode : Bytes → Bytes) where
  -- Where the client stands after it has read a file from an offset.
  abbrev pub caught_up : (file : Bytes) → View → View
  caught_up file v = record {
    rows = last_points row_cap (v.rows ++ map decode (complete_lines (drop v.offset file)));
    offset = v.offset + complete_size (drop v.offset file);
  }

module _ (decode : Bytes → Bytes) where
  unfoldable pub poll : (file meanwhile : Bytes) → View → View
  poll file meanwhile v =
      receive
        (api_logs decode false asked (some (pos v.offset)) (length file) (some (file ++ meanwhile)))
        v

  unfoldable pub poll_all : List Growth → (file : Bytes) → View → View
  unfolding poll
  poll_all [] file v = v
  poll_all (g ∷ gs) file v =
      let now = file ++ g.before in poll_all gs (now ++ g.meanwhile) (poll now g.meanwhile v)

module _ (decode : Bytes → Bytes) (d : IsDecoder decode) where
  abbrev answer : List Bytes × ℕ → LogReply
  answer r = record { lines = r.0; offset = r.1; reset = false }

  log_delta-exact :
      (file meanwhile : Bytes) (c n : ℕ)
      → c ≤ length file
      → 0 < n
      → log_delta decode false (some (file ++ meanwhile)) c (length file) n ≡ record {
        lines = last_points n (map decode (complete_lines (drop c file)));
        offset = c + complete_size (drop c file);
        reset = false;
      }
  unfolding log_delta
  log_delta-exact file meanwhile c n h k =
      let new = drop c file in
      let read = read_log_range_complete decode d (file ++ meanwhile) c (length file) n in
      let all = capped-points n (map decode (complete_lines new)) k in
      ap answer read
      ∙ ap (λ t. answer (capped n (map decode (complete_lines t)), c + complete_size t))
          (new_bytes file meanwhile c h)
      ∙ ap (λ ls. answer (ls, c + complete_size new)) all

  from_cursor-exact :
      (file meanwhile : Bytes) (c n : ℕ)
      → c ≤ length file
      → 0 < n
      → from_cursor decode false (some (file ++ meanwhile)) c (length file) n ≡ record {
        lines = last_points n (map decode (complete_lines (drop c file)));
        offset = c + complete_size (drop c file);
        reset = false;
      }
  unfolding from_cursor complete_size lines_parts
  from_cursor-exact file meanwhile c n h k = elim (Bool-cases (leb (length file) c)) [
    | inl done ↦
        let nothing = drop-all c file (leb→le (length file) c done) in
        if_false (ltb (length file) c) _ _ (ground arith)
        ∙ if_true (leb (length file) c) _ _ done
        ∙ ap (λ n. answer ([], n)) (let e : c ≡ c + 0 = omega arith in e)
        ∙ ap (λ ls. answer (ls, c + complete_size [])) (sym (drop_nil (length {A = Bytes} [] - n)))
        ∙ ap (λ t. answer (last_points n (map decode (complete_lines t)), c + complete_size t))
            (sym nothing)
    | inr more ↦
        if_false (ltb (length file) c) _ _ (ground arith)
        ∙ if_false (leb (length file) c) _ _ more
        ∙ log_delta-exact file meanwhile c n h k
  ]

  pub poll-caught_up :
      (file meanwhile : Bytes) (v : View)
      → v.offset ≤ length file
      → length v.rows ≤ row_cap
      → poll decode file meanwhile v ≡ caught_up decode file v
  unfolding poll api_logs receive clamp_lines
  poll-caught_up file meanwhile v h k =
      let new = map decode (complete_lines (drop v.offset file)) in
      ap (λ r. receive r v) (from_cursor-exact file meanwhile v.offset row_cap h (omega arith))
      ∙ ap
          (λ (rs : List Bytes). record {
            rows = rs;
            offset = v.offset + complete_size (drop v.offset file);
          })
          (add_lines-points v.rows (last_points row_cap new) k ∙ newest_added row_cap v.rows new)

  -- Reading on from where one has caught up with a file that has grown.
  caught_up_again :
      (file more : Bytes) (v : View)
      → v.offset ≤ length file
      → caught_up decode (file ++ more) (caught_up decode file v)
        ≡ caught_up decode (file ++ more) v
  caught_up_again file more v h =
      let s = drop v.offset file in
      let new = partial_line s ++ more in
      let later : drop v.offset (file ++ more) ≡ s ++ more =
        sym (drop-append v.offset file more h) in
      let again : drop (v.offset + complete_size s) (file ++ more) ≡ new =
        sym (drop-drop (complete_size s) v.offset (file ++ more))
        ∙ ap (drop (complete_size s)) later
        ∙ drop-complete_size s more in
      let rows : last_points row_cap (
            last_points row_cap (v.rows ++ map decode (complete_lines s))
            ++ map decode (complete_lines new))
          ≡ last_points row_cap (v.rows ++ map decode (complete_lines (s ++ more))) =
        newest-of_newest row_cap (v.rows ++ map decode (complete_lines s))
          (map decode (complete_lines new))
        ∙ ap (last_points row_cap) (
            append_assoc v.rows (map decode (complete_lines s)) (map decode (complete_lines new))
            ∙ ap (λ ls. v.rows ++ ls)
                (sym (map-append decode (complete_lines s) (complete_lines new)))
            ∙ ap (λ ls. v.rows ++ map decode ls) (sym (complete_lines-append s more))) in
      let offset : v.offset + complete_size s + complete_size new
          ≡ v.offset + complete_size (s ++ more) =
        omega (arith, complete_size-append s more) in
      ap
        (λ t. record {
          rows = last_points row_cap (
              last_points row_cap (v.rows ++ map decode (complete_lines s))
              ++ map decode (complete_lines t));
          offset = v.offset + complete_size s + complete_size t;
        })
        again
      ∙ ap (λ x. record { rows = x; offset = v.offset + complete_size s + complete_size new }) rows
      ∙ ap
          (λ n. record {
            rows = last_points row_cap (v.rows ++ map decode (complete_lines (s ++ more)));
            offset = n;
          })
          offset
      ∙ ap
          (λ t. record {
            rows = last_points row_cap (v.rows ++ map decode (complete_lines t));
            offset = v.offset + complete_size t;
          })
          (sym later)

  offset_in_file :
      (file more : Bytes) (v : View)
      → v.offset ≤ length file
      → (caught_up decode file v).offset ≤ length (file ++ more)
  offset_in_file file more v h = omega (
    arith,
    complete_size-le (drop v.offset file),
    length-drop v.offset file,
    length-append file more,
  )

  -- However the log grows between the polls and while they are answered, the panel ends with the newest
  -- of what it had and every complete line that was appended since, once and in order, and its offset
  -- stands behind the last of them. The conditions are that the offset lies in the file, and that the panel
  -- had no more rows than it keeps.
  pub poll_all-caught_up :
      (g : Growth) (gs : List Growth) (file : Bytes) (v : View)
      → v.offset ≤ length file
      → length v.rows ≤ row_cap
      → poll_all decode (g ∷ gs) file v ≡ caught_up decode (last_seen file g gs) v
  unfolding poll_all
  poll_all-caught_up g [] file v h b =
      poll-caught_up (file ++ g.before) g.meanwhile v (omega (arith, length-append file g.before)) b
  poll_all-caught_up g (k ∷ ks) file v h b =
      let now = file ++ g.before in
      let here : v.offset ≤ length now = omega (arith, length-append file g.before) in
      let (more, e) = last_seen-grows (now ++ g.meanwhile) k ks in
      let whole : last_seen (now ++ g.meanwhile) k ks ≡ now ++ (g.meanwhile ++ more) =
        e ∙ append_assoc now g.meanwhile more in
      let all = v.rows ++ map decode (complete_lines (drop v.offset now)) in
      let few : length (last_points row_cap all) ≤ row_cap =
        omega (arith, length-drop (length all - row_cap) all) in
      ap (poll_all decode (k ∷ ks) (now ++ g.meanwhile)) (poll-caught_up now g.meanwhile v here b)
      ∙ poll_all-caught_up k ks (now ++ g.meanwhile) (caught_up decode now v)
          (offset_in_file now g.meanwhile v here) few
      ∙ ap (λ t. caught_up decode t (caught_up decode now v)) whole
      ∙ caught_up_again now (g.meanwhile ++ more) v here
      ∙ ap (λ t. caught_up decode t v) (sym whole)
