-- ===== src/Apps/Scan/Report.antt =====
-- What is read of a report of the scanner, entry by entry, and of one that is cut off.
use distributed_apps_platfor.Base.{
  ◌≡◌, ◌∙◌, refl, ap, String, true, false, not, ◌&&◌, List, [], ◌∷◌, ◌++◌, Option, none, some, Dict,
  lookup, All, Result, ok, ◌>>=◌, if◌then◌else◌, ◌==◌, string_eq, has_text, lookup-insert, ==_refl,
  arith,
}
use distributed_apps_platfor.Apps.Scan.{
  Scan, level, clean, tool_of, verdict_of, note, parse_clean, parse_line, parse_lines, new_scan,
  parse,
}

-- The three lines of a vulnerability, and what they tell.
pub record Entry : Type 0 where
  pub head_line : String
  pub level_line : String
  pub verdict_line : String
  pub tool : String
  pub severity : String
  pub message : String

-- The lines are those of an entry: after the substitutions, the first names the tool, the second announces the level, and
-- the third gives the severity and the message.
pub record IsEntry (e : Entry) : Type 0 where
  pub head_there : (e.head_line == "") ≡ false
  pub level_there : (e.level_line == "") ≡ false
  pub verdict_there : (e.verdict_line == "") ≡ false
  pub plain : has_text level (clean e.head_line) ≡ false
  pub named : tool_of (clean e.head_line) ≡ ok e.tool
  pub levelled : has_text level (clean e.level_line) ≡ true
  pub judged : verdict_of (clean e.verdict_line) ≡ ok (e.severity, e.message)
  pub tool_there : (e.tool == "") ≡ false
  pub severity_there : (e.severity == "") ≡ false

abbrev pub lines_of : List Entry → List String
lines_of [] = []
lines_of (e ∷ entries) = e.head_line ∷ e.level_line ∷ e.verdict_line ∷ lines_of entries

-- what the last entry of a tool tells, where `old` is what was told before
abbrev pub told : String → List Entry → Option (String × String) → Option (String × String)
told j [] old = old
told j (e ∷ entries) old =
    told j entries (if e.tool == j then some (e.severity, e.message) else old)

-- Between two entries: what the variables hold is told already.
record IsSettled (s : Scan) : Type 0 where
  searching : s.found ≡ false
  settled :
      (not (s.severity == "") && not (s.tool == "")) ≡ true
      → lookup s.tool s.vul_info ≡ some (s.severity, s.description)

note-lookup :
    (line j : String) (s : Scan)
    → lookup j (note line s).vul_info ≡ (
        if (not (s.severity == "") && not (s.tool == "")) && s.tool == j
        then some (s.severity, s.description)
        else lookup j s.vul_info)
unfolding note
note-lookup line j s = ground (arith, lookup-insert s.tool j (s.severity, s.description) s.vul_info)

abbrev after_head : Entry → Scan → Scan
after_head e s = note (clean e.head_line) s

abbrev after_level : Entry → Scan → Scan
after_level e s =
    note (clean e.level_line) (record (after_head e s) { found = true; tool = e.tool })

abbrev after_entry : Entry → Scan → Scan
after_entry e s =
    note (clean e.verdict_line)
      (record (after_level e s) { found = false; severity = e.severity; description = e.message })

head-step :
    (e : Entry) (s : Scan)
    → IsEntry e
    → s.found ≡ false
    → parse_line e.head_line s ≡ ok (after_head e s)
unfolding parse_line parse_clean
head-step e s i f = ground (arith, i.head_there, i.plain, f)

level-step :
    (e : Entry) (s : Scan)
    → IsEntry e
    → s.found ≡ false
    → parse_line e.level_line (after_head e s) ≡ ok (after_level e s)
unfolding parse_line parse_clean note
level-step e s i f = ground (arith, i.level_there, i.levelled, i.named, f)

verdict-step :
    (e : Entry) (s : Scan)
    → IsEntry e
    → parse_line e.verdict_line (after_level e s) ≡ ok (after_entry e s)
unfolding parse_line parse_clean note
verdict-step e s i = ground (arith, i.verdict_there, i.judged)

parse_lines-ok :
    (line : String) (rest : List String) (s s' : Scan)
    → parse_line line s ≡ ok s'
    → parse_lines (line ∷ rest) s ≡ parse_lines rest s'
unfolding parse_lines
parse_lines-ok line rest s s' h = ap (λ (r : Result Scan). r >>= parse_lines rest) h

entry-step :
    (e : Entry) (rest : List String) (s : Scan)
    → IsEntry e
    → s.found ≡ false
    → parse_lines (e.head_line ∷ e.level_line ∷ e.verdict_line ∷ rest) s
      ≡ parse_lines rest (after_entry e s)
entry-step e rest s i f =
    parse_lines-ok e.head_line (e.level_line ∷ e.verdict_line ∷ rest) s (after_head e s)
      (head-step e s i f)
    ∙ parse_lines-ok e.level_line (e.verdict_line ∷ rest) (after_head e s) (after_level e s)
        (level-step e s i f)
    ∙ parse_lines-ok e.verdict_line rest (after_level e s) (after_entry e s) (verdict-step e s i)

after_head-lookup :
    (e : Entry) (j : String) (s : Scan)
    → IsSettled s
    → lookup j (after_head e s).vul_info ≡ lookup j s.vul_info
after_head-lookup e j s h =
    note-lookup (clean e.head_line) j s ∙ ground (arith, h.settled, string_eq.same_iff s.tool j)

after_level-lookup :
    (e : Entry) (j : String) (s : Scan)
    → IsEntry e
    → IsSettled s
    → lookup j (after_level e s).vul_info ≡ (
        if not (s.severity == "") && e.tool == j
        then some (s.severity, s.description)
        else lookup j s.vul_info)
unfolding note
after_level-lookup e j s i h =
    note-lookup (clean e.level_line) j (record (after_head e s) { found = true; tool = e.tool })
    ∙ ground (arith, after_head-lookup e j s h, i.tool_there)

after_entry-lookup :
    (e : Entry) (j : String) (s : Scan)
    → IsEntry e
    → IsSettled s
    → lookup j (after_entry e s).vul_info
      ≡ (if e.tool == j then some (e.severity, e.message) else lookup j s.vul_info)
unfolding note
after_entry-lookup e j s i h =
    note-lookup (clean e.verdict_line) j
      (record (after_level e s) { found = false; severity = e.severity; description = e.message })
    ∙ ground (arith, after_level-lookup e j s i h, i.tool_there, i.severity_there)

after_entry-IsSettled :
    (e : Entry) (s : Scan) → IsEntry e → IsSettled s → IsSettled (after_entry e s)
unfolding note
after_entry-IsSettled e s i h = record {
  searching = refl;
  settled = λ _. after_entry-lookup e e.tool s i h ∙ rw (==_refl e.tool) refl;
}

-- what the variables hold after some entries
entries-lem :
    (entries : List Entry) (rest : List String) (s : Scan)
    → All IsEntry entries
    → IsSettled s
    → (s' : Scan) × (parse_lines (lines_of entries ++ rest) s ≡ parse_lines rest s')
      × IsSettled s'
      × ((j : String) → lookup j s'.vul_info ≡ told j entries (lookup j s.vul_info))
entries-lem [] rest s i h = (s, refl, h, λ j. refl)
entries-lem (e ∷ entries) rest s i h =
    let (s', went, settled, found) =
      entries-lem entries rest (after_entry e s) i.1 (after_entry-IsSettled e s i.0 h) in
    (
      s',
      entry-step e (lines_of entries ++ rest) s i.0 h.searching ∙ went,
      settled,
      λ j. found j ∙ ap (told j entries) (after_entry-lookup e j s i.0 h),
    )

new_scan-IsSettled : (first : String) → IsSettled (new_scan first)
new_scan-IsSettled first = record { searching = refl; settled = λ h. cc }

-- A report that is a first line and entries is read without an error, and tells of each tool what its last entry
-- says, and nothing of a tool that has no entry.
pub parse-report :
    (first : String) (entries : List Entry)
    → All IsEntry entries
    → (vul_info : Dict String (String × String)) × (parse (first ∷ lines_of entries ++ [])
        ≡ ok vul_info)
      × ((j : String) → lookup j vul_info ≡ told j entries none)
unfolding parse parse_lines lookup
parse-report first entries i =
    let (s', went, settled, found) =
      entries-lem entries [] (new_scan first) i (new_scan-IsSettled first) in
    (s'.vul_info, ap (λ (r : Result Scan). r >>= λ s. ok s.vul_info) went, found)

-- A report that ends with the level line of a tool, before the line with its severity, tells of that tool what the
-- entry before it says of another.
pub parse-cut :
    (first : String) (entries : List Entry) (e cut : Entry)
    → All IsEntry entries
    → IsEntry e
    → IsEntry cut
    → (vul_info : Dict String (String × String)) × (parse
          (first ∷ lines_of entries ++ (lines_of (e ∷ []) ++ cut.head_line ∷ cut.level_line ∷ []))
        ≡ ok vul_info)
      × (lookup cut.tool vul_info ≡ some (e.severity, e.message))
unfolding parse parse_lines lookup note
parse-cut first entries e cut i ie ic =
    let (s, went, settled, found) =
      entries-lem entries (lines_of (e ∷ []) ++ cut.head_line ∷ cut.level_line ∷ [])
        (new_scan first) i (new_scan-IsSettled first) in
    let s' : Scan = after_entry e s in
    (
      (after_level cut s').vul_info,
      ap (λ (r : Result Scan). r >>= λ s. ok s.vul_info)
          (went
            ∙ entry-step e (cut.head_line ∷ cut.level_line ∷ []) s ie settled.searching
            ∙ parse_lines-ok cut.head_line (cut.level_line ∷ []) s' (after_head cut s')
                (head-step cut s' ic refl)
            ∙ parse_lines-ok cut.level_line [] (after_head cut s') (after_level cut s')
                (level-step cut s' ic refl)),
      after_level-lookup cut cut.tool s' ic (after_entry-IsSettled e s ie settled)
          ∙ rw (==_refl cut.tool, ie.severity_there) refl,
    )
