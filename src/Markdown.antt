-- ===== src/Markdown.antt =====
-- markdown.go: Markdown to plain text. An index that jumps ahead is a recursion on the text with the
-- number of bytes or lines that are still to be skipped.
pub mod Plain
use wechat_bot.Base.{
  ℕ, zero, suc, ◌+◌, ◌-◌, Bool, true, false, not, ◌&&◌, ◌||◌, Option, none, some, List, [], ◌∷◌,
  ◌++◌, map, length, take, drop, replicate, last?, ltb, ◌==◌, if◌then◌else◌, Str, codes, is_empty,
  onto_first, split_on, join_with, trim_byte, trim_space,
}

-- `strings.Contains(s, b)` for one byte
unfoldable pub contains_byte : ℕ → Str → Bool
contains_byte b [] = false
contains_byte b (c ∷ s) = let later = contains_byte b s in c == b || later

-- `strings.HasPrefix(s, prefix)`
unfoldable pub has_prefix : Str → Str → Bool
has_prefix [] s = true
has_prefix (p ∷ prefix) [] = false
has_prefix (p ∷ prefix) (c ∷ s) = let later = has_prefix prefix s in p == c && later

-- `strings.TrimSuffix(s, b)` for one byte
unfoldable pub trim_last : ℕ → Str → Str
trim_last b s = elim (last? s) [ none ↦ s | some c ↦ if c == b then take (length s - 1) s else s ]

-- An unescaped bar, by whether the byte before is a backslash.
unfoldable pub has_bar : Bool → Str → Bool
has_bar escaped [] = false
has_bar escaped (c ∷ s) = let later = has_bar (c == b'\\') s in c == b'|' && not escaped || later

unfoldable pub is_markdown_table_row : Str → Bool
unfolding has_bar
is_markdown_table_row line =
    let trimmed = trim_space line in
    if ltb (length trimmed) 3 then false else elim trimmed [
      | [] ↦ false
      | first ∷ rest ↦ elim (last? (first ∷ rest)) [
        | none ↦ false
        | some end ↦
            if not (first == b'|') || not (end == b'|')
            then false
            else has_bar false (take (length rest - 1) rest)
      ]
    ]

-- The loop of `parseMarkdownTableRow`, with the bytes of the builder.
unfoldable pub parse_cells : Str → Str → List Str
parse_cells cur [] = trim_space cur ∷ []
parse_cells cur (c ∷ []) =
    if c == b'|' then trim_space cur ∷ trim_space [] ∷ [] else trim_space (cur ++ c ∷ []) ∷ []
parse_cells cur (c ∷ d ∷ s) =
    let escaped = parse_cells (cur ++ b'|' ∷ []) s in
    let next = parse_cells [] (d ∷ s) in
    let more = parse_cells (cur ++ c ∷ []) (d ∷ s) in
    if c == b'\\' && d == b'|' then escaped else if c == b'|' then trim_space cur ∷ next else more

unfoldable pub parse_markdown_table_row : Str → List Str
unfolding trim_last parse_cells
parse_markdown_table_row line = parse_cells [] (trim_last b'|' (trim_byte b'|' (trim_space line)))

unfoldable pub all_dashes : Str → Bool
all_dashes [] = true
all_dashes (c ∷ s) = let later = all_dashes s in if not (c == b'-') then false else later

unfoldable pub is_separator_cell : Str → Bool
unfolding trim_last all_dashes
is_separator_cell c =
    let trimmed = trim_space c in
    if is_empty trimmed
    then true
    else let dashes = trim_last b':' (trim_byte b':' trimmed) in
      if is_empty dashes then false else all_dashes dashes

unfoldable pub all_separators : List Str → Bool
unfolding is_separator_cell
all_separators [] = true
all_separators (c ∷ cells) =
    let later = all_separators cells in if not (is_separator_cell c) then false else later

unfoldable pub is_markdown_table_separator : Str → Bool
unfolding is_markdown_table_row parse_markdown_table_row all_separators
is_markdown_table_separator line =
    if not (is_markdown_table_row line)
    then false
    else all_separators (parse_markdown_table_row line)

-- The longest row
unfoldable pub columns : List (List Str) → ℕ
columns [] = 0
columns (r ∷ rows) = let most = columns rows in if ltb most (length r) then length r else most

-- A line of a table with two columns
unfoldable pub render_pair : List Str → Str
render_pair [] = codes ": "
render_pair (left ∷ []) = left ++ codes ": "
render_pair (left ∷ right ∷ _) = left ++ codes ": " ++ right

-- A line of another table; the separator is a middle dot in UTF-8 between two spaces.
unfoldable pub render_cells : ℕ → List Str → Str
render_cells cols r =
    join_with (b' ' ∷ 0xC2 ∷ 0xB7 ∷ b' ' ∷ []) (r ++ replicate (cols - length r) [])

unfoldable pub render_flat_table : List (List Str) → Str
unfolding columns render_pair render_cells
render_flat_table rows =
    let cols = columns rows in
    if cols == 2
    then join_with (b'\n' ∷ []) (map render_pair rows)
    else join_with (b'\n' ∷ []) (map (render_cells cols) rows)

-- The rows in front.
unfoldable pub leading_rows : List Str → List Str
leading_rows [] = []
leading_rows (line ∷ lines) =
    let later = leading_rows lines in if is_markdown_table_row line then line ∷ later else []

-- The rows below the separator, if a table starts with this line.
unfoldable pub table_body : Str → List Str → Option (List Str)
unfolding is_markdown_table_separator leading_rows
table_body line [] = none
table_body line (below ∷ more) =
    if is_markdown_table_row line && is_markdown_table_separator below
    then some (leading_rows more)
    else none

unfoldable pub flatten_lines : ℕ → List Str → List Str
unfolding table_body render_flat_table
flatten_lines skip [] = []
flatten_lines (suc skip) (line ∷ lines) = flatten_lines skip lines
flatten_lines zero (line ∷ lines) = elim (table_body line lines) [
  | none ↦ line ∷ flatten_lines 0 lines
  | some body ↦
      render_flat_table (parse_markdown_table_row line ∷ map parse_markdown_table_row body)
      ∷ flatten_lines (1 + length body) lines
]

unfoldable pub flatten_markdown_tables : Str → Str
unfolding contains_byte flatten_lines
flatten_markdown_tables text =
    if not (contains_byte b'|' text)
    then text
    else join_with (b'\n' ∷ []) (flatten_lines 0 (split_on b'\n' text))

-- `strings.ReplaceAll(s, pattern, "")`
unfoldable pub remove_from : Str → ℕ → Str → Str
unfolding has_prefix
remove_from pattern skip [] = []
remove_from pattern (suc skip) (c ∷ s) = remove_from pattern skip s
remove_from pattern zero (c ∷ s) =
    let past = remove_from pattern (length pattern - 1) s in
    let next = remove_from pattern 0 s in if has_prefix pattern (c ∷ s) then past else c ∷ next

abbrev pub remove_all : Str → Str → Str
remove_all pattern s = remove_from pattern 0 s

-- The loop of `replaceAtLineStart`, with `atLineStart`
unfoldable pub replace_from : Str → Str → Bool → ℕ → Str → Str
unfolding has_prefix
replace_from pattern replacement at_start skip [] = []
replace_from pattern replacement at_start (suc skip) (c ∷ s) =
    replace_from pattern replacement at_start skip s
replace_from pattern replacement at_start zero (c ∷ s) =
    let past = replace_from pattern replacement false (length pattern - 1) s in
    let next = replace_from pattern replacement (c == b'\n') 0 s in
    if at_start && has_prefix pattern (c ∷ s) then replacement ++ past else c ∷ next

unfoldable pub replace_at_line_start : Str → Str → Str → Str
unfolding replace_from
replace_at_line_start s pattern replacement =
    if is_empty pattern then s else replace_from pattern replacement true 0 s

-- The three prefixes of headings
unfoldable pub strip_headings : Str → Str
unfolding replace_at_line_start
strip_headings text =
    replace_at_line_start
      (replace_at_line_start (replace_at_line_start text (codes "### ") []) (codes "## ") [])
      (codes "# ") []

unfoldable pub strip_markdown : Str → Str
unfolding strip_headings remove_from
strip_markdown text =
    if is_empty text
    then []
    else remove_all (codes "`") (
        remove_all (codes "```")
          (remove_all (codes "__") (remove_all (codes "**") (strip_headings text))))

unfoldable pub format_for_wechat : Str → Str
unfolding flatten_markdown_tables strip_markdown
format_for_wechat text = if is_empty text then [] else strip_markdown (flatten_markdown_tables text)
