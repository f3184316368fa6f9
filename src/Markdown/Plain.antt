-- ===== src/Markdown/Plain.antt =====
-- markdown.go: bytes that are removed, and texts that are passed on unchanged.
use wechat_bot.Base.{
  ℕ, Bool, true, false, not, none, List, [], ◌∷◌, inl, inr, ◌==◌, ==_iff, if◌then◌else◌, Str, codes,
  onto_first, split_on, join_with, All, All-weaken, ◌≡◌, ◌≢◌, refl, ap, ◌∙◌, arith, Bool-cases,
}
use wechat_bot.Markdown.{
  contains_byte, has_prefix, is_markdown_table_separator, table_body, flatten_lines,
  flatten_markdown_tables, remove_from, remove_all, replace_from, replace_at_line_start,
  strip_headings, strip_markdown, format_for_wechat,
}

-- Removing a pattern of one byte leaves no such byte.
remove_byte : (b : ℕ) (s : Str) → All (λ c. c ≢ b) (remove_from (b ∷ []) 0 s)
unfolding remove_from has_prefix
remove_byte b [] = tt
remove_byte b (c ∷ s) = elim (Bool-cases (b == c)) [
  | inl same ↦ rw (same, remove_from) (remove_byte b s)
  | inr other ↦ rw (other, remove_from) ((λ e. ground arith), remove_byte b s)
]

strip_markdown-ne : (text : Str) → All (λ c. c ≢ b'`') (strip_markdown text)
unfolding strip_markdown
strip_markdown-ne [] = tt
strip_markdown-ne (c ∷ s) = remove_byte b'`' (
    remove_all (codes "```")
      (remove_all (codes "__") (remove_all (codes "**") (strip_headings (c ∷ s)))))

-- No backtick is left in a formatted text.
format_for_wechat-ne : (text : Str) → All (λ c. c ≢ b'`') (format_for_wechat text)
unfolding format_for_wechat
format_for_wechat-ne [] = tt
format_for_wechat-ne (c ∷ s) = strip_markdown-ne (flatten_markdown_tables (c ∷ s))

-- A byte of a prefix that starts nowhere
has_prefix-absent :
    (p : ℕ) (pattern s : Str) → All (λ c. c ≢ p) s → has_prefix (p ∷ pattern) s ≡ false
unfolding has_prefix
has_prefix-absent p pattern [] h = refl
has_prefix-absent p pattern (c ∷ s) h = ground (arith, h.0)

remove_from-absent :
    (p : ℕ) (pattern s : Str) → All (λ c. c ≢ p) s → remove_from (p ∷ pattern) 0 s ≡ s
unfolding remove_from
remove_from-absent p pattern [] h = refl
remove_from-absent p pattern (c ∷ s) h =
    rw (has_prefix-absent p pattern (c ∷ s) h, remove_from)
      (ap (◌∷◌ c) (remove_from-absent p pattern s h.1))

replace_from-absent :
    (p : ℕ) (pattern : Str) (at_start : Bool) (s : Str)
    → All (λ c. c ≢ p) s
    → replace_from (p ∷ pattern) [] at_start 0 s ≡ s
unfolding replace_from
replace_from-absent p pattern at_start [] h = refl
replace_from-absent p pattern true (c ∷ s) h =
    rw (has_prefix-absent p pattern (c ∷ s) h, replace_from)
      (ap (◌∷◌ c) (replace_from-absent p pattern (c == b'\n') s h.1))
replace_from-absent p pattern false (c ∷ s) h =
    ap (◌∷◌ c) (replace_from-absent p pattern (c == b'\n') s h.1)

-- Both branches are the same.
if_same : {A : Type 0} (b : Bool) (x y : A) → x ≡ x → y ≡ x → (if b then x else y) ≡ x
if_same true x y h k = refl
if_same false x y h k = k

-- Joining undoes splitting.
join-onto_first :
    (c : ℕ) (sep : Str) (p : Str) (ps : List Str)
    → join_with sep (onto_first c (p ∷ ps)) ≡ c ∷ join_with sep (p ∷ ps)
unfolding join_with
join-onto_first c sep p [] = refl
join-onto_first c sep p (q ∷ ps) = refl

split_on-cons : (b : ℕ) (s : Str) → (p : Str) × (ps : List Str) × (split_on b s ≡ p ∷ ps)
unfolding split_on
split_on-cons b [] = ([], [], refl)
split_on-cons b (c ∷ s) =
    let rest = split_on-cons b s in
    elim (Bool-cases (c == b)) [
      | inl at_break ↦ ([], split_on b s, rw (at_break, split_on))
      | inr inside ↦ (c ∷ rest.0, rest.1, rw (inside, rest.2, split_on))
    ]

join-split : (b : ℕ) (s : Str) → join_with (b ∷ []) (split_on b s) ≡ s
unfolding split_on join_with
join-split b [] = refl
join-split b (c ∷ s) =
    let rest = split_on-cons b s in
    let later = join-split b s in
    elim (Bool-cases (c == b)) [
      | inl at_break ↦
          let same : c ≡ b = (==_iff c b).0 at_break in
          rw (at_break, rest.2, split_on) (rw same (ap (◌∷◌ b) (rw rest.2 at later)))
      | inr inside ↦
          rw (inside, rest.2, split_on)
            (join-onto_first c (b ∷ []) rest.0 rest.1 ∙ ap (◌∷◌ c) (rw rest.2 at later))
    ]

-- No line is the separator below the header of a table.
abbrev pub IsTableFree : Str → Type 0
IsTableFree text = All (λ line. is_markdown_table_separator line ≡ false) (split_on b'\n' text)

flatten_lines-same :
    (lines : List Str)
    → All (λ line. is_markdown_table_separator line ≡ false) lines
    → flatten_lines 0 lines ≡ lines
unfolding flatten_lines table_body
flatten_lines-same [] h = refl
flatten_lines-same (line ∷ []) h = refl
flatten_lines-same (line ∷ below ∷ more) h =
    let none_here : table_body line (below ∷ more) ≡ none = ground (arith, h.1.0) in
    rw (none_here, flatten_lines) (ap (◌∷◌ line) (flatten_lines-same (below ∷ more) h.1))

flatten_markdown_tables-same : (text : Str) → IsTableFree text → flatten_markdown_tables text ≡ text
unfolding flatten_markdown_tables
flatten_markdown_tables-same text h =
    if_same (not (contains_byte b'|' text)) text _ refl
      (rw (flatten_lines-same (split_on b'\n' text) h) (join-split b'\n' text))

-- No byte of this text is one of `#`, `*`, `_` and a backtick.
abbrev pub IsUnmarked : Str → Type 0
IsUnmarked text = All (λ c. (c ≢ b'#') × (c ≢ b'*') × (c ≢ b'_') × (c ≢ b'`')) text

strip_markdown-same : (text : Str) → IsUnmarked text → strip_markdown text ≡ text
unfolding strip_markdown strip_headings replace_at_line_start
strip_markdown-same [] h = refl
strip_markdown-same (c ∷ s) h =
    let text = c ∷ s in
    let no_hash : All (λ x. x ≢ b'#') text = All-weaken (λ x m. m.0) text h in
    let no_star : All (λ x. x ≢ b'*') text = All-weaken (λ x m. m.1) text h in
    let no_under : All (λ x. x ≢ b'_') text = All-weaken (λ x m. m.2) text h in
    let no_tick : All (λ x. x ≢ b'`') text = All-weaken (λ x m. m.3) text h in
    rw (
      replace_from-absent b'#' (codes "## ") true text no_hash,
      replace_from-absent b'#' (codes "# ") true text no_hash,
      replace_from-absent b'#' (codes " ") true text no_hash,
      remove_from-absent b'*' (codes "*") text no_star,
      remove_from-absent b'_' (codes "_") text no_under,
      remove_from-absent b'`' (codes "``") text no_tick,
      remove_from-absent b'`' [] text no_tick,
    )

-- A text without the separator line of a table, and without `#`, `*`, `_` and backticks, is passed on
-- as it is, with its bars and line breaks.
pub format_for_wechat-same :
    (text : Str) → IsTableFree text → IsUnmarked text → format_for_wechat text ≡ text
unfolding format_for_wechat
format_for_wechat-same [] free plain = refl
format_for_wechat-same (c ∷ s) free plain =
    ap strip_markdown (flatten_markdown_tables-same (c ∷ s) free)
    ∙ strip_markdown-same (c ∷ s) plain
