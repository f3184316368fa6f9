-- ===== src/Tests/Markdown.antt =====
-- markdown.go: the theorems at small texts.
use wechat_bot.Base.{◌≡◌, refl, Str, codes, arith, split_on, join_with, trim_space, trim_byte}
use wechat_bot.Markdown.{
  format_for_wechat, flatten_markdown_tables, strip_markdown, strip_headings, flatten_lines,
  is_markdown_table_row, is_markdown_table_separator,
}
use wechat_bot.Markdown.Plain.{IsTableFree, IsUnmarked, format_for_wechat-same}

abbrev plain : Str
plain = codes "a|"

plain-IsTableFree : IsTableFree plain
unfolding is_markdown_table_separator is_markdown_table_row trim_space split_on
plain-IsTableFree = (refl, tt)

plain-IsUnmarked : IsUnmarked plain
plain-IsUnmarked = (
  (omega arith, omega arith, omega arith, omega arith),
  ((omega arith, omega arith, omega arith, omega arith), tt),
)

format_for_wechat-same_example : format_for_wechat plain ≡ plain
format_for_wechat-same_example = format_for_wechat-same plain plain-IsTableFree plain-IsUnmarked

-- A table with two columns
table_flattened :
    format_for_wechat (codes "# T\n|a|b|\n|-|:-:|\n| x\\|y | **z** |") ≡ codes "T\na: b\nx|y: z"
unfolding format_for_wechat flatten_markdown_tables strip_markdown strip_headings flatten_lines
    join_with split_on trim_space trim_byte
table_flattened = refl

-- A marker can arise from the bytes around one that is removed.
marker_left : strip_markdown (codes "*__*") ≡ codes "**"
unfolding strip_markdown strip_headings
marker_left = refl
