-- ===== src/Compaction/Summary.antt =====
-- `_build_summary` of backend/app/services/compaction.py. The characters that `\d` and `\w` match,
-- Python's Unicode tables, are parameters.
use local_ai_search.Prelude.{
  ℕ, ◌+◌, Bool, true, false, ◌&&◌, Option, none, some, List, [], ◌∷◌, ◌++◌, map, Text, codes,
  text_eq, strip, lstrip, split, ◌==◌, if◌then◌else◌, length, take, take_last, select, cut?,
  last_piece, has_text, join, decimal,
}

-- A message of the conversation; a missing key is its default, and other keys are not read.
pub record Message : Type 0 where
  pub role : Text
  pub content : Text
  pub compact_summary : Bool

abbrev tool_results_mark : Text
tool_results_mark = codes "[前回のツール使用結果]"

abbrev answer_mark : Text
answer_mark = codes "[回答]"

-- A dict of counts in insertion order: `d[name] = d.get(name, 0) + 1`.
pub count_tool : Text → List (Text × ℕ) → List (Text × ℕ)
count_tool name [] = (name, 1) ∷ []
count_tool name ((other, n) ∷ counts) =
    let rest = count_tool name counts in
    if text_eq other name then (other, n + 1) ∷ counts else (other, n) ∷ rest

-- What the loop over the messages collects.
pub record Findings : Type 0 where
  pub user_requests : List Text
  pub tools_used : List (Text × ℕ)
  pub documents_read : List Text
  pub key_findings : List Text

abbrev pub no_findings : Findings
no_findings = record { user_requests = []; tools_used = []; documents_read = []; key_findings = [] }

module _ (is_digit is_word : ℕ → Bool) where
  all_digits : Text → Bool
  all_digits [] = true
  all_digits (c ∷ s) = is_digit c && all_digits s

  -- `\[\d{4}-\d{2}-\d{2}` at the start of the text
  pub has_date : Text → Bool
  unfolding all_digits
  has_date (o ∷ y1 ∷ y2 ∷ y3 ∷ y4 ∷ d ∷ m1 ∷ m2 ∷ e ∷ d1 ∷ d2 ∷ s) =
      (o == b'[' && (d == b'-' && e == b'-'))
      && all_digits (y1 ∷ y2 ∷ y3 ∷ y4 ∷ m1 ∷ m2 ∷ d1 ∷ d2 ∷ [])
  has_date _ = false

  -- `re.sub(r"^\[\d{4}-\d{2}-\d{2}[^\]]*\]\s*", "", content)`: the date has no `]` in it
  pub strip_timestamp : Text → Text
  unfolding has_date lstrip
  strip_timestamp content =
      if has_date content
      then (elim (cut? (codes "]") content) [ none ↦ content | some (date, rest) ↦ lstrip rest ])
      else content

  -- `re.match(r"^(\w+)\(", line)`: the word, if it is not empty and `(` follows
  word_then_paren : Text → Text → Option Text
  word_then_paren word [] = none
  word_then_paren word (c ∷ s) =
      let rest = word_then_paren (word ++ c ∷ []) s in
      if is_word c
      then rest
      else if c == b'('
      then (if text_eq word [] then none else some word)
      else none

  pub tool_name : Text → Option Text
  unfolding word_then_paren
  tool_name line = word_then_paren [] line

  -- `re.search(r"read_document\(.*?\):\s*(.*)", line)`, the first 80 characters of its group
  pub document_info : Text → Option Text
  unfolding lstrip
  document_info line = elim (cut? (codes "read_document(") line) [
    | none ↦ none
    | some (before, arguments) ↦ elim (cut? (codes "):") arguments) [
      | none ↦ none
      | some (argument, info) ↦ some (take 80 (lstrip info))
    ]
  ]

  add_tool : Option Text → Findings → Findings
  unfolding count_tool
  add_tool none f = f
  add_tool (some name) f = record f { tools_used = count_tool name f.tools_used }

  add_document : Option Text → Findings → Findings
  add_document none f = f
  add_document (some info) f = record f { documents_read = f.documents_read ++ info ∷ [] }

  -- The loop over the lines of the tool results.
  pub scan_lines : List Text → Findings → Findings
  unfolding add_tool add_document tool_name document_info
  scan_lines [] f = f
  scan_lines (l ∷ lines) f =
      let line = strip l in
      scan_lines lines (
        if text_eq line []
        then f
        else add_document (document_info line) (add_tool (tool_name line) f))

  -- `content.split(mark)[1]`: what stands between the first mark and the next
  abbrev second_piece : Text → Text → Text
  second_piece mark content = elim (cut? mark content) [
    | none ↦ []
    | some (before, rest) ↦ elim (cut? mark rest) [ none ↦ rest | some (piece, after) ↦ piece ]
  ]

  -- `if mark in part: part = part.split(mark)[0]`
  abbrev first_piece : Text → Text → Text
  first_piece mark part = elim (cut? mark part) [ none ↦ part | some (before, after) ↦ before ]

  pub scan_tool_results : Text → Findings → Findings
  unfolding scan_lines
  scan_tool_results content f =
      if has_text tool_results_mark content
      then scan_lines
          (split 10 (strip (first_piece answer_mark (second_piece tool_results_mark content)))) f
      else f

  pub scan_answer : Text → Findings → Findings
  scan_answer content f =
      let answer =
        strip (if has_text answer_mark content then last_piece answer_mark content else content) in
      if text_eq answer []
      then f
      else record f { key_findings = f.key_findings ++ take 200 answer ∷ [] }

  pub scan_message : Message → Findings → Findings
  unfolding strip_timestamp scan_tool_results scan_answer
  scan_message m f =
      if text_eq m.role (codes "user")
      then record f { user_requests = f.user_requests ++ take 160 (strip_timestamp m.content) ∷ [] }
      else if text_eq m.role (codes "assistant")
      then scan_answer m.content (scan_tool_results m.content f)
      else f

  pub scan_messages : List Message → Findings → Findings
  unfolding scan_message
  scan_messages [] f = f
  scan_messages (m ∷ messages) f = scan_messages messages (scan_message m f)

numbered : ℕ → List Text → List Text
numbered i [] = []
numbered i (request ∷ requests) = (decimal i ++ (codes ". " ++ request)) ∷ numbered (i + 1) requests

-- A section of the summary: a heading and its lines, or nothing.
abbrev section {ℓ} : {A : Type ℓ} → List A → Text → List Text → List Text
section [] heading body = []
section (x ∷ xs) heading body = heading ∷ body

abbrev last_of : List Text → List Text
last_of = take_last 1

abbrev role_count : Text → List Message → ℕ
role_count role messages = length (select (λ m. text_eq m.role role) messages)

-- `if existing_summary:`, which an empty text does not pass
abbrev existing_lines : Option Text → List Text
existing_lines none = []
existing_lines (some []) = []
existing_lines (some (c ∷ s)) =
    (codes "\n### 以前の圧縮コンテキスト\n" ++ c ∷ s) ∷ codes "\n### 新たに圧縮された内容" ∷ []

pub summary_lines : List Message → Option Text → Findings → List Text
unfolding numbered
summary_lines messages existing_summary f =
    codes "<compact_summary>"
    ∷ codes "## 会話サマリー（圧縮済み）"
    ∷ (existing_lines existing_summary
        ++ ((codes "メッセージ数: ユーザー"
              ++ (decimal (role_count (codes "user") messages)
                  ++ (codes "件、アシスタント"
                      ++ (decimal (role_count (codes "assistant") messages) ++ codes "件\n"))))
            ∷ (section f.user_requests (codes "### ユーザーのリクエスト")
                  (numbered 1 (take_last 5 f.user_requests))
                ++ (section f.documents_read (codes "\n### 参照した文書")
                      (map (λ doc. codes "- " ++ doc) (take_last 10 f.documents_read))
                    ++ (section f.tools_used (codes "\n### 使用したツール") (
                          map
                            (λ (tool, count).
                              codes "- " ++ (tool ++ (codes ": " ++ (decimal count ++ codes "回"))))
                            f.tools_used)
                        ++ (section f.key_findings (codes "\n### 直前の回答要旨") (last_of f.key_findings)
                            ++ codes "</compact_summary>" ∷ []))))))

module _ (is_digit is_word : ℕ → Bool) where
  unfoldable pub build_summary : List Message → Option Text → Text
  unfolding scan_messages summary_lines join
  build_summary messages existing_summary = join (codes "\n") (
      summary_lines messages existing_summary (scan_messages is_digit is_word messages no_findings))
