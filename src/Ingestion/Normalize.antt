-- ===== src/Ingestion/Normalize.antt =====
-- src/ragplan/ingestion/normalize.py: the canonical text that chunks and their identifiers come from.
use oss.Prelude.{
  ℕ, Bool, true, false, List, [], ◌∷◌, ◌++◌, map, not, ◌&&◌, ◌==◌, if◌then◌else◌, keep,
}
use oss.Prelude.Text.{Text, is_empty, starts_with}
use oss.Core.Ids.{TextLibrary, strip}

abbrev line_feed : ℕ
line_feed = 10

abbrev carriage_return : ℕ
carriage_return = 13

abbrev space : ℕ
space = 32

-- replace("\r\n", "\n"): the first of the two code points is dropped.
unfoldable join_line_ends : Text → Text
unfolding starts_with
join_line_ends [] = []
join_line_ends (a ∷ x) =
    let rest = join_line_ends x in
    if (a == carriage_return) && starts_with (line_feed ∷ []) x then rest else a ∷ rest

-- replace("\r", "\n")
abbrev line_end : ℕ → ℕ
line_end a = if a == carriage_return then line_feed else a

abbrev extend_first : ℕ → List Text → List Text
extend_first a [] = (a ∷ []) ∷ []
extend_first a (part ∷ parts) = (a ∷ part) ∷ parts

-- The parts of a text between the code points that a test accepts.
unfoldable split_where : (ℕ → Bool) → Text → List Text
split_where test [] = [] ∷ []
split_where test (a ∷ x) =
    let rest = split_where test x in if test a then [] ∷ rest else extend_first a rest

-- `separator.join(parts)`
unfoldable join : Text → List Text → Text
join separator [] = []
join separator (part ∷ []) = part
join separator (part ∷ next ∷ parts) = part ++ (separator ++ join separator (next ∷ parts))

-- " ".join(" ".join(current_lines).split())
unfoldable paragraph : (ℕ → Bool) → List Text → Text
unfolding split_where join
paragraph is_space lines =
    join (space ∷ [])
      (keep (λ word. not (is_empty word)) (split_where is_space (join (space ∷ []) lines)))

abbrev close : (ℕ → Bool) → List Text → List Text → List Text
close is_space [] rest = rest
close is_space (line ∷ lines) rest = paragraph is_space (line ∷ lines) ∷ rest

-- The loop over the lines, with the lines of the paragraph that is still open.
unfoldable paragraphs : (ℕ → Bool) → List Text → List Text → List Text
paragraphs is_space current [] = close is_space current []
paragraphs is_space current (line ∷ lines) = elim (is_empty (strip is_space line)) [
  | true ↦ close is_space current (paragraphs is_space [] lines)
  | false ↦ paragraphs is_space (current ++ line ∷ []) lines
]

unfoldable pub normalize_text : TextLibrary → Text → Text
unfolding join_line_ends split_where paragraph paragraphs join
normalize_text lib text = join (line_feed ∷ line_feed ∷ []) (
    paragraphs lib.is_space []
      (split_where (λ a. a == line_feed) (map line_end (join_line_ends (lib.nfkc text)))))
