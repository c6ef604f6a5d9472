-- ===== src/Cli/Follow.antt =====
-- `logs` of cli/cmd/logs.go: which file it reads, and `tailFollow`. A chunk is what the file has got
-- between two ends of it that the reader has met. `ReadString` at the end of the file returns what it
-- has read so far together with the error, and takes it off the reader.
mod Tests
use gordion_vpn.Base.{
  ℕ, ◌≡◌, ◌≢◌, refl, sym, ap, ◌∙◌, Bool, true, false, Option, none, some, List, [], ◌∷◌, ◌++◌,
  if◌then◌else◌, ◌==◌, arith, Bool-cases, inl, inr, All, map,
}
use gordion_vpn.Base.Bytes.{GoString, is_empty}
use mathlib.Core.List.{append_assoc, append-nil}
use gordion_vpn.Cli.{State}
use gordion_vpn.Cli.Text.{Level, format_log_line}

-- The log file of the state, if it names one.
unfoldable pub log_path : GoString → Option State → GoString
log_path default none = default
log_path default (some s) = if is_empty s.log_file then default else s.log_file

-- The lines that the loop reads whole from a chunk; `line` is what the call of `ReadString` in progress has
-- read, and the loop forgets it at the end of the file.
unfoldable pub read_lines : GoString → GoString → List GoString
read_lines line [] = []
read_lines line (c ∷ cs) =
    let whole = read_lines [] cs in
    let part = read_lines (line ++ (c ∷ [])) cs in
    if c == 10 then (line ++ (c ∷ [])) ∷ whole else part

-- What the loop prints after its heading: each line with two spaces before it, and the colour in which
-- lipgloss, a library, renders it.
unfoldable pub tail_follow : List GoString → List (Level × GoString)
unfolding read_lines
tail_follow [] = []
tail_follow (chunk ∷ chunks) = map format_log_line (read_lines [] chunk) ++ tail_follow chunks

-- The lines that the loop has read whole.
abbrev pub lines_read : List GoString → List GoString
lines_read [] = []
lines_read (chunk ∷ chunks) = read_lines [] chunk ++ lines_read chunks

abbrev pub concat : List GoString → GoString
concat [] = []
concat (s ∷ ss) = s ++ concat ss

abbrev pub has_break : GoString → Bool
has_break [] = false
has_break (c ∷ cs) = if c == 10 then true else has_break cs

-- A text up to its last line break, and with it; nothing if there is none.
unfoldable pub to_last_break : GoString → GoString
to_last_break [] = []
to_last_break (c ∷ cs) =
    let rest = to_last_break cs in if has_break cs then c ∷ rest else if c == 10 then c ∷ [] else []

concat-append : (a b : List GoString) → concat (a ++ b) ≡ concat a ++ concat b
concat-append [] b = refl
concat-append (s ∷ a) b = rw (concat-append a b) (sym (append_assoc s (concat a) (concat b)))

to_last_break-nil : (s : GoString) → has_break s ≡ false → to_last_break s ≡ []
unfolding to_last_break
to_last_break-nil [] h = refl
to_last_break-nil (c ∷ cs) h = ground (arith, h)

concat-read_lines :
    (line s : GoString)
    → concat (read_lines line s) ≡ (if has_break s then line ++ to_last_break s else [])
unfolding read_lines to_last_break
concat-read_lines line [] = refl
concat-read_lines line (c ∷ cs) =
    let whole = concat-read_lines [] cs in
    let part = concat-read_lines (line ++ (c ∷ [])) cs in
    elim (Bool-cases (c == 10)) [
      | inl e ↦ elim (Bool-cases (has_break cs)) [
        | inl b ↦
            rw (e, b) (ground (arith, whole, b, append_assoc line (c ∷ []) (to_last_break cs)))
        | inr b ↦ rw (e, b) (ground (arith, whole, b, append-nil (line ++ (c ∷ []))))
      ]
      | inr e ↦ elim (Bool-cases (has_break cs)) [
        | inl b ↦ rw (e, b) (ground (arith, part, b, append_assoc line (c ∷ []) (to_last_break cs)))
        | inr b ↦ rw (e, b) (ground (arith, part, b))
      ]
    ]

concat-read_lines_new : (s : GoString) → concat (read_lines [] s) ≡ to_last_break s
concat-read_lines_new s = elim (Bool-cases (has_break s)) [
  | inl e ↦ ground (arith, concat-read_lines [] s, e)
  | inr e ↦ ground (arith, concat-read_lines [] s, e, to_last_break-nil s)
]

-- A line with its break at its end, and no other.
abbrev pub IsLine : GoString → Type 0
IsLine s = (text : GoString) × (has_break text ≡ false) × (s ≡ text ++ (10 ∷ []))

has_break-snoc :
    (s : GoString) (c : ℕ)
    → has_break s ≡ false
    → (c == 10) ≡ false
    → has_break (s ++ (c ∷ [])) ≡ false
has_break-snoc [] c h e = ground arith
has_break-snoc (d ∷ s) c h e = ground (arith, has_break-snoc s c, h, e)

read_lines-IsLine : (line s : GoString) → has_break line ≡ false → All IsLine (read_lines line s)
unfolding read_lines
read_lines-IsLine line [] h = tt
read_lines-IsLine line (c ∷ cs) h = elim (Bool-cases (c == 10)) [
  | inl e ↦
      rw e ((line, h, ap (λ d. line ++ (d ∷ [])) (ground (arith, e))), read_lines-IsLine [] cs refl)
  | inr e ↦ rw e (read_lines-IsLine (line ++ (c ∷ [])) cs (has_break-snoc line c h e))
]

append-IsLine : (xs ys : List GoString) → All IsLine xs → All IsLine ys → All IsLine (xs ++ ys)
append-IsLine [] ys p q = q
append-IsLine (x ∷ xs) ys (p, ps) q = (p, append-IsLine xs ys ps q)

lines_read-IsLine : (chunks : List GoString) → All IsLine (lines_read chunks)
lines_read-IsLine [] = tt
lines_read-IsLine (chunk ∷ chunks) =
    append-IsLine (read_lines [] chunk) (lines_read chunks) (read_lines-IsLine [] chunk refl)
      (lines_read-IsLine chunks)

map-append : {A B : Type 0} (f : A → B) (xs ys : List A) → map f (xs ++ ys) ≡ map f xs ++ map f ys
map-append f [] ys = refl
map-append f (x ∷ xs) ys = ap (λ zs. f x ∷ zs) (map-append f xs ys)

tail_follow-map :
    (chunks : List GoString) → tail_follow chunks ≡ map format_log_line (lines_read chunks)
unfolding tail_follow
tail_follow-map [] = refl
tail_follow-map (chunk ∷ chunks) =
    ap (λ zs. map format_log_line (read_lines [] chunk) ++ zs) (tail_follow-map chunks)
    ∙ sym (map-append format_log_line (read_lines [] chunk) (lines_read chunks))

concat-lines_read :
    (chunks : List GoString) → concat (lines_read chunks) ≡ concat (map to_last_break chunks)
concat-lines_read [] = refl
concat-lines_read (chunk ∷ chunks) =
    concat-append (read_lines [] chunk) (lines_read chunks)
    ∙ ap (λ s. s ++ concat (lines_read chunks)) (concat-read_lines_new chunk)
    ∙ ap (λ s. to_last_break chunk ++ s) (concat-lines_read chunks)

-- `logs -f` prints, each with its colour and with two spaces before it, lines that end with their
-- only line break. Together these lines are, of each piece of the file that it reads up to the end
-- of the file, what comes before the last line break in it, and that line break, in order. A line
-- that has been written in part when the end of the file is met loses that part: it is shown neither
-- then nor when the rest of the line has come.
pub concat-tail_follow :
    (chunks : List GoString)
    → (lines : List GoString) × (tail_follow chunks ≡ map format_log_line lines)
      × All IsLine lines
      × (concat lines ≡ concat (map to_last_break chunks))
concat-tail_follow chunks =
    (lines_read chunks, tail_follow-map chunks, lines_read-IsLine chunks, concat-lines_read chunks)
