-- ===== src/Cli/Follow/Tests.antt =====
-- A log that is written while `logs -f` reads it.
use gordion_vpn.Base.{◌≡◌, refl, List, [], ◌∷◌, map, ◌++◌, All}
use gordion_vpn.Base.Bytes.{GoString, str, str_eq}
use gordion_vpn.Cli.Text.{other, format_log_line, level_of, contains_any, occurs_at}
use gordion_vpn.Cli.Follow.{
  IsLine, concat, to_last_break, read_lines, tail_follow, concat-tail_follow,
}

-- The second line comes in two pieces.
abbrev chunks : List GoString
chunks = (str "one" ++ (10 ∷ []) ++ str "tw") ∷ (str "o" ++ (10 ∷ [])) ∷ []

concat-tail_follow_example :
    (lines : List GoString) × (tail_follow chunks ≡ map format_log_line lines)
    × All IsLine lines
    × (concat lines ≡ concat (map to_last_break chunks))
concat-tail_follow_example = concat-tail_follow chunks

shown :
    tail_follow chunks ≡ (other, str "  one" ++ (10 ∷ [])) ∷ (other, str "  o" ++ (10 ∷ [])) ∷ []
unfolding tail_follow read_lines format_log_line level_of contains_any occurs_at str_eq
shown = refl
