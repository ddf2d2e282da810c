-- ===== src/Cli/Banner.antt =====
-- cmd/bot/main.go: the banner.
use Prim.Native.String.{String}
use cigar.Prelude.{◌≡◌, refl, Bool, ◌&&◌, not, List, [], ◌∷◌, ◌++◌, map, if◌then◌else◌}
use cigar.Text.{Text, codes, span}
use cigar.Correlate.Trace.{strip_colors}

-- An escape character and what follows it.
abbrev ansi : String → Text
ansi s = 27 ∷ codes s

abbrev pub colored_banner : List Text
colored_banner =
    (ansi "[38;5;208m   /\\             /\\"
      ++ ansi "[38;5;214m                      *"
      ++ ansi "[0m")
    ∷ (ansi "[38;5;208m  /  \\___________/  \\"
        ++ ansi "[38;5;214m                  .:'"
        ++ ansi "[0m")
    ∷ (ansi "[38;5;208m |    \\         /    |"
        ++ ansi "[38;5;214m               .:'"
        ++ ansi "[0m")
    ∷ (ansi "[38;5;208m |  __,          __,  |" ++ ansi "[38;5;214m            .:'" ++ ansi "[0m")
    ∷ (ansi "[38;5;208m |  \\_`          \\_`  |" ++ ansi "[38;5;214m          ,:'" ++ ansi "[0m")
    ∷ (ansi "[38;5;208m  \\       . .        /" ++ ansi "[38;5;214m         ,'" ++ ansi "[0m")
    ∷ (ansi "[38;5;208m   \\      `-'       /"
        ++ ansi "[38;5;214m "
        ++ ansi "[38;5;245m______"
        ++ ansi "[38;5;214m ,'"
        ++ ansi "[0m")
    ∷ (ansi "[38;5;208m    `.            ,'"
        ++ ansi "[38;5;245m-[_|_|__"
        ++ ansi "[38;5;196m(:>"
        ++ ansi "[0m")
    ∷ (ansi "[38;5;208m      `.________,'" ++ ansi "[38;5;214m" ++ ansi "[0m")
    ∷ (ansi "[1m" ++ ansi "[38;5;208m          _" ++ ansi "[0m")
    ∷ (ansi "[1m" ++ ansi "[38;5;208m     ____(_)__ ____ _____" ++ ansi "[0m")
    ∷ (ansi "[1m" ++ ansi "[38;5;208m    / __/ / _ `/ _ `/ __/" ++ ansi "[0m")
    ∷ (ansi "[1m" ++ ansi "[38;5;208m    \\__/_/\\_, /\\_,_/_/" ++ ansi "[0m")
    ∷ (ansi "[1m" ++ ansi "[38;5;208m         /___/" ++ ansi "[0m")
    ∷ (ansi "[38;5;240m   your pipelines, smoked & measured" ++ ansi "[0m")
    ∷ []

abbrev pub plain_banner : List Text
plain_banner =
    (codes "   /\\             /\\                      *")
    ∷ (codes "  /  \\___________/  \\                  .:'")
    ∷ (codes " |    \\         /    |               .:'")
    ∷ (codes " |  __,          __,  |            .:'")
    ∷ (codes " |  \\_`          \\_`  |          ,:'")
    ∷ (codes "  \\       . .        /         ,'")
    ∷ (codes "   \\      `-'       / ______ ,'")
    ∷ (codes "    `.            ,'-[_|_|__(:>")
    ∷ (codes "      `.________,'")
    ∷ (codes "          _")
    ∷ (codes "     ____(_)__ ____ _____")
    ∷ (codes "    / __/ / _ `/ _ `/ __/")
    ∷ (codes "    \\__/_/\\_, /\\_,_/_/")
    ∷ (codes "         /___/")
    ∷ (codes "   your pipelines, smoked & measured")
    ∷ []

-- `strings.Join(lines, "\n") + "\n"`.
abbrev joined : List Text → Text
joined [] = codes "\n"
joined (l ∷ []) = l ++ codes "\n"
joined (l ∷ m ∷ lines) = l ++ codes "\n" ++ joined (m ∷ lines)

-- `banner`, where `no_color` says that NO_COLOR is set.
unfoldable pub banner : (no_color color : Bool) → Text
banner no_color color = joined (if color && not no_color then colored_banner else plain_banner)

-- Without its colours the coloured banner is the plain one.
colors_stripped : map (strip_colors 0) colored_banner ≡ plain_banner
unfolding strip_colors span
colors_stripped = refl
