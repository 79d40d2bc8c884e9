-- ===== src/Common/Paths.antt =====
-- `filepath.Clean` on paths with slashes.
use claude_hooks.Common.{Bool, true, false, not, ◌||◌, List, [], ◌∷◌, ◌++◌, if◌then◌else◌}
use claude_hooks.Common.Text.{Text, codes, text_eq, is_empty, has_prefix, split, join}
use mathlib.Core.List.{reverse}

-- The parts that are left, the last one first.
unfoldable pub clean_parts : Bool → List Text → List Text → List Text
unfolding text_eq
clean_parts rooted done [] = done
clean_parts rooted done (p ∷ ps) =
    if is_empty p || text_eq p (codes ".")
    then clean_parts rooted done ps
    else if not (text_eq p (codes ".."))
    then clean_parts rooted (p ∷ done) ps
    else elim done [
      | [] ↦ clean_parts rooted (if rooted then [] else p ∷ []) ps
      | q ∷ rest ↦ clean_parts rooted (if text_eq q (codes "..") then p ∷ q ∷ rest else rest) ps
    ]

abbrev pub is_rooted : Text → Bool
is_rooted path = has_prefix path (codes "/")

unfoldable pub parts_of : Text → List Text
unfolding has_prefix split clean_parts
parts_of path = clean_parts (is_rooted path) [] (split b'/' path)

abbrev pub joined : Bool → List Text → Text
joined true ps = codes "/" ++ join (codes "/") (reverse ps)
joined false [] = codes "."
joined false (p ∷ ps) = join (codes "/") (reverse (p ∷ ps))

unfoldable pub clean : Text → Text
unfolding parts_of has_prefix join
clean path = joined (is_rooted path) (parts_of path)
