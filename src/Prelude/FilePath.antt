-- ===== src/Prelude/FilePath.antt =====
-- What the program uses of package path/filepath, as it is on Unix.
pub mod Names
use dddns.Prelude.{ℕ, ◌≡◌, ◌≢◌, Bool, true, false, not, ◌||◌, List, [], ◌∷◌, ◌++◌, reverse, arith}
use dddns.Prelude.Tests.{◌==◌, if◌then◌else◌}
use dddns.Prelude.Text.{Text, codes, text_eq, is_empty, split, Lacks}

-- A part ".." takes back the part before it; above the root there is nothing.
step_up : Bool → List Text → List Text
step_up rooted [] = if rooted then [] else codes ".." ∷ []
step_up rooted (p ∷ out) = if text_eq p (codes "..") then codes ".." ∷ p ∷ out else out

take_part : Bool → List Text → Text → List Text
take_part rooted out part =
    if is_empty part || text_eq part (codes ".")
    then out
    else if text_eq part (codes "..")
    then step_up rooted out
    else part ∷ out

-- The parts that remain, the last first.
unfoldable pub walk : Bool → List Text → List Text → List Text
unfolding take_part step_up
walk rooted out [] = out
walk rooted out (part ∷ parts) = walk rooted (take_part rooted out part) parts

unfoldable pub join_slash : List Text → Text
join_slash [] = []
join_slash (p ∷ []) = p
join_slash (p ∷ q ∷ ps) = p ++ b'/' ∷ join_slash (q ∷ ps)

unfoldable pub is_rooted : Text → Bool
is_rooted [] = false
is_rooted (c ∷ s) = c == b'/'

-- The text of the parts that remain.
unfoldable pub spell : Bool → List Text → Text
unfolding join_slash
spell true parts = b'/' ∷ join_slash (reverse parts)
spell false [] = codes "."
spell false (p ∷ ps) = join_slash (reverse (p ∷ ps))

-- `filepath.Clean`.
unfoldable pub clean : Text → Text
unfolding walk is_rooted spell
clean path = spell (is_rooted path) (walk (is_rooted path) [] (split b'/' path))

to_last_slash : Text → Text
to_last_slash [] = []
to_last_slash (c ∷ s) = let rest = to_last_slash s in if c == b'/' then c ∷ s else rest

-- `filepath.Dir`.
unfoldable pub dir : Text → Text
unfolding to_last_slash clean
dir path = clean (reverse (to_last_slash (reverse path)))

-- `filepath.Join` of two elements; an element with slashes stands for several.
unfoldable pub join : Text → Text → Text
unfolding clean
join a b = if is_empty a then if is_empty b then [] else clean b else clean (a ++ b'/' ∷ b)
