-- ===== src/Url/Path.antt =====
-- `_remove_path_dot_segments` of src/urllib3/util/url.py, with `split`, `join` and `endswith` of
-- Python's `str` for it.
pub mod Segments
pub mod Dots
pub mod Tests
use urllib.Prelude.{
  Bool, true, false, ◌&&◌, ◌||◌, List, [], ◌∷◌, ◌++◌, ◌=ℕ◌, ◌==◌, ℕ, if◌then◌else◌,
}
use urllib.Prelude.Text.{Text, codes, text_eq}

abbrev pub slash : ℕ
slash = 47

abbrev pub dot : Text
dot = codes "."

abbrev pub dots : Text
dots = codes ".."

-- A character in front of the first segment.
unfoldable pub onto_first : ℕ → List Text → List Text
onto_first c [] = (c ∷ []) ∷ []
onto_first c (s ∷ segments) = (c ∷ s) ∷ segments

-- `path.split("/")`
unfoldable pub split : Text → List Text
unfolding onto_first
split [] = [] ∷ []
split (c ∷ path) = if c =ℕ slash then [] ∷ split path else onto_first c (split path)

-- `"/".join(segments)`
unfoldable pub join : List Text → Text
join [] = []
join (s ∷ []) = s
join (s ∷ t ∷ segments) = s ++ slash ∷ join (t ∷ segments)

unfoldable pub ends_with : Text → Text → Bool
ends_with suffix [] = suffix == []
ends_with suffix (c ∷ text) = suffix == (c ∷ text) || ends_with suffix text

-- `if output: output.pop()`
unfoldable pub pop : List Text → List Text
pop [] = []
pop (s ∷ []) = []
pop (s ∷ t ∷ output) = s ∷ pop (t ∷ output)

-- The body of the loop, and the loop.
unfoldable pub visit : List Text → Text → List Text
unfolding pop
visit output segment =
    if segment == dot
    then output
    else if segment == dots
    then pop output
    else output ++ segment ∷ []

unfoldable pub walk : List Text → List Text → List Text
unfolding visit
walk output [] = output
walk output (segment ∷ segments) = walk (visit output segment) segments

-- `not output or output[0]`
abbrev pub lacks_root : List Text → Bool
lacks_root [] = true
lacks_root ([] ∷ output) = false
lacks_root ((c ∷ s) ∷ output) = true

abbrev pub is_absolute : Text → Bool
is_absolute [] = false
is_absolute (c ∷ path) = c =ℕ slash

abbrev pub rooted : Text → List Text → List Text
rooted path output = if is_absolute path && lacks_root output then [] ∷ output else output

abbrev pub ends_in_dots : Text → Bool
ends_in_dots path = ends_with (slash ∷ dot) path || ends_with (slash ∷ dots) path

abbrev pub closed : Text → List Text → List Text
closed path output = if ends_in_dots path then output ++ [] ∷ [] else output

unfoldable pub remove_path_dot_segments : Text → Text
unfolding walk split join ends_with
remove_path_dot_segments path = join (closed path (rooted path (walk [] (split path))))
