-- ===== src/Url/Path/Tests.antt =====
-- Paths with dot segments.
use urllib.Prelude.{[], ◌≡◌, refl, All}
use urllib.Prelude.Text.{Text, codes, text_eq}
use urllib.Url.Path.{split, remove_path_dot_segments}
use urllib.Url.Path.Dots.{NotDots, remove_path_dot_segments-NotDots, remove_path_dot_segments_idem}

abbrev winding : Text
winding = codes "/a/b/../c/./d/.."

straightened : remove_path_dot_segments winding ≡ codes "/a/c/"
unfolding remove_path_dot_segments
straightened = refl

above_root : remove_path_dot_segments (codes "/../a") ≡ codes "/a"
unfolding remove_path_dot_segments
above_root = refl

-- An absolute path that becomes empty.
root_lost : remove_path_dot_segments (codes "/../") ≡ []
unfolding remove_path_dot_segments
root_lost = refl

remove_path_dot_segments-NotDots_example : All NotDots (split (remove_path_dot_segments winding))
remove_path_dot_segments-NotDots_example = remove_path_dot_segments-NotDots winding

remove_path_dot_segments_idem_example :
    remove_path_dot_segments (remove_path_dot_segments winding) ≡ remove_path_dot_segments winding
remove_path_dot_segments_idem_example = remove_path_dot_segments_idem winding
