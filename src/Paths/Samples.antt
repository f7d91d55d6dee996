-- ===== src/Paths/Samples.antt =====
-- Runs of the path functions.
use wiki_next.Base.{◌≡◌, refl, none, some, [], ◌∷◌}
use wiki_next.Base.Text.{codes}
use wiki_next.Paths.{root_dir, cur_dir, parent_dir, normal, path_of, parent}

paths :
    (path_of "./data//x/" ≡ cur_dir ∷ normal (codes "data") ∷ normal (codes "x") ∷ [])
    × (path_of "/tmp/.." ≡ root_dir ∷ normal (codes "tmp") ∷ parent_dir ∷ [])
    × (path_of "/" ≡ root_dir ∷ [])
    × (path_of "" ≡ [])
    × (parent (path_of "/a/b") ≡ some (path_of "/a"))
    × (parent (path_of "/") ≡ none)
unfolding path_of parent
paths = (refl, refl, refl, refl, refl, refl)
