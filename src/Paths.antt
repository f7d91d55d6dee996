-- ===== src/Paths.antt =====
-- `std::path` on Unix, which crates/app/src/config.rs and crates/store/src/storage.rs use. A path
-- is the list of its components: paths that differ in repeated separators, in inner `.` parts or in
-- a trailing separator are equal there too.
mod Samples
pub mod Same
use wiki_next.Base.{
  ℕ, zero, suc, ◌+◌, ◌-◌, ◌*◌, ◌%◌, ◌^◌, ◌≤◌, ◌<◌, String, ◌≡◌, refl, sym, ap, ◌∙◌, ◌≢◌, ◌↔◌, ◌⊎◌,
  inl, inr, Bool, true, false, not, ◌&&◌, ◌||◌, Option, none, some, List, [], ◌∷◌, ◌++◌, arith,
  ◌=ₛ◌, eq_iff, ltb, leb, ◌==◌, if◌then◌else◌, Bool-cases, Option-cases, is_some, is_none_or,
  is_some_and, all, any, All, Result, ok, err, ◌>>=◌, ◌>>◌, map_err,
}
use mathlib.Core.List.{reverse}
use wiki_next.Base.Text.{codes, split, is_empty, same_codes}

pub data Component : Type 0 where
  root_dir : Component
  cur_dir : Component
  parent_dir : Component
  normal : List ℕ → Component

abbrev pub PathBuf : Type 0
PathBuf = List Component

-- The parts behind the first: empty ones and `.` are dropped.
abbrev component_of : List ℕ → List Component
component_of part =
    if is_empty part || same_codes part (b'.' ∷ [])
    then []
    else if same_codes part (b'.' ∷ b'.' ∷ [])
    then parent_dir ∷ []
    else normal part ∷ []

unfoldable pub components_of : List (List ℕ) → List Component
components_of [] = []
components_of (part ∷ parts) = component_of part ++ components_of parts

-- A first part that is empty stands before a leading separator; a first `.` is kept.
abbrev first_component : List ℕ → List Component
first_component part = if same_codes part (b'.' ∷ []) then cur_dir ∷ [] else component_of part

abbrev path_of_parts : Bool → List (List ℕ) → PathBuf
path_of_parts absolute [] = []
path_of_parts true (part ∷ parts) = root_dir ∷ components_of (part ∷ parts)
path_of_parts false (part ∷ parts) = first_component part ++ components_of parts

abbrev starts_with_slash : List ℕ → Bool
starts_with_slash [] = false
starts_with_slash (c ∷ s) = c == b'/'

-- `PathBuf::from` of a text.
unfoldable pub path_of : String → PathBuf
unfolding codes split components_of same_codes
path_of s = path_of_parts (starts_with_slash (codes s)) (split b'/' (codes s))

unfoldable pub is_parent_dir : Component → Bool
is_parent_dir parent_dir = true
is_parent_dir _ = false

unfoldable pub is_normal : Component → Bool
is_normal (normal _) = true
is_normal _ = false

abbrev is_empty_path : PathBuf → Bool
is_empty_path [] = true
is_empty_path (_ ∷ _) = false

-- The test that both crates make on the data directory: no empty path, no `..`, and some name.
unfoldable pub is_unsafe : PathBuf → Bool
unfolding is_parent_dir is_normal
is_unsafe path = is_empty_path path || any is_parent_dir path || not (any is_normal path)

unfoldable pub is_absolute : PathBuf → Bool
is_absolute (root_dir ∷ _) = true
is_absolute _ = false

-- `PathBuf::push` of one component. An absolute one replaces the path.
unfoldable pub push : PathBuf → Component → PathBuf
push path root_dir = root_dir ∷ []
push [] cur_dir = cur_dir ∷ []
push (c ∷ path) cur_dir = c ∷ path
push path parent_dir = path ++ parent_dir ∷ []
push path (normal name) = path ++ normal name ∷ []

-- `Path::join` of a name.
unfoldable pub join : PathBuf → List ℕ → PathBuf
unfolding push
join path name = push path (normal name)

abbrev parent_of_reversed : List Component → Option PathBuf
parent_of_reversed [] = none
parent_of_reversed (root_dir ∷ _) = none
parent_of_reversed (_ ∷ rest) = some (reverse rest)

-- `Path::parent`.
unfoldable pub parent : PathBuf → Option PathBuf
parent path = parent_of_reversed (reverse path)

unfoldable pub same_component : Component → Component → Bool
unfolding same_codes
same_component root_dir root_dir = true
same_component cur_dir cur_dir = true
same_component parent_dir parent_dir = true
same_component (normal a) (normal b) = same_codes a b
same_component _ _ = false

-- `==` of paths.
unfoldable pub same_path : PathBuf → PathBuf → Bool
unfolding same_component
same_path [] [] = true
same_path (c ∷ p) (d ∷ q) = same_component c d && same_path p q
same_path _ _ = false
