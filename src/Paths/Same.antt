-- ===== src/Paths/Same.antt =====
-- What `==` of paths decides.
use wiki_next.Base.{◌≡◌, ◌↔◌, true, [], ◌∷◌, arith}
use wiki_next.Base.Same.{same_codes_iff}
use wiki_next.Paths.{
  Component, PathBuf, root_dir, cur_dir, parent_dir, normal, same_component, same_path,
}

same_component_iff : (c d : Component) → (same_component c d ≡ true) ↔ (c ≡ d)
unfolding same_component
same_component_iff root_dir d = ground arith
same_component_iff cur_dir d = ground arith
same_component_iff parent_dir d = ground arith
same_component_iff (normal a) root_dir = ground arith
same_component_iff (normal a) cur_dir = ground arith
same_component_iff (normal a) parent_dir = ground arith
same_component_iff (normal a) (normal b) = ground (arith, same_codes_iff a b)

pub same_path_iff : (p q : PathBuf) → (same_path p q ≡ true) ↔ (p ≡ q)
unfolding same_path
same_path_iff [] [] = ground arith
same_path_iff [] (d ∷ q) = ground arith
same_path_iff (c ∷ p) [] = ground arith
same_path_iff (c ∷ p) (d ∷ q) = ground (arith, same_component_iff c d, same_path_iff p q)
