-- ===== src/Contains.antt =====
-- operator/pkg/util/contains/contains.go. The three functions are one loop; Go's `==` on the
-- structure `NamespacedName` compares its two strings.
pub mod Laws
use nacos_k8s.Base.{String, Bool, true, false, List, [], ◌∷◌, ◌==◌, ◌&&◌, if◌then◌else◌}

unfoldable pub string : List String → String → Bool
string [] s = false
string (elem ∷ slice) s = if elem == s then true else string slice s

pub record NamespacedName : Type 0 where
  pub namespace : String
  pub name : String

unfoldable pub namespaced_name : List NamespacedName → NamespacedName → Bool
namespaced_name [] n = false
namespaced_name (elem ∷ names) n =
    if elem.namespace == n.namespace && elem.name == n.name then true else namespaced_name names n

unfoldable pub access_mode : List String → String → Bool
access_mode [] mode = false
access_mode (elem ∷ modes) mode = if elem == mode then true else access_mode modes mode
