-- ===== src/Merge/Fields.antt =====
-- operator/pkg/util/merge: the tests `if override.X != zero { merged.X = override.X }`, one for each
-- kind of field, and the merges of plain slices and maps of strings.
pub mod Laws
use nacos_k8s.Base.{
  String, Bool, Option, none, some, List, [], ◌∷◌, ◌++◌, ◌==◌, if◌then◌else◌, ℤ, pos, int_eq,
}
use nacos_k8s.Go.Maps.{Map, put, RangeOrder}
use nacos_k8s.Contains

-- The override comes first, then the value that `merged` has from the original.
abbrev pub or_string : String → String → String
or_string over merged = if over == "" then merged else over

abbrev pub or_int : ℤ → ℤ → ℤ
or_int over merged = if int_eq over (pos 0) then merged else over

abbrev pub or_bool : Bool → Bool → Bool
or_bool over merged = if over then over else merged

abbrev pub or_nil {ℓ} : {A : Type ℓ} → Option A → Option A → Option A
or_nil none merged = merged
or_nil (some v) merged = some v

-- the elements of a slice that may be nil
abbrev pub elements {ℓ} : {A : Type ℓ} → Option (List A) → List A
elements none = []
elements (some xs) = xs

-- the loop of `StringSlices` over the second slice
unfoldable pub append_new : List String → List String → List String
append_new merged [] = merged
append_new merged (s ∷ rest) =
    append_new (if Contains.string merged s then merged else merged ++ s ∷ []) rest

unfoldable pub string_slices : List String → List String → List String
unfolding append_new
string_slices slice1 slice2 = append_new slice1 slice2

-- `for k, v := range m { merged[k] = v }`
unfoldable pub put_all {ℓ} : {V : Type ℓ} → Map V → Map V → Map V
put_all merged [] = merged
put_all merged ((k, v) ∷ r) = put_all (put k v merged) r

-- loops 20 and 21
unfoldable pub string_to_string_map : RangeOrder → Map String → Map String → Map String
unfolding put_all
string_to_string_map o map1 map2 =
    put_all (put_all [] (o.range 20 String map1)) (o.range 21 String map2)

-- loops 22 and 23
unfoldable pub string_to_bool_map : RangeOrder → Map Bool → Map Bool → Map Bool
unfolding put_all
string_to_bool_map o map1 map2 = put_all (put_all [] (o.range 22 Bool map1)) (o.range 23 Bool map2)
