-- ===== src/Merge/Fields/Laws.antt =====
-- What `StringSlices` and `StringToStringMap` of operator/pkg/util/merge/merge.go return.
use nacos_k8s.Base.{
  true, false, ap, String, ◌≡◌, refl, ◌∙◌, sym, List, [], ◌∷◌, ◌++◌, ◌||◌, ◌==◌, arith, eq_iff,
  or_else, Bool-cases, inl, inr,
}
use mathlib.Core.List.{append_assoc, append-nil}
use nacos_k8s.Go.Maps.{Map, IsMap, get, put, get-put, put-IsMap, RangeOrder}
use nacos_k8s.Contains
use nacos_k8s.Contains.Laws.{string-append}
use nacos_k8s.Merge.Fields.{append_new, string_slices, put_all, string_to_string_map}

contains_one : (s t : String) → Contains.string (s ∷ []) t ≡ (s == t)
unfolding Contains.string
contains_one s t = ground arith

contains-append_new :
    (merged rest : List String) (t : String)
    → Contains.string (append_new merged rest) t
      ≡ (Contains.string merged t || Contains.string rest t)
unfolding append_new Contains.string
contains-append_new merged [] t = ground arith
contains-append_new merged (s ∷ rest) t = elim (Bool-cases (Contains.string merged s)) [
  | inl old ↦ rw old (ground (arith, contains-append_new merged rest t, eq_iff s t, old))
  | inr new ↦ rw new (
      ground (
        arith,
        contains-append_new (merged ++ s ∷ []) rest t,
        string-append merged (s ∷ []) t,
        contains_one s t,
      ))
]

-- The merged slice holds exactly the strings of either slice.
pub contains-string_slices :
    (xs ys : List String) (t : String)
    → Contains.string (string_slices xs ys) t ≡ (Contains.string xs t || Contains.string ys t)
unfolding string_slices
contains-string_slices xs ys t = contains-append_new xs ys t

-- none of the strings is known or stands there twice
unfoldable pub AreNew : List String → List String → Type 0
AreNew known [] = Unit
AreNew known (x ∷ r) = (Contains.string known x ≡ false) × AreNew (known ++ x ∷ []) r

-- the first list is the second with some elements left out
pub data IsPart : List String → List String → Type 0 where
  end : IsPart [] []
  skip : {x : String} {r s : List String} → IsPart r s → IsPart r (x ∷ s)
  take : {x : String} {r s : List String} → IsPart r s → IsPart (x ∷ r) (x ∷ s)

append_new-AreNew :
    (merged rest : List String)
    → (added : List String) × (append_new merged rest ≡ merged ++ added)
      × AreNew merged added
      × IsPart added rest
unfolding append_new AreNew
append_new-AreNew merged [] = ([], sym (append-nil merged), tt, end)
append_new-AreNew merged (s ∷ rest) = elim (Bool-cases (Contains.string merged s)) [
  | inl old ↦ let i = append_new-AreNew merged rest in rw old (i.0, i.1, i.2, skip i.3)
  | inr new ↦
      let i = append_new-AreNew (merged ++ s ∷ []) rest in
      rw new (s ∷ i.0, i.1 ∙ append_assoc merged (s ∷ []) i.0, (new, i.2), take i.3)
]

-- The merged slice is the first slice as it was, its repetitions included, and behind it strings of
-- the second slice in their order there: none that is in the first slice, none twice, and every string
-- of the second slice is among them or in the first.
pub string_slices-AreNew :
    (xs ys : List String)
    → (added : List String) × (string_slices xs ys ≡ xs ++ added)
      × AreNew xs added
      × IsPart added ys
      × ((t : String)
          → Contains.string ys t ≡ true
          → (Contains.string xs t || Contains.string added t) ≡ true)
unfolding string_slices
string_slices-AreNew xs ys =
    let i = append_new-AreNew xs ys in
    (
      i.0,
      i.1,
      i.2,
      i.3,
      λ t h.
          sym (string-append xs i.0 t)
          ∙ ap (λ l. Contains.string l t) (sym i.1)
          ∙ contains-append_new xs ys t
          ∙ ground (arith, h),
    )

module _ {ℓ} {V : Type ℓ} where
  pub get-put_all :
      (j : String) (m r : Map V) → IsMap r → get j (put_all m r) ≡ or_else (get j r) (get j m)
  unfolding put_all get
  get-put_all j m [] h = refl
  get-put_all j m ((k, v) ∷ r) h =
      ground (arith, get-put_all j (put k v m) r h.1, get-put k j v m, eq_iff k j)

  pub put_all-IsMap : (m r : Map V) → IsMap m → IsMap (put_all m r)
  unfolding put_all
  put_all-IsMap m [] h = h
  put_all-IsMap m ((k, v) ∷ r) h = put_all-IsMap (put k v m) r (put-IsMap k v m h)

-- Whatever the order of the visits, the merged map has the second map's value where it has one, and
-- the first map's elsewhere.
pub get-string_to_string_map :
    (o : RangeOrder) (map1 map2 : Map String) (k : String)
    → IsMap map1
    → IsMap map2
    → get k (string_to_string_map o map1 map2) ≡ or_else (get k map2) (get k map1)
unfolding string_to_string_map get
get-string_to_string_map o map1 map2 k h1 h2 = ground (
  arith,
  get-put_all k (put_all [] (o.range 20 String map1)) (o.range 21 String map2)
      (o.range-IsMap 21 String map2 h2),
  get-put_all k [] (o.range 20 String map1) (o.range-IsMap 20 String map1 h1),
  o.get-range 20 String map1 k h1,
  o.get-range 21 String map2 k h2,
)
