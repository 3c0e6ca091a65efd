-- ===== src/Contains/Laws.antt =====
-- `contains.String` and `contains.NamespacedName` decide membership.
use mathlib.Core.List.{Memᴰ}
use nacos_k8s.Base.{
  String, ◌≡◌, refl, sym, true, List, [], ◌∷◌, ◌++◌, ◌||◌, ◌==◌, ◌↔◌, arith, eq_iff, Bool-cases,
  inl, inr,
}
use nacos_k8s.Contains.{string}

pub string-append :
    (xs ys : List String) (s : String) → string (xs ++ ys) s ≡ (string xs s || string ys s)
unfolding string
string-append [] ys s = refl
string-append (x ∷ xs) ys s = ground (arith, string-append xs ys s)

string→Mem : (xs : List String) (s : String) → string xs s ≡ true → Memᴰ s xs
unfolding string
string→Mem [] s h = absurd (ground arith)
string→Mem (x ∷ xs) s h = elim (Bool-cases (x == s)) [
  | inl e ↦ Memᴰ.head (sym ((eq_iff x s).0 e))
  | inr e ↦ Memᴰ.tail (string→Mem xs s (ground arith))
]

Mem→string : (xs : List String) (s : String) → Memᴰ s xs → string xs s ≡ true
unfolding string
Mem→string [] s m = elim m [ ]
Mem→string (x ∷ xs) s (Memᴰ.head e) = ground (arith, e, eq_iff x s)
Mem→string (x ∷ xs) s (Memᴰ.tail m) = ground (arith, Mem→string xs s m)

-- `contains.String` answers true exactly when the string is an element of the slice.
pub string_iff : (xs : List String) (s : String) → (string xs s ≡ true) ↔ Memᴰ s xs
string_iff xs s = (string→Mem xs s, Mem→string xs s)
