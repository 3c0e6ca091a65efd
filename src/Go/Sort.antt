-- ===== src/Go/Sort.antt =====
-- `sort.SliceStable` with a `less` function, as a stable insertion sort, and the less functions of
-- the source, which all compare one string of each element.
use nacos_k8s.Base.{
  String, ◌≡◌, refl, sym, ap₂, Bool, true, false, Option, none, some, List, [], ◌∷◌, arith, ◌==◌,
  eq_iff, eq_refl, if◌then◌else◌, All, All-map, str_lt, str_lt_irrefl, str_lt_trans, str_lt_linear,
  Bool-cases, inl, inr,
}

module _ {ℓ} {A : Type ℓ} where
  -- elements that do not differ by `less` keep their order
  unfoldable pub insert_stable : (A → A → Bool) → A → List A → List A
  insert_stable less x [] = x ∷ []
  insert_stable less x (y ∷ ys) = if less y x then y ∷ insert_stable less x ys else x ∷ y ∷ ys

  unfoldable pub slice_stable : (A → A → Bool) → List A → List A
  unfolding insert_stable
  slice_stable less [] = []
  slice_stable less (x ∷ xs) = insert_stable less x (slice_stable less xs)

  abbrev pub by_key : (A → String) → A → A → Bool
  by_key key x y = str_lt (key x) (key y)

module _ {ℓ} {A : Type ℓ} (key : A → String) where
  -- the first element with the key
  unfoldable pub find_by : String → List A → Option A
  find_by k [] = none
  find_by k (x ∷ xs) = if key x == k then some x else find_by k xs

  abbrev pub HasDistinctKeys : List A → Type ℓ
  HasDistinctKeys [] = Unit
  HasDistinctKeys (x ∷ xs) = (find_by (key x) xs ≡ none) × HasDistinctKeys xs

  -- the keys strictly ascend
  abbrev pub IsAscending : List A → Type 0
  IsAscending [] = Unit
  IsAscending (x ∷ xs) = All (λ y. str_lt (key x) (key y) ≡ true) xs × IsAscending xs

  find_by-insert :
      (k : String) (x : A) (xs : List A)
      → find_by k (insert_stable (by_key key) x xs) ≡ find_by k (x ∷ xs)
  unfolding find_by insert_stable
  find_by-insert k x [] = refl
  find_by-insert k x (y ∷ ys) =
      ground (arith, eq_iff (key y) k, eq_iff (key x) k, find_by-insert k x ys, str_lt_irrefl k)

  -- Sorting keeps, for every key, the element that is found first.
  pub find_by-slice_stable :
      (k : String) (xs : List A) → find_by k (slice_stable (by_key key) xs) ≡ find_by k xs
  unfolding slice_stable find_by
  find_by-slice_stable k [] = refl
  find_by-slice_stable k (x ∷ xs) =
      ground (arith, find_by-slice_stable k xs, find_by-insert k x (slice_stable (by_key key) xs))

  abbrev Above : String → List A → Type 0
  Above k = All (λ y. str_lt k (key y) ≡ true)

  Above-insert :
      (k : String) (x : A) (xs : List A)
      → str_lt k (key x) ≡ true
      → Above k xs
      → Above k (insert_stable (by_key key) x xs)
  unfolding insert_stable
  Above-insert k x [] h a = (h, tt)
  Above-insert k x (y ∷ ys) h a = elim (Bool-cases (str_lt (key y) (key x))) [
    | inl p ↦ rw p (a.0, Above-insert k x ys h a.1)
    | inr p ↦ rw p (h, a)
  ]

  Above-trans : (j k : String) (xs : List A) → str_lt j k ≡ true → Above k xs → Above j xs
  Above-trans j k xs h = All-map _ _ (λ y. str_lt_trans j k (key y) h) xs

  insert-IsAscending :
      (x : A) (xs : List A)
      → find_by (key x) xs ≡ none
      → IsAscending xs
      → IsAscending (insert_stable (by_key key) x xs)
  unfolding insert_stable find_by
  insert-IsAscending x [] f a = (tt, tt)
  insert-IsAscending x (y ∷ ys) f a = elim (Bool-cases (str_lt (key y) (key x))) [
    | inl p ↦ rw p (
      Above-insert (key y) x ys p a.0,
      insert-IsAscending x ys (ground (arith, eq_iff (key y) (key x))) a.1,
    )
    | inr p ↦ rw p (before x y ys f p a, a)
  ]
    where
      before :
          (x y : A) (ys : List A)
          → find_by (key x) (y ∷ ys) ≡ none
          → str_lt (key y) (key x) ≡ false
          → IsAscending (y ∷ ys)
          → Above (key x) (y ∷ ys)
      before x y ys f p a = elim (Bool-cases (str_lt (key x) (key y))) [
        | inl q ↦ (q, Above-trans (key x) (key y) ys q a.0)
        | inr q ↦ absurd (ground (arith, eq_iff (key y) (key x), str_lt_linear (key x) (key y) q p))
      ]

  -- Elements with distinct keys are put into strictly ascending order.
  pub slice_stable-IsAscending :
      (xs : List A) → HasDistinctKeys xs → IsAscending (slice_stable (by_key key) xs)
  unfolding slice_stable
  slice_stable-IsAscending [] d = tt
  slice_stable-IsAscending (x ∷ xs) d =
      insert-IsAscending x (slice_stable (by_key key) xs) (rw find_by-slice_stable d.0)
        (slice_stable-IsAscending xs d.1)

  find_by-Above : (k : String) (xs : List A) → Above k xs → find_by k xs ≡ none
  unfolding find_by
  find_by-Above k [] a = refl
  find_by-Above k (x ∷ xs) a =
      ground (arith, eq_iff (key x) k, str_lt_irrefl k, find_by-Above k xs a.1)

  -- the head of an ascending list is not above a key that another such list holds
  head_not_above :
      (x y : A) (xs ys : List A)
      → IsAscending (y ∷ ys)
      → find_by (key x) (x ∷ xs) ≡ find_by (key x) (y ∷ ys)
      → str_lt (key x) (key y) ≡ false
  unfolding find_by
  head_not_above x y xs ys b same = elim (Bool-cases (str_lt (key x) (key y))) [
    | inr q ↦ q
    | inl q ↦ absurd (
        ground (
          arith,
          eq_refl (key x),
          find_by-Above (key x) (y ∷ ys) (q, Above-trans (key x) (key y) ys q b.0),
        ))
  ]

  -- A strictly ascending list is determined by what it holds for each key.
  pub IsAscending-eq :
      (xs ys : List A)
      → IsAscending xs
      → IsAscending ys
      → ((k : String) → find_by k xs ≡ find_by k ys)
      → xs ≡ ys
  unfolding find_by
  IsAscending-eq [] [] a b same = refl
  IsAscending-eq [] (y ∷ ys) a b same = absurd (ground (arith, same (key y), eq_refl (key y)))
  IsAscending-eq (x ∷ xs) [] a b same = absurd (ground (arith, same (key x), eq_refl (key x)))
  IsAscending-eq (x ∷ xs) (y ∷ ys) a b same = ap₂ ◌∷◌ heads (IsAscending-eq xs ys a.1 b.1 tails)
    where
      keys : key x ≡ key y
      keys =
          str_lt_linear (key x) (key y) (head_not_above x y xs ys b (same (key x)))
            (head_not_above y x ys xs a (sym (same (key y))))

      heads : x ≡ y
      heads = ground (arith, same (key x), eq_refl (key x), eq_iff (key y) (key x), keys)

      tails : (k : String) → find_by k xs ≡ find_by k ys
      tails k = ground (
        arith,
        keys,
        same k,
        eq_iff (key x) k,
        eq_iff (key y) k,
        find_by-Above (key x) xs a.0,
        find_by-Above (key y) ys b.0,
      )
