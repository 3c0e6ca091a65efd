-- ===== src/Operator/Check/Leader.antt =====
-- Which pod the check calls the leader, from the address that the pods were given.
use Prim.Native.Char.{Char, code}
use nacos_k8s.Base.{
  ℕ, String, ◌≡◌, refl, sym, ◌∙◌, ap, Bool, true, false, [], ◌∷◌, ◌==◌, eqb, if◌then◌else◌, concat,
  pos, eq_iff, arith,
}
use text.Mathlib.TextLemmas.{cons-append, nil-append, append_assoc, append_cancel_left}
use nacos_k8s.Go.Format.{itoa, sprintf}
use nacos_k8s.Go.Format.Digits.{itoa_injective, itoa-free, concat-free}
use nacos_k8s.Kube.{Pod}
use nacos_k8s.Api.{Nacos}
use nacos_k8s.Kind.Labels.{generate_name, generate_headless_svc_name}
use nacos_k8s.Kind.Cluster.{pod_domain}
use nacos_k8s.Operator.Servers.{contains_char}
use nacos_k8s.Operator.Check.{
  prepend, split, index_positive, leader_split, condition_type, pod_condition,
}

-- A text without the separator, then the separator.
module _ (sep : ℕ) (d : Char) (h : eqb (code d) sep ≡ true) where
  split-first :
      (s t : String)
      → contains_char sep s ≡ false
      → split sep (concat s (String.◌∷◌ d t)) ≡ s ∷ split sep t
  unfolding split contains_char prepend
  split-first String.[] t p = rw (nil-append, h) refl
  split-first (String.◌∷◌ c s) t p = rw cons-append (go (eqb (code c) sep) p (split-first s t))
    where
      go :
          (b : Bool)
          → (if b then true else contains_char sep s) ≡ false
          → (contains_char sep s ≡ false → split sep (concat s (String.◌∷◌ d t)) ≡ s ∷ split sep t)
          → (if b
              then "" ∷ split sep (concat s (String.◌∷◌ d t))
              else prepend c (split sep (concat s (String.◌∷◌ d t))))
            ≡ String.◌∷◌ c s ∷ split sep t
      go true p ih = ground (arith, p)
      go false p ih = ap (prepend c) (ih p)

  contains_char-here : (s t : String) → contains_char sep (concat s (String.◌∷◌ d t)) ≡ true
  unfolding contains_char
  contains_char-here String.[] t = rw (nil-append, h) refl
  contains_char-here (String.◌∷◌ c s) t =
      rw cons-append (go (eqb (code c) sep) _ (contains_char-here s t))
    where
      go : (b x : Bool) → x ≡ true → (if b then true else x) ≡ true
      go true x p = refl
      go false x p = p

  index_positive-here :
      (c : Char) (s t : String)
      → contains_char sep (String.◌∷◌ c s) ≡ false
      → index_positive sep (concat (String.◌∷◌ c s) (String.◌∷◌ d t)) ≡ true
  unfolding index_positive contains_char
  index_positive-here c s t p =
      rw cons-append (go (eqb (code c) sep) _ _ p (contains_char-here s t))
    where
      go :
          (b x y : Bool)
          → (if b then true else x) ≡ false
          → y ≡ true
          → (if b then false else y) ≡ true
      go true x y p q = ground (arith, p)
      go false x y p q = q

leader_split-first :
    (d : Char) (s t : String)
    → eqb (code d) b'.' ≡ true
    → contains_char b'.' s ≡ false
    → (s ≡ "" → ⊥)
    → leader_split (concat s (String.◌∷◌ d t)) ≡ s ∷ split b'.' t
unfolding leader_split
leader_split-first d String.[] t h p n = absurd (n refl)
leader_split-first d (String.◌∷◌ c s) t h p n =
    rw (index_positive-here b'.' d h c s t p) (split-first b'.' d h (String.◌∷◌ c s) t p)

dash : (s : String) → concat "-" s ≡ String.◌∷◌ "-" s
dash s = cons-append "-" "" s ∙ ap (String.◌∷◌ "-") (nil-append s)

-- Kubernetes names the pods of a stateful set by its name and their number.
abbrev pub pod_name : Nacos → ℕ → String
pod_name nacos i = concat nacos.meta.name (concat "-" (itoa (pos i)))

pod_domain-parts :
    (nacos : Nacos) (domain : String) (i : ℕ)
    → pod_domain nacos domain i
      ≡ concat nacos.meta.name (
          String.◌∷◌ "-" (
            concat (itoa (pos i)) (
              String.◌∷◌ "." (
                concat
                  (generate_headless_svc_name nacos)
                  (sprintf ".%v.%v.%v" (nacos.meta.namespace ∷ "svc" ∷ domain ∷ []))))))
unfolding pod_domain sprintf generate_name
pod_domain-parts nacos domain i = refl

pod_domain-starts :
    (nacos : Nacos) (domain rest : String) (i : ℕ)
    → (tail : String) × (concat (pod_domain nacos domain i) rest
        ≡ concat (pod_name nacos i) (String.◌∷◌ "." tail))
pod_domain-starts nacos domain rest i =
    let tail =
      concat (generate_headless_svc_name nacos)
        (sprintf ".%v.%v.%v" (nacos.meta.namespace ∷ "svc" ∷ domain ∷ [])) in
    (
      concat tail rest,
      ap (λ t. concat t rest) (pod_domain-parts nacos domain i)
          ∙ regroup nacos.meta.name (itoa (pos i)) tail rest,
    )
  where
    regroup :
        (name i tail rest : String)
        → concat (concat name (String.◌∷◌ "-" (concat i (String.◌∷◌ "." tail)))) rest
          ≡ concat (concat name (concat "-" i)) (String.◌∷◌ "." (concat tail rest))
    regroup name i tail rest = simp (append_assoc, cons-append, dash)

cons-nil : (c : Char) (s : String) → String.◌∷◌ c s ≡ "" → ⊥
cons-nil c s h = cc

not_empty : (name s : String) → concat name (concat "-" s) ≡ "" → ⊥
not_empty String.[] s h = cons-nil _ _ (sym (nil-append _ ∙ dash s) ∙ h)
not_empty (String.◌∷◌ c name) s h = cons-nil c _ (sym (cons-append c name _) ∙ h)

pod_name_injective : (nacos : Nacos) (i j : ℕ) → pod_name nacos i ≡ pod_name nacos j → i ≡ j
pod_name_injective nacos i j h = itoa_injective i j (
    append_cancel_left "-" (itoa (pos i)) (itoa (pos j)) (
      append_cancel_left nacos.meta.name (concat "-" (itoa (pos i))) (concat "-" (itoa (pos j))) h))

same_name : (nacos : Nacos) (i j : ℕ) → (pod_name nacos i == pod_name nacos j) ≡ eqb i j
same_name nacos i j = decided (pod_name nacos i == pod_name nacos j) (eqb i j) refl refl
  where
    equal : eqb i j ≡ true → i ≡ j
    equal q = ground (arith, q)

    decided : (b c : Bool) → (pod_name nacos i == pod_name nacos j) ≡ b → eqb i j ≡ c → b ≡ c
    decided true true p q = refl
    decided false false p q = refl
    decided true false p q =
        absurd (ground (arith, q, pod_name_injective nacos i j ((eq_iff _ _).0 p)))
    decided false true p q = absurd (
        ground
          (arith, p, eq_iff (pod_name nacos i) (pod_name nacos j), ap (pod_name nacos) (equal q)))

-- The round trip of a pod's address. The address of pod `i` of a cluster, as the pods are told it,
-- with anything behind it such as a port, names pod `i` as the leader and no other pod of the stateful
-- set, provided that the resource's name has no dot.
pub pod_condition-pod_domain :
    (nacos : Nacos) (domain rest : String) (i j : ℕ) (pod : Pod)
    → contains_char b'.' nacos.meta.name ≡ false
    → pod.name ≡ pod_name nacos j
    → (pod_condition (concat (pod_domain nacos domain i) rest) pod).type
      ≡ (if eqb i j then "leader" else "follower")
unfolding pod_condition condition_type contains_char
pod_condition-pod_domain nacos domain rest i j pod h p =
    let starts = pod_domain-starts nacos domain rest i in
    let free =
      concat-free b'.' nacos.meta.name (concat "-" (itoa (pos i))) h
        (concat-free b'.' "-" (itoa (pos i)) refl (itoa-free i)) in
    ap (λ s. condition_type s pod.name)
      (ap leader_split starts.1
        ∙ leader_split-first "." (pod_name nacos i) starts.0 refl free
            (not_empty nacos.meta.name (itoa (pos i))))
    ∙ ap (λ b. if b then "leader" else "follower")
        (ap (λ n. pod_name nacos i == n) p ∙ same_name nacos i j)
