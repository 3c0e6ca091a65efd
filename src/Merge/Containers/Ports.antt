-- ===== src/Merge/Containers/Ports.antt =====
-- `ContainerPortSlicesByName` of merge.go, which has loops of its own.
use nacos_k8s.Base.{
  String, ◌≡◌, refl, ◌∙◌, sym, ap, ap₂, Option, none, some, List, [], ◌∷◌, ◌++◌, arith, eq_iff,
  eq_refl, or_else, option_map, Option-cases, inl, inr,
}
use mathlib.Core.List.{append_assoc, append-nil}
use nacos_k8s.Go.Maps.{Map, IsMap, get, values, RangeOrder}
use nacos_k8s.Go.Sort.{
  find_by, IsAscending, slice_stable, by_key, find_by-slice_stable, slice_stable-IsAscending,
  IsAscending-eq,
}
use nacos_k8s.Kube.{ContainerPort}
use nacos_k8s.Merge.Keyed.{create_map}
use nacos_k8s.Merge.Keyed.Lookup.{combine, last_by, last_by-key, get-create_map, create_map-IsMap}
use nacos_k8s.Merge.Keyed.Sorted.{IsKeyed, find_by-values, values-HasDistinctKeys}
use nacos_k8s.Merge.Containers.{
  container_ports, merged_ports, added_ports, container_port_slices_by_name,
}

module _ {ℓ} {V : Type ℓ} where
  get-append : (k : String) (a b : Map V) → get k (a ++ b) ≡ or_else (get k a) (get k b)
  unfolding get
  get-append k [] b = refl
  get-append k ((j, v) ∷ a) b = ground (arith, get-append k a b)

  values-append : (a b : Map V) → values (a ++ b) ≡ values a ++ values b
  unfolding values
  values-append [] b = refl
  values-append ((j, v) ∷ a) b = ap (◌∷◌ v) (values-append a b)

  append-IsMap :
      (a b : Map V)
      → IsMap a
      → IsMap b
      → ((k : String) (v : V) → get k a ≡ some v → get k b ≡ none)
      → IsMap (a ++ b)
  unfolding get
  append-IsMap [] b ha hb apart = hb
  append-IsMap ((j, v) ∷ a) b ha hb apart = (
    ground (arith, get-append j a b, apart j v, eq_refl j),
    append-IsMap a b ha.1 hb (λ k w e. apart k w (ground (arith, eq_iff j k))),
  )

-- the port that the first loop appends
joined_port : Map ContainerPort → String → ContainerPort → ContainerPort
joined_port overrides name port = elim (get name overrides) [
  | some over ↦ container_ports port over
  | none ↦ port
]

-- the entries that the first loop appends, with their names
joined : Map ContainerPort → Map ContainerPort → Map ContainerPort
joined overrides [] = []
joined overrides ((name, port) ∷ r) = (name, joined_port overrides name port) ∷ joined overrides r

-- the entries that the second loop appends
fresh_entry : Option ContainerPort → String → ContainerPort → Map ContainerPort → Map ContainerPort
fresh_entry none name port rest = (name, port) ∷ rest
fresh_entry (some p) name port rest = rest

fresh : Map ContainerPort → Map ContainerPort → Map ContainerPort
unfolding fresh_entry
fresh defaults [] = []
fresh defaults ((name, port) ∷ r) = fresh_entry (get name defaults) name port (fresh defaults r)

module _ (overrides : Map ContainerPort) where
  merged_ports-joined :
      (ports : List ContainerPort) (r : Map ContainerPort)
      → merged_ports overrides ports r ≡ ports ++ values (joined overrides r)
  unfolding merged_ports joined joined_port values
  merged_ports-joined ports [] = sym (append-nil ports)
  merged_ports-joined ports ((name, port) ∷ r) =
      merged_ports-joined (ports ++ joined_port overrides name port ∷ []) r
      ∙ append_assoc ports (joined_port overrides name port ∷ []) (values (joined overrides r))

  get-joined :
      (k : String) (r : Map ContainerPort)
      → get k (joined overrides r) ≡ option_map (joined_port overrides k) (get k r)
  unfolding get joined
  get-joined k [] = refl
  get-joined k ((name, port) ∷ r) = ground (arith, eq_iff name k, get-joined k r)

  joined-IsMap : (r : Map ContainerPort) → IsMap r → IsMap (joined overrides r)
  unfolding joined
  joined-IsMap [] h = tt
  joined-IsMap ((name, port) ∷ r) h =
      (get-joined name r ∙ ap (option_map (joined_port overrides name)) h.0, joined-IsMap r h.1)

-- what the second loop keeps of an entry
abbrev unless {ℓ κ} : {A : Type ℓ} {B : Type κ} → Option A → Option B → Option B
unless (some a) o = none
unless none o = o

module _ (defaults : Map ContainerPort) where
  added_ports-fresh :
      (ports : List ContainerPort) (r : Map ContainerPort)
      → added_ports defaults ports r ≡ ports ++ values (fresh defaults r)
  unfolding added_ports fresh values
  added_ports-fresh ports [] = sym (append-nil ports)
  added_ports-fresh ports ((name, port) ∷ r) = elim (Option-cases (get name defaults)) [
    | inl e ↦ rw e (
        added_ports-fresh (ports ++ port ∷ []) r
        ∙ append_assoc ports (port ∷ []) (values (fresh defaults r)))
    | inr (p, e) ↦ rw e (added_ports-fresh ports r)
  ]

  get-fresh :
      (k : String) (r : Map ContainerPort)
      → get k (fresh defaults r) ≡ unless (get k defaults) (get k r)
  unfolding get fresh
  get-fresh k [] = ground arith
  get-fresh k ((name, port) ∷ r) = ground (arith, eq_iff name k, get-fresh k r)

  fresh-IsMap : (r : Map ContainerPort) → IsMap r → IsMap (fresh defaults r)
  unfolding fresh
  fresh-IsMap [] h = tt
  fresh-IsMap ((name, port) ∷ r) h = elim (Option-cases (get name defaults)) [
    | inl e ↦ rw e (get-fresh name r ∙ ap₂ unless e h.0, fresh-IsMap r h.1)
    | inr (p, e) ↦ rw e (fresh-IsMap r h.1)
  ]

container_ports-name :
    (k : String) (a b : ContainerPort) → a.name ≡ k → b.name ≡ k → (container_ports a b).name ≡ k
unfolding container_ports
container_ports-name k a b ha hb = ground (arith, ha, hb)

module _ (o : RangeOrder) (default over : List ContainerPort) where
  abbrev defaults : Map ContainerPort
  defaults = create_map (λ p. p.name) default

  abbrev overrides : Map ContainerPort
  overrides = create_map (λ p. p.name) over

  -- the entries that both loops append, in the order of the appends
  abbrev appended : Map ContainerPort
  appended =
      joined overrides (o.range 50 ContainerPort defaults)
      ++ fresh defaults (o.range 51 ContainerPort overrides)

  get-appended :
      (k : String)
      → get k appended
        ≡ combine container_ports (last_by (λ p. p.name) k default) (last_by (λ p. p.name) k over)
  unfolding joined_port
  get-appended k = ground (
    arith,
    get-append k (joined overrides (o.range 50 ContainerPort defaults))
        (fresh defaults (o.range 51 ContainerPort overrides)),
    get-joined overrides k (o.range 50 ContainerPort defaults),
    get-fresh defaults k (o.range 51 ContainerPort overrides),
    o.get-range 50 ContainerPort defaults k (create_map-IsMap (λ p. p.name) default),
    o.get-range 51 ContainerPort overrides k (create_map-IsMap (λ p. p.name) over),
    get-create_map (λ p. p.name) k default,
    get-create_map (λ p. p.name) k over,
  )

  appended-IsMap : IsMap appended
  appended-IsMap =
      append-IsMap (joined overrides (o.range 50 ContainerPort defaults))
        (fresh defaults (o.range 51 ContainerPort overrides))
        (joined-IsMap overrides (o.range 50 ContainerPort defaults)
          (o.range-IsMap 50 ContainerPort defaults (create_map-IsMap (λ p. p.name) default)))
        (fresh-IsMap defaults (o.range 51 ContainerPort overrides)
          (o.range-IsMap 51 ContainerPort overrides (create_map-IsMap (λ p. p.name) over)))
        (λ k v e. ground (
          arith,
          get-joined overrides k (o.range 50 ContainerPort defaults),
          get-fresh defaults k (o.range 51 ContainerPort overrides),
          o.get-range 50 ContainerPort defaults k (create_map-IsMap (λ p. p.name) default),
        ))

  appended-IsKeyed : IsKeyed (λ p. p.name) appended
  appended-IsKeyed k v e =
      combined (last_by (λ p. p.name) k default) (last_by (λ p. p.name) k over)
        (last_by-key (λ p. p.name) k default) (last_by-key (λ p. p.name) k over)
        (sym (get-appended k) ∙ e)
    where
      combined :
          (x y : Option ContainerPort)
          → ((a : ContainerPort) → x ≡ some a → a.name ≡ k)
          → ((b : ContainerPort) → y ≡ some b → b.name ≡ k)
          → combine container_ports x y ≡ some v
          → v.name ≡ k
      combined none none hx hy h = cc
      combined none (some b) hx hy h = hy v h
      combined (some a) none hx hy h = hx v h
      combined (some a) (some b) hx hy h =
          ground (arith, container_ports-name k a b (hx a refl) (hy b refl))

  ports-eq :
      container_port_slices_by_name o default over
      ≡ slice_stable (by_key (λ p. p.name)) (values appended)
  unfolding container_port_slices_by_name
  ports-eq = ap (slice_stable (by_key (λ p. p.name))) (
      added_ports-fresh defaults (merged_ports overrides [] (o.range 50 ContainerPort defaults))
        (o.range 51 ContainerPort overrides)
      ∙ ap (λ ps. ps ++ values (fresh defaults (o.range 51 ContainerPort overrides)))
          (merged_ports-joined overrides [] (o.range 50 ContainerPort defaults))
      ∙ sym (
          values-append (joined overrides (o.range 50 ContainerPort defaults))
            (fresh defaults (o.range 51 ContainerPort overrides))))

  -- `ContainerPortSlicesByName` returns one port for each name, in ascending order: the last one of
  -- either side with the name, the two merged by `ContainerPorts` where both sides have it.
  pub ports_lookup :
      IsAscending (λ p. p.name) (container_port_slices_by_name o default over)
      × ((k : String)
          → find_by (λ p. p.name) k (container_port_slices_by_name o default over)
            ≡ combine container_ports
                (last_by (λ p. p.name) k default)
                (last_by (λ p. p.name) k over))
  ports_lookup = (
    rw ports-eq (
        slice_stable-IsAscending (λ p. p.name) (values appended)
          (values-HasDistinctKeys (λ p. p.name) appended appended-IsMap appended-IsKeyed)),
    λ k.
        ap (find_by (λ p. p.name) k) ports-eq
        ∙ find_by-slice_stable (λ p. p.name) k (values appended)
        ∙ find_by-values (λ p. p.name) k appended appended-IsMap appended-IsKeyed
        ∙ get-appended k,
  )

pub ports_deterministic :
    (o p : RangeOrder) (default over : List ContainerPort)
    → container_port_slices_by_name o default over ≡ container_port_slices_by_name p default over
ports_deterministic o p default over =
    IsAscending-eq (λ q. q.name) _ _ (ports_lookup o default over).0 (ports_lookup p default over).0
      (λ k. (ports_lookup o default over).1 k ∙ sym ((ports_lookup p default over).1 k))
