-- ===== src/Operator/Check/Passes.antt =====
-- When the check of the servers that one pod names passes.
use nacos_k8s.Base.{String, ◌≡◌, refl, Bool-cases, inl, inr, List, [], ◌∷◌, All, ◌==◌, eq_refl, ◌⊎◌}
use nacos_k8s.Errors.{done, ensure_equal_string}
use nacos_k8s.Environment.{Server}
use nacos_k8s.Operator.World.{World}
use nacos_k8s.Operator.Check.{agree_on_leader, check_servers}

-- a server that is up and reports the leader
abbrev pub Reports : String → Server → Type 0
Reports leader s = (s.state ≡ "UP") × (s.leader ≡ leader)

module _ {K : Type 0} where
  agrees :
      (known leader : String) (w : World K)
      → (known ≡ "") ⊎ (known ≡ leader)
      → agree_on_leader known leader w ≡ (done leader, w)
  unfolding agree_on_leader ensure_equal_string
  agrees known leader w (inl p) = rw p refl
  agrees known leader w (inr p) = elim (Bool-cases (leader == "")) [
    | inl h ↦ rw (p, h) refl
    | inr h ↦ rw (p, h, eq_refl leader) refl
  ]

  -- If there are servers, all of them up and reporting one leader, and no other leader is known so
  -- far, the check of them passes, and that leader is known afterwards.
  pub check_servers-passes :
      (s : Server) (svcs : List Server) (known leader : String) (w : World K)
      → (known ≡ "") ⊎ (known ≡ leader)
      → All (Reports leader) (s ∷ svcs)
      → (check_servers known (s ∷ svcs) w).0 ≡ done leader
  unfolding check_servers ensure_equal_string
  check_servers-passes s [] known leader w h ((up, led), t) =
      rw (up, led, agrees known leader w h) refl
  check_servers-passes s (t ∷ r) known leader w h ((up, led), rest) =
      rw (up, led, agrees known leader w h)
        (check_servers-passes t r leader leader _ (inr refl) rest)
