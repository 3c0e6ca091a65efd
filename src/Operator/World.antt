-- ===== src/Operator/World.antt =====
-- The state of a reconciliation: the resource in memory, and the environment.
use nacos_k8s.Errors.{done, Exec}
use nacos_k8s.Api.{Nacos, NacosStatus}

pub record World (K : Type 0) : Type 0 where
  pub nacos : Nacos
  pub cluster : K

-- a step that reads the resource and acts on the environment
abbrev pub reading {κ} : {K : Type 0} {A : Type κ} → (Nacos → Exec K A) → Exec (World K) A
reading m w = let r = m w.nacos w.cluster in (r.0, record w { cluster = r.1 })

-- an assignment to the resource
abbrev pub modify : {K : Type 0} → (Nacos → Nacos) → Exec (World K) (Unit {0})
modify f w = (done tt, record w { nacos = f w.nacos })

abbrev pub with_status : (NacosStatus → NacosStatus) → Nacos → Nacos
with_status f n = record n { status = f n.status }
