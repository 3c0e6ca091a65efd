-- ===== src/Environment.antt =====
-- What the operator calls and does not implement: the Kubernetes API server, the HTTP endpoint of the
-- Nacos servers, the clock, the file that holds the SQL script, and the encoders. `K` is the state of
-- all that; every call may change it. The operator's code takes an `Environment` as a parameter.
use nacos_k8s.Base.{String, Bool, Option, none, some, List, ℤ}
use nacos_k8s.Errors.{Error, Fault, Outcome, done, panic, Exec}
use nacos_k8s.Kube.{
  ObjectMeta, ConfigMap, StatefulSet, Service, Job, Pod, ResourceRequirements, EnvVar,
}
use nacos_k8s.Api.{Nacos, Time}

-- a result and a nil error, or an error
pub data Reply {ℓ} (A : Type ℓ) : Type ℓ where
  got : A → Reply A
  refused : Error → Reply A

-- one typed client of `client-go`; the first argument is the namespace
pub record Api (K O : Type 0) : Type 0 where
  pub get : String → String → K → Reply O × K
  pub create : String → O → K → Option Error × K
  pub update : String → O → K → Option Error × K
  pub delete : String → String → K → Option Error × K
  pub list : String → K → Reply (List O) × K

-- the answer of a Nacos server, in the order of the JSON fields
pub record Server : Type 0 where
  pub ip : String
  pub port : ℤ
  pub state : String
  pub last_refresh_time : ℤ
  pub leader : String
  pub raft_group_member : List String
  pub term : ℤ
  pub raft_port : String
  pub version : String
  pub address : String
  pub fail_access_cnt : ℤ

pub record ServersInfo : Type 0 where
  pub servers : List Server

pub record Environment (K : Type 0) : Type 0 where
  pub config_maps : Api K ConfigMap
  pub stateful_sets : Api K StatefulSet
  pub services : Api K Service
  pub jobs : Api K Job
  -- `Pods(namespace).List` with a label selector
  pub list_pods : String → String → K → Reply (List Pod) × K
  -- `client.Get` and `client.Status().Update` of the custom resource
  pub get_nacos : String → String → K → Reply Nacos × K
  pub update_status : Nacos → K → Option Error × K
  -- `time.Now()`
  pub now : K → Time × K
  -- `http.Client.Get`, whose reply stands for the response, and `io.ReadAll` of its body
  pub http_get : String → K → Reply String × K
  pub read_all : String → K → Reply String × K
  -- `json.Unmarshal` of a `ServersInfo`
  pub unmarshal : String → Reply ServersInfo
  -- `fmt.Errorf` of a format without operands: the text, where no verb is in it
  pub errorf : String → String
  -- `controllerutil.SetControllerReference`
  pub set_controller_reference : Nacos → ObjectMeta → Reply ObjectMeta
  -- `filepath.Abs("")` and `os.ReadFile`
  pub abspath : String
  pub read_file : String → K → Reply String × K
  -- `json.Marshal` of two types, and `strings.EqualFold`
  pub marshal_resources : ResourceRequirements → String
  pub marshal_env : List EnvVar → String
  pub equal_fold : String → String → Bool

-- a call of the environment as a step that does not panic
abbrev pub call {ℓ κ} : {K : Type ℓ} {A : Type κ} → (K → A × K) → Exec K A
call m k = let r = m k in (done r.0, r.1)

-- a computation that may panic and has no effect
abbrev pub lift {ℓ κ} : {K : Type ℓ} {A : Type κ} → Outcome A → Exec K A
lift r k = (r, k)

abbrev pub and_then {ℓ κ} : {A : Type ℓ} {B : Type κ} → Outcome A → (A → Outcome B) → Outcome B
and_then (done a) f = f a
and_then (panic e) f = panic e

-- the panics of the Go run-time
abbrev pub nil_dereference : Fault
nil_dereference = Fault.runtime "invalid memory address or nil pointer dereference"

abbrev pub index_out_of_range : Fault
index_out_of_range = Fault.runtime "index out of range"

abbrev pub slice_out_of_range : Fault
slice_out_of_range = Fault.runtime "slice bounds out of range"

-- `*p`
abbrev pub dereference {ℓ} : {A : Type ℓ} → Option A → Outcome A
dereference none = panic nil_dereference
dereference (some a) = done a
