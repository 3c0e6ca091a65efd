-- ===== src/Lib.antt =====
-- A verification library for the Nacos operator of this repository (operator/), which keeps Nacos
-- servers running on Kubernetes: it reads a custom resource, creates or updates the objects that the
-- resource asks for, checks the pods and the servers in them, and writes the status back.
--
-- How the parts interact. The controller reads a resource and runs four stages on it. The stages
-- call `Kind`, which builds the objects, merges the user's pod template into them and hands them to the
-- services for Kubernetes; then the check, which reads the stateful set, its ready pods and the HTTP
-- answers of the servers; then the status. A stage stops by a panic with an error, which the
-- controller recovers.
--
-- Which file models which code:
--   Api                operator/api/v1alpha1/nacos_types.go
--   Kube               the structures of the Kubernetes API, with the fields that the operator uses
--   Errors             operator/pkg/errors/errors.go and type.go: a panic is the outcome of an `Exec`,
--                      a function from a state to an outcome and a state
--   Environment        what is called and not in the repository: the API server's typed clients, HTTP,
--                      JSON, the clock, the SQL file. It is a record that every definition takes, over
--                      a type of states of the outside world
--   ApiServer          an abstract specification of the API server: the objects that it holds, by kind,
--                      namespace and name, and the promises of its clients. They are hypotheses of
--                      the theorems about what a reconciliation changes and leaves in the cluster.
--                      ApiServer/Willing is for a server that refuses nothing without need
--   Contains           operator/pkg/util/contains/contains.go
--   Merge              operator/pkg/util/merge: Merge/Fields, Merge/Containers and Merge/Volumes for
--                      merge.go and merge_ephemeral_container.go, Merge/Pods for
--                      merge_podtemplate_spec.go, Merge/Workloads for merge_statefulset.go and
--                      merge_deployment.go. Merge/Keyed has the pattern that most of them share:
--                      index both slices by a key, join, collect and sort
--   Services           operator/pkg/service/k8s: configmap.go, service.go, job.go, statefulset.go;
--                      Services/StatefulSets/Selection says which text selects by labels
--   Kind               operator/pkg/service/operator/Kind.go: Kind/Defaults (ValidationField),
--                      Kind/Labels, Kind/Env and Kind/StatefulSet (buildStatefulset), Kind/Cluster
--                      (buildStatefulsetCluster), Kind/Objects (the other builders), Kind/Ensure
--                      (the Ensure methods; Kind/Ensure/Owned has what they may touch,
--                      Kind/Ensure/Stored what they leave, Kind/Ensure/Works when they return)
--   Operator           operator/pkg/service/operator: Operator/Check (Check.go; Operator/Check/Listed
--                      says where the checked pods come from), Operator/Status (Status.go),
--                      Operator/Stages (operaror.go, Heal.go); Operator/Servers is
--                      operator/pkg/service/nacos/cluster.go. Operator/World is the state: the resource
--                      in memory, which the stages mutate, and the outside world. Operator/Quiet and
--                      Operator/Calm have the steps that change no object, Operator/Confined,
--                      Operator/Provided and Operator/Creates those that do
--   Controller         operator/controllers/nacos_controller.go
--   Go                 Go's maps, its stable sort and its formatting; Base has the shared helpers
--   Tests              concrete inputs, and the theorems at them
--
-- A Go map is an association list, and the order in which a loop visits it is chosen by a
-- parameter, the `RangeOrder`, one choice for each loop of the source and each map. It is assumed to
-- visit every entry once, as Go's specification says. A `RangeOrder` stands for one execution in which
-- a loop of the source, whenever it visits equal maps, takes them in the same order; Go may also choose
-- anew each time, and such executions are not covered. All loops are structural recursions on a list, on the
-- characters of a text or on the number of rounds, so nothing runs on fuel. Integers are unbounded:
-- `int32` values of the API are only compared, printed, and used as counts in Go's `int`.
--
-- Not modelled: generated deep copies, the registration and start of the manager, constructors,
-- log lines, the wrappers of operator/pkg/util/merge/api, and the Helm charts and manifests.
pub mod Base
pub mod Go
pub mod Merge
pub mod Kube
pub mod Contains
pub mod Errors
pub mod Api
pub mod Kind
pub mod Environment
pub mod Services
pub mod Operator
pub mod Controller
pub mod ApiServer
pub mod Tests
