-- ===== src/Lib.antt =====
-- A verification library for the kubeshark operator, a Kubernetes operator that deploys Kubeshark
-- (a hub, a worker on each node and a frontend) for each custom resource of kind Kubeshark.
--
-- The program. The controller of internal/controller reads one resource in each call of
-- `Reconcile` and then either lets go of it (`reconcileDelete`), adds its finalizer, or runs five
-- steps, each of which applies some of twelve objects with `controllerutil.CreateOrUpdate`, and
-- reports the outcome in the resource's status (`setReadyCondition`). All state lives in the API
-- server: a call reads the resource once and passes it and its labels to the steps.
--
-- The files, and the code that they are about:
--   Common        Boolean tests, texts, Go's maps, results, and methods on a state that may fail
--                 (`Exec`): an error comes back beside the state that was reached
--   Kube          the fields of the Kubernetes objects that the operator sets or reads; a field
--                 `other` stands for all that it leaves alone
--   Api           api/v1beta1/kubeshark_types.go
--   Runtime       controller-runtime and apimachinery as a record `Runtime` of operations over an
--                 unknown state; Runtime/Laws has their documented behaviour, which the theorems
--                 assume; Footprint, Wants and Available reason about sequences of operations
--   Names         internal/controller/helpers.go
--   Hub           internal/controller/hub.go
--   Worker        internal/controller/worker.go
--   Earlier       internal/controller/utils.go, earlier versions of the builders and of the steps,
--                 which `Reconcile` does not call; Ownership, References, Stored and Cleanup compare
--                 them with what is called today
--   Frontend      internal/controller/frontend.go
--   Rbac          internal/controller/rbac.go
--   Secret        internal/controller/secret.go
--   Status        internal/controller/status.go
--   Finalizer     internal/controller/finalizer.go
--   Reconcile     internal/controller/kubeshark_controller.go; History has many calls, with writes
--                 by others between them, as a step relation; Watches has `SetupWithManager`;
--                 Specified describes the twelve objects once more, without the definitions of the
--                 other files
--   Wiring        how the accounts, ports and selectors of several of these files fit
--   Idempotence   the `mutate_` functions, applied to their own results
--   Selection     which pods the selectors select
--   Copies        api/v1beta1/zz_generated.deepcopy.go, and what internal/controller/status.go does
--                 before the patch, on a heap of cells: `Heap` and `Layout` say where values live,
--                 `Structs` and `Values` what the variables of the Go types hold and mean,
--                 `Generated` has the functions; the functions of other packages are a record
--                 `Library`
--   Setup         cmd/main.go: the flags, the options of the servers and of the manager, and the
--                 calls that start it, over a record `Managers` of the library's functions; Scheme
--                 has api/v1beta1/groupversion_info.go
--   Memory        a cluster in memory that satisfies the assumed behaviour, for running the
--                 definitions
--   Tests         runs on concrete resources
--
-- In each component a function of the source is a definition of the same name in snake case. The
-- closure that it passes to `CreateOrUpdate` is a `mutate_` function from the stored object to the
-- new one (`Objects`, where there are several). What an object should be is a record of its own
-- (`Desired`), and `Correct` shows that the component's actions implement those. Reconcile/Wanted
-- joins them to the list of the twelve objects.
--
-- What the theorems assume of the runtime: reads are up to date, no other client writes during a
-- call, an operation touches only what it names, and one that reports success has done what it is
-- documented to do. An operation may fail at any point. What the server fills in by itself is
-- behind the relation `Realises`, of which nothing is assumed; in the spec of a Kubeshark resource
-- it is the default for the replicas, and an empty config map table is not stored. An object that
-- was deleted is taken to hold no finalizers of its own. Only theorems that say that a call returns
-- no error assume that the server answers (`IsAvailable`), and then only where it accepts what is
-- submitted: what it accepts is a parameter (`Accepts`), since a server may find an object invalid,
-- an immutable field changed, or the operator without the right to write it.
--
-- Bounds. The loops run over lists, so that no fuel is needed. Replica counts and ports are natural
-- numbers: the schema admits no negative replica count, and the ports that the code writes are
-- small constants. The addresses of a heap are natural numbers too, and do not run out.
--
-- Not modelled: log lines; the parsing of the command line, the servers and the manager, which are
-- the library's; tests. Outside of Copies a value is its own copy: there it is shown for
-- `setReadyCondition` that this is what the code does. `getOrDefaultInt`, which
-- internal/controller/utils.go calls and no file declares, is a parameter.
pub mod Common
pub mod Kube
pub mod Api
pub mod Runtime
pub mod Names
pub mod Hub
pub mod Worker
pub mod Earlier
pub mod Frontend
pub mod Rbac
pub mod Secret
pub mod Status
pub mod Finalizer
pub mod Reconcile
pub mod Wiring
pub mod Idempotence
pub mod Selection
pub mod Setup
pub mod Copies
pub mod Memory
pub mod Tests
