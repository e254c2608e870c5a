-- ===== src/Lib.antt =====
-- A verification library of the GreatSQL operator, a Kubernetes operator in Go that keeps MySQL servers
-- (GreatSQL) for two custom resources: a SingleInstance, one deployment, and a GroupReplicationCluster, a
-- stateful set for each member.
--
-- The parts of the program and the files that model them:
--   Consts            internal/consts, and the group and version of api/v1/groupversion_info.go
--   Api               api/v1: the resources (Api/Instance of singleinstance_types.go, Api/Cluster of
--                     groupreplicationcluster_types.go, Api/Pod of common_types.go), SetPodAffinity
--                     (Api/Affinity), the sections that no code reads yet (Api/Sections), the types
--                     that init registers (Api/Scheme), the webhook of a cluster (Api/Webhook), and
--                     zz_generated.deepcopy.go, the deep copies, over a heap (Api/Memory)
--   Kube              internal/pkg/kube, the builders of objects: pod.go in Kube/Pods, configmap.go,
--                     volume.go, service.go and secret.go in Kube/Builders/Plain, deployment.go and
--                     statefulset.go in Kube/Builders/Workloads
--   Utils             internal/utils: finalizer.go in Utils/Finalizer, kube.go and id.go in Utils/Service,
--                     encrypt.go in Utils/Encoding
--   Mysql             internal/pkg/mysql: gtid.go in Mysql/Gtid, config.go, mysql_util.go and the embedded
--                     template my.cnf.tmpl in Mysql/Config (File in its child File), mysql.go in
--                     Mysql/Client
--   Controller        internal/controller: singleinstance_controller.go in Controller/Single, its
--                     createResources and watchResource in the children Create and Update, and
--                     groupreplicationcluster_controller.go in Controller/Cluster, with initializeCluster
--                     in its child Bootstrap; SetupWithManager of both in Controller/Setup
--   Kube/Informers    internal/pkg/kube/Informer.go, the handlers of the informers
--   Start             cmd/main.go, which sets the manager up and starts it
--   Version           internal/pkg/version
--   Prelude, Tests    shared notions and lemmas; sample servers, sample resources and runs on them
--
-- A reconciliation reads a resource from the API server, cleans up after it if it is being deleted,
-- checks it, and then creates and updates objects that the builders make of it. The code of the
-- controllers is written as steps over a world W (Prelude/Steps): a step returns, fails with an error or
-- panics, and what it did before stays done. A Go function with an error result is an Outcome; a nil
-- pointer is `none`, and following it or indexing an empty slice is a panic. An object that Go functions
-- share and change is given to a step and returned by it. Numbers are natural; int64 and int32 wrap
-- around where the program calculates with them. Names follow the Go names, in lower case with
-- underscores; GetSize of both resources is get_size of Api/Instance and of Api/Cluster.
--
-- What the program takes from elsewhere is the record Platform of Kube/Platform: the requests of
-- controller-runtime's client, the event recorder, and the functions of k8s.io, sonic and google/uuid; the
-- record Sql of Mysql/Client is database/sql, Os of Mysql/Config/File is os, and Host of Start is the
-- manager. flag.Parse and ctrl.GetConfigOrDie, which end the program themselves, are steps of Host that
-- may exit with a code. The embedded template of my.cnf is well-formed, so the errors of parsing and of
-- executing it are left out. Theorems hold for each such record, and name as a hypothesis what they assume
-- of it: CountsHandles (open handles are counted), RejectsStale (optimistic concurrency), Refuses (what is
-- held is not created again), KeepsKeys (a reply is the object that was asked for), Persists (the server
-- keeps what it holds, and nobody else deletes), LetsGo and Admits (requests are answered), Deep (the deep
-- copies of k8s.io are deep). Kube/Trace keeps a log of the requests beside the world; Kube/Answers,
-- Mysql/Client/Statements and Start/Order keep one of the requests, the statements and the calls of the
-- libraries, each with the error that it met. Prelude/Plans says of a step that it follows a plan of them
-- and ends with the first that is refused, and Prelude/Choices that it follows one of several.
-- Kube/Ensures says what a step guarantees behind it, where it returns and where it fails; Kube/Keeps,
-- Kube/Sends and Kube/Presence use it for facts that a step keeps, for the requests that it may send and
-- for the objects that the server holds or refuses. Scope and Promise below the controllers apply them,
-- Promise/Runs to sequences of reconciliations with changes by others. A request's reply is the object as
-- the server has stored it, which the client decodes into the object it was given; the decoding is taken
-- not to write through a map that two objects share.
--
-- The deep copies are about what two resources share, so Api/Memory has the resources once more, as Go
-- lays them out: a pointer, a slice or a map is an address (Api/Memory/Heap), and a struct holds its
-- fields (Api/Memory/Layout). The same records with options in place of addresses are the resources that
-- are meant; Api/Memory/Meant says when one stands for the other, and Api/Memory/Owned which cells it
-- reaches. A pointer that leads nowhere is a fault, and the theorems show that there is none. The cells of
-- a new value are written once, when all its parts are copied, where Go fills them in the order of the
-- fields; nothing reads them before. A map is the list of its pairs.
--
-- The regular expression of gtid.go is a function over code points, and `regexp` is not assumed. The
-- loops of the program are bounded by a length or a counter, and are structural recursion; the only
-- fuel is that of the decimal printer (Prelude/Decimal), which is more than the number that is printed,
-- and with which the text no longer depends on the fuel.
--
-- Not modelled: logging; the registration of types with the scheme and of controllers and the webhook
-- with the manager, which is the library's, and of which Start sees whether it failed; the making of an
-- informer from a factory; the test scaffolding.

pub mod Api
pub mod Consts
pub mod Controller
pub mod Kube
pub mod Mysql
pub mod Prelude
pub mod Start
pub mod Tests
pub mod Utils
pub mod Version
