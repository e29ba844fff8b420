-- ===== src/Lib.antt =====
-- The control plane of iml: Kubernetes operator, node daemon and bmv2 target driver. This library
-- models the logic of its components and proves what makes them correct.
--
-- Common: shared notation, lists, maps, results and arithmetic. A Go map is a function into Option.
--
-- Ipam (operator/pkg/ipam/pool.go and allocator.go; daemon/pkg/ipam and targets/bmv2/pkg/ipam hold
-- copies of allocator.go): Netip is what the code uses of Go's net/netip, with an address as its
-- family and its value; zones are left out. Broadcast is broadcastAddr, Allocator the AddrAllocator
-- and PrefixAllocator, Pool the AddrPool. A method that changes its receiver returns the new record.
-- The loop of AddrPool.Allocate runs on fuel, the number of addresses of the prefix; Pool/Scan
-- shows that the loop ends within it, so that the out_of_fuel error never occurs. Pool/Runs has the
-- sequences of calls, which is what concurrent callers can do under the pool's mutex.
--
-- Deployment (operator/internal/controller/scheduling/networkfunctiondeployment): Objects has the
-- fields of the two object types that the controller reads, and the functions of util/nf_util.go
-- over lists of replica sets; Fenceposts has ResolveFenceposts and what is computed from it, with
-- int32 arithmetic that wraps. k8s.io's IntOrString is a parameter, the record IntOrStrings. Scaling
-- is replicas.go, rolling.go and recreate.go: the API server is a function that answers each
-- request, knowing the earlier ones, and the log of requests is the state. sort.Sort by creation is
-- an insertion sort, which gives the same list since distinct replica sets have distinct names; by
-- revision, where it need not, sort.Sort is a parameter.
-- Reconcile, the conditions and the spec hash are not modelled.
--
-- ReplicaSet (operator/internal/controller/scheduling/networkfunctionreplicaset): Expectations is
-- util/expectations.go over the stores and sets of Common/Stores, which are records of operations
-- and laws; SlowStart is slowStartBatch on fuel, the number of calls wanted, which is enough since
-- each batch has a call; Replicas has the branches of manageReplicas that create and delete. Calls
-- that run concurrently are taken in the order in which they finish. Functions has the availability
-- of network functions from util/rs_util.go; Order is util/sorting.go and the choice of what to delete,
-- with Log2 and sort.Sort as parameters; Status is status.go, where the loop that writes a status runs
-- on the number of retries left. Reconcile and the copies of a template's labels, finalizers and
-- annotations are not modelled.
--
-- Placement (operator/internal/controller/core/networkfunction): the scheduler that binds network
-- functions to targets. The API server's network functions are a list, a call carries the errors of its
-- requests and the targets that the cache has, with HasTaintWithEffects of p4target/util. Between
-- calls users create, retarget and delete network functions. The status and
-- the deployment of a control plane are not modelled.
--
-- Targets (operator/internal/controller/core/p4target): the functions of util/p4target_util.go on taints
-- and conditions, and ensureReadinessTaints. Leases and the rest of the reconciler are not modelled.
--
-- Nfgc (operator/internal/controller/core/nfgc): a round of the garbage collection of network functions.
-- The API server answers on the log of the requests; the log, with the phases set before, is the
-- state. Requests has what each part adds to the log, Justified what may be deleted, Collected what is.
--
-- Conditions: the conditions of deployments and replica sets (util/nf_util.go and util/rs_util.go of
-- the two controllers), with the time of a call as an argument.
--
-- NfManager (targets/bmv2/managers/nf): Handle is nf_mgr_types.go, Manager the state of nf_mgr.go with
-- EnsurePresent and EnsureAbsent, Work what the goroutines do, System the manager with its
-- goroutines. Handles live in a store, since operations and goroutines share them. A stage of
-- runDeployment or runDeletion is one step, a transition of a handle is too; EnsurePresent and
-- EnsureAbsent, which take no lock, come between the stages. What
-- the compiler, the switch and the network answer is part of the step. Texts of messages, panics and
-- the reader's side of the channel of events are not modelled. Slots has the bound on the network
-- functions deployed, Closing the life of a handle.
--
-- P4Target (targets/bmv2/managers/p4target): Manager is the manager of a target, on top of Ipam's
-- AddrAllocator, with the addresses of its bridge interface as part of the state; Bridge is
-- configureNFBridge; Conditions the conditions reported; Runs has the sequences of calls. What netlink
-- and the P4Runtime client answer is an argument, a CIDR is given as ParsePrefix reads it, and texts
-- and times are left out.
--
-- DeviceMap (dpcs/internal/devicemap): the parser of the file of devices over its bytes, with what it
-- uses of strings, strconv and bufio. A line that does not fit the buffer of a Scanner
-- is an error. RoundTrip has a printer of the format, which the program does not.
--
-- Janitor (daemon/pkg/janitor): callbacks are functions on the state of the host. What the expired
-- context makes of it is a parameter.
--
-- Dataplane (daemon/pkg/dataplane): Kernel is what the code asks of netlink and go-iptables: any
-- answers to the requests, on what was asked before, so that the requests made are the state. An
-- action returns its error as the Go function does, and keeps the state. Matching, Parsing, Parsed and
-- NodeIp are vrf/util/vrf_util.go, with netip as a parameter; Alloc is alloc.go, one model for
-- both families over iplib; Descendants is the walk of vrf/targetvrf.go over the links inside a VRF, on
-- fuel for the VRF and each link, which Descendants/Returned shows to be enough; Routes has the
-- methods of vrf/routingsubnet.go and vrf/appsubnet.go on routes, Routes/Plan which requests they make.
-- ServiceChains, TargetVrf, Tunnels, TargetVrfs and Forward are the parts of vrf/software_linux.go on the
-- records of service chains, on the VRFs of targets, on the tunnels that connect them and on the rules
-- of kube-proxy. Logs, locks and the set-up of subnets and of the data plane itself are not modelled.
pub mod Common
pub mod Conditions
pub mod Dataplane
pub mod Deployment
pub mod DeviceMap
pub mod Ipam
pub mod Janitor
pub mod NfManager
pub mod Nfgc
pub mod P4Target
pub mod Placement
pub mod ReplicaSet
pub mod Targets
