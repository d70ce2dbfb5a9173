-- ===== src/Lib.antt =====
-- The Edgecenter cloud controller manager (edgecenter-ccm), which keeps the load balancers, security
-- groups and node records of a Kubernetes cluster in step with the Edgecenter cloud.
--
-- The program. On each event for a Service, EnsureLoadBalancer resolves the options of the Service,
-- finds or creates its load balancer, and then brings listeners, pools, members, the floating IP and
-- the security group to what the Service and the nodes ask for, each phase by requests to the
-- cloud's API. EnsureLoadBalancerDeleted takes all of it down. The instances part answers the node
-- controller: which instance is behind a node, whether it exists, its addresses. The volumes
-- part attaches, detaches and grows disks and finds their device paths, for which it reads the
-- directories of its host and the metadata of its own instance.
--
-- The model. The cloud and the libraries are the record Client of Cloud/Client.antt: one function
-- for each request, over a state that the model leaves open, so that every answer, every failure and
-- every change that others make in between is possible. The operating system of the code's own host is
-- the record Host of Cloud/Host.antt in the same way. A function of the code is a function from
-- the state to an outcome (a value, an error or a panic) and the next state (Prelude/Monad.antt).
-- Errors keep their sentinel and their wrapping, as errors.Is sees them. Text is a list of bytes, a
-- map an association list. Integers are natural numbers where the code's are not negative; the
-- timeouts are integers read by strconv.Atoi with the bounds of 64 bits.
--
-- The files, with the code they are about:
--   Prelude        lists, text, maps, outcomes; Prelude/KeySets compares lists of keys as sets
--   Cloud          types of edgecentercloud-go and Kubernetes (Types), the API (Client), and what is
--                  relied on in the exponential backoff of apimachinery (Wait)
--   Loadbalancer/Names        internal/edgecenter/loadbalancer_utils.go (names, port and member keys)
--   Loadbalancer/Options      loadbalancer_annotations.go, loadbalancer_secrets.go,
--                  resolveServiceOptions of loadbalancer.go
--   Loadbalancer/Retry        the waits of loadbalancer.go, runLBOperationWithRetry
--   Loadbalancer/Listeners, Pools, Members    loadbalancer_listeners.go and loadbalancer_pools.go
--   Loadbalancer/Registry, Settled    the maps and sets that the phases build (no code of their own)
--   Loadbalancer/FloatingIps  loadbalancer_floatingip.go
--   Loadbalancer/Find, Ensure, Delete    GetLoadBalancer, EnsureLoadBalancer, UpdateLoadBalancer and
--                  EnsureLoadBalancerDeleted of loadbalancer.go
--   SecurityGroups            loadbalancer_securitygroups.go
--   Instances                 instances.go, nodeAddresses of edgecenter.go, and
--                  internal/apis/core/v1/helper/helpers.go
--   Metadata                  internal/util/metadata/metadata.go
--   Volumes                   volumes.go, internal/volume/util/util.go (Volumes/Size), the errors of
--                  internal/volume (Volumes/Errors) and the metrics of the operations (Volumes/Metrics)
--   Provider                  edgecenter.go: the configuration, the provider object, its identity and
--                  zones; InstanceID and CurrentNodeName of instances.go, routes.go, metrics.go; the start
--                  of the manager, cmd/main.go with panicutil/panic.go (Provider/Start)
--   Mounts                    internal/util/mount/mount.go, and blockdevice_linux.go and
--                  blockdevice_unsupported.go of internal/util/blockdevice
--   Util                      internal/util/net/sets/ipnet.go, internal/api/v1/service/util.go,
--                  internal/util/util.go (Util/Lists, Util/Patch), http_instrumentation.go (Util/Http)
--   Tests          a small cloud in memory and a small host, and runs of the code and the theorems
-- A file below one of these, such as Loadbalancer/Members/Reconcile, holds the proofs on it. A
-- function keeps its name in snake case: ensureLoadBalancerPools is ensure_load_balancer_pools.
--
-- Bounds. The waits are loops of apimachinery with 19 checks for an active load balancer, 13 for a
-- deleted one and 6 for an operation with retries. The loop is a parameter, and no theorem
-- depends on these numbers; all other loops run over lists. The theorems that need the loop take its
-- documented behaviour as a hypothesis: IsBackoff of Cloud/Wait, and IsTimed of Cloud/Wait/Ends, which
-- run_backoff satisfies. The loop of ScanForAttach runs over the events that it receives. popMember is a recursion with a round for each
-- member, which is shown to be enough. Sizes are rounded with the casts of a Go int written out, and
-- the statistics of a file system are words of 64 bits.
--
-- Variables that outlive a call stand in the state: the metadata's cache, the kept local ID, the object
-- of the mounts. The metrics of the operations on volumes are a state of their own: the operations
-- with metrics stand beside those without.
--
-- Not modelled: logs; how long operations take; the registration of flags and what the command prints;
-- the test doubles of mount_mock.go and metadata_mock.go. The sleeping of the loops, the cancelling of
-- contexts and the operands of error texts are left out, and so is the tail of the slices that popMember
-- and popListener overwrite. The parser of the configuration, certificates and transports, the JSON
-- encoder and the patches of Kubernetes, sets.String, the regular expressions of sanitizePath,
-- DefaultLoadBalancerName, net.ParseIP, net.ParseCIDR, the registries of metrics and of cloud providers
-- and the libraries of the controller manager are parameters.
pub mod Prelude
pub mod Cloud
pub mod Util
pub mod Loadbalancer
pub mod Instances
pub mod SecurityGroups
pub mod Metadata
pub mod Volumes
pub mod Provider
pub mod Mounts
mod Tests
