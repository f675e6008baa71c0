-- ===== src/Lib.antt =====
-- The DRA driver for SR-IOV virtual functions: what of it is modelled, and what is shown.
--
-- The kubelet calls the driver to prepare and unprepare the devices of resource claims
-- (pkg/driver/dra_hook.go). The device-state manager (pkg/devicestate) binds the devices of a claim
-- to drivers through the host (pkg/host), writes CDI specs (pkg/cdi) and device-info files, and
-- records the configs that were applied in the claim's status (pkg/types). The prepared devices are
-- kept by pod and claim, with a checkpoint (pkg/podmanager). When a pod's sandbox starts, the NRI
-- plugin (pkg/nri) attaches the networks and writes what CNI returned into the store and the status.
-- A controller (pkg/controller) reads policies and tells the manager which devices to advertise; the
-- driver publishes them (pkg/driver/driver.go). The manager finds the devices when it is made
-- (pkg/devicestate/discovery.go), and pkg/cni runs the plugins that attach them.
--
--   Common              Go's maps, results and errors, actions on a state
--   Kube, Consts        objects of the Kubernetes API (k8s.io/api/resource/v1), pkg/consts/consts.go
--   Types.ClaimStatus   pkg/types/claimstatus.go: keyOf, UpsertDeviceStatus, MergeDeviceStatuses
--   Types.Retry         pkg/types/statusretry.go: UpdateClaimStatusWithRetry
--   Types.Prepared      pkg/types/types.go: PreparedDevice and its methods; Types.NetConf is
--                       AddDeviceIDToNetConf
--   Api                 pkg/api/virtualfunction/v1alpha1/api.go, pkg/devicestate/statehelpers.go
--   DeviceState         pkg/devicestate: Advertise is UpdatePolicyDevices, Edits and
--                       Prepare are applyConfigOnDevice and handleRDMADevice, Prepare.Claim is prepareDevices, PrepareDevicesForClaim,
--                       unprepareDevices and Unprepare, DeviceInfo is deviceinfo.go
--   Cdi                 pkg/cdi/cdi.go
--   Controller          pkg/controller/resourcepolicycontroller.go, pkg/api/sriovdra/v1alpha1/api.go
--   PodManager          pkg/podmanager/podmanager.go: put is Set, the rest have their names
--   Host                pkg/host/host.go: Driver and Modules are driver binding and kernel modules, Pci
--                       the lookups of discovery, Vfio those of the preparation
--   Text                Go's strings, strconv and filepath, as the lookups use them
--   DeviceState.Discovery, DeviceState.Construct
--                       pkg/devicestate/discovery.go and NewManager; Construct.Reached is the step
--                       relation of the manager's states
--   Driver              pkg/driver: Hook and Requests are dra_hook.go, Start and Publish are driver.go, Health is
--                       health.go; Stack puts the host's lookups under discovery and the preparation
--   Cni                 pkg/cni: Runtime is cni.go, Exec is exec.go, Result is status.go
--   Nri                 pkg/nri/nri.go and nrihelpers.go: Runner is the goroutine, Lifecycle the
--                       start and stop, Plugin the rest
--   Types.Checkpoint    pkg/types/types.go: the checkpoint and its checksum
--   Controller.Watch    pkg/controller/resourcepolicycontroller.go: the handlers of SetupWithManager
--   Client              pkg/flags/kubeclient.go: NewClientSetConfig and NewClientSets
--   Main                cmd/dra-driver-sriov/main.go: RunPlugin composes all of them
--
-- An operation that changes state is an action: a function from a state to a result (a value, an
-- error or a panic) and the new state. A mutex makes an operation of the pod manager one step. A Go
-- map is an association list, whose order stands for that of one iteration. A pointer to a prepared
-- device is an address that the device carries, so that a write through it is seen wherever the
-- device is held. Of an error the model keeps the format and the causes, not the other arguments.
-- Loops over slices and maps are structural recursion, so no fuel is used; the number of attempts of
-- the retry is that of the library's backoff, a parameter of which an attempt count is assumed. The
-- rounds of ExecPlugin are counted as in the code. The loop that waits for the registration has rounds
-- as fuel, which are enough once the timeout is taken. The NRI runner, its channel and its context take
-- turns, which any sequence may interleave; the channel's buffer and the senders that wait for room are
-- one queue.
--
-- Parameters stand for what is not in the repository: the API client and the backoff, the kubelet's
-- checkpoint manager, the CDI cache, the device-info store, JSON, the label selectors, libcni and its
-- plugins, the kubelet plugin library and gRPC, the libraries behind the host's providers, and the
-- files of /sys and /proc.
--
-- Not modelled: the parsing of the command line, the signals and the logging (pkg/flags/logging.go),
-- which only call libraries; the wrappers of libraries in pkg/host, generated code, and the tests.
pub mod Common
pub mod Kube
pub mod Text
pub mod Api
pub mod Consts
pub mod Types
pub mod Cdi
pub mod Cni
pub mod DeviceState
pub mod Host
pub mod PodManager
pub mod Driver
pub mod Nri
pub mod Controller
pub mod Client
pub mod Main
