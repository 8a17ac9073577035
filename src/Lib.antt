-- ===== src/Lib.antt =====
-- k8s-netperf runs network performance tests in a Kubernetes cluster: it checks its flags, reads
-- the test configurations, deploys networks, services, pods and VMs, runs the load drivers from
-- them, parses what they print, adds metrics from Prometheus, and compares and stores the
-- results.
--
-- Flags models the tests of `Run` on the flags and the requested drivers
-- (cmd/k8s-netperf/k8s-netperf.go). `check_flags` goes through the conditions in order; each
-- ends the program with an error of its own.
--
-- Config models pkg/config/config.go: `valid_config` for `validConfig`, `parse_conf` and
-- `parse_v2_conf` for `ParseConf` and `ParseV2Conf`, and Config.Profile for the regular
-- expression of the test names. Reading a file and decoding YAML are parameters; a decoded map
-- is a list in some order.
--
-- Scenario models what `Run` makes of its flags for `BuildSUT`, with `parseNetworkConfig`.
--
-- Deploy models the part of `Run` that deploys the networks its flags ask for, and `cleanup`
-- (cmd/k8s-netperf/k8s-netperf.go).
--
-- Cluster models pkg/k8s/kubernetes.go. Cluster.Objects has the objects that the dynamic client
-- creates, over a monad that keeps the list of the requests; what the server answers is a
-- parameter. Cluster.Objects.Networks and Cluster.Objects.Sriov are the functions `Deploy…` and
-- `Destroy…`. Cluster.Infra is `BuildInfra` and `DestroyNamespace` over what exists of the
-- namespace, the account and the role binding; what there is after a deletion that was not seen
-- to its end is a parameter. Cluster.Deployments is `CreateDeployment`,
-- `WaitForReady` and `deployDeployment`, with the affinities in Cluster.Deployments.Affinity.
-- Cluster.Polling is the loop that asks a fixed number of times, 24 for the SR-IOV definition
-- and 30 for a machine; a watch is the finite list of its events. Cluster.Services models the
-- services of `BuildSUT` over what the API answers, Cluster.Networks the network annotations and
-- the `Extract…Ip` functions, Cluster.Zones `GetZone`. JSON and CIDR decoders are parameters.
--
-- Vms models pkg/k8s/kubevirt.go: Vms.Networks the interfaces of a machine, Vms.CloudInit its
-- first commands, Vms.Create the machine with its service and route, Vms.Connect the waits and
-- the connections, Vms.Configure the address on the SR-IOV network.
--
-- Sut models `BuildSUT` of pkg/k8s/kubernetes.go: Sut.Commands what the servers run, Sut.Params
-- the parameters of each deployment, Sut.Build the order of the steps and what each stores in
-- the scenario, on which Workload then runs. The answers of the cluster are a parameter. The
-- theorems on Sut.Ready have hypotheses on them, named in Sut.Ready.Chains: `Runs` says that a
-- deployment that has become ready has a running pod, and `Launches`, for the machines, that a
-- machine seen running has the pod in which it runs, and that no watch ends before the machine
-- was seen. `WaitForVMI` does not see to the latter. In Sut.Separate the placement of the pods is
-- the scheduler's rule for the terms of a deployment, on the labels of the nodes.
--
-- Workload models `executeWorkload` and the loops of `Run` around it. Workload.Server chooses
-- the server's address and the client, Workload.Samples is the loop over the samples with its
-- retries, Workload.Execute puts them together, Workload.Plan lists the calls in their order and
-- runs them, and Workload.Run is the whole; Workload.Stops says how it ends early. `Stop` is a
-- fatal error or a panic. The k-th call of a driver's `Run` is a parameter, on a client that has
-- a pod; `sample_client` is the panic of the drivers without one. The retries run on
-- fuel, since a failed run is not counted as a try: `none` says that they still go on. Three
-- rounds are enough where no run fails.
--
-- Results models the data and the comparison of pkg/results/result.go, with the exit code
-- that the end of `Run` computes from it.
--
-- Report models the end of `Run`: whether Prometheus is looked for, the loop that adds its
-- metrics to the results, and what is printed, archived and returned.
--
-- Tables models the tables that pkg/results/result.go prints, with their headers and cells in
-- Tables.Cells. The printing of numbers and the library's upper-casing of the first letters are
-- parameters; `ToLower` is written out for ASCII, where the code uses it.
--
-- Archive models pkg/archive/archive.go: `build_docs` for `BuildDocs`, and in Archive.Csv the
-- rows that the three functions for CSV files write, in their order; a write may fail. The means
-- and the confidence interval come from libraries and are parameters.
--
-- Drivers models pkg/drivers: `new_driver` and the supported tests in Drivers, the command lines
-- in Drivers.Commands, the profile of uperf in Drivers.UperfProfile, the `ParseResults` of each
-- driver in Drivers.Netperf, Drivers.Iperf, Drivers.Uperf and Drivers.IbWriteBw, chosen between
-- in Drivers.Parse, and in Drivers.Remote their `Run` on a VM, as a log of connections, commands
-- and waits. The statistics library and the JSON decoder are parameters.
--
-- Metrics models pkg/metrics/system.go: Metrics.Queries the texts of the queries, Metrics.Retry
-- the repeated query with its waits in 64 bits, Metrics.NodeCpu the reading of an answer,
-- Metrics.Collect the functions that call Prometheus, whose client is a parameter.
--
-- Virtctl models pkg/virtctl/extractor.go over a set of files; the operating system is a
-- parameter, with the outcome of each call and the files that it lets the program remove.
--
-- Float is the interface of Go's `float64`, a parameter throughout. Prelude has the helpers:
-- Go's `int` without a bound, since the program only compares, counts and prints them, the
-- functions of `strings` and `strconv`, and the steps of the regular expressions.
--
-- Not modelled: the registration of the flags, the requests that run a command in a pod, the
-- functions of pkg/k8s that no run calls, the generated client (pkg/kubevirt) and the log
-- (pkg/logging), which are calls of other systems or output.
pub mod Archive
pub mod Cluster
pub mod Config
pub mod Deploy
pub mod Drivers
pub mod Flags
pub mod Float
pub mod Metrics
pub mod Prelude
pub mod Report
pub mod Results
pub mod Scenario
pub mod Sut
pub mod Tables
pub mod Tests
pub mod Virtctl
pub mod Vms
pub mod Workload
