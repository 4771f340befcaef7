-- ===== src/Lib.antt =====
-- A model of LYDIAN, a platform that runs traffic between the endpoints of a data centre and records
-- whether it passes. Paths are those of the repository.
--
-- The program. A primary node (LYDIAN/lydian/apps/podium.py) knows the hosts of all endpoints. It is
-- given intents, groups them by the hosts of their two ends, and calls the service of every host over
-- rpyc (LYDIAN/lydian/controller/client.py), many hosts at once (LYDIAN/lydian/utils/parallel.py). On
-- a host the controller (LYDIAN/lydian/apps/traffic_controller.py) turns each intent into a rule
-- (LYDIAN/lydian/traffic/core.py), keeps it in a cache in front of a database table
-- (LYDIAN/lydian/apps/rules.py), and starts a client or a server for it through two managers
-- (LYDIAN/lydian/traffic/manager.py). A client (LYDIAN/lydian/traffic/client.py) pings, and its task
-- (LYDIAN/lydian/traffic/task.py) puts a record of each ping into a queue. Parameters of all of this
-- are in LYDIAN/lydian/apps/config.py. Iperf (LYDIAN/lydian/apps/iperf.py) runs beside it.
--
-- The files.
--   Base: Boolean tests, lists, dicts as association lists (`lookup` is `d.get`, `insert` is
--     `d[k] = v`, `remove` is `d.pop`), `defaultdict(list)` (Groups), the Python values that are
--     stored, exceptions as a sum, Exec, methods that change an object and may raise, and the
--     operations on texts and paths (Texts).
--   Sql: the sql30 package as a record, one table with the laws that the code relies on.
--   Traffic/Rule: TrafficRule as a dict of attributes; Traffic/Client, Traffic/Server, Traffic/Task and
--     Traffic/Manager: the classes of the files of these names, with the proofs in child modules.
--   Apps/Rules, Apps/Controller, Apps/Config, Apps/Iperf, Apps/Mock: the apps of these names, where
--     Controller/Discover is the map of endpoints of a host, Controller/Lifecycle the calls that a
--     node receives as a step relation, Controller/Switched what a start does to the rules, Controller/Halted what a stop does to the clients,
--     Rules/Refined the rules app against a map of rules, and
--     Config/Start the parameters of a node that starts, with LYDIAN/lydian/common/consts.py in
--     Config/Constants.
--   Apps/Background: the threads beside the service (LYDIAN/lydian/common/background.py) and the record
--     handlers of LYDIAN/lydian/apps/recorder.py.
--   Apps/Podium: Endpoints is the map of endpoints, Traffic the requests, Cluster the start,
--     stop and removal of a request with the controllers of its hosts (each host a node of its own), Mesh the
--     requests for all pairs of hosts, Latency the latencies, Stats the statistics with the queries of
--     LYDIAN/lydian/apps/results.py, Measure the bandwidth between two hosts, Nodes the nodes that are added
--     and cleaned, Primary the monitoring of the primary node, Answers the hosts that are asked.
--   Apps/Capture, Apps/Console: LYDIAN/lydian/apps/tcpdump.py and LYDIAN/lydian/apps/console.py.
--   Apps/Monitor: the thread that samples a node (LYDIAN/lydian/apps/monitor.py).
--   Apps/Records: Subscribe of LYDIAN/lydian/common/core.py and the record manager, where Wavefront and
--     Elastic are LYDIAN/lydian/recorder/wf_client.py and LYDIAN/lydian/recorder/es_client.py.
--   Apps/Scan: Rapidscan (with Runs), Lynis and Threat of LYDIAN/lydian/apps/pentest and
--     LYDIAN/lydian/apps/watch; the regular expressions that they use are in Base/Patterns.
--   Hosts: Ssh is LYDIAN/lydian/utils/ssh_host.py, Prep with its children the preparation and cleanup
--     of nodes in LYDIAN/lydian/utils/prep.py, Enter is LYDIAN/lydian/utils/nsenter.py, Available is
--     LYDIAN/lydian/utils/soup.py.
--   Remote: Connect is LydianClient.connect, Parallel is ThreadPool, Network is InterfaceManager and
--     Namespaces is NamespaceManager of LYDIAN/lydian/utils/network_utils.py, Addrs is
--     LYDIAN/lydian/utils/lpsutil.py. Managers are the managers of LYDIAN/lydian/controller/client.py, as
--     the calls that they make, and Service the methods that the service exposes
--     (LYDIAN/lydian/controller/rpyc_controller.py, `exposify` of LYDIAN/lydian/apps/base.py).
--   Tests: a table in memory that meets the laws of Sql, and runs.
--
-- Conventions. A Python object is a record, and a method a function on it; a method that may raise
-- gives a result beside the object as it was left. Floats stand as their repr. Log lines are left
-- out. Values of the network, of processes and of the clock are arguments: what happens in the i-th
-- exchange, in the i-th call of rpyc, or at the i-th look at a port.
--
-- The calls that a controller or a pool makes in threads are made one after the other: ThreadPool is
-- modelled on the order in which its calls complete, and the rules of one request are started in order.
--
-- Fuel. `start` of Traffic/Client is a while loop on fuel; with n pings to send, fuel n + 1 is
-- enough. `wait_job` of Apps/Podium/Measure waits on fuel for a job; a job that is done after n looks
-- needs fuel n. `wait_on_host` of Apps/Podium/Nodes needs a round for each look before the deadline and one
-- more, and `wait_until` of Apps/Console one for each second of its limit and one more. The other loops are structural: over a list, over the attempts left, or over the
-- retries left. A server's loop runs over the turns that it meets, and the reply of a command over the
-- chunks that its channel gives.
--
-- Not modelled: sockets, threads and their interleavings inside a host, processes, and the packages that
-- the code calls (paramiko, rpyc, sql30, psutil, wavefront_sdk, elasticsearch), which are parameters; the
-- installation of the service, the egg, the HTTP server and logging, which only call such packages.
pub mod Base
pub mod Sql
pub mod Traffic
pub mod Apps
pub mod Hosts
pub mod Remote
mod Tests
