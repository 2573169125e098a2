-- ===== src/Lib.antt =====
-- A verification library for the testbed: the simulator of path hopping, the allocation of flows to
-- the paths of a network, the trials that the experiments run, the trials of port mirroring with their
-- files, the sending of traffic, and the statistics.
--
-- The parts of the program, and how they interact. A trial (rest_client/nw_control/trial_provider.py)
-- is a named dictionary of parameters, and a trial provider is a list of trials; the tables of
-- rest_client/path_hopping_simulator/trials.py build providers. The simulator
-- (rest_client/path_hopping_simulator/simulator.py) has nodes that hold shares, flows that cut messages
-- into shares and send them over some of their paths, and attackers
-- (rest_client/path_hopping_simulator/attackers.py) that look at the shares of the nodes they monitor.
-- A step delivers the shares that have arrived, sends new messages, moves the others one hop, lets the
-- flows hop to other paths, and lets the attackers look. On the testbed itself the flows and their
-- paths come from rest_client/path_hopping/flow_allocation.py, greedily or by a linear program, and
-- the multipath routing experiments keep their flows in rest_client/mp_routing/trial.py. The trials of
-- port and flow mirroring (rest_client/trials/) are read from the files of a solver, visited by the
-- provider of rest_client/port_mirroring/trial_provider.py, and mapped to the switches and ports of the
-- network by rest_client/nw_control/topo_mapper.py. Hosts send with traffic_generation/traffic_gen.py;
-- rest_client/nw_control/stat_monitor.py and rest_client/mp_routing/stats_processor.py turn what was
-- counted into utilization and loss. What a trial has measured is kept in the folders of a results
-- repository (rest_client/nw_control/results_repository.py).
--
-- Which module models which part:
--   Base        What the parts share: Boolean tests and `==` (Tests), lists (Lists), bitwise and
--               (Bits), Python's exceptions (Results), dictionaries (Dict), sorted and groupby
--               (Sorting), floats (Numbers) and integers (Integers), texts with split, splitlines, int
--               and what a print and a read give back (Text).
--   Simulator   Share, Node, Flow, World: the classes of simulator.py with their methods under the
--               same names; World.step is PathHoppingSimulation.step, cut at its loops. Attacker: the
--               attacker classes as one data type, with select_monitored_nodes and capture_shares by
--               class. Graph: build_n_parallel_graph of rest_client/path_hopping_simulator.py. Random:
--               numpy's draws. Flow/, World/ and Attacker/ have the proofs.
--   Trials      Trial and Provider: the classes of trial_provider.py. Parameters: the tables. Numbered:
--               those with a loop of their own, and rest_client/attacker_tests/trials.py.
--   Allocation  Flow: the class. Greedy: compute_greedy_flow_allocations. Shortest: the allocations
--               over K shortest paths, and single_flow. Program: gurobi's variables, expressions and
--               calls. Splits: create_k_paths_model and create_path_hopping_ilp_model. Ilp: the loops
--               around them. Mcf: create_mcf_model and compute_mcf_flows. Routes: the traversals of the
--               solution. Solver: a solver for the tests.
--   Openflow    Flowmod: the classes Flowmod, Match and Action of rest_client/nw_control/flowmod.py.
--   Routing     Trial: the classes Flow and Trial of rest_client/mp_routing/trial.py. Orchestrator:
--               MPRouteAdder of rest_client/mp_routing/multipath_orchestrator.py, which installs the
--               routes as Openflow's rules; what it tells the controller is recorded in its state.
--               Tags: OnosRouteAdder of rest_client/mp_routing/onos_route_adder.py.
--   Topology    Controller: links and hosts; Graph: the graphs; Mapper: the isomorphism and the checks,
--               all of topo_mapper.py.
--   Mirroring   Flow, Switch, Solution, Trial: the classes of rest_client/trials/port_mirroring_trial.py.
--               Definitions and FlowTrial: those of rest_client/trials/flow_mirroring_trial.py. Provider:
--               TrialProvider. Physical: map_to_physical_network, with map_port_ids_to_nw_ports and
--               verify_path_ports of rest_client/port_mirroring/onos_rest_helpers.py. Requests: the
--               requests of that file.
--   Traffic     Models, Rates, Dscp, Transmit: the models, the rates, the choice of the path, and the
--               loop of traffic_gen.py.
--   Statistics  Monitor: OnMonitor. Samples: the utilization from the monitor's samples. Utilization and
--               Loss: StatsProcessor.
--   Repository  Files: the folders and files of pathlib, whose texts are read with their newlines
--               translated. The module itself: ResultsRepository of
--               rest_client/nw_control/results_repository.py.
--   Modules named Tests, or with a name that ends so, have runs on small inputs and examples of the
--   theorems; Base/Tests has the Boolean tests.
--
-- Conventions. A method that changes its object returns the new object; a method that can raise
-- returns a Result, whose errors are Python's exceptions. A dictionary is a list of entries in the
-- order of insertion. Node numbers and counters are natural numbers. Floats are a record of operations
-- without laws (Numbers); a theorem that needs laws of arithmetic has IsOrdered as a hypothesis, which
-- exact numbers have and floats have up to rounding.
--
-- A text is the list of its code points. int reads digits only, and lower changes the letters of ASCII
-- only, where Python's also know signs, blanks and other alphabets. How a float is written and read is a
-- parameter (FloatFormat), and that a number is printed exactly is a hypothesis, as is that pprint's
-- text of the ports evaluates to them. Random solutions of port mirroring are kept without their
-- coverage, which only __str__ shows.
--
-- Code outside of the repository is a parameter. numpy's draws are a function of the number of the
-- draw in the simulator, and a list of requests in the allocations: the endless loops there run over
-- the list and say whether they have stopped. networkx's paths come with the requests. gurobi is a
-- function from models to values of the variables, or none for a model without a solution; that the
-- values solve the model is a hypothesis, which Solver shows to be satisfiable. What the controller
-- answers, what scipy draws and how long a round of the sender takes are arguments. A sender runs for a
-- list of slices of time and is then interrupted inside of the next, also inside of a burst, before its
-- packets are counted. networkx's isomorphism of two graphs is a function.
--
-- Fuel. traverse_graph_iterative runs on fuel (n + 1) ^ (n + 1), where n is the number of entries of
-- F: a path has no node twice, so it has at most n + 1 nodes and n ways to go on, and each round takes
-- away one path for at most n that are longer. The recursive traverse_graph, which follows loops
-- without end, takes its fuel as an argument. Nothing else needs fuel.
--
-- Not modelled: output (printing, plots), the classes' __str__ methods, databases, ssh, mininet
-- and the REST clients of the controllers, since all they do is outside of the program; the parsing
-- of gurobi's variable names, which are constructors with their indices here; the Rust traffic
-- generator. Nor are the route files, the names and addresses of hosts, the packet capture and the traffic
-- analysis modelled.
pub mod Base
pub mod Simulator
pub mod Trials
pub mod Allocation
pub mod Openflow
pub mod Routing
pub mod Topology
pub mod Mirroring
pub mod Traffic
pub mod Statistics
pub mod Repository
