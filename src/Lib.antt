-- ===== src/Lib.antt =====
-- A model of the core of cheops-ng, with the theorems that make it correct.
--
-- The program is a network mapper. An agent process waits for descriptors (io.c) and for times
-- (sched.c) in one loop, and talks to its clients in messages that event.c puts together and
-- hands to handlers. Each of these parts keeps its state in static variables and calls back into
-- the program; the callbacks in turn add, change and remove entries of the same tables.
--
-- Prelude: the library names that the development uses, tests on numbers, lists, the bytes of a
--   word, and the integers of C (an `int` is an integer whose range is written out where the
--   code can leave it).
-- Sched (sched.c, sched.h): Time is `struct timeval`, SOONER and `sched_settime`; Defs holds the
--   static variables and `cheops_sched_add`, `cheops_sched_del`, `cheops_sched_wait`,
--   `schedule`, `sched_alloc` and `sched_release`; Runq is `cheops_sched_runq` with callbacks
--   that add and delete entries. The proofs are in Order, Queue, Removal, Invariant, Safety and
--   History (what every reachable state satisfies), Liveness and Termination (the loop ends),
--   Contract (what add and delete promise) and Wait (the time to sleep).
-- Io (io.c, io.h): Defs holds the two arrays, the ids and `io_grow`, `cheops_io_add`,
--   `cheops_io_change`, `io_shrink` and `cheops_io_remove`; Wait is `cheops_io_wait`. An id is a
--   pointer to an `int`; the model keeps the cells that are allocated, so that a use of a freed
--   id is a fault. The proofs are in Invariant, Shrink, Serving and Callback.
-- Event (event.c, event.h): Defs is `handle_agent` over the receive buffer of an agent; the
--   proofs are in Safety and Stall. Registry is `event_register_handler`, with its proof; Agents
--   is `chk_agent`, `event_destroy_agent` and `event_cleanup`, with the proofs in Cleanup. Auth
--   is `handle_auth_request`; getpwnam(), getspnam() and crypt(), which may give no string, are
--   parameters.
-- Cache (cache.c, cache.h): Defs is `add_to_cache` and `in_cache`; the proofs are in Bound and
--   Eviction.
-- Probe (probe.c, probe.h): Defs is the table of probes; Life is `get_version` with its
--   callbacks, over the entries of io.c and sched.c that belong to one probe, and the events
--   that reach them in any order. A removal from a callback of io.c moves the last entry of its
--   table, and io.c then drops an entry by its old place: the model faults where that is
--   another. The proofs are in Table, Refine, Callbacks and Release. Text is `after_text` and
--   Strip is `strip_version`, each with its proofs.
-- Services (cheops-osscan.c): Defs is the list of services with `add_service`, `remove_service`,
--   `remove_all_services` and `get_service`; the proofs are in Lookup and Removal.
-- IpUtils (ip_utils.c, ip_utils.h): Defs is `inet_checksum` and `allones`; the proofs are in
--   Checksum and Mask. Address is the macros for the classes of addresses.
-- Discover (agent-discover.c, agent-settings.c): Defs holds the queue of discoveries,
--   `handle_discover_request` and `handle_set_settings`, Send is `ping_send` with its loop, and
--   Receive is `handle_ping_recieve` on the bytes of a packet, with the result of `handle_map`
--   given. A discovery has the address that malloc() gave, which the packets carry and bring
--   back. The proofs are in Range, Loop and Ends (the loop ends, and what it leaves), Queue,
--   Packet, Vetting (what comes back), Requests and Reach (every history). It uses Sched, Cache
--   and IpUtils as the code does.
-- Map (agent-map.c, agent-map.h): Defs holds the requests, `map_connect`, `mr_probe`,
--   `map_timeout`, `start_mapping` and `handle_map_icmp_request`, and Packets is `handle_map`.
--   The links that are sent to agents are kept with the request that they are sent for, so that
--   the path of a request can be stated. The proofs are in Trail, Kept, Traced and Within (what
--   the loops keep), Reach (every history) and Arrival.
-- OsScan (agent-osscan.c, gui-handlers.c): Reply is `send_osscan_reply` and Client is
--   `handle_os_scan_reply`, on the bytes of the options; the proofs are in Options and
--   RoundTrip. Worker is `enqueue_osscan`, `dequeue_osscan`, `agent_osscan_send_event` and
--   `osscan_timer` as steps of two threads between their locks; the proofs are in Order
--   and Histories. What nmap finds is a parameter.
-- Monitoring (cheops-monitoring.c, gui-monitoring.c): Nodes is the tree of nodes and Session is
--   `monitoring_session_run`, with strtok_r() as Tokens and "%d" and atoi() as Prelude.Decimal;
--   Gui is `gui_monitoring_init`. The proofs are in Tokens, Tree, Kept and Reach (the tree),
--   Placed (where a node stands), Run and Missing (what a session does) and Made.
-- Shell (cheops-sh-guts.c, misc.c): Discover is `do_discover`, with & and | in Bits; Network has the
--   addresses of a mask, and Asked what the agent makes of the requests. Parse is `parse` and
--   the line of `do_force`, with the proof in Words.
-- Agent (agent-discover.c): `handle_ping_recieve` with its call of `handle_map`, so that a
--   packet goes through Map and then through Discover.
--
-- Callbacks, handlers, the clock, malloc() and poll() are parameters: functions, of any values,
-- that may depend on the state. Mutexes are left out, and each call
-- runs alone, but for the thread of OsScan.
--
-- The loops of `cheops_sched_runq`, of `cheops_io_wait` and of `again` in `handle_agent` run on
-- fuel. For the scheduler, fuel above the number of due entries is enough while the clock stands
-- still; for `handle_agent`, fuel above the size of the buffer; for `event_cleanup`, above the
-- number of agents; for `allones`, 33; for `ping_send`, above the number of addresses that
-- remain in its passes and 4. Counters of ids do not wrap in the model; `maxfdcnt` and `fdcnt`
-- wrap as the `unsigned int` they are, and the lengths in `handle_agent` as `size_t`.
--
-- Not modelled: the agents that probe ports and query names, the reader of nmap's documents, the
-- other commands of the shell, the windows of the graphical client, logging, the sockets and TLS
-- calls, and the copy of the adns library.
pub mod Agent
pub mod Prelude
pub mod Sched
pub mod Io
pub mod Event
pub mod Cache
pub mod Probe
pub mod OsScan
pub mod Services
pub mod Shell
pub mod IpUtils
pub mod Discover
pub mod Map
pub mod Monitoring
