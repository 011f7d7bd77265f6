-- ===== src/Lib.antt =====
-- netifd, the network interface daemon (C).
--
-- The program keeps link layer devices (device.c), which users claim and release and which tell their
-- users of events; interfaces above them (interface.c), which tell their users when they go up and down and whose addresses and delegated prefixes are in
-- interface-ip.c; and the handlers of protocols, which run scripts. interface-event.c runs a hotplug
-- script for each change of an interface, one at a time.
--
-- Files and what they model:
--   Prelude.antt and its children: tests, lists, sets of numbered objects, integers, C strings.
--   Hotplug.antt: interface-event.c. A State holds `current`, `current_ev`, `pending` and the task's
--     `pending` flag; queue_event, dequeue_event, call_hotplug, task_complete and run_cmd keep their
--     names (run_cmd is start and start_failed). Hotplug/Invariant.antt and Hotplug/Delivery.antt hold
--     the proofs.
--   Prefix.antt: interface_prefix_assign, prefix_assignment_cmp and interface_update_prefix_assignments
--     of interface-ip.c, over the list of a prefix. Prefix/Assign.antt proves one assignment,
--     Prefix/Update.antt the whole division.
--   Device/State.antt, Device/Ops.antt, Device/Users.antt: device.c and device.h. A World is a store of
--     devices and users by number, with the tree of devices and __devlock. Function pointers (dep->cb,
--     dev->set_state, type->free), the iteration safe_list_for_each of libubox and the queries of
--     system-linux.c are the fields of an Env, so that a callback may do anything to the World.
--     Device/Invariant.antt states the invariant; Primitives, Links, Claims, Keeps, Releases and
--     Lifecycle prove it of the operations; Device/Presence.antt is about presence.
--   Device/Settings.antt: device_init_settings and device_merge_settings, with
--     system_resolve_rpfilter of system-linux.c; flags are sets of options.
--   ProtoShell.antt: the state machine of proto-shell.c (proto_shell_handler, proto_shell_task_finish and
--     the callbacks of its processes and timers) over a State, the struct proto_shell_state with what it
--     reads of its handler and interface; `effects` lists the processes started and signals sent.
--     netifd_start_process's outcome and the interface's proto_event callback are parameters, which may
--     change the State. ProtoShell/Notify.antt: proto_shell_notify and the reports that it accepts.
--     ProtoShell/Timers.antt and ProtoShell/Teardown.antt hold the proofs.
--   Interface/State.antt, Events.antt, Ops.antt, Config.antt: interface.c. A World is a store of interfaces
--     by number. Callbacks of users, device.c, interface-ip.c and the protocol's own functions are the
--     fields of an Env, and may call interface.c again; the field `told` keeps what an interface's users
--     were told, for the automaton of Interface/Contract.antt. Steady, Keeps, Links, Reload, Change and
--     Protocol prove the operations, Run histories of calls. Interface/Errors.antt has the errors and
--     values of an interface, Interface/Classes.antt interface_merge_assignment_data.
--   Bridge.antt: the members of bridge.c, with the same kind of Env. Members, Enable and Events prove that
--     they are counted right, Primary is about the port whose MAC address the bridge takes.
--   IpRule.antt: iprule_add and the update of the rules in iprule.c; a rule that is refused is none.
--     libubox's vlist, the lookup of devices and the system's names are parameters. IpRule/Bounds.antt
--     has the ranges of a rule's values.
--   Ip/State.antt, Match.antt, Policy.antt, Tree.antt, Enable.antt: the addresses and routes of
--     interface-ip.c: match_if_addr, the callbacks of libubox's vlist (update_proto_addr and the like) and
--     interface_ip_set_enabled, over the settings of one interface. A tree is its keys and the node of
--     each; `calls` lists the system calls made, and their outcomes are fields of a SystemEnv. What the
--     system has is read off the calls. Ip/Target.antt: interface_ip_add_target_route over the list of
--     interfaces; Leads is about where it finds one. Sync, Loop and Routes prove that the system has the
--     routes of the tree, Addresses and Agree are about addresses.
--   Wireless.antt: the state machine of wireless.c over a Wdev, the struct wireless_device; `effects` lists
--     the runs of its handler, the links reported, signals sent and requests answered. Whether processes
--     start and run are fields of a WirelessEnv. Wireless/Notify.antt: wireless_device_notify. Keeps,
--     Progress, Run, Ends and Retry hold the proofs. A device that has been freed is marked so.
--   Proto.antt and Proto/Apply.antt: the addresses, gateways and prefixes that proto.c sets on an interface,
--     from messages as libubox's blobmsg_parse leaves them; interface_ip_add_device_prefix is recorded as
--     a PrefixCall. Bounds and Settings hold the proofs.
--   Utils/Vlist.antt: vlist_simple of utils.c and utils.h; Utils/Netmask.antt: fls, parse_netmask_string,
--     split_netmask and parse_ip_and_netmask, with strtoul, inet_aton and inet_pton as parameters.
--   Each Tests.antt holds concrete runs and the theorems at concrete inputs.
--
-- Numbers are natural numbers: counts and identifiers stay far below the width of their C types. The
-- offsets in a prefix are below 2^31 for prefixes of at least 34 bits, as the shifts in the source
-- assume. Memory allocation is taken to succeed. Loops recur on the list that they go through, and the
-- retry of a longer prefix on the number of lengths left, 64 minus the length.
--
-- What the operations of a component ask of the code behind its function pointers, which may call back,
-- is a record Guarantee: Device/Claims.antt, Interface/Contract.antt and Bridge/Members.antt have one each,
-- with what it asks and why; the theorems named below that need it say so.
--
-- Not modelled: system calls, ubus messages, process start and logging; VLANs and other kinds of devices,
-- the configuration files; of interface-ip.c the parsing of routes, the addresses of assignments,
-- prefixes and DNS; of wireless.c the configuration passed to the handler, drivers and interfaces that
-- change; of interface.c the parsing of options and the comparison of two configurations; of bridge.c the
-- creation of members by name and the parsing of settings; of iprule.c the callbacks of its vlist; of
-- proto-shell.c the host dependencies, the descriptions of handlers, and the routes and tunnels of a
-- report; of proto.c the registration of protocol handlers.
pub mod Prelude
pub mod Hotplug
pub mod Prefix
pub mod Device
pub mod ProtoShell
pub mod Utils
pub mod Interface
pub mod Bridge
pub mod IpRule
pub mod Ip
pub mod Wireless
pub mod Proto
