-- ===== src/Lib.antt =====
-- webos-connman-adapter, the network services of webOS on top of connman: a model of its core, with
-- the theorems that make it correct.
--
-- The program mirrors connman's D-Bus objects. `src/connman_manager.c` keeps lists of services
-- and technologies and changes them under D-Bus signals; `src/connman_service.c` keeps the
-- properties of one service and marks what subscribers have to be told. `src/wifi_scan.c` decides
-- when the wifi technology is asked to scan, for clients that want scans at an interval.
-- `src/wifi_profile.c` remembers the networks the user has joined, and each change of that list is
-- stored by `src/wifi_setting.c`, encrypted, in the preference store and loaded at the next start.
-- `src/wifi_service.c` tells clients of networks. `src/connectionmanager_service.c` tells them of
-- the status of all connections: it checks whether the status has changed since it was told last,
-- takes back the marks of the services, and builds the message. `src/utils.c` has helpers on texts.
--
-- Files:
--   Base: names of the libraries, Boolean tests, lists, C strings.
--   Scan: `src/wifi_scan.c`, and the asynchronous Scan call of `src/connman_technology.c`. State
--     has the static variables as a record `Scanner`, Interval the loops over subscribers, Ops one
--     function for each C function, from state to state and result; Steps has the histories as a
--     step relation, with the timer, the replies and the clock.
--   Platform: the libraries that settings use (pbnjson, luna-prefs, OpenSSL, GLib) as a record of
--     functions, and `Documented`, what the program relies on of them. Examples/Host is an instance.
--   Profile: `src/wifi_profile.c`. A profile carries its address, by which GSList finds it.
--   Setting: `src/wifi_setting.c`. Cipher is the encryption, Store the way out, Load the way in,
--     Networks the profile list without ids and addresses.
--   Config: the config files of networks in `src/wifi_setting.c`. KeyFile has the key files of GLib as
--     a parameter, Change the functions that change one entry, Network the one that writes a file.
--   Utils: `src/utils.c`.
--   Service: `src/connman_service.c`. Kind has types and states, State the struct and its changes of
--     state, Update the messages and signals with properties.
--   Technology: the properties of `src/connman_technology.c`.
--   Group: `src/connman_group.c`.
--   Manager: `src/connman_manager.c`. Lookup has the searches, Services the signals, Connected the
--     connected service as a write into its list, the state and the peers.
--   Common: `src/common.c`, the checks that handlers share.
--   Connection: part of `src/connectionmanager_service.c`. State has its globals and, as a record
--     `Remote`, what connman answers to the calls that are made meanwhile; Message, P2p and Reply
--     build the reply to getstatus, Changes finds what has changed, Send tells it. Setters and Handlers
--     are the methods that set addresses, DNS servers and proxies, after their arguments have passed
--     the schema.
--   Pan: part of `src/pan_service.c`. Connect has a connection from its request to its reply, with the
--     connect call and the timeout in between, Answers and Ends its histories as a step relation, in
--     which connman comes and goes and a timeout may run again, Status the status, Tethering the
--     switch. A service that a request points to is known by its path.
--   Wan: part of `src/wan_service.c`. Status has the status and the contexts, Connect the methods that
--     connect and disconnect, Answers their histories.
--   Wifi: part of `src/wifi_service.c`. Signal has strength and channels, Networks the list that
--     clients get, Saved and Order what is in it, Updates the callback for changed services, Removal the removal of profiles, Wps
--     the PIN of Wi-Fi protected setup.
--   Examples: concrete runs.
--
-- How the code is read. A function that changes static or shared data takes the state and returns
-- the new one. What leaves a module (a Scan call, a callback, a handler) is an entry of a record in
-- the state, newest first. A NULL pointer is `none`; as a result, `none` is a read or
-- write through a bad pointer, a write past a buffer, or a second free of one object. `guint` counters that can wrap have `% 2 ^ 32` written out; times are
-- natural numbers, and a subtraction that can be negative in the code stands on the other side of
-- the comparison. Allocation does not fail.
--
-- Loops are structural but two: the removal loop over subscribers runs on fuel `length`, which
-- each round uses up or shortens, and the walk with `get_next_profile` on fuel `length` of the
-- list; the results on both show that it is enough.
--
-- A call of `connectionmanager_send_status_to_subscribers` from within a change of a property is an
-- entry of the service's notices and is not run; the answers of connman are fixed for the time of
-- one such call. The reads of /dev/urandom are a list, and where it ends the loop has not ended. The
-- loop over the digits of the PIN runs on fuel 4, for seven digits two at a time.
--
-- Not modelled: the other Luna handlers (the rest of `src/wifi_service.c`,
-- `src/connectionmanager_service.c`, `src/wan_service.c` and `src/pan_service.c`, and
-- `src/wifi_tethering_service.c`), the list of groups, the other remote calls, the check of
-- config files at the start and their inotify watch, and code that is input and output alone (agent,
-- counter, service discovery, pacrunner, nyx, logging, `src/main.c`).
pub mod Base
pub mod Scan
pub mod Platform
pub mod Profile
pub mod Setting
pub mod Utils
pub mod Service
pub mod Technology
pub mod Common
pub mod Config
pub mod Connection
pub mod Group
pub mod Manager
pub mod Wan
pub mod Wifi
pub mod Examples
pub mod Pan
