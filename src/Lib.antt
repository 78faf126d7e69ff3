-- ===== src/Lib.antt =====
-- Oxydactylus: a panel that manages game servers, and a daemon on each node that runs them.
--
-- The panel (crates/panel) is an HTTP service over a database. A handler reads rows, checks what
-- the user may do, changes rows, and asks the daemon of a node (crates/node) over gRPC to start,
-- stop or provision a container, or to run a command in it. A scheduler inside the panel does the
-- same by itself once a minute. The two meet in the requests that the panel sends.
--
-- What stands where:
--   Base: lists, texts, integers, and the laws of the statements on tables.
--   Panel/Error: crates/panel/src/error.rs, `PanelError`, its conversions and status codes.
--   Panel/Permissions: crates/panel/src/permissions.rs, the table of permissions.
--   Panel/Store: the tables of crates/panel/migrations, the structs that the rows are read into, the
--     statements that a handler runs, and the requests of crates/panel/src/node_client.rs. A handler is
--     a function on `World`; Store/Rows has the tables, and Store/Frame the rules by which proofs go
--     through a handler.
--   Panel/Access: `fetch_server`, `check_server_access` and `get_node_client` of
--     crates/panel/src/servers.rs, `check_access` of crates/panel/src/subusers.rs. Access/Laws has
--     `Allowed`, who may do what, as a relation on the tables.
--   Panel/Power: `start_server`, `stop_server`, `restart_server`, `server_command` and
--     `server_stats` of crates/panel/src/servers.rs.
--   Panel/Lifecycle: `list_servers`, `create_server`, `get_server`, `delete_server` and
--     `provision_server` of the same file.
--   Panel/Network: `list_server_network`, `assign_allocation`, `remove_allocation` and
--     `make_allocation_primary` of the same file.
--   Panel/Settings: the routes of crates/panel/src/settings.rs, with reinstall and suspend.
--     Settings/Machine has the machine of a server's status, the requests that may move it and the
--     ways that each may take, with no tables and no nodes in it.
--   Panel/ServerFiles: the routes of crates/panel/src/files.rs, from the checks to the request to
--     the node.
--   Panel/EnvMap and Panel/Startup: crates/panel/src/startup.rs, the environment of a server as a
--     map, the values of its egg's variables, and which of them a user may edit. EnvMap/Stored has
--     what the texts say that are written from such a map.
--   Panel/Tokens, Panel/Login and Panel/Users: crates/panel/src/auth.rs, the tokens with the
--     extractors `AuthUser` and `AdminUser` that read them from a request, the login, the refresh
--     and the check of SFTP users, and the users of crates/panel/src/users.rs.
--   Panel/Secrets: the encryption of the passwords that the panel stores, crates/panel/src/db.rs.
--   Panel/PortSql: `port_sql` of the same file; PortSql/Numbered has the two ways in which databases
--     give values to placeholders.
--   Panel/Hosts and Panel/Databases: crates/panel/src/database_hosts.rs, and the routes of
--     crates/panel/src/server_databases.rs.
--   Panel/Nodes: the routes of crates/panel/src/nodes.rs.
--   Panel/Eggs: the routes of crates/panel/src/eggs.rs; Eggs/Import has the import of a document in
--     the format PTDL_v2, Eggs/Export the document of an export, Eggs/Document a reader of it.
--     Panel/Toml has the values that documents are made of.
--   Panel/Activity: the log of crates/panel/src/activity.rs and its pages.
--   Panel/Ports and Panel/Allocations: crates/panel/src/allocations.rs, the ports that a request
--     names, and the handlers.
--   Panel/Subusers: the routes of crates/panel/src/subusers.rs.
--   Panel/Scheduler: crates/panel/src/scheduler.rs, from `tick` to `run_task`.
--   Panel/Schedules: the routes of crates/panel/src/schedules.rs.
--   Panel/Backups: the routes of crates/panel/src/backups.rs.
--   Panel/EggVars: `parse_rules`, `validate_var` and `load_egg_env` of crates/panel/src/egg_vars.rs.
--   Panel/MySql: the validation, the escaping and the texts of the statements of
--     crates/panel/src/server_databases.rs; MySql/Literals has MySQL's side, the reader of literals.
--   Panel/Logs: `stream_server_logs` of crates/panel/src/servers.rs, what a browser gets of the log
--     of a server; Logs/Streamed puts it behind the node's side.
--   Panel/NodeClient: the methods of crates/panel/src/node_client.rs, each with the handler of the
--     node that answers it; NodeClient/Commands has what a request makes a container run.
--   Node/Error: crates/node/src/error.rs, and how an operation of the daemon runs.
--   Node/Docker: the trait `DockerBackend` of crates/node/src/docker.rs as a record; Docker/Config has
--     the configuration of a container with its ports and limits, Docker/Bollard `BollardDocker`.
--     Docker/Ports starts from the texts of the ports that the panel writes.
--   Node/Service: the handlers of crates/node/src/server.rs; Service/Transfer has the download and
--     the upload of a file, Service/Upload what commands an upload is, Service/Logs
--     the log stream with crates/node/src/stream.rs.
--   Node/Files: the commands of crates/node/src/files.rs; Files/Operations has its functions and
--     Files/Listing the entries of a directory. Node/Shell has the shell's side, the reader of words.
--   Node/Backups: crates/node/src/backups.rs and its handlers.
--   Node/Toy: a codec and a container that takes every command, for the runs of the daemon.
--   Node/Guard: `BearerInterceptor` of crates/panel/src/node_client.rs and `AuthInterceptor` of
--     crates/node/src/interceptor.rs, the token of the requests to a node.
--   The modules Examples hold runs on small databases (Panel/Sample) and on small texts, with toy
--     versions of the crates (Panel/Toy).
--
-- How the code is translated: a handler takes the state of the world and returns a result beside the
-- new state, also when it fails, since what it did before the error stays done. `?` is the bind of
-- a do block; `let _ =` and `match` on a result are `attempt`. The part of a handler below a query
-- is a function of its own where it branches (`start_checked`, `assign_found` and so on). A
-- statement is a function on the tables; a row is a decoded struct, so a `Uuid` is a number and
-- text that does not decode does not occur, but for the identifier of a server that the scheduler
-- parses itself. A wait of the scheduler adds the seconds that it asks for to the world (`slept`);
-- a negative offset of a task asks for 2^64 seconds less a few, as the cast to u64 does.
--
-- What the environment decides is a part of the world: for each statement to come whether it
-- fails and how (`faults`), for each request to a node whether it is refused (`replies`), for
-- each statement on a MySQL host whether that fails (`mysql_faults`; `mysql_calls` records what
-- was asked); with which error the database answers a statement that violates one of its constraints
-- is a part of the tables (`violation`), since the three databases differ in that. Theorems
-- are about all of them unless they say that none fails. What libraries
-- compute is a parameter: the cron library's next time, JSON texts, regular expressions, the
-- order in which a hash map is iterated; so are new identifiers and the time. A crate that the
-- theorems rely on is a record of operations beside a record of its documented laws: `Jwt` and
-- `IsJwt` for tokens, `UuidText` and `IsUuidText` for the text of identifiers, `Argon2` and
-- `IsArgon2` for the hashes of passwords, `Crypto` and `IsCrypto` for the cipher and its
-- encodings. On the node these are `Client` for bollard, `FloatOps` for floating-point numbers,
-- `Codec` for base64 and the bytes of texts, `Host` for processes and files, and the backend itself
-- where a handler is generic over it; an operation of the daemon is a function on their state.
-- A stream is the list of what it yields. The receiver of a stream takes a number of messages and
-- then drops the channel, which the sender notices: the loop of a download, which has no bound of
-- its own, recurses on that number. Other loops are over lists, but for that of `parse_rules`: its fuel is
-- the length of the text in bytes and one more, and each round leaves less of the text. Numbers of 32 bits keep
-- their bounds where the code computes with them (`after_i32`, `parse_i32`).
--
-- What is not modelled: the wire formats and the HTTP layer; other requests at the same time (a
-- handler's statements run one after the other with none between them); the order of rows where the
-- code does not depend on it; entries of the log other than those of the scheduler; that a spawned
-- task runs beside the handler that spawned it; the start of both services, the listener for
-- SFTP, which serves nothing, the command line and the frontend.
pub mod Base
pub mod Panel
pub mod Node
