-- ===== src/Lib.antt =====
-- cc_dey: ConnectCore Cloud Services for embedded Linux. Local programs talk to a daemon over a
-- TCP connection, and the daemon talks to the cloud through CCAPI, a library of its own.
--
-- Paths are those of the repository.
-- Socket: library/src/services/services_util.c, the transport. A socket carries the answers that
-- the operating system will give: for the receiving loops a list of turns (clock, select, chunk
-- or error), for the sending loop a list of accepted pieces or errors. `read_amt`, `read_line`
-- and `send_amt` are recursive on these lists, and a loop that uses its list up is `blocked`: no
-- other bound is set, and the theorems ask for a list with a chunk for each byte at least.
-- Socket.Fair says what such a socket is: it is ready at every turn, its clock stays within a
-- window, and a receiving call may be interrupted any number of times.
-- Decimal: the "%u" of snprintf and strtoul as services_util.c calls them, with a 64-bit long.
-- Wire: the values of the protocol, in both directions, from the same file; Wire.Grammar has the
-- grammar of its head comment, Wire.Write and Wire.Read show that the code is in step with it.
-- CommError: library/src/services-client/cccs_definitions.h.
-- Client: library/src/services-client/cccs_services.c (`parse_cccsd_response`); Client.Upload:
-- cccs_datapoints.c (`send_dp_data`, `cccs_set_maintenance_status`), and Client.Registration:
-- cccs_data_request.c (`send_data_request_data`), on top of it; Client.Requests: the table of
-- targets in the same file, and the two calls that change it.
-- Daemon.Dispatch: library/src/services/services.c, which picks the handler of a request.
-- Daemon.Upload: service_dp_upload.c (`handle_datapoint_file_upload`), which reads what
-- `send_dp_data` writes. Its loop has fuel, one unit for each record and one for the end.
-- Daemon.Maintenance: the maintenance request of the same file.
-- Daemon.Requests: service_data_request.c, the handlers that register and unregister a target.
-- Registry: library/src/services/service_data_request.c, the table of registered data requests;
-- Registry.Sync has the table beside the targets that CCAPI serves (Covered): these are more, since
-- the daemon adds some with CCAPI alone. Registry.Dump: the file that the table is kept in over a
-- restart; on one within the program the table still is there when the file is imported.
-- Csv: library/src/services-client/stringify_tools.c, the writer of characters with its buffer
-- (Csv.Number: integers and doubles, Csv.Quoted: strings), Csv.Machine and Csv.Generator:
-- dp_csv_generator.c, the state machine that writes data points. Csv.Point has the data that it
-- reads, Csv.Generator.Text the line of a point, Csv.Generator.Sheet the points that it comes
-- to, and Csv.Read a reader of a field. The loop of `generate_dp_csv` has fuel, 22 rounds for a
-- line and one for the end; the loop in `process_double` has one of its own, of which a round is
-- enough while the heap has room.
-- Collection: library/src/_cc_datapoints.c and cccs_datapoints.c (`dp_send_collection`): the CSV of a
-- collection of points, the upload of it, and the removal of what was sent. 22 rounds for each of
-- the 250 points of a request, and one more, are enough for the generator.
-- Backlog: the rest of _cc_datapoints.c, and the functions of library/src/utils.c that it uses.
-- The backlog directory is a tree of entries in the order of alphasort; Backlog.Directory has
-- the calls that change it, Backlog.Store puts a file there, Backlog.Copy has the copy loop,
-- which is recursive on the answers of read and write, Backlog.Trim follows the check of the
-- size, whose fuel is one unit for each file and one for the end, and Backlog.Send sends the
-- oldest file. The search for that file writes a byte more than it asked for at each path; this
-- is a `fault`, unless the heap gives that byte (Backlog.Trim.Slack), and how many bytes a block
-- really has is an answer of the system (`usable`). The answers of the system are records
-- (Calls, Io, Sys). A name "." or ".." in a stream id, and a path longer than PATH_MAX, are left
-- out.
-- Monitor: library/src/cc_system_monitor.c, the matcher that picks the metrics. Its loop has fuel,
-- of which some amount is always enough; without a '*' in the pattern it is a turn for each
-- character of the value. Monitor.Samples: the same file (`send_system_monitor_samples`), from where
-- there are enough samples on; one fuel serves the generator and the check of the backlog.
-- Text: library/src/utils.c, the functions that clean a string.
-- Base: the names, tests and list lemmas that the others share. Tests: sockets and concrete runs.
--
-- Errors are return codes in the source and values (`err`) here; an access outside an object is
-- `fault`, or `out_of_bounds` for a string. The operations on double are a record,
-- Csv.Number.Floats. CCAPI is not part of the repository: Registry and Daemon.Upload take its
-- calls as a record of operations, and Registry.Sync.Laws states what is documented of them.
-- Logging has no model. The heap is a function from sizes to success.
--
-- Not modelled: the configuration, the rest of the system monitor, the firmware update, the
-- callbacks of data requests, and the threads, signals, files and devices of the rest, most of
-- which is made of system calls.
pub mod Base
pub mod Socket
pub mod Decimal
pub mod Wire
pub mod CommError
pub mod Client
pub mod Registry
pub mod Text
pub mod Csv
pub mod Monitor
pub mod Collection
pub mod Backlog
pub mod Daemon
mod Tests
