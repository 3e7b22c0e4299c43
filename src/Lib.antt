-- ===== src/Lib.antt =====
-- PowerPack meter tools: drivers for serial power meters, a registry that hides which meter is used, a
-- network protocol for readings, the servers that send readings, the server that collects them from two
-- others and keeps a log, and the calls with which a measured program controls that log.
--
-- Parts and files. Paths are under old/metertools/src, unless they start with old.
--   support/stringbuffer.c, .h    StringBuffer, StringBuffer/Block, Append, Faults, Numbers
--     A buffer's block is an explicit list of bytes, or none for a null pointer; a pointer to a buffer is
--     null, live or freed. A function is named for its C function without the prefix: sb_cat_str is
--     cat_str. An access outside a block, or through a freed pointer, is the outcome `fault`. malloc and
--     realloc are a parameter, `Allocator`, with what they document as hypotheses.
--   mapi/meter.h                  Measure, Measure/Base
--     mm_t, the unit flags as bits of a number, the names of units, meter_to_base and its fellows. Floats
--     are a parameter, `FloatOps`: no law of floating point is assumed.
--   mapi/rs_22812.c, .h           RadioShack, RadioShack/Digit, Driver, Output, Segments, Reads, RoundTrip
--     The packet of nine bytes, the display decoded from it, its text, and the driver's read and parse.
--     atof and the number conversion of sscanf are parameters; what the round trip needs of them is a
--     hypothesis of its theorem.
--   mapi/meter.c                  Meters, Meters/Registry, Meters/Read
--     The list of meters and the calls that drive any of them. A driver is a record of functions over a
--     state of the port; the drivers and select are parameters.
--   mapi/netmeter.c, .h           NetMeter, NetMeter/Wire, Replies, Convert
--     The struct of a request as bytes, little endian, with the offsets of x86-64 and of i386; the checks
--     on a reply, and the conversion of readings. What write and read report is an argument.
--   mapi/watts_up.c               WattsUp, WattsUp/Parse, Fields, Port, Records, Line, Line/Chunked, Setup,
--                                 Setup/Commands
--     The parser of a Watts Up record, watts_up_read (read_line of WattsUp/Line), the query with its
--     preamble, the set-up of the USB meter as a list of steps with what the port answers to each, the
--     loop that collects a line of the USB meter, and the mailbox between the thread that reads the USB
--     port and the threads that ask for a reading.
--   mapi/fluke_189.c              Fluke, Fluke/Reply, Reading
--     The command that is sent, the loop that collects the lines of a reply from the chunks that read
--     reports, the cutting of the reply and the parser. What an array holds before it is set is an
--     argument, as in the next driver.
--   mapi/protek_506.c             Protek, Protek/Bytewise
--     The loop that reads a line byte by byte and searches it with strchr, and the parser.
--   support/util.c                Util, Util/Removal, Strings
--     recursive_rmdir over a tree of entries, with the list of its system calls; what each of them
--     reports is a function of the calls so far. varg_tostring for both conventions of vsnprintf; trim and
--     get_hostname.
--   tools/mlogger.c               Logger, Logger/Samples, Monitor
--     monitor is a loop over rounds, each with what meter_read and gettimeofday report; the log is the
--     list of its lines. The conversion of a float to unsigned int is a parameter.
--   tools/mcontrol/multiserver.c  Server, Server/Dispatch, Runs, Logs, Power, Slots, Monitor, Monitor/Average,
--                                 Monitor/Rounds
--     client_req and client_req_fAPI are client_loop and api_loop, over a list of events: each event says
--     what select, read, fopen and chdir report in one round, and what uninitialised variables hold. The
--     log file is its text. A reply to one of monitor_netmeter's two threads is take_powers over the
--     powers that they share; the mutex records which thread holds it.
--   tools/mcontrol/mcontrol.c     LogControl, LogControl/Handled
--     handle_option is one round of the loop over the options in main; sprintf with an argument as its
--     format is written out for formats without arguments.
--   support/connectsock.c, passivesock.c
--                                 Sockets, Sockets/Pairing
--     A call returns the descriptor and the socket calls it made; what they answer is a Kernel, what the C
--     library knows of names and numbers a Resolver.
--   tools/mcontrol/mserver.c, sensor_server.c
--                                 MeterServer, MeterServer/Same, Power, Power/Answers, Rapl, Rapl/Reads,
--                                 Monitor, Monitor/Steps
--     The two have the same client_req, serve_loop, which is given what send_power writes:
--     sensor_packet or meter_packet. rapl_read is given the values of the registers, monitor_round what
--     the meter reports. Steps is the relation between the states of the program: a step is one round of a
--     connection or of the monitor, taken as a whole.
--   old/functionAPIs/fcontrol.c, netmeter.c
--                                 FunctionApi, FunctionApi/Limits, Fortran, Sent, Session
--     The calls keep their names in C; those for Fortran are fortran_init and its fellows. The state is
--     lfile, the bytes written to each connection, the connections left open and the commands for the
--     shell; what netmeter_connect gives is a function of the number of connections so far.
--   old/niserver/niserver/nidaqmx_server.c, ContAcq-IntClk.c
--                                 NiServer, NiServer/Acquire, Visits, Pipeline
--     every_n_callback turns what the device's library reports into powers; visit_loop is client_req.
--   Prelude                       lists, tests and C strings over native numbers, signed integers,
--                                 decimal text (Prelude/Decimal), outcomes
--
-- The parts meet in these places. The reply that a server's send_power builds is read by
-- netmeter_request of its clients, so all use the struct of NetMeter/Wire, and NetMeter/Encoded has the
-- lemma on such a reply. The collecting server is such a client of mserver.c and of the Windows server:
-- what it takes becomes the state of Server/Monitor. A control message of mcontrol or of the function API
-- is read by the server. meter_read calls a driver's parser on what the driver read, so the parsers
-- share the result type of Measure.
--
-- Numbers. Native natural numbers, with the wrap-around of unsigned int and size_t written out. An int that
-- comes off the wire is its bit pattern of 32 bits. Where C would go out of range the model says `fault`
-- or `none`.
--
-- Fuel. The search for a free connection runs on fuel: 101 rounds from slot 0 reach every entry and the
-- one behind the last. varg_tostring runs on fuel: as many rounds as the text has bytes, and one, are
-- enough. Loops over what arrives are structural on the list of what arrives; all other
-- loops are structural too.
--
-- Not modelled. The acceptance of connections but for its search for a free entry, threads but for
-- the order of their rounds in MeterServer/Monitor/Steps, terminal settings, signal handlers, the set-up of
-- the NI-DAQ task and the opening of the processor's registers, which are input and output only. The requests
-- that mlogger answers, the loops of the command-line clients, daemonize of util.c, the lines of readings
-- that monitor_netmeter prints to the log, and mic_sensor_read, which is compiled out. usb_wattsup.c,
-- serial_watts_up.c and the copies of meter.c, netmeter.c and connectsock.c repeat files that are modelled.
-- NIDAQmx.h is another project's header, and the C++ rewrite in src is another language. Of floating point,
-- only the names of the operations.
pub mod Fluke
pub mod FunctionApi
pub mod LogControl
pub mod Logger
pub mod Measure
pub mod MeterServer
pub mod Meters
pub mod NetMeter
pub mod NiServer
pub mod Prelude
pub mod Protek
pub mod RadioShack
pub mod Server
pub mod Sockets
pub mod StringBuffer
pub mod Util
pub mod WattsUp
