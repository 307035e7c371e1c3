-- ===== src/Lib.antt =====
-- The IEX price daemon (directory Daemon): it keeps a table of companies, asks the IEX service for
-- their prices over HTTP, stores them, and serves them over gRPC. A process that is started as a
-- daemon supervises a worker and starts it again; the worker runs the Controller, which ties the
-- configuration, the database, the IEX client and the gRPC server together.
--
-- Parts and files. A file with children holds the definitions; its children hold the proofs.
--   Base            texts as lists of character codes, std::map as a list in the order of its keys,
--                   and what a call does: Result is a value, an exception or an end of the run that
--                   no handler sees; Exec is an action on an object, which keeps what was written
--                   before an exception.
--   Filesystem      common_utils/filesystem.cpp: GetFileName (get_file_name), GetDirectory
--                   (get_directory), CreateFolder (create_folder); in Filesystem/Files IsFileExist,
--                   Remove, GetFileSize, GetMD5.
--   Http            common_utils/http_types.h and http_transaction.{h,cpp}. Types: the data of a
--                   transaction. Streams: std::stringstream with its position. Transaction: the
--                   members of HTTPTransaction (record Transaction) and the three curl callbacks.
--                   Headers: Trim and ParseResponseHeaders. Connection: the constructor with
--                   InitConnection. Perform: Perform and PerformGet. Certificates: Process_SSL_CTX.
--   Common          common_utils/common_functions.cpp: System, GenerateUUID, ReplaceString; with them
--                   Config::ReplaceDots.
--   Config          config/config.{h,cpp} and config_daemon.{h,cpp}. Keys: Section, Key, KeyManager.
--                   Store: class Config with its mutex. Manager: ConfigManager. Daemon: the daemon's
--                   keys, getters and Init.
--   Rpc/Client      rpc/iex/iex_client.cpp, common_data/company_info.h, and GetHTTPCompanyInfo of
--                   rpc/rpc.cpp.
--   Rpc/Service     Start and Stop of rpc/rpc.cpp, with those of rpc/grpc/peakwork_server.cpp.
--   Rpc/Method      GetCompanyInfo of rpc/grpc/peakwork_server.cpp, which the gRPC server offers,
--                   over any handler; its requests and replies as of protos/peakwork_server.proto.
--   Db/Fields       GetFieldValue and GetFieldValueList of db/itable.h, from the rows of a statement.
--   Db/Sqlite       the SQLite database with its SQLiteCpp interface, a parameter (record Sqlite): its
--                   states, how a text with its bound values is executed and read, and transactions.
--                   Meaning: what the documentation says of the statements that this program sends,
--                   on tables as lists of rows. Reading: which text is which statement. Engine: what
--                   it is for a database to behave as documented (IsDocumented).
--   Db/Statements   class ITable (db/itable.{h,cpp}): RunTransaction, UpdateField, RemoveRows, ...
--                   Columns: the overloads of GetColumnValue, and GetFieldValueList.
--   Db/Companies, Db/Prices, Db/Version     the tables of db/table_companies.cpp, table_prices.cpp and
--                   table_db_version.cpp, each operation as the text that it sends. Companies/Records
--                   is the abstract register of companies that the table implements.
--   Db/Market       what the tables of companies and prices stand for together (Market); Db/Calls:
--                   sequences of calls on them, and what each makes of a Market.
--   Db/Manager      db/db_manager.cpp: the constructor, UpgradeVersion and what they call.
--   Controller/Updates  src/controller.cpp: GetCompanyInfo and UpdatePrices over the configuration, the
--                   IEX client and the database (record World). Market: what the answers make of a
--                   Market; Worlds, Rounds, Loops: the proofs.
--   Controller/Requests  the gRPC method with the Controller as its handler.
--   Controller/Life the Controller's Start, Stop and destructor with its thread and the gRPC service.
--   Controller/Crash  SignalError of src/main.cpp, the handler of a crash in the worker.
--   Controller/Shutdown  Stop against the thread of UpdatePrices, as steps of two threads on the flag,
--                   the mutex and the condition variable.
--   Supervisor      src/main.cpp: main and PeakworkDaemonProc as compiled for a release, WorkProc,
--                   CreatePidFile and SetFdLimit. Signals: the sets that its two waits are for.
--   Examples        concrete parameters, and each result at a concrete input.
--
-- How the parts interact. The constructor of Config calls create_folder; PerformGet builds a
-- transaction, performs it and reads its storage; the getters of Daemon go through KeyManager to
-- Config. The tables of the database share one connection, which their operations thread, and
-- DBManager calls them. The IEX client takes its addresses from the configuration and its pages
-- from PerformGet. UpdatePrices asks it about each symbol and stores the answers in the tables; the
-- method of the gRPC server asks it through the Controller.
--
-- Code that is not of the repository is a parameter, with what is relied on as named hypotheses:
--   Posix           stat, mkdir, chmod, remove and the content of files (IsLawful: what mkdir makes
--                   exists, and stays, and a path that resolves has its parents)
--   Md5             OpenSSL's digest (IsIncremental: updates in pieces are one update)
--   Curl            handles, options, and a transfer as the sequence of callbacks that it makes with
--                   the code that it ends with
--   OpenSsl         the infos that OpenSSL reads of some bytes, the store that they are put in, and for
--                   which sizes there is memory
--   PropertyTree, JsonFiles, Lexical    boost property trees with their JSON files, lexical_cast, with
--                   one cast for each width of integer (Integers)
--                   (IsLawfulTree, IsBuildable: what is put or added at a path is found there, in its
--                   order, and what does not lie on that path stays; said of plain paths only, since
--                   the empty path is the root). A write to a file that fails may have changed it,
--                   and a node with a text and children cannot be written.
--   Sqlite          SQLite and SQLiteCpp (IsDocumented: each text that is one of the program's
--                   statements, with bound values of the kinds of their columns, does to the tables
--                   what the documentation says; begin, commit and roll back; no failing disk)
--   System, Regexes  popen, pclose and random UUIDs; std::regex. A command's output ends.
--   Signaled        what the system says of a crash
--   Answers         of the system to fork, sigwaitinfo and wait, one round of the supervisor each
-- and the result of gRPC's BuildAndStart is a part of each call of Start.
--
-- Choices. Numbers are natural numbers; a sum of size_t wraps at 2 ^ 64 where the code can reach it.
-- A std::mutex is a Boolean in its object: locking one that is locked ends the run (self_deadlock),
-- which is what a thread meets that holds it itself. The recursive mutex of the tables is left out:
-- their operations happen one after another. Row ids are natural numbers, below 2 ^ 63, each
-- the next above all that SQLite counts as given out; an insertion that is ignored may leave a gap
-- there (gap of IsDocumented). Foreign keys are not enforced, since their PRAGMA stands in a transaction,
-- where SQLite ignores it. Fuel is the length of the input in CreateFolder and in
-- ParseResponseHeaders; each round takes at least one character away, so it is enough. The
-- texts of curl and of the JSON parser in messages are parameters or left out.
--
-- Not modelled: the logging library third_party/plog, ITable::GetTimestamp (the clock), most entries in
-- syslog of src/main.cpp, GetCStyleStringVector (a template that nothing instantiates), the tests and
-- the build files.
mod Base
pub mod Filesystem
pub mod Http
pub mod Controller
pub mod Common
pub mod Config
pub mod Rpc
pub mod Db
pub mod Supervisor
mod Examples
