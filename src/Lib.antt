-- ===== src/Lib.antt =====
-- rupicola: a server that runs configured programs for JSON-RPC requests.
--
-- A request comes in by HTTP (utils.go), is checked for its size, its address and its credentials,
-- and goes to the JSON-RPC processor (rupicolarpc/rupicolarpc.go), which decodes it, finds its
-- method, calls it under a time limit and closes the response. The method is a configured program
-- (config.go, rpcmethod.go): its parameters are checked, its arguments are evaluated, and its
-- output is the result. The response is buffered, or streamed by lines, or passed on as it is
-- (rupicolarpc/rpcresponse.go, streaming.go, legacystreaming.go), always through a writer with a
-- limit. The configuration (config/config.go) is read from YAML files that include each other. The
-- program (cmd/rupicola/main.go) reads it and serves each bind point (rupicola.go, bind.go), a unix
-- socket under a lock (filelock.go).
--
-- The files:
--   Base            shared names: Boolean tests, lists, Go's integers, maps, decimal texts
--   Rpc.Value       dynamic values, errors, responses, results and calls
--   Rpc.Errors      codes, NewServerError, NewStandardError, NewError, NewResult
--   Rpc.Limit       exceptionalLimitedWriter and the JSON encoder over it; Bounds
--   Rpc.Base        baseResponse, and the parameters of the model: transport and marshalling
--   Rpc.Plain       rpcResponse; Answers, Results
--   Rpc.Legacy      legacyStreamingResponse
--   Rpc.Streaming   streamingResponse; Lines, Append, Whole for the line mode, Chunks for the
--                   chunk mode, Counts, Final, Objects
--   Rpc.Responser   the interface of the three, newResponser, io.Copy
--   Rpc.Registry    jsonRpcProcessor; Lookup
--   Rpc.Decode      requestData
--   Rpc.Process     ProcessContext; Pending, Closing, Answers, Refusals, Results,
--                   Outputs, Streams, Copies, Upgrades, Late, Timeouts
--   Rpc.Format      fmt.Sprint of a dynamic value
--   Config.Value    value and its getters; Bounds. Config.Merge: mergeValue, mergeMap; Paths
--   Config.Load     Load, searchFiles, the stack of config/stack.go; Order, Ends
--   Method          MethodDef, CheckParams, fromVal, evalueateArgs, Validate, each with its laws
--   Settings        the configuration record, its words, ReadConfig and SetLogging; Read.Laws
--   Server.Command  prepareCommand and Invoke; Access, Encoded
--   Server.Http     ServeHTTP and newRupicolaProcessorFromConfig; Access, Rounds, Methods,
--                   Configured
--   Listen.Kernel   names of files, POSIX locks and sockets, and the calls on them; Listen.Paths:
--                   the package path, and the name of a lock file; Apart
--   Listen.Lock     ListenUnixLock and Close; Steps has their steps for several processes, Alone,
--                   Invariant, Exclusion, Live and Race are about these; Quiet, Opens, Closes
--   Listen.Bind     (*Bind).Bind; Modes, Ends, Abstract
--   Listen.Serve    ListenAndServe, spawnChild. Listen.Conn: TCP listeners and their connections
--   Listen.Main     main, the signal loop, poorargparse.go; Restart
--   Tests           concrete runs
--
-- How code becomes definitions. State is passed explicitly: an operation of a responser takes it
-- and gives the error (`none` for nil) and the new one. Names are those of the code in snake case.
-- A panic is `none`, or a constructor of its own. Texts are lists of bytes, and what encoding/json
-- prints is the parameter `marshal`, the transport the parameter `Env`. Go maps are lists of
-- entries in the order of the iteration. The goroutine of a call and the select on its end are a
-- `Schedule`: the context ends not in time, after a number of calls, or within the copy of a
-- reader's chunks. Sizes that the code keeps in int64 are natural numbers where the code keeps them
-- non-negative; conversions wrap around as in Go.
--
-- The kernel has files and sockets by number, beside their names, since a lock is on a file and not
-- on its name. A process is at a stage of ListenUnixLock or of Close, and any process may take the
-- next system call at any time; writing the PID is one step with the removal of the leftovers.
-- Errors that the system may report on its own account are parameters of the calls (`Faults`).
--
-- Fuel. `write_chunks` takes a chunk of at least one byte in each round, and is given the length of
-- its input. `load` has fuel and is `none` where it is used up, since the loop of the code has no
-- bound; where no file includes itself, directly or not, some fuel is enough, and for files without
-- includes the number of files and one more.
--
-- Not modelled: the parsing of JSON and YAML, HTTP, TLS, processes and password hashes, which are
-- libraries and system calls; the records of the log; the variants for Windows; what a method that
-- overruns its time and the wait for it still writes to a stream; that a process whose output cannot
-- be copied is killed, which no answer shows; and a program that prints before Invoke has returned,
-- whose first bytes may be in the buffer of the base64 encoder when that is closed.
pub mod Base
pub mod Rpc
pub mod Config
pub mod Method
pub mod Settings
pub mod Server
pub mod Listen
pub mod Tests
