-- ===== src/Lib.antt =====
-- go-psrp, the PowerShell remoting client in Go: models of its parts and what is proved of them.
--
-- The client (client/) runs commands on a runspace pool. Each call of Execute and Connect goes
-- through the circuit breaker; Execute retries, and takes a slot of the pool semaphore for each
-- attempt; the backend (powershell/) opens, closes, disconnects and reattaches the shell and makes
-- the transport from which a pipeline's output is read.
--
-- The files and the code they model:
-- - Breaker: client/breaker.go. A method takes the breaker and the reading of the clock; the
--   callbacks that are started with `go` are listed in order. Breaker.Invariant interleaves the two
--   locked sections of Execute in any order.
-- - Semaphore: client/semaphore.go. The steps of Acquire and Release between which other goroutines
--   may run are steps of a schedule; the queue counter is an int32 with its wrap-around.
-- - Powershell: powershell/. Remote is the interface to what is called (PoolClient, the runspace
--   pool of the PSRP core library, contexts); Transport, Adapter and Backend are transport.go,
--   adapter.go with pipeline.go, and runspace.go.
-- - Matching: the matching of error texts and scripts against patterns in client/reconnect.go and
--   client/client.go. Go's strings.ToLower is modelled on ASCII.
-- - Retry: client/retry.go, with float64 and the source of randomness as parameters.
-- - Execute: client/client.go, Execute with its retry loop; Execute.Recovery is
--   executeWithReconnectHandling, waitForRecovery and Health. What an attempt does is a parameter of
--   the loop.
-- - Receive: client/client.go, runPipelineReceive, which puts the messages together from the
--   fragments; Receive.Reassembly has the layout of a fragment as MS-PSRP gives it.
-- - Session: client/client.go, the life of a client. Session.Settings is the configuration with
--   client/uri_helper.go, Session.Interface what the client calls (the backend's interface, the
--   runspace pool), Session itself Connect, Session.Ending the close, Disconnect and Reconnect.
-- - Pipeline: client/client.go, startPipeline with its three tries; the pool, the pipeline and the
--   backend are parameters.
-- - Reconnection: client/reconnect.go, attemptReconnectWithBackoff; floats, the waits and
--   Client.Reconnect are parameters.
-- - Winrs: winrs/, a shell's close and its processes; the transport's calls are parameters.
-- - Rotation: internal/log/rotation.go on a directory without failures.
-- - Transfer: client/filetransfer.go. Transfer.Upload is copyFileParallel, with its workers as the
--   steps of a schedule; Transfer.Segments copyFileParallelHvSocket and its workers;
--   Transfer.Streaming copyFileStreaming; Transfer.Fetch FetchFile; Transfer.Copy CopyFile, which
--   picks one; Transfer.Options, Progress, Scripts and Output what they share. A transfer's remote
--   host, files, pipelines and clients are parameters.
-- - Eventing: client/eventing.go, an event subscription in steps; the calls of the WSMan client are
--   parameters.
-- - Redaction: internal/log/redaction.go, with the next handler as a parameter.
-- - Hvsock: hvsock/auth.go, both stages of a PowerShell Direct connection; sockets are a parameter.
-- - Common: tests, lists, texts as lists of bytes, signed integers, and the state and error monad.
--
-- Bounds and fuel: the polling loop of the transport's Read takes fuel, since a server may
-- answer with nothing for ever; Transport.Polling has how much is enough. So does the wait for a
-- recovery; Execute.Recovery.Bounded has its bound. The reconnection attempts have no
-- limit with MaxAttempts 0; Reconnection.Attempts says what fuel they need.
-- Winrs.Output does so for the Wait of a process. The workers of an upload move by a schedule
-- that may stop anywhere; Transfer.Upload.Ending says which schedules are long enough. Clock readings are
-- nanoseconds as natural numbers, and their differences are not saturated as Go's are beyond 292
-- years. Mutexes are not modelled: what one protects is one step; a close of the client is two, with
-- other methods between them.
--
-- Not modelled: HTTP and authentication over it, the opening of Windows sockets and the packets on
-- them, the command line, the options of a WinRS shell, the rate limit of an upload and the
-- waits in it, and logging where it only writes; nor the goroutine of the reconnect manager.
pub mod Common
pub mod Breaker
pub mod Semaphore
pub mod Powershell
pub mod Matching
pub mod Retry
pub mod Execute
pub mod Receive
pub mod Session
pub mod Pipeline
pub mod Rotation
pub mod Reconnection
pub mod Winrs
pub mod Transfer
pub mod Eventing
pub mod Redaction
pub mod Hvsock
