-- ===== src/Lib.antt =====
-- The GPU proxy (gpu-proxy-cpp/), which stands between mining pools and workers: it logs in to a pool
-- over TLS, hands the pool's jobs to the workers that connect to it, and sends their shares to the
-- pool. One event loop owns every connection; two managers hold pointers into it and get the events
-- through callbacks.
--
-- Files and the code that they model, all of it under gpu-proxy-cpp/src/:
-- World: the objects (the records and enumerations of the .hpp files), a heap of connections by
-- address, the trace of what can be seen from outside, and the monad of the code, in which a result is
-- a value, a C++ exception that keeps what was done, or undefined behaviour.
-- Platform: what the code calls and does not implement (nlohmann::json, sockets, OpenSSL, the clock),
-- as a record that every definition takes.
-- Stratum: stratum.cpp (StratumRequest::parse, StratumResponse::to_json, Job::from_notify).
-- Connection: connection.cpp (Framing and Io: process_read_buffer, read_data, send_line; Tls: the
-- handshake; Connect: connect_to_pool; State: construction, destruction, set_state; Moves: the move
-- operations, over objects of their own, whose implementation may be gone). Lines, Delivery, Sending,
-- Keeps, Callbacks and Moves/Releases hold the proofs.
-- EventLoop: event_loop.cpp (Tables, Timers, Poll, Run). Closing, Entries, Ownership, Waiting, Keeps
-- and Dispatch hold the proofs.
-- PoolManager: pool_manager.cpp (Messages, Link: the choice of a pool; States: on_pool_state;
-- Responses: handle_response and handle_notification; Traffic: on_pool_message and submit_share).
-- Machine is the abstract link to the pools. Invariant, Soundness, Preservation, Shares, Failover,
-- Reading and Linking hold the proofs.
-- WorkerManager: worker_manager.cpp (Messages, Jobs: send_job and the whitelist; Accept; Requests: the
-- handlers). Broadcast, Admission, Invariant, Soundness and Serving hold the proofs.
-- Tls: ssl_utils.cpp (TLSConnection; Receive: recv_line), over a system of its own (System) and a
-- monad that keeps the history of the resources (State). Ledger, Execs, Ownership, Reading, Waiting
-- and Client hold the proofs.
-- Owned: which connections are alive and which the loop lists, with a rule for each method that says
-- what it keeps of this: Tables, Changes, Rules and Pending in general, then Connections, Callbacks,
-- Closing, Loop, Pool and Workers.
-- Proxy: main.cpp (GPUProxy; Main: the command line, the signal handler and main; Teardown: the
-- destructors of GPUProxy and EventLoop, which Main leaves out), the callbacks between the parts. The
-- other files hold the proofs about several parts: Hangup, LostShares, Reachable, Shares, Whitelist;
-- Losses, Logins, Answers and Refinement about the abstract link; Lines, Jobs and Submissions about a
-- job and a share on their way; Ticking, Kept, Timing, Clock, Running, Whole and Ownership about whole
-- runs; CommandLine and Exit about main.
-- Config: config.cpp (parse_host_port, ConfigLoader), with the text of the file as an argument.
-- Address holds the proofs.
-- Base: shared names, association lists for std::map and std::unordered_map, text as a list of bytes,
-- numerals. Outcome and Preserve: how properties of a run of the monad are stated and put together.
-- Tests: a concrete platform and worlds.
--
-- Numbers: descriptors, ports and addresses are natural numbers, and a descriptor of -1 is none. An
-- int that is read from JSON is its bit pattern. The counters wrap or fault as the code's do:
-- next_extra_nonce2 modulo 2^32, time modulo 2^64, next_id at INT_MAX.
--
-- Fuel: the loop of process_read_buffer runs on one step more than the length of the buffer, and each
-- round takes at least one byte off it; the loop of check_timeouts runs on one step more than the
-- number of timeouts, and each step takes one timeout or moves on, which is enough while the callbacks
-- add none, as those of the proxy do; the loop of recv_line runs on one round more than its timeout
-- has units of physical time, and each round takes one at least, although two reads of the clock may
-- show the same; run takes the number of its rounds and says whether it has ended.
--
-- Hypotheses on what is not under src/: that the ticks of the steady clock are all of the same
-- physical time and it shows how many are over, that reading it takes some time, and that no call
-- takes any back (Tls.Waiting.IsSteady). For the round trip of a response: that the JSON library
-- parses what it prints of it, keeps the members of an object and the number in a value
-- (PoolManager.Reading). For a job and a share on their way: what the JSON library reads in the line
-- (Proxy.Jobs.Announces, Proxy.Submissions.Submits). No other hypothesis is made on the JSON library,
-- OpenSSL or the system, but that no name can be resolved where an outage is described. A timeout of
-- recv_line is not negative. Signals are a list, those that arrive before main tests its flag; one
-- that comes later changes nothing that the code reads.
--
-- Not modelled: the destructors of the configuration and of the standard containers, logging, and the
-- deployment around the proxy (Nix, Kubernetes, dashboards).
mod Base
pub mod Platform
pub mod World
pub mod Outcome
pub mod Preserve
pub mod Stratum
pub mod Connection
pub mod EventLoop
pub mod PoolManager
pub mod WorkerManager
pub mod Tls
pub mod Config
pub mod Owned
pub mod Proxy
mod Tests
