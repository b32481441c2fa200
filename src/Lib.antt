-- ===== src/Lib.antt =====
-- Verification of the security cores of the network: the proxy gate of the egress, the authority
-- over devices, the request admission and the process budget of the hub, and the acceptance of
-- signed updates.
--
-- Parts, files and code
--
-- - Gate (shared/proxygate/gate.go, write_fence.go, policy.go, control.go). A gate admits local
--   HTTP clients and the upstream connections of each while one control session owns a lease.
--   Closing the session cancels every admission, quarantines every registration and starts one
--   cleanup; a write fence around an upstream connection gives out write and deadline permits
--   under the same lock.
--     Gate/State       the structs. Pointers are numbers into the tables `adm` and `reg`, so an
--                      object that leaves a map can still be named by a goroutine that holds it.
--     Gate/Invalidate  closeFor, beginInvalidateLocked and finishCleanup, whose workers' sections
--                      are `reap` and `finish_cleanup`
--     Gate/Admit       AcquireSource and Reserve
--     Gate/Attach      Attach, Track, Abort, Release, Untrack and the Release of an admission
--     Gate/Owner       own, grant, Close and AwaitClosed
--     Gate/Fence       AttachFenced, liveLocked, begin, end, the permit of a revoker in
--                      updateDeadline, and Close of the fence
--     Gate/Policy      the rules on source prefixes, Covers, and what Covers says of AcquireSource
--     Gate/Step        the sections that hold `g.mu`, as actions. A goroutine that takes the lock
--                      several times is several actions, and a list of actions is one order in
--                      which the goroutines of a process get the lock. A guard of an action is
--                      the place that the goroutine has reached (a permit is given back once).
--                      Two actions stand for two sections in a row each: `close_ends` marks the
--                      fence as completed and releases the registration, and `untracks` finds the
--                      registration and releases it. A release is also an action of its own.
--     Gate/Control/Defs      the messages and the commands of a Controller
--     Gate/Control/Receiver  ControlServer.session: its start, and one round of its loop with the
--                            sections of other goroutines that run before, between closeFor
--                            and AwaitClosed, and while it waits
--   Gate/Invariant, Gate/Revocation, Gate/Handover, Gate/Capacity, Gate/Control/Closed, Carried and
--   Lockstep hold the proofs.
-- - DeviceAuth (hub/internal/deviceauth: store.go, executor.go, scheduler.go, types.go, schema.sql
--   and grantResources of resources.go). The database says which device may use which WireGuard key.
--   Commands change it and leave an operation in an outbox; an executor brings the running tunnel
--   to the state of the device's latest operation and certifies the result.
--     DeviceAuth/State      the tables as lists of rows, commands, policies and errors
--     DeviceAuth/Admission  address, protected, grantResources, and the tests of submitChecked before
--                           its transaction
--     DeviceAuth/Access     the checks in the transaction that come before the history
--     DeviceAuth/Change     the checks and the writes of a command that is no repetition
--     DeviceAuth/Submit     Submit, and what it leaves after ErrOverdue
--     DeviceAuth/Enroll     Enroll and RefreshDeadlines
--     DeviceAuth/Plan       runtimeMap, plan and verify
--     DeviceAuth/Claim      what a run finds around it, the first transaction of Process, the intents
--     DeviceAuth/Process    Process, expireLocked, failed and Reconcile. A run is one function of the
--                           database and of a record of the answers that it gets: the process
--                           fence is held from its start to its end.
--     DeviceAuth/Schedule   SweepExpiry and Tick, which also returns the devices that it reconciled
--     DeviceAuth/Carried    the peers that run once steps are carried out
--     DeviceAuth/History    sequences of calls on an empty database
--   DeviceAuth/Views, Requests, Accept, Outcomes, Refusal, Authority, Growth, Upkeep, Claims, Runs, Lasting,
--   Grants, Agreement, Certified, Completion, Success, Performed, Reconciled, Fairness, Starved and
--   Cycles hold the proofs.
-- - HttpAdmission (hub/internal/httpboundary/admission.go). One admission in front of costly
--   routes, with a limit of requests in flight, in all and for a source address, and a token
--   bucket for each.
--     HttpAdmission/Float   the float64 of the tokens, with the rounding of IEEE 754
--     HttpAdmission/Tokens  TokenBudget and admissionTokens
--     HttpAdmission/Defs    NewAdmission, sweep, acquire and release of a lease
--     HttpAdmission/World   an admission with the leases that its callers hold; histories
--   HttpAdmission/Sweep, Counts, Settings and Limits hold the proofs. They are about the limits; the
--   rounding leaves no exact rate, and Tests has a run in which the announced wait is too short.
-- - HttpSource (hub/internal/httpboundary/boundary.go): the address that a request is counted under,
--   behind the proxies that append to X-Forwarded-For.
--     HttpSource/Defs  ClientSource, parseAddress and knownProxy
--   Netip's and net's parsers are functions given to the model (`Tools`). HttpSource/Hops and Spoof
--   hold the proofs.
-- - Update (shared/updateverify/semver.go): the order of versions that protects an installation
--   from a rollback.
--     Update/Text     what the code uses of `strings` and `strconv`, on lists of bytes
--     Update/Version  parseVersion and compareVersion
--   Update/Version/Order, Transitive, Parse and Numeric hold the proofs.
-- - Update/Staging (shared/updateverify/types.go, verify.go, and decodeMetadata and signingBytes of
--   json.go): the acceptance of one signed artifact, against a policy and the receipt before.
--     Update/Staging/State   metadata, keys, policies and receipts
--     Update/Staging/Rules   validateMetadata, validatePolicy, validatePrevious
--     Update/Staging/Verify  Verify, as a chain of early returns
--   JSON, SHA-256, Ed25519 and the test of a public key are functions given to the model (`Tools`).
--   Update/Staging/Accept, Authority, History and Frame hold the proofs; History has a caller that
--   keeps the last receipt, as the documentation of Verify asks.
-- - ProcessBudget (hub/internal/processbudget/runner.go): a fixed number of seats for local
--   subprocesses, with a bound on the output of each.
--     ProcessBudget/Runner  Run before and after the seat is taken, and the capture of output. What
--                           runOwned does is a report and a list of the pieces written.
--   ProcessBudget/Output and Seats hold the proofs.
-- - Prelude has names of the libraries, Boolean tests, lists over the native numbers, results with
--   early returns, and tables of rows.
--
-- Choices
--
-- - Time is a number of nanoseconds; each read of the clock is an argument, so that no order
--   between two reads is assumed. The zero time is 0.
-- - A session name is a number, and the empty name is 0.
-- - A set of pointers (a Go map) is a list. Nothing read from it depends on its order.
-- - The tokens of a bucket are a float64. Such a value counts units of 2^-1074, and each operation
--   on it rounds to 53 bits, to the nearest and to even; infinities, values below zero and
--   the saturation of a difference of times do not come up.
-- - A bucket of the admission has a slot number, so that a lease keeps its bucket after a sweep
--   has dropped the name, as the pointer does.
-- - In DeviceAuth a text (a name, a key, a digest) is a number. The tests of a text (identifier,
--   validKey, the reason) and the digest of a command are functions of the call's `Env`. A prefix is its
--   family, its address and its length; one that cannot be parsed is `none`. The role of a row is
--   always customer, as the schema has it.
-- - A database function of DeviceAuth is one SQLite transaction: an error leaves the database
--   as it was. A write that can fail for reasons outside the tables has a flag that says whether it did,
--   where the code goes on after it; elsewhere such a failure is a call that did not happen.
-- - An expected generation below 0, which is refused, is not written down, and no generation
--   overflows: the last one is refused as the code does.
-- - No definition takes fuel: all loops run over lists.
--
-- Not modelled
--
-- - What Close and SetDeadline of a connection do is the environment's. A cleanup worker's section
--   runs only when the Close before it has returned.
-- - The deadlines and the JSON reader of boundary.go.
-- - The text forms of addresses and prefixes (Go's netip) and, of the policy, all but
--   the prefixes and the capacities. Of the control channel, the JSON of its frames, the accept
--   loop and connectController. The relays and the system calls around the gate.
-- - Of DeviceAuth: SubmitSigned with its callbacks in the transaction, credentials and receipts,
--   backup and restore, the scheduler's timer, the fence file and the processes that run WireGuard.
-- - HTTP, JSON, cryptography, persistence, and the clients' and the hub's commands.
pub mod Prelude
pub mod Gate
pub mod DeviceAuth
pub mod HttpAdmission
pub mod HttpSource
pub mod ProcessBudget
pub mod Update
