-- ===== src/Lib.antt =====
-- SSSonector: the decisions of an SSL tunnel service, modelled in Go's own terms.
--
-- The program tunnels traffic between a client and a server. Around the sockets stand the parts that
-- decide: a circuit breaker with a registry of all breakers, the classification of errors and
-- recovery from them, retries with a backoff, connecting in three phases of retries, the table of
-- live connections, pools of connections and of buffers with a limit on memory, the hardening of the
-- process, certificates and their rotation, the life cycle of the service, the check of a
-- configuration, the SNMP agent, and access control by sessions, roles and addresses. The agent
-- serves the tree of Mib, and a registry holds breakers; the other parts do not share state: each
-- module keeps its own behind its own mutexes, and what one asks of another is an argument here.
--
--   Prelude       shared names: tests on numbers, lists measured by native numbers, association
--                 lists for Go's maps, the interface of float64, strings
--   Breaker       internal/resilience/circuit_breaker.go (CircuitBreaker): Call is begin_call and
--                 end_call, so that calls interleave as sequences of steps
--   Fleet         internal/resilience/state.go: the registry, the bulk operations, the log of events
--                 and the alerts, over the breakers of Breaker
--   Recover       internal/resilience/recovery.go: classifyError, AddClassifier, findStrategy, the
--                 patterns of ClassifyCommonError; Recover in Recover/Recovery and what the
--                 program's own strategies answer in Recover/Strategies
--   Backoff       internal/resilience/backoff.go (ExponentialBackoff): the delays and Retry
--   Session       internal/security/access/session.go (SessionManager): every operation with the two
--                 mutexes written out; locking one that is held is the outcome deadlock
--   Rbac          internal/security/access/rbac.go (RBACManager) with its default roles and policies
--   Access        internal/security/access/ipfilter.go (IPFilterManager)
--   Connections   internal/connection/manager.go (Manager), with Connect in Connections/Connect
--   Service       internal/service/base.go (BaseService)
--   Dial          internal/pool/retry.go (RetryManager)
--   Pool          internal/pool/pool.go (Pool): Get is begin_get and finish_get, as it calls the factory
--                 without the lock
--   Buffers       internal/pool/buffer.go (BufferPool, AtomicPool and, in Buffers/Chunks, ChunkPool):
--                 which item a sync.Pool hands out or forgets is an argument
--   Classes       internal/buffer/pool.go (Pool): the pools by size class, over the slices of Buffers
--   Memory        internal/memory/limits.go (Manager) and pool.go (BufferPool)
--   Hardening     internal/security/manager.go (SecurityManager): what the kernel answers is an
--                 argument
--   Certs         internal/security/cert/types.go and store.go (FileStore); in Certs/Manager,
--                 Certs/Validator and Certs/Rotator manager.go, validator.go and rotator.go there
--   Config        internal/config/types/types.go and, in Config/Versions and Config/Validator,
--                 internal/config/validator/validator.go (Validator.Validate)
--   Mib           internal/monitor/mib.go (MIBTree): GetEntry, GetNextEntry, and in Mib/Tree the
--                 objects and UpdateMetrics; sort.Strings is a parameter
--   Agent         internal/monitor/snmp.go (SNMPAgent): a packet to its response, over Mib
--   Snmp          internal/monitor/snmp_pdu.go: numbers and object identifiers as bytes
--   Message       internal/monitor/snmp_message.go (DecodeMessage, and in Message/Encode
--                 EncodeMessage) and the validations of snmp_asn1.go: messages as bytes; Message/Wire
--                 has the reading of bytes, where an index past the end is a panic
--
-- Functions and fields keep the source's names in snake_case. A map is an association list in the
-- order of iteration, a slice a list, an error a constructor or an option. Time is a number of
-- nanoseconds that an operation takes as an argument. Counters of 64 bits wrap. Loops are recursion
-- on their list or on the attempts that are left. On fuel run: the loop of Retry in Backoff, for which
-- a fuel that follows from the retries left is shown to be enough; the walk over the tree in Mib, for
-- which one request for each entry is shown to be enough; the persistent phase of Dial, which has no
-- bound of its own and for which every fuel that reaches the first connection is shown to be enough;
-- the splitting of a number in base 128 in Snmp, for which five digits are shown to be enough
-- below 2^32; the loop of DecodeMessage in Message, for which as much fuel as there are bytes left is
-- shown to be enough; and the loops of Classes that double a size, for which 32 turns are shown to be
-- enough up to 2^32.
--
-- Not modelled: logging; the packages of the Go library, of which net, strconv, strings, sort and
-- math are parameters; sockets, TLS, the encoding and signing of certificates, TUN devices and process control,
-- which are input and output; throttling, which computes with float64 and sleeps; readings of the Go
-- runtime.
-- internal/resilience/retry.go and internal/service/types.go do not compile as they stand.
pub mod Prelude
pub mod Breaker
pub mod Recover
pub mod Session
pub mod Rbac
pub mod Connections
pub mod Service
pub mod Dial
pub mod Access
pub mod Fleet
pub mod Snmp
pub mod Message
pub mod Pool
pub mod Config
pub mod Backoff
pub mod Certs
pub mod Hardening
pub mod Memory
pub mod Mib
pub mod Agent
pub mod Buffers
pub mod Classes
