-- ===== src/Lib.antt =====
-- go-mcache: a verification library for the in-memory cache.
--
-- The program. `cache.go` is a generic cache: a sharded store of entries (`internal/store/sharded.go`)
-- with an expiration for each entry, a policy (`internal/policy`) that chooses what is evicted when a limit on
-- cost or on the number of entries is passed, and ring buffers (`internal/buffer`) between the callers and
-- background goroutines. A Set writes the store and asks the policy for victims, which the cache deletes from
-- the store; a Get reads the store and reports the access to the policy.
--
-- The files.
--   Base        tests, lists as arrays, association lists for Go's maps, 64-bit words, laws of `&` and `|`
--   Tables      a Boolean test on every number below a bound
--   Policy/Sketch    `internal/policy/sketch.go`: rows of bytes with two counters each
--   Policy/Bloom     `internal/policy/bloom.go`: words of 64 bits
--   Policy/TinyLfu   `internal/policy/tinylfu.go`: the filter in front of the sketch, and the aging
--   Policy/Sampled   `internal/policy/sampledlfu.go`: the cost map, the key array, the index map
--   Policy/Combined  `internal/policy/policy.go`: the eviction loop and Add
--   Buffer/Ring      `internal/buffer/ring.go`: RingBuffer
--   Store/Sharded    `internal/store/sharded.go`: a list of shards, each an association list
--   Glob             `internal/glob/pattern.go`: compiled patterns, what matches them, their prefix
--   Hash             `internal/hash/fnv.go`: FNV-1a, its variant by words, the integer mixers
--   Store/Wheel      `internal/store/expiry_wheel.go`: a list of buckets and the current tick
--   Radix            `internal/radix/tree.go`: nodes with a list of children, the map that a tree stands for
--   Cache            `cache.go`, `metrics.go`, `options.go`: the state (State, Counters), the writes (Cache), the API
--                    with its buffers (Calls), the calls for many keys
--                    (Batch), NewCache (Creation); what they do to store and policy is in the rest
--   Policy/Cuckoo    `internal/policy/cuckoo.go`: buckets of four slots, the bag of hashes that a filter stands for
--   Swiss            `internal/hashtable/swiss.go`: the control bytes and the entries, the map from hashes to costs
--   Iterator         `iterator.go` and the scans of `cache.go`: pages of entries of a store that does not change
--
-- Each record has the fields of the Go struct, less mutexes and padding, and each method is a function of the
-- same name on that record. A uint64 is a number below 2^64, an int64 its two's complement pattern. What
-- math/rand and the clock answer is an argument.
--
-- Fuel. The loop of newCMSketch has 64 rounds, which reach every width up to 2^62. The eviction loop has one
-- round more than there are keys, and each of its rounds but the last takes a key out. A
-- pattern is parsed with one round for each of its bytes, and a range of bytes has 257 rounds. Advance makes
-- one round for each tick between its own and the present one, which is what its loop does. The
-- radix tree is walked by structural recursion. An
-- iterator's loops have as many rounds as there are calls of Next, and one round for each Scan.
--
-- Not modelled: goroutines, locks and the interleavings they allow (an operation is one step); the limits of
-- memory (every allocation succeeds); the lock-free
-- variants of the policy, the expiration heap, the GC-free store, and the first
-- version of the cache in `mcache.go`; of `cache.go` the snapshot of the
-- metrics. The cache has the exact policy of `policy.go`, where NewCache takes the lock-free one
-- by default.
pub mod Base
pub mod Tables
pub mod Policy
pub mod Buffer
pub mod Store
pub mod Glob
pub mod Hash
pub mod Radix
pub mod Swiss
pub mod Cache
pub mod Iterator
