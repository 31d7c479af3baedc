-- ===== src/Lib.antt =====
-- Models of openmi-base, the base library of openmi (directory base), with the properties that
-- make its parts correct.
--
-- The parts and their files:
-- - Hash models base/hash_murmur3.h and base/hash_murmur3.cc. Hash.Words has rotl32, rotl64 and
--   the loads of the key (a key is a list of bytes, and a read past its end is none), Hash.Mm32
--   has MMHash32::hash32 and Hash.Mm128 has MMHash128::hash128 and MMHash64. Words wrap by % 2 ^
--   32 and % 2 ^ 64, loads are little-endian, len is not negative.
-- - Calendar models base/date.h and the class Date of base/logging.cc. gettimeofday is an
--   argument; an int is an integer, and the addition that could overflow it returns none. The
--   table m is local in date.h and shared by all calls in logging.cc.
-- - Async models base/async_logging.h. Async.Buffer has DataBuffer, Async.Logger has Append and
--   the two halves of the loop of ConsumeLog, Async.Reach has the runs: any number of producers'
--   calls of Append and the consumer's steps, in any order. A step is atomic because it holds
--   the mutex; the second half of the consumer's loop touches only its locals. A null pointer is
--   none, and a use of one, or a failed assert, makes a step none. A buffer has any size, and
--   the notice of an overload is a parameter, since its last bytes are memory that snprintf does
--   not set. The LogFile dest is the list of bytes that it was given.
-- - Registry models base/register.h, base/general_factory.h, base/allocator.h, base/allocator.cc
--   and base/allocator_registry.h. Registry.Register has Register and FunctionRegisterBase, with
--   entries as numbers of a store so that the lists and the map share them; Registry.Factory has
--   GeneralFactory, Registry.Allocator has Allocate, cpu_allocator and REGISTER_ALLOCATOR.
--   Registry.Calls has sequences of calls; one that throws leaves the registry as it was.
-- - Base.Dict has the sorted map from texts (std::map of std::string).
-- - Status models base/status.h, base/status.cc and base/errors.h. A Code is one of its
--   enumerators.
-- - Queue models base/threadsafe_queue.h: BlockingQueue and BoundedBlockingQueue, with the
--   sleepers of each condition variable counted. Queue.Runs and Queue.Stream have the calls of
--   any number of threads in any order.
-- - DString models Split of base/dstring.h.
-- - Logging models base/logging.h and base/logging.cc. Logging.WriteOp has the stream of a file,
--   Logging.FileHead the name of a log file and the lines that head it, Logging.LogFile the log
--   that rolls by size, by day and when its file is gone, Logging.Buffer the buffer of a message
--   and Init, Logging.Message Flush, which makes the destinations on first use, Logging.Start
--   InitLogging and ShutdownLogging, Logging.Routing what a message adds to each file. What a
--   call asks of the system (clocks, the machine's name, which files exist or open) is a record
--   of answers to that call. A stream is the bytes that it was given.
-- - Async.Manager models AsyncLoggingManager of base/async_logging.h. Its runs are the steps of
--   Append, of which one call runs at a time, and those of the threads of the loggings that it
--   has made, in any order. Append itself holds no mutex; LogMessage::Flush calls it under its
--   own, but for the warning of a text that is too long.
-- - ThreadPool models base/thread_pool.h, with the BlockingQueue of Queue for its tasks.
--   ThreadPool.Runs has the runs: calls of AddTask and Stop and steps of the workers in any
--   order.
-- - RefCount models base/refcount.h. RefCount.Accesses has the owners' accesses to the count in
--   any order, RefCount.Whole the runs in which no access comes between the two of an Unref.
-- - Timer models base/timer.h. The time is an argument of the calls that read the clock.
-- - Base.Sums has sums over lists.
-- - Synchronizer models base/synchronizer.h and base/synchronizer.cc.
-- - Protobuf models base/protobuf_op.h; the library protobuf is a parameter, a record of what
--   its calls answer.
-- - Async.Drain models the thread of AsyncLogging with its file, Stop and the end of the loop.
--   The file is the interface Async.Sink, which Async.Drain.Dest fills with the LogFile of
--   Logging.LogFile.
-- - Async.Manager.Files joins the manager with the threads and the files of its loggings.
-- - Input models base/shell_util.h (Input.Shell), Read and MMap of base/read_op.h and
--   base/read_op.cc (Input.Read, Input.Mapped) and base/file_op.h (Input.FileOp). What the
--   system answers is an argument; popen's output and a file are lists of bytes.
-- - BitOp models base/bit_op.h.
-- - ThreadLocal models base/thread_local.h: which object each thread has, and which were
--   deleted.
-- - Logging.Check models the CHECK macros of base/logging.h over int, with LogMessageFatal.
--
-- Numbers of C are natural numbers or integers with their wrap-around written out. All loops are
-- structural or run on a bound that the source gives (the words of a key, the months of a year,
-- the buffers of a vector, the files of a message), but for the two that read to an end of
-- input: they run on a number of rounds, and one more than there are bytes is enough, since each
-- round but the last takes a byte or more.
--
-- Not modelled: the rest of base (base/random.h, base/type_conversion.h and base/singleton.h,
-- which only wrap the library, base/system_info.h, which only reads from the system, and
-- base/write_op.h, a second copy of the stream of base/logging.h that nothing uses), the output
-- of the parts above but for the log files, and base/sarray.h, a copy of another library.
pub mod Base
pub mod Hash
pub mod Calendar
pub mod Async
pub mod Registry
pub mod Status
pub mod Queue
pub mod DString
pub mod Logging
pub mod ThreadPool
pub mod Timer
pub mod RefCount
pub mod Synchronizer
pub mod Protobuf
pub mod Input
pub mod BitOp
pub mod ThreadLocal
