-- ===== src/Lib.antt =====
-- huicpp: a model of the library's own logic, and the theorems that make it correct.
--
-- The program is a C++ utility library. The parts that are modelled, each with the file that it is
-- about and the module that holds it:
--
-- * src/hserialize.h, in Serialize. The templates GetSerializeSize, Serialize and Unserialize are
--   generic in the stream and in the type. Serialize.Stream states what they ask of a stream: an
--   output stream takes lists of bytes, an input stream gives back the bytes in order. Serialize.Bytes
--   is WRITEDATA and READDATA, Serialize.CompactSize and Serialize.VarInt are the two encodings of
--   numbers, and Serialize.Codec, Serialize.Array and Serialize.Containers are the overloads for the
--   fundamental types, bool, VARINT, std::pair, std::basic_string, std::vector, std::map and
--   std::set. A type's three templates are one record, Codec, and the specification is Correct: the
--   three agree on one encoding. Serialize.DataStream is CDataStream, every operation of it, and
--   CSizeComputer; Serialize.DataStream.Laws proves that CDataStream is a stream of the kind that
--   the templates ask for.
--
-- * src/hsinglefastqueue.h, in FastQueue. One function per operation of HSingleFastQueue; a slot of the
--   raw memory is an Option. FastQueue.Window says which list of items a queue holds, FastQueue.Refine
--   compares each operation with it, and FastQueue.Concurrent has the two threads of the queue take
--   the accesses to shared memory as single steps, in any order.
--
-- * src/detail/scheduler, in Scheduler. Scheduler.Timeval is the time values of delayqueue_in, and
--   Scheduler.DelayQueue is its queue of alarms, where each entry counts from the one before it. The
--   clock is an argument of the operations. Scheduler.DelayQueue.Schedule is the abstract view, a list
--   of the alarms with the microseconds that each has left, and Refine and Alarms compare each operation
--   with it. A loop that goes past the queue's own entry, which is due LONG_MAX seconds after the queue
--   is made, gives `none`.
--   Scheduler.HandlerSet and Scheduler.SelectHandlers are handlerset_in and selecthandlers_in, and
--   Scheduler.TriggerSet is delaytrigger_in. Scheduler.Loop is src/hscheduler.cpp with scheduler_in: one
--   round of the loop, composed from the parts. The clock and select are arguments of it.
--
-- * src/hstr.h and src/hstr.cpp, in Str. A string is a list of characters. Str.Find is what the searches
--   tell, Str.Split is about Split and V2Str, Str.Edit about Replaces and Removes, whose bound on the
--   rounds is an argument, Str.Compare about IsEndWith and Counter,
--   Str.Equal has the order of strings in a std::map, and
--   Str.Trim holds the functions that look for characters of a set.
--
-- * crypto/urlencode.cpp and crypto/hex.cpp, in Crypto: the URL encoding and the hexadecimal texts. A
--   failed assertion and an access outside of a table give `none`. Crypto.UrlEncode.Check and
--   Crypto.UrlEncode.Accept are about IsUrlEncode.
--
-- * src/houtputpacketbuffer, src/hiobuffer, src/hsyncbuffer and src/utils/rollfixedbuffer, in Buffers.
--   Buffers.Memory is memmove in a block of memory. Buffers.Packet has HOutputPacketBuffer and
--   HIOOutputBuffer, Buffers.Io HIOBuffer. Buffers.Sync has the threads of an HSyncBuffer take what they
--   do under the mutex as single events, in any order; a signal wakes one thread that waits, and a
--   thread may wake up without one. Buffers.Roll is RollFixBuffer: a pointer to an item is its number,
--   and its callers are sequences of Pop, Write and PullBack in which an item is used while it is
--   borrowed.
--
-- * src/detail/log/logfileroll_detail and logfile_detail, src/htime.h and src/inl, in Time. Time.LogFile is
--   LogfileRollbackStrategy, Time.LogFile.Writing the LogFile of logfile_detail, whose calls of the system are
--   a parameter, which Time.LogFile.Writing.Disk fills with a disk of named files, Time.Parse has FromStr and GetNow of time_basic, Time.Span is timespan, and
--   Time.Decimal what streams and printf write for a number. mktime is an argument.
--
-- * src/image/hrgb and src/image/hbmp, in Image: FromNV21 and FromYuv420sp, with every read of the source
--   and every write to the image, and HBmp with its headers and files as bytes.
--
-- * src/utils/jobpool, jobbase, summerworkermng and multithreadjobmng, in Jobs: the queues of jobs and the
--   threads of HThreadPool that do them, as events in any order. Jobs.Drain is about SummerWorkerMng,
--   Jobs.Finish about MultiThreadJobMng.
--
-- * src/detail/lazysingleton, in Singleton: the tests of the pointer before and under the mutex, by any
--   number of threads.
--
-- * db, in Db: HDBRes, the transactions and the rows of dbconnectionbase over any driver (Db.Multi), the
--   driver of SQLite over the functions of SQLite (Db.Sqlite), and DbConnConfig (Db.Config).
--
-- * src/hmstr and src/hnormalconf, in Conf: the map of strings, and the files of lines "key=value" that fill
--   it (Conf.Lines). std::stoi is an argument.
--
-- * src/haddr, in Addr: the texts of an IPv4 address (Addr.Text) and the choice of the local address
--   (Addr.Local). The functions of the system are arguments.
--
-- A byte, a char and an unsigned value are numbers below 2 ^ w; wrap-around is written out. A reader
-- gives an Option: `none` stands for a loop that does not end within its bound. The bounds are one
-- round more than there are elements for the vector readers, and the room of `tmp` for ReadVarInt;
-- the theorems show that they are enough. std::map and std::set are lists in the order of their keys.
--
-- The loops of Str have as fuel one round more than there are characters, or take it as an argument;
-- that of HandleAlarm takes it as an argument, where more than the number of entries is enough.
--
-- Not modelled: FromYuv420 of src/image/hrgb.cpp and Move of src/image/hbmp.cpp; the third-party code
-- under deps; the wrappers of system calls, sockets, threads, processes and shared memory, and the
-- bindings to OpenSSL, curl, MySQL and Redis, which only pass values on to code that is not part of
-- the library.
pub mod Addr
pub mod Base
pub mod Buffers
pub mod Conf
pub mod Crypto
pub mod Db
pub mod FastQueue
pub mod Image
pub mod Jobs
pub mod Scheduler
pub mod Serialize
pub mod Singleton
pub mod Str
pub mod Time
