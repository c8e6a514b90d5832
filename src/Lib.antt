-- ===== src/Lib.antt =====
-- East, a C++ server library: a verification of its core.
--
-- Program parts and files. `East/src/ByteArray.cc` with `East/include/ByteArray.h` and
-- `East/include/Endian.h` is the tree ByteArray:
--   ByteArray            the state (block size, position, size, capacity, byte order, chain of blocks,
--                        current block) and clear, addCapacity, write, read, setOffset, toString
--   ByteArray/Blocks, Valid, Place, Grow, Seek, Reading, Writing, Refine
--                        lemmas on the chain, the invariant, and what each loop does
--   ByteArray/Tape       the abstract view: a list of bytes and a position in it
--   ByteArray/Contract, Whole   what a caller may rely on
--   ByteArray/Ints       writeFixInt8 to writeFixUInt64 and readFixInt8 to readFixUInt64
--   ByteArray/Varint     ZigZag, writeUInt32, writeUInt64, readUInt32, readUInt64 and those on them
--   ByteArray/Strings    writeStringFix16 to writeStringVarint and their readers
--   ByteArray/Buffers    getReadableBuffers, getWriteableBuffers, writeToFile, readFromFile
--   ByteArray/Tests      runs and examples
-- `East/src/Timer.cc` with `East/include/Timer.h` is the tree Timer:
--   Timer                a timer and the manager (timers by address, the ordered set, the flag m_tickled),
--                        cancel, refresh, reset, addTimer, getNextTimer, listExpiredCb, hasTimer
--   Timer/Expired, Fired   which timers are found due, and what becomes of them
--   Timer/Sorted, Valid, Valid/Expiry, Operations   the order of the set, and the invariant of every
--                        operation
--   Timer/Tests          runs and examples
-- The clock and the address of a new timer are arguments. Each operation holds the manager's lock, so
-- it is one step; `std::set` is a list in the order of `Timer::Cmp`.
-- `East/http/HttpConnection.cc` and `.h`, the class HttpConnectionPool, are the tree Pool:
--   Pool                 the idle connections and the total, getConnection and ReleasePtr
--   Pool/Bound           the bound on the number of connections
--   Pool/Given           which connections are handed out, left and deleted
--   Pool/Tests           runs and examples
-- What others make of the pool while getConnection connects, without its lock, is an argument.
-- `East/http/Servlet.cc` with `East/http/Servlet.h`, the class ServletDispatch, is the tree Dispatch:
--   Dispatch             the exact and the glob table, adding, deleting and the match of a path
--   Dispatch/Matched     what a change does to every match
--   Dispatch/Tests       runs and examples
-- `fnmatch` is a parameter.
-- `East/src/Fiber.cc` with `East/include/Fiber.h` is the tree Fiber:
--   Fiber                the states of a fiber, reset, resume, MainFunc and the yields, the destructor
--   Fiber/Life           from a reset to the destructor
--   Fiber/Tests          examples
-- `East/src/Scheduler.cc` with `East/include/Scheduler.h` is the tree Scheduler:
--   Scheduler            the queue of tasks, schedule, and the stretches of run between two locks or
--                        switches, as steps of one thread
--   Scheduler/Queue      which task run takes
--   Scheduler/Rounds     one task from its start to its end
--   Scheduler/Workers/Counts   what one step does to the counters
--   Scheduler/Workers/Quiet    any number of threads in any order, and stopping
--   Scheduler/Tests      runs and examples
-- `East/src/IOManager.cc` with `East/include/IOManager.h` is the tree IoManager, which schedules on
-- Scheduler and asks Timer for what is due:
--   IoManager            the contexts of the descriptors, addEvent, removeEvent, cancelEvent, cancelAll
--   IoManager/Kernel     epoll_ctl, a parameter: a call that succeeds registers what it was given, a
--                        call that fails leaves what is registered, and no call touches another
--                        descriptor
--   IoManager/Context    FdContext and triggerEvent
--   IoManager/Idle, Timeout    one pass of the loop of idle, and when it wakes up and stops
--   IoManager/Armed, Kept, Kept/Room, Firing, Changes, Taken
--                        the invariant and what each part of a member does to it
--   IoManager/Members, Waits, Ready   the members as they are called
--   IoManager/Tests      runs and examples
-- `East/src/FdManager.cc` with `East/include/FdManager.h` is FdManager, the table of descriptors, over
-- fstat and fcntl as a parameter. `East/src/Hook.cc` is the tree Hook, which uses that table:
--   Hook                 do_io, the timeouts of setsockopt, and O_NONBLOCK in fcntl and ioctl
--   Hook/Calls           connect_with_timeout, sleep, close
--   Hook/Retries, Blocking   what do_io returns, and who sees which O_NONBLOCK
--   Hook/Tests           runs and examples
-- What the original functions answer and how a fiber that waits is resumed are lists, which the retries
-- of do_io go down.
-- `East/src/Address.cc` with `East/include/Address.h` is the tree Address:
--   Address              masks and subnets, operator< and operator==
--   Address/Masks, Subnet, Order   the arithmetic of the masks, what the subnet members give, and the order
--   Address/Host, Host/Forms   Create and Lookup, and the forms of a host
--   Address/Tests        runs and examples
-- A sockaddr_in is its port and address as the host reads them; the 16 bytes of IPv6 are a list. What
-- getaddrinfo answers is a parameter.
-- `East/src/LogFormatter.cc` is the tree LogFormatter:
--   LogFormatter         init and format, with the classes of items
--   LogFormatter/Tokens, Lines, Escapes   patterns written from parts, the line of an event, and "%%"
--   LogFormatter/Tests   runs and examples
-- The outer loop of init goes down the pattern with a count of the codes that `i = j - 1` skips, so that
-- neither loop needs a bound. strftime is a parameter, and the level is the one that the caller of format gives.
-- `East/http/Http.cc` with `East/http/Http.h` is the tree Http:
--   Http                 CaseInsensitiveLess, and the maps of a message
--   Http/Maps, Maps/Edits   the order of the keys, and what a map gives after any changes
--   Http/Tables, Tables/RoundTrip   methods and statuses as texts
--   Http/Messages, Messages/Framing   requests and responses, their text, and how it is read back
--   Http/Requests, Requests/Hosts   the request that DoRequest of `East/http/HttpConnection.cc` makes, and its host
--   Http/Tests, Http/Requests/Tests   runs and examples
-- A std::map is the list of its entries in the order of the keys. A status is its number, and lexical_cast
-- is a parameter.
-- `East/src/Stream.cc` is the tree Stream, and `East/http/HttpSession.cc` with
-- `East/http/HttpConnection.cc` are Http/Receiving and Http/Sending, over Http and Stream:
--   Stream, Stream/Whole   readFixSize and writeFixSize, and what they read and write
--   Http/Receiving       the loop of the head, and the bodies
--   Http/Receiving/Bodies, Heads   what becomes of a body, and the room in the buffer
--   Http/Sending         a message that is sent and read line by line
--   Stream/Tests, Http/Receiving/Tests, Http/Sending/Tests   runs and examples
-- A peer is the list of its bytes with the list of how many each read gives at most, which the loops go
-- down. The generated parsers are parameters. The int that readFixSize and writeFixSize return is its 32 bits.
-- `East/src/Config.cc` with `East/include/Config.h` is the tree Config:
--   Config               ListAllMember, LoadFromYML, and a variable with its listeners
--   Config/Members, Paths   the names that are listed, and the nodes that a file has for a name
--   Config/Variables     what a file makes of a variable
--   Config/Tests         runs and examples
-- All variables have one type of values; what FromStr makes of a text depends on the name. A call of a
-- listener is an entry of a list; whether it throws is a parameter.
-- `East/src/env.cc` is the tree Env:
--   Env                  the options of the command line
--   Env/Options          command lines written from options
--   Env/Tests            runs and examples
-- Common holds what the parts share: lists over the native numbers, Boolean tests, 64-bit arithmetic,
-- bit operations, slices of a list, texts, and the outcome of a member, which returns, throws or is undefined
-- behaviour.
--
-- Numbers. `size_t` and `uint64_t` are natural numbers whose sums and differences are taken modulo
-- 2 ^ 64 (Common/Words). A signed integer of w bits is its bit pattern. A byte is a number below 256,
-- and 256 stands for a byte that `new char[]` leaves uninitialised.
--
-- Memory. A block is the list of its bytes, the chain is a list of blocks, and `m_cur` is the number
-- of steps from the root, where the length of the chain is the null pointer. Reading through null is
-- the outcome `undefined`, and so is taking the front off an empty list.
--
-- Fuel. The loops of ByteArray go down the chain and need none. writeUInt32 and writeUInt64 fill a buffer
-- of 5 or 10 bytes, which is the bound of their loop; readUInt32 and readUInt64 have a loop counter.
-- readFromFile has one round for each byte of the file and one more, since a block size of 1 or more
-- takes a byte in each round but the last. The numbers that dump writes have one round for each unit and
-- one more, which is more than their digits. All other loops go down a list: a script of answers, the pieces
-- of a peer, a pattern, or the arguments of the command line.
--
-- Concurrency. A member that holds a lock is one step. A thread in Scheduler::run goes from one lock
-- or switch of fibers to the next in one step, where the count of active threads that follows a switch back
-- is a step apart from putting the fiber back into the queue, and threads interleave in any order (Move and Reach of
-- Scheduler/Workers/Quiet). A member of IOManager is one step, also where it takes the lock of the
-- array before that of the descriptor; what happens when another thread grows the array between the two is not
-- modelled. Fibers of
-- other code may change in any way in between. A false assertion
-- is the outcome `assertion_failed`.
--
-- Not modelled: freeing of memory, the formatting of toHexString, the file system (opening a file
-- succeeds or not), and the other parts of the library that the list of components names.
pub mod Address
pub mod ByteArray
pub mod Common
pub mod Config
pub mod Dispatch
pub mod Env
pub mod FdManager
pub mod Fiber
pub mod Hook
pub mod Http
pub mod IoManager
pub mod LogFormatter
pub mod Pool
pub mod Scheduler
pub mod Stream
pub mod Timer
