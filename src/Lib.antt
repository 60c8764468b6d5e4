-- ===== src/Lib.antt =====
-- SSDB-like server over LevelDB (ssdb/src).
--
-- A client's bytes arrive at a link. The Redis link (ssdb/src/net/link_redis.cpp) finds the
-- arguments of a request in them, rewrites the Redis command as one of the server's own, and
-- later writes the server's reply as the Redis reply the command wants. A map of commands
-- (ssdb/src/net/proc.cpp) finds the function of a request (ssdb/src/proc_kv.cpp), which calls
-- the store (ssdb/src/ssdb/ssdb_impl.cpp). The store works on LevelDB; each change is one
-- batch, in which the queue of the log (ssdb/src/ssdb/binlog.cpp) puts the change itself and a
-- record of it under the next sequence number. Keys and records are built from the byte orders,
-- comparisons and readers of util.
--
-- A replica (ssdb/src/slave.cpp) asks the master for what it lacks. The master's side of it
-- (ssdb/src/backend_sync.cpp) copies the store through an iterator, then follows the log: it
-- looks for the record behind the last one and sends it with the value that the store has then.
-- The replica carries each message out on its own store and saves how far it has come.
--
-- Files:
--   Prelude             numbers, lists, text, tests and integers that the parts share
--   Util/Number         ssdb/src/util/strings.h: printing and reading of integers, with errno
--   Util/Escape         ssdb/src/util/strings.h: str_escape, str_unescape
--   Util/Case           ssdb/src/util/strings.h: letter case
--   Util/Trim           ssdb/src/util/strings.h: spaces at the ends of a string, bitcount
--   Util/Endian         ssdb/src/util/strings.h: big_endian; the bytes of a word in memory
--   Util/Bytes          ssdb/src/util/bytes.h: comparison of byte strings
--   Util/Decoder        ssdb/src/util/bytes.h: Decoder
--   Util/Buffer         ssdb/src/util/bytes.cpp: Buffer
--   Util/Config         ssdb/src/util/config.cpp: Config
--   Util/Thread         ssdb/src/util/thread.h: Queue, SelectableQueue, WorkerPool
--   Net/Redis/Parse     ssdb/src/net/link_redis.cpp: parse_req
--   Net/Redis/Table     ssdb/src/net/link_redis.cpp: the table of commands
--   Net/Redis/Convert   ssdb/src/net/link_redis.cpp: convert_req
--   Net/Redis/Reply     ssdb/src/net/link_redis.cpp: send_resp
--   Net/Resp            ssdb/src/net/resp.cpp: Response
--   Net/ProcMap         ssdb/src/net/proc.cpp: the map of commands
--   Net/Link            ssdb/src/net/link.cpp: Link::proc
--   Net/Packet          ssdb/src/net/link.cpp: the protocol that recv_req reads
--   Net/Receive         ssdb/src/net/link.cpp, ssdb/src/net/link_redis.cpp, ssdb/src/slave.cpp:
--                       recv_req, send, onRead
--   Serv                ssdb/src/proc_kv.cpp, ssdb/src/serv.cpp: the commands
--   Store/Const         ssdb/src/ssdb/const.h
--   Store/Keys          ssdb/src/ssdb/ssdb_impl.cpp, ssdb/src/ssdb/binlog.cpp: keys of the store and of the log
--   Store/LevelDb       what the store relies on of leveldb::DB and leveldb::WriteBatch
--   Store/Binlog        ssdb/src/ssdb/binlog.cpp: Binlog, a record of the log
--   Store/Queue         ssdb/src/ssdb/binlog.cpp: BinlogQueue and its transactions
--   Store/Cursor        what the store relies on of leveldb::Iterator
--   Store/Find          ssdb/src/ssdb/binlog.cpp: find_last, get, find_next, the constructor of BinlogQueue
--   Store/Iterator      ssdb/src/ssdb/iterator.cpp, ssdb/src/ssdb/ssdb_impl.cpp: Iterator, KIterator, iterator
--   BackendSync         ssdb/src/backend_sync.cpp: BackendSync::Client and the rounds of its thread
--   Slave               ssdb/src/slave.cpp: Slave
--   Logger              ssdb/src/util/log.cpp: Logger
--   Replication         the messages of a client, taken by a slave
--   Store/Impl          ssdb/src/ssdb/ssdb_impl.cpp: set, del, get, hset, hget, hdel, hsize, raw access
--   Tests               the theorems at concrete inputs
-- The modules below these hold their proofs.
--
-- A function has the name of the source's. The state it changes is an argument and a part of
-- the result: a Queue holds the database, the open batch and the two sequence numbers. An int
-- is an integer, an unsigned type of w bits a natural number reduced modulo 2 ^ w, a byte
-- string a list of numbers, errno a number that goes in and out.
--
-- The loop of parse_req runs on fuel, the number of bytes it has and one more: each round
-- consumes at least one. The loop in which a buffer grows runs on the number of bytes that it
-- needs and one more: each round makes the buffer larger. The digits of a number n are printed
-- on n + 1 rounds, each of which divides it by 10. The loop of BackendSync::Client::sync goes
-- forward in the log with each round, so that one round for each number behind the client's and
-- one more are enough; that of onRead has one round for each request and one more; that of
-- recv_req has one for each byte and one more; that of KIterator::next ends in its first. All
-- other loops follow their data.
--
-- A pool of threads is a system of one caller and n workers (WorkerPool). A step of it is a
-- statement of one thread (the test of a queue, the copy of its front and the removal of it are
-- three), and the steps of the threads come in any order; the locks, the
-- condition and the pipe, which has room for a given number of bytes, say which steps there are.
-- A signal wakes one thread that waits, if there is one, and a thread may wake for no reason. The
-- jobs pushed, taken, finished and popped so far are kept beside the state, for the theorems.
--
-- A client of the replication holds a pointer to an iterator, NULL or one to an iterator, which its
-- constructor does not set: it is an argument of new_client. The theorems on a copy begin with NULL. A
-- round of the loop of sync makes three accesses to the store: the read and the cursor of find_next,
-- and the value.
--
-- LevelDB is a parameter (the record LevelDb): a database, its get and its write of a batch.
-- Its laws are that get finds what read finds when it does not fail, and that a write that does
-- not fail leaves what the batch's operations leave when they are carried out in order.
-- `realloc` is a parameter (the record Realloc), which keeps the bytes of the old block or
-- fails. A leveldb::Iterator is a key of a database or none, and Seek, SeekToLast, Next and Prev
-- are a parameter (the record Cursors), whose laws say which key of the database they find.
-- Other threads write to the master's store while a client reads it: `view n` is the store as
-- access number n of a call finds it. The conversion of a number with a decimal point (atof) is
-- a parameter of convert_req.
--
-- Not modelled: the event loop and sockets (libuv), the set-up of the process and of the
-- database, and the JSON library, which is a parameter (the record Json) of the loader of the
-- configuration. Calls that log a message are left out of the functions
-- that make them. Elsewhere memory is the list of its bytes, so that allocation never fails.
-- Strings have fewer than 2 ^ 31 bytes.
pub mod Prelude
pub mod Util
pub mod Net
pub mod Store
pub mod Serv
pub mod Logger
pub mod Slave
pub mod BackendSync
pub mod Replication
mod Tests
