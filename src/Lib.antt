-- ===== src/Lib.antt =====
-- csup is a client of the CVSup protocol: it keeps a tree of files up to date with a server. Three
-- worker threads (lister, detailer, updater) talk with the server over the channels of a multiplexer;
-- filters decide which names of a collection take part; names from the server become paths; the
-- updater asks the detailer for a file again over the queue of fixups. The status file keeps what the
-- client has: it is read in the order of pathcmp(), and replaced by a new one as records change.
--
-- Files:
--   Prelude, Prelude/...      shared: Boolean tests, lists over native numbers, `Run` (a result, a
--                             failed assertion, or too little fuel), C's int as a difference, blocks
--   Globtree                  globtree.c: the tree, its constructors, globtree_eval(), globtree_test()
--   Globtree/Meaning          the recursive reading that the walk stands for
--   Globtree/Walk, Reduced    proofs on the walk, and on the constructors
--   Proto/Filters, Filtered   proto.c, proto_xchgcoll(): co_dirfilter and co_filefilter; proofs
--   Proto/Escape, Tokens      proto.c: escapes; proto_printf(), proto_get_...(), misc.c's asciitoint()
--   Proto/Lines               proofs on lines that are printed and read
--   Paths/Compare, Common,    misc.c: pathcmp(), commonpathlength(), pathlast(), isrcs(),
--   Paths/Rcs                 checkoutpath(), cvspath(), atticpath()
--   Paths/CompareOrder, CommonLongest, RcsSafe
--                             proofs on these
--   Keyword                   keyword.c: the tags, keyword_alias(), keyword_enable() and the like
--   Keyword/Tags, Expand      keyword.c: tag_expand(), with misc.c's rcsdatetotm(); keyword_expand(),
--                             and diff.c's diff_write()
--   Keyword/Scan, Rewriting, Values, SameKey, Collapse
--                             proofs on these
--   Diff                      diff.c: diff_apply() over the lines of its streams
--   Diff/Script, Commands     what an edit script asks for; the script as text
--   Diff/Cursor, Applied, Carried, Edited
--                             proofs on these
--   Idcache                   idcache.c: the caches of users and groups; proofs in
--                             Idcache/Sound, Requests, Aliases
--   Pathcomp                  pathcomp.c: the walk from one directory to the next; proofs in
--                             Pathcomp/Slashes, Down, Steps, Walk, InSync
--   Stream                    stream.c: buffers, stream_write(), stream_flush(); proofs in
--                             Stream/Memory, Growing, Taken, Stored, Written
--   Stream/Reading            stream.c: stream_fill(), stream_read(), stream_getln(), buffers as
--                             cookies; proofs in Stream/Prepared, Filled, Lines, LineTaken, Getln,
--                             Files
--   Status                    status.c: struct statusrec, struct status, statusrec_cmp()
--   Status/Reading, Writing   status.c: status_rd() and what it calls, status_fromrd();
--                             status_wr(), status_wrraw(), with fattr.c's fattr_bogus
--   Status/Ops                status.c: status_get(), status_put(), status_delete(), status_close()
--   Status/Entries, Copied, Closed, Cooked, Canonical, Deleted, Edited, Removed, Unescaped
--                             proofs on these
--   Status/Streamed           the stream as the reader of the status file
--   Mux/Word, Buffer          mux.c: size_t and uint32_t; struct buf and the buf_...() functions
--   Mux/Channel, State        mux.c: struct chan and the chan_...() functions; struct mux, chan_get(),
--                             chan_insert(), chan_listen(), mux_shutdown()
--   Mux/Packet                mux.c: struct mux_header, as bytes
--   Mux/Sender, Receiver      mux.c: sender_scan(), sender_loop(); receiver_loop(), packet by packet
--   Mux/Link                  one direction of an open channel, from one program to the other
--   Mux/BufferCells, BufferQueue, ChannelOps, LinkInv, LinkSteps, Delivery, PacketRoundTrip, Scanning,
--   Shutdown, Failing, Table  proofs on these
--   Fixups, Fixups/Steps      fixups.c: the queue; the updater's and the detailer's steps
--   Fixups/Delivered          proofs on these
--   Revision                  misc.c: rcsnum_cmp(), rcsrev_istrunk(), rcsrev_prefix(); proofs in
--                             Revision/Numeric, Revision/Branches
--   Rsyncfile                 rsyncfile.c: block size, blocks, rolling sum; Rsyncfile/Blocks for proofs
--   Pattlist, Attrstack       misc.c: struct pattlist; attrstack.c; with Growth for the proofs
--   Numbers                   the C library's conversions of numbers, which the program relies on;
--                             Numbers/RoundTrip: what is printed is read back
--   Fattr, Fattr/Text         fattr.c, with the table of fattr_posix.h: attributes, merge, comparison;
--                             fattr_decode() and fattr_encode()
--   Fattr/Selected, Equal, Text/Fields, Text/Sent, Text/MaskBits, Text/Steps, Text/RoundTrip
--                             proofs on these
--   Tests/...                 concrete runs
--
-- How code and model correspond: a pointer to a tree is the tree; a struct is a record less its locks,
-- conditions, threads and file descriptors; bytes are numbers, and a C string is the list of its
-- bytes before the NUL. A function that takes a lock at its start and releases it at its end is one
-- step; a wait on a condition is a value that says so, and the pass over the loop after it is another
-- step. The bytes of a data packet reach the receive buffer while the lock is free: no other thread
-- writes these cells or the index before the lock is taken again, so one step stands for both. assert()
-- that fails is `abort`, and so is a pointer that is followed where it must not be, an access outside
-- the text or the block that the model has, and a block of no bytes. size_t and uint32_t wrap; `char` is
-- signed.
--
-- Fuel: globtree_test() gets one round for each leaf of the tree, sender_scan() one for each channel,
-- rcsnum_cmp() one more than the first string is long: each round uses up a leaf, a channel or a byte.
-- A number of 64 bits is printed in at most 64 rounds, escape_loop() gets one round more than the
-- string is long, get_all() one more than both paths have bytes, a flush one more than the buffer has
-- bytes, and buf_grow() 65, for sizes double. keyword_expand() gets one round more than the line has
-- bytes, for each takes a dollar, and diff_apply() one more than there are lines of edits.
-- stream_getln() gets one round more than bytes can still come, for each but the last adds one. In
-- status.c a loop that copies entries takes a line in each round, and one that enters or leaves
-- directories gets as many rounds as pathcomp_get() has answers, and one more.
--
-- Parameters: fnmatch(), regcomp() and regexec(), with the assumption, where it is made, that a matcher
-- answers only with 0 or its mismatch code; access() in atticpath(); MD5 in rsync_nextblock(); the
-- write function of a stream, which takes no more than it gets; the password and group files
-- (getpwuid(), getpwnam() and the like) in idcache.c, and the lookups of users and groups in
-- fattr_encode() and fattr_decode(), with the assumption, where it is made, that a name and its number
-- are found from each other; the memory that xmalloc() returns; strptime() and strftime() in
-- tag_expand(), with the assumption, where it is made, that no dollar is in what strftime() writes;
-- the read function of a stream, with the assumption, where it is made, that it gives no more than
-- there is room for and fewer than 2^62 bytes in all, and, for a file, what comes next in it. The
-- status file's functions take reading a line, the end of the file, what becomes of a line that is
-- written, and whether rename() fails as the record `World`, of which Status/Streamed fills the
-- first two by stream_getln() and stream_eof(). diff_apply() takes what diff_write() writes for a
-- line as an argument; the model of diff_write() is in Keyword/Expand.
--
-- Not modelled: sockets and partial writes (sock_write() and sock_readwait() move all bytes or lose the
-- connection), the threads' start and cancellation, log output, the zlib and MD5 filters of a stream,
-- how files are opened and closed (with status_open(), and status_errmsg()'s texts), and the parts of
-- the program that are named in none of the files above.
mod Tests
pub mod Prelude
pub mod Globtree
pub mod Keyword
pub mod Diff
pub mod Paths
pub mod Proto
pub mod Fixups
pub mod Pattlist
pub mod Attrstack
pub mod Revision
pub mod Rsyncfile
pub mod Numbers
pub mod Fattr
pub mod Pathcomp
pub mod Idcache
pub mod Stream
pub mod Status
pub mod Mux
