-- ===== src/Lib.antt =====
-- A verification library for IN2140: a simulated file system with its programs (oblig/), a
-- datagram protocol with a lookup service over it (eksam/), a memory allocator (plenum/uke8/),
-- the scheduling of a disk head (plenum/uke9/), tables of networks and of addresses (plenum/uke11/),
-- an inventory program (CBra/uke9/), bits (CBra/uke10/), and a doubly linked list (gruppetimer/uke8/).
--
-- The file system. oblig/allocation.c keeps the table of used blocks in a file; oblig/inode.c keeps
-- the directory tree in memory, takes blocks for files from the table, and writes the tree to the
-- master file table and reads it back.
--   * Oblig/Allocation models oblig/allocation.c. `Disk` is the file's name and contents, `Outcomes`
--     says which calls of the C library work. Each C function is the definition of the same name.
--     Its theorems are in Oblig/Allocation/Laws (the table), Format (a new disk, failing writes) and
--     Store (the contract).
--   * Oblig/Blocks is the contract between the two parts, the record `BlockStore`: what oblig/inode.c
--     relies on of `allocate_block` and `free_block`. Oblig/Allocation/Store fills it.
--   * Oblig/Inode models `struct inode`, `blocks_needed` and `find_inode_by_name`. An inode that is
--     pointed to from its parent stands in the parent's list of children: the tree has no sharing.
--   * Oblig/Directory models `create_file`, `create_dir`, `delete_file` and `delete_dir`, over any
--     `BlockStore`. They take the parent and give it back changed. `Memory` says which allocations
--     of memory work, `State` holds `num_inode_ids` and the block store. `create_file_copied` and
--     `create_dir_copied` are the calls with a copy of the name, `delete_file_shrunk` and
--     `delete_dir_shrunk` those with the smaller array; a NULL of `strdup` or of that `realloc`, which
--     the code does not look at, is the outcome `unchecked_null`. Its theorems are in
--     Create, Delete, Reserve (the blocks of a file), Names, Unique and Operations.
--   * Oblig/Table models `save_inodes`, `create_inode` and `load_inodes` on the bytes of the file,
--     on a little-endian host with an int of 4 and a size_t of 8 bytes. `Input.memory` says which
--     allocations work, in their order. What the code goes on with after a number that the file
--     breaks off in, or with a NULL among the children, is not modelled. Its theorems are in Format,
--     RoundTrip, Ids and Fuel.
--   * Oblig/Tree models pointers into a tree as paths of child indices, and counts the blocks that a
--     tree holds; Oblig/Tree/Paths is about paths, Oblig/Directory/Held about what the operations do
--     to the blocks held.
--   * Oblig/System is oblig/inode.c as its programs use it: `Pointer` is a `struct inode*`, `Fs` holds
--     all trees in memory, the state and the master file table, and `Action` is a call on it, which
--     returns, ends the process, or follows a bad pointer. Consistent says when the trees agree with
--     the block allocation table; Live, Build and Builds hold the rules for the calls that make
--     inodes.
--   * Oblig/Programs models the programs: Create the four of oblig/create_fs.c, create_fs_1.c,
--     create_fs_2.c and create_fs_3.c, Load oblig/load_fs.c, and Delete oblig/del_fs.c, with its rules
--     in Rules and Ends and its parts in Sections. A program is a do block of the calls of its
--     `main`, from the first call on the file system to `save_inodes`. In them the `realloc`
--     of a deletion returns memory.
--   * Oblig/Examples, Oblig/TreeExamples and Oblig/ProgramExamples apply the theorems to concrete
--     inputs.
--
-- The protocol. eksam/handout/d1_udp.c sends and receives packets with a checksum, a size and a
-- sequence number, and waits for acknowledgements; eksam/handout/d2_lookup.c asks a server for a tree
-- over it and keeps and prints the tree. eksam/levering/15239/ holds the same code.
--   * Eksam/D1 models `compute_checksum`, `d1_send_ack`, `d1_recv_data`, `d1_wait_ack` and
--     `d1_send_data`. `Net` holds what is still to arrive and what was sent; `Library` says whether
--     `malloc` and `sendto` work and what a buffer on the stack held before. Its theorems are in
--     Header, Receive, Send and Exchange.
--   * Eksam/Peers models `d1_create_client`, `d1_delete`, `d1_get_peer_info`, `d2_client_create` and
--     `d2_client_delete`. `System` holds the answers of the system library, `Resources` the open
--     sockets and the number of objects on the heap. Its theorem stands with them.
--   * Eksam/D2/Wire models `d2_send_request`, `d2_recv_response_size` and `d2_recv_response`;
--     Eksam/D2/Store models `d2_alloc_local_tree`, `d2_add_to_local_tree`, `print_node` and
--     `d2_print_tree`; Eksam/D2/Client models the loop of eksam/handout/d2_test_client.c. Their
--     theorems are in Eksam/D2/Request, Responses, AddNodes, PrintTree, Rounds and Lookup.
--   * Eksam/D1/TestClient models eksam/handout/d1_test_client.c and Eksam/D2/TestClient
--     eksam/handout/d2_test_client.c with `d2_free_local_tree`, each from the test of `argc` to its
--     end, over the functions above: `Session` and `Resources` are what the program holds, `Ended` and
--     `LookupEnd` what it leaves. A wait that ends nowhere is the outcome `blocked`. Their theorems
--     are in the modules below them, and in Eksam/D1/Bounds and Eksam/Peers/Kept.
--   * Eksam/Examples, Eksam/LookupExamples and Eksam/ClientExamples apply the theorems to concrete
--     inputs.
--
-- The allocator. plenum/uke8/sl_list.c keeps a list of free ranges of memory, and
-- plenum/uke8/first_fit.c allocates from it and frees into it.
--   * Plenum/FirstFit models `element_new`, `list_append`, `list_insert`, `list_insert_and_merge`,
--     `find_first`, `list_draw`, and `init`, `first_fit_alloc` and `first_fit_free`. Each C function is
--     the definition of the same name. Its theorems are in Merge, Find and Draw. Programs models
--     `main` of plenum/uke8/first_fit.c and the test programs of plenum/uke8/test_list.c with
--     `list_init`, `list_delete`, `list_print` and `cleanup`. Plenum/Examples applies the theorems and
--     runs the programs.
--
-- The disk head. plenum/uke9/uke9.c compares four orders of serving requests by the tracks that the
-- head moves over.
--   * Plenum/DiskHead models `fcfs`, `look`, `lookdown`, `scan` and `main`. `qsort` and `atoi` are
--     parameters; IsSort in Plenum/DiskHead/Extremes is what the C library says of `qsort`. Track
--     numbers are natural numbers. Its theorems are in Distance, and Plenum/DiskHeadExamples applies
--     them.
--
-- The networks. plenum/uke11/cidr.c fills a table of networks at random and searches an address in it.
--   * Plenum/Networks models `makeRandomIP`, `makeMask`, `makeEntry`, `generate`, `createSearch`,
--     `maskedCompare`, `doSearch` and `main`. What `lrand48` returns is a list of numbers; `qsort` and
--     `bsearch` are parameters, of which Rearranges and IsSearch say what the C library says. The
--     list holds the first `tableSize` entries. Its theorems are in Generate and Lookup, and
--     Plenum/NetworksExamples applies them.
--
-- The ARP table. plenum/uke11/arpjob.c fills a table with random entries and replaces the oldest one,
-- again and again.
--   * Plenum/Arp models `makeRandomIP`, `makeRandomMac`, `makeEntry`, `generate`, `replace1`, the two
--     comparisons and `main`. What `lrand48` returns is a list of numbers; `qsort` with each
--     comparison and `bsearch` are parameters, of which IsAgeSort says what the C library says of
--     `qsort` with the comparison of ages. Ages is about the ages in a table, Replace about
--     the operations, Returns about the random numbers that they take, Correct about both, and Order
--     about the comparison of addresses. Plenum/ArpExamples applies the theorems.
--
-- The inventory. CBra/uke9/finnsvinn.c reads three logs into a list of articles and prints what is
-- missing of each.
--   * CBra/Svinn models `lag_vare`, `legg_til_vare`, `les_log`, `print_vare` and `main`. Articles
--     is about the list, Range about the size of its numbers, Logs about the files and the program;
--     CBra/Examples applies its theorem.
--
-- Bits. CBra/uke10/bits.c reads the fields of an application out of 16 bits, sets and unsets a flag, and
-- prints a number in binary.
--   * CBra/Soknad models these functions, with the constants of the source. Fields is about the
--     fields and the flag, Printed about `printbits`; CBra/SoknadExamples applies the theorems.
--
-- The doubly linked list. gruppetimer/uke8/uke8.c keeps numbers in nodes between two sentinels.
--   * Gruppetimer/Stack models `set_between`, `remove_node`, `push`, `pop`, `print_list`, `free_list` and
--     `main`, with the nodes in a store of addresses, `Nodes`; an access to a node that is not
--     allocated, or to a field that was not set, is the outcome `fault`. Chain says when the store
--     holds a list of numbers; Laws is about `push` and `pop`, Refines about sequences of them, and
--     Frees about `free_list`. Gruppetimer/Examples applies the theorems and runs `main`.
--
-- Common holds what all of them share: lists measured by native numbers, Boolean tests, `ℤ` for
-- int results, words in memory and in network byte order, and the laws of the bitwise operators.
--
-- Bounds and fuel. `create_inode` calls itself for every child that the file announces, so it is
-- on fuel for the depth; `load_inodes` gives it the file's length and one more, and every inode
-- takes bytes of the file. The loop of `d2_add_to_local_tree` runs on fuel `buflen + 1`, and
-- every round takes bytes of the buffer. `print_node` takes fuel for the depth of the tree. The
-- loop of `generate` takes the places of the table as fuel, and every round fills at least one. The loop of
-- `les_log` takes the length of the file as fuel, and every round takes at least two bytes. The loops of
-- `print_list` and `free_list` of the doubly linked list take fuel for the nodes.
-- The loops of `d1_recv_data` and `d1_wait_ack` take an arrival off the list each round, so they
-- need no fuel; the loop of the lookup client takes one more than the arrivals as fuel, and each of its
-- rounds takes one at least. A wait for a datagram that never comes is the outcome `blocked`. Words are
-- natural numbers below a power of 2, and what wraps is written out.
--
-- Not modelled: messages on the terminal, `debug_disk` and `debug_fs`; the functions of oblig/ and
-- CBra/ that only release memory; the address that `recvfrom` writes; the tests of `argc` outside
-- eksam/; the other exercises and examples in CBra/ and gruppetimer/, oppgaver/, pipfork/, client/ and the rest
-- of plenum/.
pub mod CBra
pub mod Common
pub mod Eksam
pub mod Gruppetimer
pub mod Oblig
pub mod Plenum
