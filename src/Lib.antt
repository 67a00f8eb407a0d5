-- ===== src/Lib.antt =====
-- libDwm: prefix tries, wire formats and the value types that go over the wire.
--
-- The parts and their files:
--   Base        numbers, Booleans and lists: Boolean tests, lists measured by native numbers,
--               digit laws of the native bit operations, std::countl_zero, masks.
--   Ipv4        classes/include/DwmIpv4Address.hh, DwmIpv4Prefix.hh, classes/src/DwmIpv4Prefix.cc.
--               An address is the number in host order; a prefix is a record of that number and
--               the mask length. Ipv4/Prefix/Laws reads the operations bit by bit and fills the
--               interface of the trie.
--   Patricia    classes/include/DwmIpv4PrefixPatricia.hh. Patricia/Key is what the trie asks of a
--               prefix; Patricia/Trie has the nodes and one function for each recursion or loop
--               (addNode is add_node, removeNode is remove_node, clear is clear_node, copyNode is
--               copy_node, and the loops of find, find_longest, find_matches, find_wider);
--               Patricia/Map has the public operations on _root and _size. Patricia/Shape states
--               what holds of every node; Insert, Remove and Search prove it of the recursions.
--               Patricia/Iterator has the iterators, with the walk over a trie in
--               Patricia/Iterator/Walk; Patricia/Stored has Write and Read on streams.
--               Patricia/Contract is the promise of a search for the longest match.
--   Ipv4/Routes classes/include/DwmIpv4Routes.hh, a table of hash maps by mask length; its searches
--               are in Ipv4/Routes/Search. Ipv4/Routes/Hits reads them as walks over one list of
--               matches, Ipv4/Routes/Agreement relates the routes and the trie, and
--               Ipv4/Routes/Coalesce joins routes and drops those that a wider one covers.
--   Ipv6        classes/include/DwmIpv6Address.hh and classes/src/DwmIpv6Address.cc (Address),
--               classes/include/DwmIpv6Prefix.hh and classes/src/DwmIpv6Prefix.cc (Prefix), in the
--               build without SSE2 and Neon, on arrays of sixteen bytes (Bytes); and
--               classes/include/DwmIpv6PrefixPatricia.hh (Trie), which takes its operations on
--               nodes from Patricia at the class Ipv6Prefix.
--   Thread      classes/include/DwmThreadQueue.hh: the members of Thread::Queue, and threads that
--               wait on it (Thread/Waiting); and classes/include/DwmLoadBalancer.hh
--               (Thread/Balancer), whose workers have such queues.
--   Wire        classes/include/DwmEndianness.hh (Wire/Bytes), DwmEncodedUnsigned.hh
--               (Wire/Encoded), classes/src/DwmSizedLength.cc (Wire/SizedLength),
--               classes/include/DwmStreamIO.hh and classes/src/DwmStreamIO.cc (Wire/StreamIo
--               and, for its templates over other types, Wire/Containers),
--               classes/include/DwmDescriptorIO.hh and classes/src/DwmDescriptorIO.cc
--               (Wire/DescriptorIo and, likewise, Wire/Descriptors). Wire/Stream has the C++
--               streams, and the interface of a call that reads from a handle.
--   Time        classes/src/DwmTimeValue64.cc, and classes/src/DwmTimeInterval64.cc
--               (Time/Interval64).
--   Mpls        classes/src/DwmMplsLabel.cc and DwmMplsLabelStack.cc.
--
-- A `Node *` is the tree below it, and a `_parent` pointer is the prefix of the node it points to,
-- which names one node since the prefixes of a trie are distinct. `_size` is passed through the
-- calls that change it. The iterator that a search returns is what it points to; in
-- Patricia/Iterator it is the pointer, and the climb along `_parent` has as much fuel as the trie
-- has nodes. The map is stated for any key that meets Patricia/Key, and its tests run it over IPv4
-- prefixes. Insertion and the searches recurse on the tree, so they need no fuel.
--
-- The byte order of the host is a parameter of every function that goes through memory, so the
-- round trips hold between any two hosts. `std::istream` and `std::ostream` are the characters and
-- the state of the stream. `read`, `write`, `fread`, `gzread`, `BZ2_bzread` and their kin are
-- parameters: a call takes a state and gives the bytes transferred, none where it fails. The one
-- hypothesis on them (Source in Wire/Stream) is that as many bytes come as are asked for if that
-- many are to come; that on a call to write (Sink in Wire/Descriptors/Codec) is that it takes all
-- it is given. A result of -1 is `none`; where the code keeps it in an unsigned variable, it is the
-- greatest number (Wire/Descriptors).
--
-- The loop that reads a stack of labels ends only at a label or a failed read, so it has fuel. On
-- an istream the fuel is one more than the characters to come, since each round takes four of them;
-- on a descriptor, whose length is not known, it is an argument. A string goes to a descriptor or
-- comes from it in rounds of which all but the last move a byte, so their fuel is its length.
--
-- A hash map of the C++ library is an association list (Base/Assoc); a loop over the 33 maps of the
-- routes is recursion on the index. Prefixes with masks above 32, which may be read but not made,
-- are outside the array of maps and outside the model. In Thread/Waiting a member that holds the
-- mutex throughout is one step; a wait that fails its test and its sleep are two, with the mutex
-- kept between them, and a signal, which does not lock the mutex, may come between. A thread may
-- wake at any time, as the condition variable allows, and a wait with a time limit may give up when
-- it does. Steps that put entries of another queue into this one, by Swap(Queue &) or Copy(Queue
-- &), do not notify; a run says whether it has such steps. A caller of the load balancer that finds
-- no room sleeps and tries again: the rounds have fuel, and what the other threads do to the
-- workers in between is a parameter. A round itself is one step: the workers take no entry between
-- the comparison of their loads and the push.
--
-- Not modelled: Aggregate of the trie, and its Read and Write on descriptors; associative
-- containers, tuples, variants and floating point on the wire; asio sockets; text forms; the
-- setters of MPLS label fields; the iterators of the IPv6 trie; sorting of routes; the thread
-- pools and the threads of the load balancer; and the wrappers of the operating system.
pub mod Base
pub mod Ipv4
pub mod Ipv6
pub mod Mpls
pub mod Patricia
pub mod Thread
pub mod Time
pub mod Wire
