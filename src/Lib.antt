-- ===== src/Lib.antt =====
-- ka9q_unix: a model of the core of KA9Q NOS, with the theorems that make it correct.
--
-- The program is a TCP/IP system. Packets are chains of message buffers (net/core/mbuf.c), which every
-- protocol extends at the front with its header and trims on receipt. IP puts the fragments of a
-- datagram together (net/inet/ip.c) and finds the way of each datagram in its routing table
-- (net/inet/iproute.c); TCP brings segments into order and takes acknowledgements (net/inet/tcpin.c),
-- and sends what the window admits (net/inet/tcpout.c), again when its timer runs out
-- (net/inet/tcptimer.c). On serial lines a packet is framed by SLIP (net/slip/slip.c) or by asynchronous
-- HDLC (net/sppp/ahdlc.c) with a check sequence (lib/util/crc.c); PPP negotiates a line with a state
-- machine that its protocols share (net/ppp/pppfsm.c). Packet radio frames bear the addresses of AX.25
-- (net/ax25/ax25hdr.c). PPP, IP and TCP use timers (core/timer.c).
--
--   * Base: lists over the native numbers, their slices, Boolean tests, bit fields, machine words.
--   * Bytes: put16, put32, get16 and get32 of lib/util/misc.c.
--   * Mbuf: net/core/mbuf.c. A packet is a list of mbufs, a queue a list of packets; `contents` is the
--     bytes that the layers above see. Operations on one packet are in Mbuf/Chain, integers at the
--     front and mbuf_crunch in Mbuf/Fields, queues in Mbuf/Queue. Whether the allocator finds memory
--     is an argument.
--   * Crc: lib/util/crc.c and the macro FCS.
--   * Ahdlc: net/sppp/ahdlc.c. `receive` calls ahdlcrx for each byte of a line.
--   * Slip: slip_encode, slip_decode and the loop of slip_rx, which gives the packets for net_route. What
--     slhc_uncompress and slhc_remember of net/slhc/slhc.c make of a packet is a parameter. Each byte of the
--     line comes with whether there is memory for an mbuf.
--   * Fsm: net/ppp/pppfsm.c. Fsm/Send has the functions that send, Fsm/Proc fsm_proc with one function
--     for each code, Fsm/Events the other events. The protocol's own functions, struct fsm_constant_s,
--     and the output function of the interface are the record `Protocol`. A read through a null
--     pointer is `none`.
--   * Timer: start_timer, stop_timer and the first loop of timerproc in core/timer.c. A timer is a number,
--     the chain a list of them, so that the circle at which timerproc panics does not arise; the clock is
--     an argument, and the loop has as many rounds as the chain has timers.
--   * Ip/Reassembly: fraghandle of net/inet/ip.c with the functions on the descriptors of datagrams
--     that it calls. The steps of its loop and the four ways to join a fragment are functions of their
--     own. An access through a null pointer is `none`.
--   * Ip/Header: htonip and ntohip of net/inet/iphdr.c. The function cksum that they call is a parameter.
--   * Ip/Route: rt_add, rt_drop, rt_lookup and rt_blookup of net/inet/iproute.c with the hashed chains
--     and the cache. The interfaces are numbers; ismyaddr of net/core/iface.c reads a list of them.
--     For more than 32 bits, where the C reads outside Routes, rt_blookup gives none.
--   * Ip/Checksum: cksum and eac of net/inet/iphdr.c with lcsum of unix/unix.c. Whether the bytes of an
--     mbuf begin at an odd address is an argument, a count that falls below zero is `none`, and the sum is
--     the pattern of an int32, which eac shifts with its sign.
--   * Ax25: htonax25 and ntohax25 of net/ax25/ax25hdr.c with addreq of net/ax25/ax25subr.c; at most seven
--     digipeaters are read.
--   * Tcp: the comparisons of net/inet/tcpsubr.c, and trim and the queue of segments out of order of
--     net/inet/tcpin.c.
--   * Tcp/Header: htontcp and ntohtcp of net/inet/tcphdr.c. The checksum function is a parameter, and
--     what the local array of options held before is an argument.
--   * Tcp/Output: tcp_output of net/inet/tcpout.c, with one function for each decision of its loop, and
--     tcp_timeout of net/inet/tcptimer.c. `Sender` is the send side of struct tcb. The loop has as many
--     rounds as the window has places and three more; the first theorem on it shows that this is enough.
--   * Tcp/Update: update of net/inet/tcpin.c, which calls tcp_output for a packet that is lost; the calls
--     of rtt_add and of the user's function are part of the result. A division by zero is `none`.
--
-- Bytes and words are natural numbers; where the C computes with 32 bits the remainder is written out,
-- and a char is signed. Loops over chains recurse on the list. The loop of slip_encode has as many
-- rounds as len_p counts, which is enough, as the theorem on its result shows. The events of the state
-- machine and of the routing table run in the order of a list, and `expire` is a clock that calls
-- fsm_timeout when the timer runs.
--
-- Not modelled: the storage caches behind mbufs and the freeing of packets, tracing and statistics,
-- the options of LCP and IPCP, header compression, the calls that timerproc makes when a timer expires, the
-- states of a TCP connection, the states of LAPB and the rest of AX.25, NET/ROM, the services and the
-- commands. The drivers, the process kernel and the files are input and output.
pub mod Base
pub mod Bytes
pub mod Mbuf
pub mod Crc
pub mod Ahdlc
pub mod Ax25
pub mod Slip
pub mod Fsm
pub mod Tcp
pub mod Timer
pub mod Ip
