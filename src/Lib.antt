-- ===== src/Lib.antt =====
-- Verification library for the reticulum node (esp-idf/components/microreticulum).
--
-- The node speaks the Reticulum protocol over radio and TCP interfaces. Links carry requests,
-- responses, resources and channel messages; their structured payloads are MessagePack. Files
-- are named from esp-idf/components/microreticulum/src. Modelled are the codec (MsgPack), the
-- channel (Channel), the packets (Packet), the resources (Resource), the announce queues
-- (Interface) and the symmetric encryption (Crypto); the other parts of the node are not.
--
-- Prelude: shared names; lists measured by native numbers; masks on a byte; the results of a C++
-- call (a value, an exception, a read outside the buffer, a recursion deeper than the fuel).
--
-- MsgPack: MsgPack.h. Pack has the packers (pack_uint, pack_bin, to_array, …), each as the bytes
-- that it appends; Unpack the unpackers over a buffer and a claimed length; Skip skip_value and
-- unpack_blob_or_object; Envelope the class Unpacker; Reader the classes MapReader and
-- ArrayReader. RoundTrip has trees of values, their encoding by the packers, and the proofs that
-- the readers invert it; Blobs and Overflow what lengths near 2^32 do. A copy of more bytes than
-- a vector can hold throws.
--
-- Channel: Channel.cpp and Channel.h. State has ChannelData; Window channelWindowOpen,
-- channelWindowClose and channelTimeoutTime; Sender is_ready_to_send, send, poll and _shutdown;
-- Receiver channelRxEmplace and _receive. Order and Delivery have the lemmas on the receive
-- ring, ExactlyOnce its invariant, Protocol the theorem from the bytes of the sender to the
-- callback of the receiver; WindowInv and SenderLaws are about the sender.
--
-- Bytes: the slices and the comparison of Bytes.h and Bytes.cpp.
--
-- Crypto: the folder Cryptography. Primitives has AES.h and HKDF.cpp over a record of the
-- mbedtls functions; Pkcs7 has PKCS7.h; Token has Token.cpp. RoundTrip, Laws and Answers have
-- the proofs. What is assumed of mbedtls is a record, IsMbedtls: digests of 32 bytes, CBC that
-- keeps lengths and inverts itself.
--
-- Packet: Packet.cpp and Packet.h. State has the fields and codes, and the record of what a
-- packet asks of destinations, links and the transport; Flags has get_packed_flags and
-- unpack_flags; Codec has the constructors, pack, unpack and the hashes; Send has send and
-- resend; Receipt has PacketReceipt. FlagLaws, Unpacking, RoundTrip, Laws, Answers,
-- Construction, SendLaws and ReceiptLaws have the proofs. Packet::prove and the constructor over
-- a link are not modelled.
--
-- Resource: Resource.cpp, Resource.h and ResourceData.h. State has ResourceData and the
-- constants; Slots the vectors of parts and map hashes; Pace the window and its rates;
-- Compression the bz2 helpers; Advert ResourceAdvertisement and ResourceFlags; Receiver accept,
-- _request_window, hashmap_update_packet and receive_part; Sender the constructors and
-- advertise; Serving request, validate_proof and cancel; Watchdog watchdog. Doubles are a record
-- of operations, so what is proved holds for any arithmetic; the link's encryption, the digest
-- and bzip2 are a record of functions too. A call reads the clock once, both callbacks are set
-- and do not call back into the resource, and the link takes every packet. Delivery has the two
-- sets of parts that the receiver's state stands for (Sets, Core, Learning), what parts and
-- updates do to them (Arrival, Updates, Cutting), both ends at the start (Start, Opening) and
-- whole transfers (Machine); Advert has child modules for what its packet holds; Integrity,
-- Window, PaceInv, Retry and Requests the other proofs.
--
-- Interface: Interface.cpp and Interface.h, with the lines of Transport.cpp that use the
-- announce queue. Announces has process_announce_queue, the poll of Transport::jobs and what
-- Transport::outbound does with an announce on an interface; Selection and Spacing have the
-- proofs. The wait behind a frame is a parameter, a function of the frame's size, and
-- transmissions do not throw.
--
-- A size_t has 32 bits, as on the ESP32, and its sums and differences wrap. A double is its IEEE
-- pattern; conversions to double are parameters. The recursion of skip_value is on fuel for its
-- depth: one above the nesting of the value is enough. The delivery loop of a channel is on fuel
-- too, the length of its ring: each round takes one envelope out. Times of a channel are counted
-- in 64ths of a microsecond, in which its timeouts are whole numbers; those of a receipt and of
-- an announce queue in microseconds. Where a call throws, what it had changed before is not
-- kept, except in unpack, which catches.
--
-- The channel asks the packet layer for three things, which are a record of functions: the first
-- send of a packet, the status of its receipt, and the resend. The receive callback is taken to
-- record its calls and not to call back into the channel.
pub mod Prelude
pub mod MsgPack
pub mod Bytes
pub mod Channel
pub mod Crypto
pub mod Packet
pub mod Resource
pub mod Interface
