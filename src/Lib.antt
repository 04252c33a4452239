-- ===== src/Lib.antt =====
-- skimasque: a MASQUE proxy. Clients open tunnels over HTTP/3 (CONNECT-UDP, CONNECT-IP, CONNECT)
-- and the proxy relays their traffic when its policies allow it.
--
-- How the parts interact. A request stream carries capsules: the capsule pump feeds the stream's
-- bytes to the capsule decoder, which reads its headers as variable-length integers, and routes
-- DATAGRAM capsules to the tunnel's queue and other capsules to the control queue, where CONNECT-IP
-- interprets them. QUIC datagrams of all tunnels of a connection are unwrapped by the HTTP
-- datagram layer and fanned out by the datagram router. Whether a tunnel is opened at all is
-- decided by the policy engine on the destination that the client named, which a URI template gives
-- from the path of the request, and by the address policy on the address that it resolved to. A
-- tunnel of a session ends when the session is revoked or its credential expires. On the command line
-- a SOCKS5 front end unwraps the UDP packets of local programs and sends them through such tunnels.
--
-- The files, and the code that each models:
--   Varint            crates/skimasque-core/src/varint.rs
--   Capsule           crates/skimasque-core/src/capsule.rs: `CapsuleDecoder` is a record of its
--                     buffer and its limit, `next_capsule` returns the result and the next decoder
--   Datagram          crates/skimasque-core/src/datagram.rs
--   ConnectUdp        crates/skimasque-core/src/connect_udp.rs
--   ConnectIp         crates/skimasque-core/src/connect_ip.rs: Prefix, Encode (`to_capsule`),
--                     Decode (`from_capsule`) and Scope; the other files are proofs
--   CapsulePump       crates/skimasque/src/capsules.rs: `push` with its loop
--   DatagramRouter    crates/skimasque/src/dgram.rs: the table `Routes` and the methods on it
--   Policy            crates/skimasque-policy/src: Destination with Destination.Parse, Identity, Units,
--                     Model, Eval, Learn and Lint are the files of those names; the other files
--                     are proofs
--   AddressPolicy     crates/skimasque/src/policy.rs
--   Template          crates/skimasque-core/src/template.rs: Percent, Parse and Match are the parts
--                     of that file, Template itself is the expansion; the other files are proofs
--   Target            crates/skimasque-core/src/target.rs
--   Socks5            crates/skimasque-cli/src/socks5.rs: the codec of addresses and UDP packets
--   Revocation        crates/skimasque/src/revocation.rs: the set and the future of `ended`, one poll
--                     at a time; Layer is `Revoked::call`; the other files are proofs
--   Net               the addresses of the standard library, their parser, text and special ranges
--   Prelude           numbers, lists, maps, text and results that all of them share
--   Examples          runs on concrete inputs
--
-- Conventions. Bytes and machine integers are natural numbers, with the wrap-around of the source
-- written out; a function that changes `self` or moves a cursor returns the new state; a panic is
-- `none`. An address is the number of its octets. Text is the list of its bytes.
--
-- Parameters. `Prelude.Bytes.BytesCrate` is what the code uses of the `bytes` crate, with the laws
-- of its documentation. `DatagramRouter.Mpsc` is what the router uses of tokio's channels, with
-- their laws. The pump sees of its two channels whether the receiver is there, at each send. The
-- networks of `ipnet` are a type and a test in AddressPolicy. `Revocation.Watch` is tokio's watch
-- channel with its laws, and `Revocation.Layer.TokenCrates` reads a header and a token.
--
-- Bounds. The pump's loop has fuel one above the length of the buffer, since each capsule that is
-- popped takes at least two bytes of it. The loops of `from_capsule` have the length of the value,
-- since each entry takes at least one byte. The template parser has one more than the length of the
-- text, since a round takes two braces of it. The loop of `parse_duration` has the length of the
-- text, since a turn takes a digit of it. A poll of `ended` goes round its loop at most three
-- times. Digits of a number have one more than the number. All
-- other recursion is on lists. A usize length is not bounded from above.
--
-- Not modelled: the parsers of policy files, byte sizes and bit rates (floating point), identity
-- tokens, the asynchronous services, the sockets and processes of the command line, and the
-- rendering of the site.
pub mod Prelude
pub mod Varint
pub mod Capsule
pub mod CapsulePump
pub mod Datagram
pub mod ConnectUdp
pub mod Net
pub mod ConnectIp
pub mod Policy
pub mod AddressPolicy
pub mod DatagramRouter
pub mod Examples
pub mod Revocation
pub mod Template
pub mod Target
pub mod Socks5
