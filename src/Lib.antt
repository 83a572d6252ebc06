-- ===== src/Lib.antt =====
-- Verification library of dnn-daemon, the client of the Decentralized Naming Network.
--
-- The daemon answers DNS queries for DNN names. It recognises a name (internal/detector), asks DNN
-- nodes for the server behind it (internal/resolver, on the pool of internal/peerdiscovery),
-- compares the certificate that the server shows with the one its owner declared
-- (internal/certverify), keeps the verdict in a cache (internal/mapper), and sends the client to
-- its own proxy or to the server itself (internal/dns). The proxy signs certificates for names that
-- the cache vouches for (internal/ca/signer.go). The parts meet in the cache: the DNS server writes
-- the resolution and the verdict of a name, and the signer asks it through `CertChecker`, and the
-- HTTPS proxy (internal/httpsproxy) reads the resolution and writes the verdict of each new
-- connection. Queries also come in as packets of a TUN device (internal/stack), or through the
-- firewall or WinDivert (internal/capture). The program makes these parts and hands the peers that are
-- found to the resolver (cmd/dnn-daemon); its installation (internal/service) puts the certificate of
-- the authority (internal/ca/generator.go), which signs for the proxy, into the store of the system.
--
-- The files, each with its lemmas in the folder of its name:
--   Detector        internal/detector/detector.go (IsDNNName, GetTLD, isSinglePartDNN, isDNNEncoded,
--                   matchBIP39Prefix), and its word table, internal/detector/bip39.go, in
--                   Detector/Words
--   Mapper          internal/mapper/ipv6.go: `Cache` is the record of the three maps, and each method
--                   is a function from the cache, to the cache where it writes; Mapper/Ops has the
--                   sequences of calls that write
--   CertVerify      internal/certverify/verify.go and preflight.go
--   PeerDiscovery   internal/peerdiscovery/peerdiscovery.go: refreshPool is `refresh_pool`, one round
--                   of its loop is `visit`, the loop is `crawl`; PeerDiscovery/Loop has Start and
--                   Stop
--   Resolver        internal/resolver/resolver.go: Resolve is `resolve`, pickBestResult is
--                   `pick_best_result`; Resolver/Answer has the answer of one node, and
--                   Resolver/Connection the extraction functions, on the decoded JSON values of
--                   Resolver/Json
--   Signer          internal/ca/signer.go
--   Dns             internal/dns/server.go: handleA is `handle_a`, handleAAAA is `handle_aaaa`,
--                   handleDNN is `handle_dnn`, handleQuery is `handle_query`
--   TcpProxy        internal/proxy/tcp.go: HandleConnection is `handle_connection`, getResolution is
--                   `get_resolution`; TcpProxy/Verify has verifyCert and containsDNNName
--   HttpsProxy      internal/httpsproxy/proxy.go: handleHTTPS is `handle_https`; HttpsProxy/Header has
--                   handleHTTP and extractHostHeader, HttpsProxy/Listeners Start and Stop
--   Transports      internal/transports: TryTransports is `try_transports`
--   Stack           internal/stack/stack.go: one round of readLoop is `receive`, sendDNSResponse is
--                   `send_dns_response`; Packet has the builders of packets and the checksum
--   Capture         internal/capture/capture_linux.go: handleDNS is `handle_dns`; Capture/Firewall has
--                   Start and Stop on the rules of the firewall, Capture/Windows the packets of
--                   internal/capture/capture_windows.go: processPacket is `process_packet`;
--                   Capture/Darwin the files of internal/capture/capture_darwin.go
--   DnsConfig       internal/dnsconfig/windows.go: GetOriginalUpstreams, GetCurrentUpstreams;
--                   DnsConfig/Saved has mergeInterfaceConfigs, DnsConfig/Settings SetDNS, EnsureDNS
--                   and RestoreDNS, DnsConfig/Restored what they do one after the other
--   Tun             internal/tun: the devices of tun_linux.go, tun_darwin.go and tun_windows.go, in
--                   Tun/Linux, Tun/Darwin and Tun/Windows; Tun/Routing has setupDNSRouting and
--                   cleanupDNSRouting, Tun/Servers what they read from the commands of Windows,
--                   Tun/Scan and Tun/Address the functions on text
--   Authority       internal/ca/generator.go: LoadOrGenerate is `load_or_generate`
--   Service         internal/service: Service/Linux has service_linux.go, Service/Darwin
--                   service_darwin.go, Service/Windows Execute, and Service/Setup InstallService
--                   and UninstallService of windows.go; Service/Dialogs has dialogs_linux.go
--                   and dialogs_darwin.go, Service/Boxes dialogs_windows.go; Service/Trust is about the authority that is installed
--   Config          internal/config/config.go
--   Main            cmd/dnn-daemon/main.go; Main/Wiring has the loop of runForeground
--   Net             addresses and big-endian words, of Go's packages net and encoding/binary
--   Text            the functions of Go's package strings that these files call
--   Runtime         Go's library, as a record of parameters with the laws that are used
--   Common          names and lemmas that the modules share
--   Tests           the code at concrete inputs
--
-- A Go string is its list of bytes. A map is an association list, where the first entry of a key
-- counts; a pointer that may be nil is an Option. Go's int and int64 are the integers, since the
-- code only compares and copies them. An operation of the cache or of a signer is one step, as the
-- locks make it; two goroutines are two orders of such steps. `SetCertVerified` writes through a
-- pointer that `GetResolution` hands out; the readers modelled here look the name up again.
--
-- Parameters stand for code outside the repository: lower case and blanks beyond ASCII, SHA-256
-- (its result has 32 bytes), the text of an IP address (no two addresses of 16 bytes share one),
-- ParseIP and the conversion of a float (Runtime); HTTP, JSON decoding, the shuffle and the
-- signature check (PeerDiscovery, Resolver); X.509, PEM and the TLS handshake (CertVerify, Dns,
-- HttpsProxy); the packing of DNS messages and the exchange with the upstream server (Stack,
-- Capture); the outcome of a firewall command or of reading or writing a file (Capture/Firewall,
-- Capture/Darwin); the clock and the making of a certificate (Signer); what wintun.dll and the
-- commands of the system give (Tun, Service, DnsConfig), the order in which Go visits a map
-- (DnsConfig/Saved), PEM and X.509 of the authority's files (Authority), YAML (Config). Which nodes
-- answer in time is an argument too.
--
-- Loops and bounds: the crawl recurses on the crawls left (the code breaks once more than 50 nodes
-- are crawled) and then on the queue, so that it ends with no fuel of its own; Resolve tries three
-- sets of three nodes; the prefix match tries the lengths from 8 down to 3. The checksum sums in 32
-- bits, and two rounds end the loop that adds the carries. A slice out of range is a panic, which
-- `Outcome` has as a value.
--
-- Not modelled: the making and configuring of a device in Linux and macOS, the generation of keys, the
-- scripts of PowerShell and the commands of the systems, among them those of
-- internal/ca/install_windows.go, the certificate databases of the browsers and the texts of the
-- dialogs; of the modelled files, sockets, timers, signals, log messages, the copying of bytes, the
-- forwarding of queries upstream, and IPv6ToHex, which nothing calls.
pub mod Authority
pub mod Common
pub mod Runtime
pub mod Text
pub mod Net
pub mod Config
pub mod Detector
pub mod Main
pub mod Mapper
pub mod CertVerify
pub mod PeerDiscovery
pub mod Resolver
pub mod Packet
pub mod Service
pub mod Stack
pub mod HttpsProxy
pub mod Transports
pub mod Tun
pub mod DnsConfig
pub mod Capture
pub mod TcpProxy
pub mod Signer
pub mod Dns
pub mod Tests
