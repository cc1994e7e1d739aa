-- ===== src/Lib.antt =====
-- Verification library of the relay core: an OpenAI-compatible gateway that runs in an SGX enclave,
-- asks a control plane for a channel, calls the provider's official API with the provider's key, and
-- reports the usage back; and of the client that checks such an enclave.
--
-- The parts of the program and the modules that model them:
--   cmd/relay-core/main.go, dispatch.go: Relay. A request runs through Route (the routing scalars,
--     serveRelay's first part), Admit (the control plane's answer, the officiality check, the key and
--     the URL: officialUpstreamURL and suffixHostUpstreamURL are in Upstream), Dispatch (forward,
--     bufferThrough, streamThrough) and Serve (serveRelay as a whole, with the settlement). World holds
--     statusTrackingWriter and writeError. A run is a function from the client's request to a session,
--     which keeps the trace of all that the handler does, the latest event first. The other modules of
--     Relay have proofs: Outside and Protocol (the order of the dealings with others), Officiality, Calls,
--     Hosts, Base, Family and Dialled (addresses), Replied (the upstream's answer), Frame and Confinement
--     (the client's token), Faithful (the body), Billing and ImageBilling (usage), Invariants, Answers with
--     its modules and Verbatim (the response).
--     Client has the settings of newStrictUpstreamClient.
--   cmd/relay-core/aws_bedrock.go: Relay/Bedrock. The credentials, both conversions and the signed call;
--     Said, Settings, Conversion, Host, Path, Prepared, Region, Signed and Described have proofs.
--   cmd/relay-core/server.go: Server. Mux has the patterns of newHandler and how net/http picks one,
--     Handler the answers, Main the start of the process as the list of what it does; Listed, Reach,
--     Dialled, Attested and Launch have proofs. Relay/Tokens has trimSpace, fileKeyStore.KeyFor and
--     itoa64; Control and Control/Settlement have the static control plane.
--   cmd/relay-core/control_client.go: Control and Control/Settlement. The two calls over a transport that
--     is a parameter.
--   pkg/relaycontrol/wire.go: Wire. Peek, Usage, Images, Mapping, Region and StreamUsage follow its
--     functions (StreamUsage/Kept and Panics have proofs), over Json, which models encoding/json on bytes
--     (decoding into structs with keys that match without regard to case, and encoding of maps in the
--     order of keys). Regex matches the region pattern by derivatives.
--   pkg/officialurls: Official. Table and Rules (officialurls.go), Profiles (profiles.go), SigV4 and
--     SigV4/Sign (sigv4.go), over Url, which models net/url as of the toolchain that
--     cmd/relay-core/Dockerfile.reproducible pins (Authority, Shape and Written find the parts of a URL in
--     its text). Paths, SigV4/Encoding and SigV4/Ordering have proofs.
--     Vertex (the token cache), Vertex/Jwt (the assertion) and Vertex/Mint (its exchange) follow
--     vertexoauth.go, with the requests to the token endpoint as an argument; Refinement, Assertion and
--     Exchange have proofs.
--   pkg/raenclave: Enclave, over a device that makes a quote for the report data written last.
--   cmd/relay-verify: Verify, with its exit status, and Verify/Chain, the two builds of the quote check;
--     the quote-verification library, TLS and SHA-512 are parameters.
--   Common, Text, SortedMap, Headers and Base64 are shared: Go's int64 with wrap-around, the functions of
--   strings and bytes, maps with string keys, and header maps. Tests has runs on concrete inputs.
--
-- Parameters: the record World of Relay/World.antt (control plane, key store, HTTP client, connection,
-- clock, SHA-256, HMAC, formatting of floating-point numbers), Platform of Verify.antt, Device and Crypto of
-- Enclave.antt, the replies of Control.antt, Signer and Client of Vertex, Process of Server/Main.antt and
-- Library of Verify/Chain.antt.
--
-- Fuel: the loop of ResolveModelMapping has the length of the mapping and two more rounds, since every
-- round visits another key; itoa64 has twenty digits, since an int64 is below 10 ^ 20; trim_space has the
-- length of the text, since a round takes a byte away. The settlement's loop has its three attempts.
--
-- Not modelled: what net/http does with the settings of newStrictUpstreamClient (Relay/Client.antt); it
-- follows redirects, and a call in the trace is one call of client.Do with all that follow. Nor the texts
-- that relay-core's main and relay-verify print, the error texts of encoding/json, the mutex of the token
-- cache (a call of CachedVertexToken is one step), and letters outside ASCII in to_lower but for the two
-- runes whose lower case is ASCII.
pub mod Base64
pub mod Common
pub mod Text
pub mod SortedMap
pub mod Url
pub mod Headers
pub mod Regex
pub mod Official
pub mod Json
pub mod Wire
pub mod Relay
pub mod Verify
pub mod Enclave
pub mod Control
pub mod Vertex
pub mod Server
pub mod Tests
