-- ===== src/Lib.antt =====
-- dubbogo: a Go client and server for dubbo services. A client selects a provider of a service
-- (selector) among those that the registry knows (registry, over zookeeper), encodes a request with
-- a codec (codec/hessian for dubbo, codec/jsonrpc) and sends it over a transport.
--
-- Files and code:
-- - Base: Boolean tests, lists, text literals, Go maps as association lists, and the outcome of a
--   reader's call.
-- - Hessian: codec/hessian. Words has Go's fixed-width integers, as bit patterns. Reader is the
--   buffered reader, as the bytes still to be read. Ints has encInt32, encInt64, decInt32 and
--   decInt64 of encode.go and decode.go; Blob has encBinary, decBinary and getBinaryLength; Text
--   has encString and getStringLength, and Strings decString. Values has the values, Doubles
--   encFloat, encDateInMs, decDouble and decDate, Encoder Encode with lists, maps (encMap, getMapKey)
--   and structs (encStruct), and Decoder Decode, decList, the untyped branch of decMap, and decRef.
--   Classes has the class registry of pojo.go. Objects has decObject with decClassDef, decEnum and
--   decInstance, whose fields are in its child Fields with decMapByValue, and the typed branch of
--   decMap; it fills the interface ObjectReader that Decode takes. Ends is about the readers of
--   texts and binary data of decode.go on input of any kind. Header has the 16 bytes in front of
--   a packet that request.go writes and response.go reads; Args has getArgType and getArgsTypeList,
--   and Request packRequest of request.go; Response has unpackResponseBody, ReflectResponse, cpSlice
--   and cpMap of response.go, and Framing the codec of hessian.go, a packet at a time.
-- - Jsonrpc: codec/jsonrpc. Server has UnmarshalJSON, ReadHeader and Write of server.go and the
--   errors of errors.go; Client has Write and ReadHeader of client.go.
-- - Registry: Service has the urls and configurations of registry/service_url.go and
--   registry/config.go, and Urls has NewServiceURL.
-- - Selector: Mode has random, roundRobin and SelectorNext of selector/mode.go; Cache has get, set,
--   update, the step of watch and Close of selector/cache/cache.go.
-- - Zookeeper: Watcher has handleZkNodeEvent and watchService of registry/zk/watch.go, as the lists of
--   events that they send, and getChildren of registry/zk/zk_client.go. Provider has Register of
--   registry/zk/provider.go, Consumer Register and GetServices of registry/zk/consumer.go.
-- - Server: Methods has prepareMethod and register of server/rpc_server.go; Serving has readRequest,
--   serveRequest, call and sendResponse, Send and Recv of server/rpc_stream.go, and the loop of
--   handlePkg of server/server.go; Handling has Handle of server/server.go.
-- - Codec: codec/const.go, the types of codecs and transports and their names.
-- - Client: Pool has getConn and release of client/rpc_pool.go, Retry has Call of
--   client/rpc_client.go.
-- - Transport: Accepting has Accept of transport/tcp_transport.go and transport/http_transport.go
--   and Close of their sockets, Listening listen; HttpClient has the queue of Send, Recv and Close of
--   the HTTP client, HttpSocket Recv, Send and error of the server's side; Tcp has the reads and writes
--   of tcp_transport.go.
-- In each part the definitions stand in the file named after it, the theorems in its children, and
-- the runs at concrete inputs in the child Runs.
--
-- What the models take from outside src/: the wrapping of errors by juju/errors keeps a non-nil
-- error non-nil; what it makes of a nil error is a parameter of the Hessian reader (ReaderLib), as is
-- how much one Read of a bufio.Reader gives. In Client, Trace keeps a nil error nil, as its
-- documentation says. encoding/json is not modelled: a message comes as its decoded members, and a
-- pointer to an id is the request's own or leads to the package's variable null. strings.ToLower is a
-- parameter of the class registry, unicode.IsUpper of the server. What Go and strconv do with a
-- float64 is the parameter FloatLib, and net/url and net.SplitHostPort are UrlLib. A call of a handler
-- of the server is the error that it returns and what it does with its stream; what zookeeper answers
-- is an argument, and so are the url texts that net/url writes (UrlWriter).
--
-- What reflect tells of the application's types is GoTypes for Objects and Target for Response, the
-- order in which a map gives its keys an argument of packRequest, and what a connection or an Accept
-- returns an argument of the functions of Transport, as is the spelling of a header's key.
--
-- Bounds and fuel: the codec of Framing takes packets of at most 4096 bytes, the size of the buffer
-- of a bufio.Reader, so that one fill takes all of a packet; a theorem that needs this of its input has
-- the hypothesis HoldsAll. The chunk loops take the length of the data, or of the input and one or two
-- more, as fuel; each round but the last takes a byte or rune, so it is enough, as it is for the
-- entries of a map. The fuel of Decode bounds how deep values stand in one another; Response gives it
-- one more than the length of the input, and decObject as much for structs in structs: each list, map
-- or struct takes a byte, so it is enough, but for the field of an enum at the end of the input, which
-- is decoded again without end. handlePkg has as much fuel as there are packages, of which each round
-- takes one. Times and counters outside the codecs are numbers without an upper bound; the counters of
-- the selection modes wrap as int64.
--
-- Not modelled: unsigned integers, map keys of an interface type, and slices and maps of registered
-- classes among the values; the token that the loop of Accept holds while it waits, between the
-- rounds of Accepting; the zookeeper client's connection and reconnection, with the goroutines that
-- watch one node each; timeouts and dialling of the transports, and what net/http reads and writes;
-- Start and Stop of the server; the goroutines of the client. Dial, the selector and the exchange of a
-- try are arguments of the client's functions.
mod Base
pub mod Hessian
pub mod Jsonrpc
pub mod Registry
pub mod Selector
pub mod Client
pub mod Codec
pub mod Zookeeper
pub mod Server
pub mod Transport
