-- ===== src/Lib.antt =====
-- kiro-gateway-go: a gateway that serves the OpenAI and Anthropic APIs from the Kiro API, with
-- several accounts behind it.
--
-- A request comes in through a route (internal/routesopenai, internal/routesanthropic), is converted
-- to a payload of Kiro (internal/converterscore and the two dialects' converters), is tried on one
-- account after another (failover.go of the routes, over internal/accountmanager) and the streamed
-- answer is parsed (internal/parsers), separated into thinking and content
-- (internal/thinkingparser) and formatted for the client.
--
-- * ThinkingParser models internal/thinkingparser/state_machine.go. A Go string is a list of bytes.
-- * AccountErrors models internal/accounterrors/classify.go.
-- * AccountManager models the breaker, the choice of an account and the reports of
--   internal/accountmanager (breaker.go, selection.go, failover.go).
-- * Failover models the loops of internal/routesopenai/failover.go and
--   internal/routesanthropic/failover.go. What an attempt meets outside is the parameter `World`.
--   The loop takes fuel; one unit more than there are accounts is enough.
-- * Parsers models internal/parsers: brace_scanner.go, and in its modules Events, ToolCalls and
--   Truncation the event stream parser (parser.go, toolcalls.go, truncation.go). Its fuel is the
--   length of the buffer and one more; each event takes a byte at least. JSON decoding and printing
--   are parameters.
-- * Json models the decoded JSON values that the converters take apart, Converters the messages of
--   internal/converterscore and the chain of steps of `BuildKiroPayload` that makes the conversation
--   (normalize.go, `StripAllToolContent` of thinking.go); what Python's `str` prints of a value
--   that is no text is a parameter. Tools models the tools and their schemas (tools.go), Extract the
--   images, tool results and tool uses (extract.go, images.go), Thinking what is added to the system
--   prompt and to a message (thinking.go, fakereasoning_models.go), History `BuildKiroHistory` and
--   Payload `BuildKiroPayload` (payload.go) up to the trimming; Within says which schemas stand
--   within a schema, apart from the code; Clean, Sanitized, Turns and Sent hold the proofs.
-- * AccountManager.State models `SaveState` of state.go and `hasStateChanged` of manager.go.
-- * Parsers.Dedup models internal/parsers/dedup.go and the end of toolcalls.go.
-- * StreamingCore models internal/streamingcore: the events and, in its module Pipeline, the pipeline
--   of the event stream parser and the thinking parser. A type assertion that panics is `none`.
-- * StreamingAnthropic models internal/streaminganthropic (block_index.go, formatter.go,
--   native_thinking.go, finish.go) and, in its module Drive, `drivePipeline` of
--   internal/routesanthropic/stream.go. Protocol is a client of the Anthropic Messages API, written
--   down apart from the code; the proofs lead it through what the formatter writes (Seen, Conforms,
--   Handled, Agreement, Modes, Finished, Response). The events are data, their JSON text is left out;
--   token estimates, JSON, ids and `ParseBracketToolCalls` are the parameter `Environment`.
-- * PayloadTrim models internal/converterscore/payloadtrim.go over the history that `BuildKiroHistory`
--   makes, and `ConvertToolResultsToKiroFormat` of images.go. The size of a payload is a parameter.
-- * NetworkErrors models the classification of transport errors of internal/networkerrors: what
--   `errors.As` and `errors.Is` find in an error comes in as a record (GoError), `strings.ToLower`
--   as a function. Infos holds the answer of each branch, Classify the code, Retryable the proofs.
-- * HttpClient models `RequestWithRetry` of internal/httpclient/client.go over the answers of the
--   network, which are a parameter. Its loop is bounded by the number of attempts.
-- * Tokenizer models internal/tokenizer: Pretokens the scanner of pretoken.go, Bpe `bytePairEncode`
--   and `EncodeOrdinary` of bpe.go. Chunks says what the merging of pairs is, apart from offsets and
--   stored ranks; Refines, Lossless and RoundTrip hold the proofs. The vocabulary and the classes of
--   characters are parameters. A loop over the characters may run once for each byte, the merging once
--   for each part, and the cutting once for each byte, which is proved to be enough.
-- * PyJson models internal/pyjson/dumps.go: Strings the two printers of strings, Dumps the printing of
--   the tokens that `json.Decoder` gives. Reader is a reader of JSON strings and Documents a printer of
--   documents, both written down apart from the code. `strconv` for floats is a parameter.
-- * Sse models internal/sse/framing.go; Events is a reader of server-sent events, written down apart
--   from the code, whose lines end with a line feed.
-- * Models models the cache of internal/cache/cache.go and `GetAvailableModels` of
--   internal/modelresolver/resolver.go; Listed holds the proof.
-- * TruncationState models internal/truncationstate/cache.go; the hash is a parameter.
--
-- Not modelled: the text of the state file, the tool calls in brackets, the native fields for
-- reasoning of a payload, the converters of the dialects, the OpenAI formatter of the streams, the
-- transport of the HTTP client, authentication, the resolution of a model's name, the counting of
-- tokens in a request, the configuration, and the serving of HTTP, which is input and output. The
-- clock, the random draws, the network and the file system are parameters throughout. Locks are left
-- out: an operation of the account manager holds its lock from its first read to its last write, but
-- for `SaveState`, whose model is a run of its own.
pub mod Common
pub mod Json
pub mod ThinkingParser
pub mod AccountErrors
pub mod AccountManager
pub mod Failover
pub mod Parsers
pub mod Converters
pub mod TruncationState
pub mod PayloadTrim
pub mod PyJson
pub mod Tokenizer
pub mod NetworkErrors
pub mod HttpClient
pub mod StreamingCore
pub mod StreamingAnthropic
pub mod Tests
pub mod Sse
pub mod Models
