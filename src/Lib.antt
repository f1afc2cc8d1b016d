-- ===== src/Lib.antt =====
-- The CommandCode plugin for CLIProxyAPI: a provider that takes requests for configured models
-- over, sends them to an OpenAI-compatible endpoint through a pool of keys, and brings the answers
-- into the form that the host expects.
--
-- The parts, in the order in which a request meets them:
--
-- * Config (config.go, and normalizeModel of plugin.go): the configuration, its model entries and
--   the tables that `buildIndexes` derives from them, `claimed` and `rewrites`. A nil configuration
--   is `none`. Names compares model names, Index and Claims describe the tables by the entries, and
--   Order is about entries in another order, as is Order of Router.
-- * Router (router.go): `RouteModel` takes a request over if the tables claim its model, or the
--   model that a scan finds in its body. It may build the tables, so the configuration is passed
--   along.
-- * Models (models.go): the models that the host registers.
-- * Pool (pool.go): the members of the key pool (`members`), their weighted order (`order`), the
--   client of each member (`clientFor`, with the clients that the pool keeps by index) and
--   `retryable`.
-- * Translator (translator.go, jsonutil.go): the request's model is rewritten to the vendor's name.
-- * Reasoning (reasoning.go): the backfill of "reasoning_content", and `itoa`. Rounds says what the
--   backfill writes for a choice and Content for a body, Paths tells the fields apart that it sets,
--   and Recorded is a JSON library on which its examples run.
-- * Stream (executor.go): `convertChunks` cuts upstream reads into lines, `normalizeStreamLine`
--   makes bare JSON of a line, and the framing of the route is applied. Line is about the stacked
--   prefixes of a line, Whole about `normalizeStreamBytes`, the same on one read.
-- * Executor (executor.go): `Execute`, `ExecuteStream` and `HttpRequest` with the failover over the
--   members. Verdict specifies the failover one member at a time, Failover, Statuses and Calls say
--   what follows for the calls, Kept which clients they leave behind. Tokens is `CountTokens`,
--   Upstream and ErrorBody are about the bodies sent and read, Abandoned is about what stays
--   unread, Http about raw requests.
-- * Send (pool.go, iobuf.go): `hostDoer` and `stdDoer`, the two ways of sending a request. Bodies
--   says what a response body becomes.
-- * Abi (cmd/commandcode/abi.go): the bridge to the host. Abi has the streams between host and
--   plugin (`readHostHTTPStream`, `pumpABIStream`) and error envelopes, Calls has `callHost` with
--   `DoStream` and `marshalABIStreamResponse`, Wire the messages, Dispatch `handleABIMethod` and
--   `handleRegister`, and Exports the exported functions on the state of the library. HostStream
--   puts the host's stream in front of `convertChunks`, and Path follows a stream from the upstream
--   to the host, with Delivery for its last part; Relay, Answers and Failures say what passes
--   between host and plugin, Refused what the host finds when every key is refused, and Overflow
--   what weights do whose sum does not fit; Sound compares the library with the steps of Plugin,
--   Served and Streamed say when a call is answered. Pipeline has the goroutines of a stream,
--   reader, `convertChunks` and `pumpABIStream`, in steps that interleave: Refines and Fair compare
--   them with the composition of the functions, Ends says how what they pass on ends, Progress
--   bounds their steps, Whole and Hosted follow a stream through them from the upstream on, and
--   Leak says what an emit that fails leaves behind. HostClient is the host's HTTP client by calls
--   of the host. Memory has the buffers of C: Served puts an answer in the host's, Table and Lent
--   are about those that the host lends, Lengths about the casts, Session and Owners about a whole
--   run.
-- * Plugin (plugin.go, cmd/commandcode/abi.go): registration, shutdown and the calls that change
--   the state that they share, the configuration and the pool's clients, as steps. Life follows
--   them. Shared has calls that overlap, as moves on the plugins that they hold, and Overlap says
--   what each of them may rely on.
-- * Usage (usage_probe.go): the log of usage records behind `HandleUsage`; Log counts them.
-- * Release (.github/scripts/package-release.go): the script that packs a release, as the calls
--   that it makes. Handles says which files it closes.
-- * Base holds what they share: byte strings with the functions of package strings that are used,
--   dictionaries, lists and tests on numbers; Utf8 says which bytes are text, for hypotheses. Json
--   states the JSON libraries' interface, and Toys holds the instances on which the examples in the
--   modules Tests run.
--
-- How state and effects are modelled. A function that changes the configuration or the pool's
-- clients returns them. The loop of `Execute` and `ExecuteStream` is one function, `failover`: they
-- differ in the call of a member only, which is its argument. The network is a parameter, a
-- function from the round, the client, the URL, the headers and the body to a reply; so are whether
-- the context has ended behind a round, and the values of the random generator. A panic is an
-- outcome of its own. A stream channel is the list of what it delivers; whether the consumer takes
-- a send is a parameter too.
--
-- Parameters: gjson, sjson and encoding/json (Json), yaml.v3 (Yaml), net/url and x/net/proxy (Net),
-- the clients' answers (World), net/http and the host's client (Network), encoding/json on the
-- messages of the ABI (Wire) and of the host's client (HostWire), the host's table of functions on
-- memory (HostTable), and the file system of the release script (Disk). Hypotheses on them are the
-- records JsonLaws, SetModel and SetStream, with instances in Toys, HostLaws, with one in the tests
-- of Memory, and SetContent, with one in Recorded.
--
-- Bounds and fuel. `collapse` runs on fuel, the length of the line and one more; each round makes
-- the line shorter by the prefix. `order` runs one round for each member. `itoa` has the 20 bytes
-- of its buffer. Weights add up in an int64, with the wrap-around written out; the lengths of C
-- buffers are cast to 32 bits, which Memory writes out; elsewhere numbers do not come near the
-- bounds of int. Strings are byte lists: `ToLower` is the one of ASCII, other bytes are kept, and
-- `TrimSpace` knows Unicode's white space in UTF-8. A status of a reply is a natural number, so
-- negative ones that a host may send are left out.
--
-- Not modelled: the schema version and the model scope in a registration, which are constants of
-- the host's SDK, and the tests. Locks are left out: `order` and `clientFor` hold the pool's lock
-- from start to end and the others guard single accesses, so calls are steps that are taken one
-- after another. Shared cuts them where they may overlap, at each call of `clientFor`. Outside
-- Pipeline the goroutines of a stream are followed through what they send: that a send has a taker
-- is a parameter where the code waits for the context too, and is assumed in `readHostHTTPStream`,
-- where it does not. In Memory an allocator may give any address that is free, or none, though
-- cgo's malloc ends the process where there is no room; what new memory holds is taken to be zeros,
-- and is written over before it is read.
pub mod Base
pub mod Config
pub mod Router
pub mod Models
pub mod Pool
pub mod Json
pub mod Reasoning
pub mod Stream
pub mod Translator
pub mod Executor
pub mod Send
pub mod Abi
pub mod Plugin
pub mod Usage
pub mod Release
pub mod Toys
