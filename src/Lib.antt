-- ===== src/Lib.antt =====
-- Verification library of the WeChat iLink bot SDK, the Go package `wechat` in the root directory of
-- the repository.
--
-- A bot polls the server for messages, hands them to a handler of the application, and answers over
-- HTTP. The library follows this: the login by QR code, which gives the credentials; the long-poll
-- listener with its cursor, its recovery from expired sessions and its batches; the token cache that
-- the listener fills and that sending reads; sending itself, with the formatting of Markdown and the
-- upload of encrypted media, and the download of images; the cursor stores; the configuration and the
-- construction of a client; and the policy on URLs that the server supplies.
--
-- Files and code:
--   Base, Base/...        tests on numbers, lists, Go strings as byte lists, signed integers, decimal
--                         numerals, splitting and trimming of text; no code of the repository
--   Io, Io/Keeps          chains of fallible operations on a world, and what they keep true of it
--   Errors                errors.go: the errors, wrapping, joining and `errors.Is`
--   Types                 types.go and wire.go: items, messages, polls and inbound messages
--   Config                config.go: `Config`, `setDefaults`, `validate`; Config/Options: the options;
--                         Config/Valid: what a validated configuration satisfies
--   Http                  client.go: `doPost` with its headers, body limits and errors,
--                         `encodeClientVersion`
--   Url/Policy            urlpolicy.go: `newURLPolicy`, `check`, `checkString`, `checkRedirect`;
--                         Url/Redirect: `redirectGuardedClient` and what it contacts; Url/Rules: the
--                         URLs that pass
--   Crypto/Padding        crypto.go: PKCS#7; Crypto/Padding/RoundTrip: its inverse
--   Crypto/Ecb            crypto.go: AES-ECB over a block cipher; Crypto/Ecb/RoundTrip: its inverse
--   Crypto/Hex, Random    crypto.go and cdn.go: hexadecimal texts; random bytes, UUID and UIN
--   TokenCache            client.go: `SetContextToken`, `ContextToken`, `ForgetContextToken`,
--                         `contextTokenFor`; TokenCache/Spec: the abstract cache, a list in order of
--                         use; TokenCache/Index, Refinement and Reads: the map and the list of the code
--                         against it
--   Client                client.go: `NewClient` and the accessors; Client/Ready: what a new client satisfies
--   Storage/Memory        storage.go: `MemoryBufStorage`
--   Storage/Path          storage.go: `pathForAccount`; Path/Decode: reading a name back
--   Storage/File          storage.go: `writePrivateFile`, `FileBufStorage`, `SaveCredentials` and
--                         `LoadCredentials`; File/Atomic and File/Reload
--   Listener/Env          listener.go: the state shared with handlers, the world, `invokeHandler` and
--                         `invokeExpired`
--   Listener/Backoff      listener.go: `backoff`, `backoffBase`, `equalJitter`; Backoff/Bounds
--   Listener/Dispatch     listener.go: `dispatchInbound`; Dispatch/Order: what the handler is called with
--   Listener/Batch        listener.go: `processBatch`; Batch/Sequence: a batch in turn; Batch/Group: the
--                         grouping by user; Batch/Workers: the end of the pool; Batch/Shares, Balance,
--                         Moves and Users: what each user is owed; Batch/Invariant: what a batch keeps
--   Listener/Loop         listener.go: `OnMessage`, `OnExpired`, `getUpdates`, `Start`; Loop/Commit,
--                         Iteration, Delivery and Recovery: the cursor, single iterations, what is
--                         delivered, expired sessions
--   Cdn/Upload            cdn.go: `uploadCDNBytes`; Upload/Attempts: how often it posts
--   Cdn/Download          cdn.go and types.go: `downloadAndDecryptImage`, `imageAESKey` and the methods
--                         of `InboundMessage` that download
--   Cdn/Transfer          cdn.go: `UploadToCDN`;
--                         Transfer/Uploaded and Sharing: opening what was uploaded; Transfer/Keeps
--                         and Trusted: where requests go; Transfer/Keys: the keys that are read
--   Login/Options         login.go: `loginOptions` and the options
--   Login/Request         login.go: `GetQRCode`, `checkQRStatus`, `loginEndpoint`, `doJSON`
--   Login/Status          login.go: the statuses, `qrRedirectURL`, `retryQRRequest`
--   Login/Wait            login.go: `WaitForQRConfirmation`; Wait/Trust: where credentials come from;
--                         Wait/Counting, Ledger and Limits: polls, waits and codes, and the end of
--                         a login;
--                         Wait/Cooperation and Progress: a login that the user confirms
--   Markdown              markdown.go; Markdown/Plain: bytes removed, and texts passed on unchanged
--   Notify                notify.go: `SendText`, `SendMarkdown`, `SendImage`, `SendFile`, `SendVideo`,
--                         `SendTyping`; Notify/Accepts: what a success means; Notify/Posts: how often
--                         a message is submitted
--   Diagnostics           diagnostics.go: the hooks and what is logged; Diagnostics/Overlap: attempts that
--                         overlap; Diagnostics/Exchange: `doPost` with its diagnostics;
--                         Diagnostics/Plain: records that name the endpoint alone;
--                         Diagnostics/Silent: what they change and log
--   Example/Reply         examples/basic/main.go: `reply`; Example/Record: `permanent` and `record`;
--                         Example/Handler: the message handler; Example/Settled: what it settles;
--                         Example/Login: `credentials`; Example/Complete and Remember: what it
--                         returns and keeps; Example/Run: `run`; Example/Listens: from credentials to a listener
--   Tests                 concrete inputs at which the theorems are applied
--
-- State and operations. An operation of the code is a function from a state to a result and a new
-- state. The listener works on `Sys`: the token cache, the running flag, and the state of the world
-- around it. The world's operations (context, HTTP exchange, cursor storage, timer, random numbers,
-- scheduler) are the fields of `Env`, a parameter; those of files, uploads, transfers, the login,
-- sending and the example program are the fields of `Files`, `CdnEnv`, `MediaEnv`, `WaitEnv`, `SendEnv`,
-- `Process`, `Ledger` and `Program`. They may fail at any time and depend on everything that happened
-- before. A context with a timeout differs from its parent only in when they fail. A handler
-- is any function on this state that returns an error or panics.
--
-- Numbers. Counters and lengths are natural numbers. A signed number that may be negative is an
-- integer; a backoff delay is a 64-bit pattern, and its doubling wraps around in the model.
--
-- Bounds and fuel. The loop of `Start` ends only with an error, so `listen` takes the number of
-- iterations as fuel, and a result without an error means that it was still running. The worker pool
-- takes as fuel a measure of the work left: the messages and groups that are still to be handled, and
-- the workers. The sender of the groups stops when a worker has cancelled the batch or the context
-- above it is cancelled. The pool treats the dispatch of one message as one move: interleavings are
-- those of whole messages, so that a worker sees the failure of another between two messages only.
--
-- The loop of a login takes fuel too, one unit for an iteration.
--
-- Not modelled: what the code takes from other packages, which are parameters, with their documented
-- laws as hypotheses where a theorem needs them: the exchange of HTTP requests, JSON, the parsing and
-- printing of URLs and addresses, query escapes, base64, MD5, the block cipher of crypto/aes, the random
-- source, and the operations of os. How an HTTP client follows redirects is a parameter too, with the
-- law that it asks its redirect check first. Of a renaming that fails nothing is assumed. JSON is
-- taken to give back only strings that are valid UTF-8, which Storage/File/Utf8 tells by the table of
-- Unicode. The texts of errors, the drawing of a QR code and log messages but those of Diagnostics,
-- which have no effect on the state, are left out, and so are the flags and the exit status of
-- the example program. The components use `doPost` without its diagnostics; Diagnostics/Exchange models
-- it with them.
pub mod Base
pub mod Errors
pub mod Example
pub mod Types
pub mod Url
pub mod Config
pub mod Client
pub mod Http
pub mod Io
pub mod Login
pub mod Markdown
pub mod Notify
pub mod Diagnostics
pub mod Crypto
pub mod TokenCache
pub mod Storage
pub mod Listener
pub mod Cdn
pub mod Tests
