-- ===== src/Lib.antt =====
-- Audio streaming service: the Core API (core-api/).
--
-- The Core API takes audio files over HTTP. An upload stores the file in an S3 bucket, inserts a
-- row into the table `tracks` and publishes a transcode job to Kafka; if a later step fails, the
-- earlier ones are taken back. Two more handlers list the tracks of a status and sign a download
-- URL for a track. All three stand behind a router with CORS headers.
--
-- Files and the code that they model:
-- - Common: Booleans, lists, bytes, integers and results. Strings are lists of bytes; a Go call
--   `v, err := f(...)` with effects is a function W → Result A × W on an outside world W, which
--   is a parameter throughout.
-- - Std: the parts of the Go standard library that the code uses: strings, path, filepath.Ext,
--   encoding/hex, the verb %d of fmt, and what net/url prints. `path.Clean` resolves the elements
--   on a stack, as its documentation says, in place of the buffer with indices of the library.
--   Lower case is taken of ASCII letters, and the comment there says why that is enough.
-- - Config: core-api/server/config.go; Config/Environment: the settings that NewConfig reads;
--   Config/Package: what is relied on of package env; Config/Required, Config/Defaults and
--   Config/DatabaseUrls: the theorems on NewConfig and DatabaseURL.
-- - Storage: core-api/storage/s3.go. The clients of the AWS SDK are the record S3Client.
-- - TrackStorage, TrackStorage/Keys: core-api/usecases/track_storage.go, with the keys of objects
--   in Keys. Keys/Segments, Keys/OriginalKeys and Keys/KeyChecks hold the theorems on them,
--   Objects and Listing those on stored objects.
-- - Repository: core-api/repositories/models.go; Repository/Queries: query_tracks.sql.go and
--   db.go; Repository/Tables: what the SQL texts of query_tracks.sql.go do with a table;
--   Repository/Lifecycle: the changes of a track's status; Repository/Listings: the three lists.
-- - Events: core-api/events/transcode_jobs.go; Events/Brokers: the list of brokers.
-- - Services: what is relied on of the database, the object storage, the broker and the random
--   source, as laws on what can be observed of the world. A call that reports an error is taken
--   to have had no effect.
-- - Handlers/Upload, Handlers/Download, Handlers/Tracks: the files of core-api/server/handlers. A
--   handler is composed of one function for each call of a service, which takes the result of
--   that call (`after_put`, `after_create`, ...). Below Handlers/Upload, Checks and Rejections
--   have the part of an upload before its first effect, Calls the outcome of each call, Commit,
--   Rollback, Effects, Contained, Saga, Success and Orphan the handler as a whole. Steps is the
--   same handler as a machine that makes one call in each step, and Interleaved the uploads that
--   the server handles at the same time, any of which makes the next call; Interleaved/Promises
--   and Interleaved/Owned say what each relies on. Settled has the machine up to its answer, and
--   Dangling a compensation that fails. Handlers/Reads: the download and the list where no call
--   fails; Handlers/Playback: an upload with both behind it. Handlers/Json: the names of the
--   members of the JSON objects, from the struct tags.
-- - Server: core-api/server/server.go and core-api/server/routes; Server/Routing: what is relied
--   on of the router; Server/Dispatch and Server/Serving: the handlers behind it.
--   Server/Documented: the answers that core-api/openapi.yaml lists for each operation;
--   Server/Conformance: the handlers against them; Server/Schemas: the schemas of the bodies
--   there; Server/Described: the answers against them; Server/Playback: an upload, its download
--   and the list, through the router; Server/Reading: the requests that change nothing.
-- - Lifecycle, Application: core-api/cmd/main.go and the hooks of core-api/repositories/fx.go (in
--   Repository/Pool), of the publisher and of the server. Application/Build: what the
--   constructors that main provides make of one another, as a relation, with AsRoute and
--   TakesRoutes of core-api/server/routes/route.go; the order in which package fx calls them is
--   open. BuildOrder, Group, Parts and Serving: what comes out in every order. Startup: an order
--   that gets to a server.
-- - Tests: a world in memory that meets the laws, and theorems at concrete inputs.
--
-- All recursion is structural but for `decimal_from` of Std/Format, whose fuel is the number plus
-- one; each step divides the number by ten, so that is enough, as read_from-decimal there says.
--
-- Numbers: sizes, times and durations are natural numbers, which leaves out negative durations
-- and sizes over 63 bits; the priority and the ports are integers.
--
-- Not modelled: net/http (a request arrives parsed, with the number of bytes that reading its
-- form takes), gorilla/mux (the record Mux), the parser of net/url, the text of UUIDs and times,
-- the text of JSON, the packages env, pgxpool, kafka and fx, which are parameters; the context
-- and its deadlines; logging; the other services (audio-converter, playback-api, statistics-api)
-- and the frontend, which are not in Go.
pub mod Common
pub mod Std
pub mod Config
pub mod Storage
pub mod TrackStorage
pub mod Repository
pub mod Events
pub mod Services
pub mod Handlers
pub mod Server
pub mod Lifecycle
pub mod Application
pub mod Tests
