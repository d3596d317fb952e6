-- ===== src/Lib.antt =====
-- redseat_rust: a model of the core of the RedSeat media server and proofs about it.
--
-- The server keeps libraries of media for its users. A request is authenticated into a
-- `ConnectedUser` (model/users.rs), whose guards decide what the request may do; the model
-- controller (model/) answers it from the stores, and tells the subscribers of the event stream
-- (routes/sse.rs) what changed. Live channels are streamed by ffmpeg processes, each run by a
-- supervisor task, under a limit for each library.
--
--   Base            helpers: tests and lists on native numbers, results, equality, maps
--   Access          src/model/users.rs, src/domain/library.rs, src/tools/auth.rs
--     Roles         UserRole and LibraryRole, their levels, order and texts
--     Users         the records of users, upload keys, claims, and the errors
--     Checks        the guards of ConnectedUser
--     Policy        the relations that say who may do what
--     Decisions     the guards decide these relations
--   Accounts        src/model/users.rs, src/model/mod.rs, src/model/store/sql/users.rs: the tables of
--                   users, rights, upload keys and invitations
--     Preferences   hide_library, unhide_library
--     Keys          upload keys, invitations and redeem_invitation
--     Redeeming     what an invitation gives
--     Tokens        src/routes/mw_auth.rs, src/tools/auth.rs: parse_auth_message, mw_must_be_admin
--     Trust         which credentials make which user
--   Collections     src/tools/array_tools.rs: merges of optional lists, dedup_key
--     Updates       how often an element occurs after a merge
--     Deduped       the first element of each key
--   Encryption      src/tools/encryption.rs: the encrypted streams of backups
--     Chunks        how the data is cut makes no difference
--     Sizes         estimated_encrypted_size
--     Reading       AesTokioDecryptStream
--     Recovery      what a decryption in one part recovers
--     Passing       the header is passed over
--     Restoring     what a decryption in two parts recovers
--   Events          src/routes/sse.rs: SseEvent, should_send_to, handler_sse
--     Routing       who is sent what
--   History         src/model/users.rs, src/model/store/sql/users.rs: watched media and progress
--     Dates         the date at which a user watched a media
--     Watching      what the operations write, and whom they tell
--     Reading       the queries
--   Libraries       src/model/libraries.rs: views of a library and mappings of users
--     Views         what is shown to whom
--     Merging       the users whose progress is merged
--   Playback        src/tools/media_hls_session.rs, src/model/medias.rs: sessions of transcoded media
--     Answers       what a request for a stream is answered
--     Duplicates    two requests that start the same media
--     Keyed         sessions stand under their own keys
--     Requests      get_or_create_media_hls_session
--     Stale         the cleanup of unused sessions
--   Progress        src/model/media_progresses.rs: progress in the media of a library
--     Setting       what setting a progress stores, answers and tells
--   Scheduler       src/tools/scheduler/mod.rs: the queue of tasks
--     Ticking       what a tick takes
--     Recurrence    when a recurring task stays scheduled
--   Search          src/model/entity_search.rs: results that share an id
--     UnionFind     the union-find of merge_result_ids
--     Forest        a root is found, and two trees are joined
--     Classes       the classes of the pairs that are joined
--     Index         which results stand under an id
--     Grouping      the components by root
--     Writing       what the components write
--     Merging       what becomes of each result
--     Sharing       the roots of the union-find are those of the results joined by shared ids
--   Sql             src/model/store/sql/mod.rs: the texts of queries and their values
--     Texts         texts with placeholders
--     Binding       what a condition reads as
--     Query         QueryWhereType and QueryBuilder
--     Builder       the queries of a builder
--   Streams         src/model/channels.rs, src/tools/hls_session.rs, src/model/mod.rs
--     Sessions      get_or_create_hls_session, stop_hls_session, the cleanups
--     Limit         the limit on streams
--     Slots         what the sections of acquire_stream_slot leave
--     Racing        two requests at once
--     Cleanup       what a round of the cleanup loop cancels
--     Supervision   supervisor_loop and its stall detector
--   Tags            src/model/tags.rs, src/model/store/sql/library/tags.rs: the tree of tags
--     Store         the statements, and the trigger that follows a deletion
--     Requests      the operations of the controller, with their guards
--     Paths         get_or_create_path
--     Filing        tags stand under the paths of their parents
--     Deleting      what a deletion leaves of the tree
--     Runs          what holds before an operation and after it
--     Lookups       the lookups, predicted and imported tags
--     Operations    each operation keeps the tree
--     Changes       the tree under every operation
--     Guards        who changes tags
--     Merging       what a merge moves
--     Removing      what is left of a removed or merged tag
--   Zip             src/tools/zip_range.rs: a page of an archive that is read by ranges
--     Utf8          String::from_utf8_lossy
--     Directory     the layout of the central directory
--     Walking       the walk over the central directory
--     Extracting    a page out of a file
--
-- State is a record that each operation takes and returns. Where a request for a stream drops its lock
-- or awaits something, what the other tasks do to the state there is an argument of it. An error is a value of `Result`. A HashMap is an association
-- list, a HashSet a list without repetition, a cancellation token a number. Times are natural
-- numbers of the unit the code uses. What the environment answers (a url, a new directory, the turn
-- a process takes) is an argument. Loops are structural recursion over the list
-- they consume, and for a loop that waits for the world the list of what happens to it. The
-- `find` of the union-find takes fuel, one more than the indices of all ids: a path is no longer than
-- the number of unions before it, which is less. The walk over a central directory takes one round
-- more than the directory has bytes: a round goes on by 46 bytes or more.
--
-- Parameters, with what the code relies on as hypotheses: the AES cipher, the JWT library, the ids of a
-- lookup result, the path that a tag gives its children, SQLite's LIKE, REPLACE and ORDER BY, the server
-- that answers ranges, and the decompressor; the tests give instances.
--
-- Not modelled: the network, ffmpeg, the codecs, the plugins and the HTTP glue; the face recognition,
-- which is floating-point models run by a library; the statements of the other stores, whose texts
-- SQLite runs; the playlists, the backups, the processing of requests, and the entities of a library
-- but for its tags and progress.
pub mod Access
pub mod Accounts
pub mod Base
pub mod Collections
pub mod Encryption
pub mod Events
pub mod History
pub mod Libraries
pub mod Playback
pub mod Progress
pub mod Scheduler
pub mod Search
pub mod Sql
pub mod Streams
pub mod Tags
pub mod Zip
