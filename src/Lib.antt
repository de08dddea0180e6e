-- ===== src/Lib.antt =====
-- rustypaste, a pastebin server: its store, its authentication, its authorization, its pastes.
--
-- The program is an HTTP server. Handlers (src/server.rs, src/auth_server.rs) authenticate a request
-- (src/auth.rs), by a bearer token or a session cookie that the store knows, or by static tokens of
-- the configuration (src/config.rs). The store (src/store.rs) keeps principals, credentials, login
-- flows and paste metadata in SQLite (migrations/); handlers write a paste's file first (src/paste.rs,
-- with its password in a sidecar, src/password.rs) and its metadata then, and at start-up a scan of the
-- files (src/ownership.rs) is reconciled with the metadata.
--
-- Which file models which part:
-- - Prelude: tests on numbers, lists, text as code points, decimal digits (Decimal), ORDER BY
--   (Ordered), and SQL's DELETE, UPDATE, COUNT, SELECT and UNIQUE on lists of rows, with their laws.
-- - Paste/Kind: src/paste.rs, PasteType; the stored names of the kinds, of src/store.rs.
-- - Paste/Path: `std::path` as far as the program uses it. Paste/Storage, Paste/Write: src/paste.rs,
--   `store_file` with its choice of a path, over a disk that is a list of files; of src/util.rs,
--   `safe_path_join`, `get_dir_size` and `glob_match_file`; of src/password.rs, the sidecars.
--   Paste/Header: `store_url`. Paste/Remote: `store_remote_file`. Paste/Kept, Paste/Placed,
--   Paste/Stored and Paste/Header state what an upload does.
-- - Store/Base: src/store.rs, its errors, constants, checked arithmetic on seconds, secrets and user
--   codes. Store/Schema: migrations/*.sql, one record per table, the database `Db`, and calls as
--   functions `Tx` from a database to a result and a database; `transaction` restores the database
--   of a call that raises, and keeps that of one that returns, an error too.
-- - Store/Principals (with Listing), Store/Credentials, Store/Authenticate, Store/OauthFlows,
--   Store/DeviceFlows, Store/Purge, Store/Pastes (Insert, Query, Reconcile): the methods of AuthStore
--   under their own names. A method that branches on what it found has its branches as functions of
--   their own: poll_device_flow (DeviceFlows/Poll) has poll_row, claim and deliver;
--   authenticate_credential, which is no transaction, has find_credential and use_credential, between
--   which other calls may come.
-- - Store/Calls: `Call` has a constructor for each method that writes, `run` and `run_all` run calls
--   in sequence. Store/Keeps and Store/Frame: which call keeps what; the other modules below Store
--   are named for what they prove.
-- - Config/Claims, Config/Tokens, Config/Filenames: src/config.rs, ClaimRules, Config::get_tokens and
--   SpaceHandlingConfig.
-- - Auth/Request, Auth/Oidc, Auth/Legacy: src/auth.rs, the extractor of RequestAuth in its two modes.
--   Auth/Cookies: the session's cookie and the middleware that renews it. `Web` is a handler's step:
--   a function from a database to an answer or an HTTP error, and a database.
-- - AuthServer/Response, Escape, Login, Device, Account, Admin: src/auth_server.rs, each handler under
--   its own name; the handlers that branch have their rest as functions, as `callback` has
--   matched_callback, finish_callback and open_login. AuthServer/Requests: `AuthRequest` has a
--   constructor for each route, and one for a request whose authentication alone touches the store;
--   `serve_all` serves requests in sequence. AuthServer/Steps and AuthServer/Refines relate them to
--   calls of the store, so that the theorems on calls carry over to requests; Callback, Opened,
--   Redirect and Sessions state what a login and its sessions come to.
-- - Server: src/server.rs, persist_paste_metadata and can_delete_record (Metadata), expiry_seconds
--   (Expiry), and, where OpenID Connect is configured, delete (Delete), serve (Serve, with the
--   passwords of Password, and Once and Protected for what it does), list (List) and upload (Upload,
--   Answer); `upload_field` is what an upload does for one field, on the database and the disk, and
--   Recorded, with StoredRow, states it. Mime: src/mime.rs, and is_text_like_mime.
-- - Util/Ip, Util/Blocks, Util/Blocks6, Util/Remote: src/util.rs, the addresses that a fetch of a
--   remote URL refuses. Util/Extension: get_extension_from_filename. Ownership: src/ownership.rs,
--   split_expiry (Expiry) and the scan (Scan).
--
-- SQLite runs a transaction that writes, or one statement, as if alone, so clients that interleave
-- are a sequence of calls. The clock and the randomness of a call are its arguments, with their
-- failures: theorems on sequences hold for clocks that stand still or go back. Code of other packages
-- is a parameter: SHA-256, base64 and the url crate; what the OpenID Connect provider answers
-- (`OidcClient`); for files, what the operating system refuses (a removal too, whose
-- failure the code passes over) and what the crates infer, path_clean,
-- glob and argon2 answer (`Os`, `ServedFiles`); the resolver of a host's addresses; mime_guess, regex
-- and the dates of uts2ts. No theorem assumes that SHA-256 has no collisions, and where one would
-- matter the digests are compared. Loops over a fixed count (the 4 rounds of start_device_flow, the 3
-- of persist_paste_metadata) recurse on that count and answer the error that follows the loop in the
-- code; a number has at most 39 digits, as a u128 has; the others recurse on their list.
--
-- Numbers that the program writes to SQLite are not negative, so they are naturals, with the bound of
-- an i64 checked where the code checks it. Outside the model: opening and migrating the database,
-- HTTP routing and the headers that harden an answer, the OpenID Connect exchange itself, the parts of
-- a multipart form and the download of a remote file (their content is given), random names, and
-- serving, listing, deleting and uploading without OpenID Connect.
pub mod Prelude
pub mod Paste
pub mod Store
pub mod Config
pub mod Auth
pub mod AuthServer
pub mod Util
pub mod Ownership
pub mod Server
