-- ===== src/Lib.antt =====
-- meme-mcp: the native OAuth 2.1 authorization server of the application, the identities, sessions and
-- personal tokens of its friends, and the way of an uploaded image to a template with its metadata.
--
-- The program. Friends sign in on the web (GitHub or Google) and use the server from MCP clients. A
-- client registers, sends its user to `authorize`, which parks the request under a nonce and redirects
-- to the consent routes; these ask the friend, or find an earlier approval, and issue a single-use code
-- after a live check of the friend's authorization; the code is exchanged for an access and a refresh
-- token, a family, and the refresh token is rotated at each use. The bearer of a request is an access
-- token or a personal access token, and is checked live again. All of this state is in SQLite tables.
-- On the web a friend uploads an image: it is checked, held against the known ones, and a vision model
-- proposes metadata, whose text is sanitized and whose zh-TW half passes a gate; the upload waits for
-- review under its owner's name. The approval cleans and checks the metadata again, marks what the friend
-- edited, and merges it into the template, where the words of a human win over those of a model. The
-- command line collects the images that no template and no live upload refers to, and old renders.
--
-- The files.
-- - Base: shared names; Result for calls that raise, Texts and Strings for str, Stamps for the times that
--   are stored as ISO texts, Table for the statements on a table: SELECT, UPDATE, DELETE and INSERT by a
--   Boolean condition on rows (Table/Keyed: a text as primary key; Table/SingleUse: a column that is set
--   once).
-- - Oauth/Schema (src/meme_mcp/oauth/schema.py): a record for the row of each table, and OauthStore, the
--   six tables of SQLiteOAuthStore. Oauth/Scopes: the scope column.
-- - Oauth/Store (src/meme_mcp/oauth/store.py): one file for each section of SQLiteOAuthStore, with the
--   method names; Tokens and Rotation hold _fetch_usable_refresh and rotate_refresh_token. The files
--   below each are its theorems. Oauth/Store/Steps: the calls as steps between stores, and what holds
--   along every sequence of them.
-- - Oauth/Provider (src/meme_mcp/oauth/provider.py): MemeAuthProvider, with its data in
--   Oauth/Protocol; `load_bearer` is its load_access_token. Oauth/Redirect: _validate_redirect_uri.
--   Oauth/Consent (src/meme_mcp/oauth/consent.py): the two routes.
-- - Auth/Allowlist (src/meme_mcp/auth/allowlist.py), Auth/Authorization
--   (src/meme_mcp/auth/authorization.py), Auth/Pat (src/meme_mcp/auth/pat.py), Auth/GooglePins
--   (src/meme_mcp/auth/google_pins.py).
-- - Auth/Sessions (src/meme_mcp/auth/depends.py, src/meme_mcp/auth/session.py, and
--   _resolve_google_principal of src/meme_mcp/app.py): the two front doors. Web/Csrf and Web/SafeNext
--   (src/meme_mcp/web/csrf.py): the CSRF tokens and the local return targets.
-- - Metadata/Locales (src/meme_mcp/metadata_locales.py): the zh-TW half of a template's metadata;
--   Fields, Merging, Blocks and HumanWins are about merge_locales, Display about the readers and the
--   stamps, Edits about both together.
-- - Uploads/Pending (src/meme_mcp/db/uploads.py), Uploads/Collection (src/meme_mcp/cli/gc_uploads.py),
--   Uploads/Dedupe (src/meme_mcp/upload/dedupe.py); Uploads/Analysis, Uploads/Machine,
--   Uploads/Validation and Uploads/Approval (src/meme_mcp/upload/service.py, with
--   src/meme_mcp/upload/validation.py): analyze_image, the locales that a model proposed, the checks of
--   metadata, approve_pending. Db/Templates (src/meme_mcp/db/templates.py).
-- - Vlm/Sanitize (src/meme_mcp/vlm/sanitize.py), with the walks over metadata in Vlm/Sanitize/Metadata;
--   Vlm/Drift (src/meme_mcp/vlm/drift.py): the gate.
-- - Rendering/Signing (src/meme_mcp/rendering/signing.py): the signed addresses of renders, with
--   Base/Numerals for `str` and `int`.
-- - Db/Receipts (src/meme_mcp/db/receipts.py), Db/Renders (src/meme_mcp/cli/gc_renders.py, with what it
--   calls of src/meme_mcp/rendering/image_store.py), Limits (src/meme_mcp/limits.py).
-- - Examples: concrete stores, and the theorems applied to them.
--
-- The model.
-- - A str is a list of code points. The conversion to lower case is that of ASCII.
-- - Each reading of the clock is an argument, in microseconds, and so is each random token (a Draw is a
--   token with the reading beside it). Nothing is assumed of the readings unless a theorem says so.
-- - A stored time is a Stamp: one the program writes (UTC), a text without a time zone, or one that is no
--   time; the number in it is its place in the order of the texts, by which SQL compares.
-- - The HMAC under the store's pepper, Fernet and pydantic's JSON codec are not part of the program: they
--   are the record Primitives, an argument, and RoundTrips states that decryption and validation undo
--   encryption and dumping. Nothing is assumed of the hash; two tokens with one hash are one row.
-- - A method of the token store runs in one transaction: a call that raises gives an error and no store.
--   The provider and the consent routes make several calls, each with its own commit, so they give the
--   store beside the result.
-- - A refused INSERT (a taken primary key) is integrity_error; the subtraction of a time without a zone
--   from one with a zone is type_error.
-- - In Steps, a new grant draws a family id that differs from the one family that is watched, since
--   ids are random tokens.
-- - The loops are over lists. Fuel is used only for the digits of a number: the number itself, which no
--   count of digits exceeds. Lifetimes: 15 minutes, 30 days, 5 minutes, 10 minutes; grace: 30 seconds.
-- - A dict of JSON is the list of its entries in their order, a number is its literal, and a column of
--   JSON holds the value itself. `get` answers null for an absent key, as the callers' tests have it.
--   Where the keys of an incoming dict must differ, DistinctKeys says so: those of a Python dict do.
-- - What the sanitizer and the uploads call that has no model here is an argument: Library has NFKC, `str`
--   of a value that is no text, and urlsplit; Services has the limiter's answer, base64, libmagic,
--   Pillow's check and re-encoding, the hashes of an image, the path of a blob, and the two models.
--   Nothing is assumed of them. The Codec of the signatures has HMAC, base64 and UTF-8.
-- - `gc_uploads` takes each of its three readings of the clock apart. The image store of the collections
--   is the list of its paths, and for renders the list of files by hash.
-- - The sum of sizes is over the rows that are left, so that `total -= size` never goes below 0. Instants
--   count from the first that `datetime` has, where a cutoff before it overflows.
-- - The limiters count in ticks of the monotonic clock; `now - start >= window` is written as
--   `start + window <= now`.
--
-- Not modelled: the web application's other routes and its pages, the HTTP calls to the identity
-- providers, to the vision model and to the search by image, the stripping of an image's metadata,
-- the rendering of pixels, and the command line beside the two collections, which are I/O, pixels and
-- wiring; the search of templates, which ranks with floating-point numbers; the in-memory store and the
-- listings of personal tokens and of pins, which only read; and the timing of failures.
pub mod Base
pub mod Auth
pub mod Db
pub mod Limits
pub mod Metadata
pub mod Oauth
pub mod Rendering
pub mod Uploads
pub mod Vlm
pub mod Web
pub mod Examples
