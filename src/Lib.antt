-- ===== src/Lib.antt =====
-- The core of the hub, an extension registry: who may do what, what a request writes to the tables,
-- and what stays true of them.
--
-- The parts, from the bottom up:
-- - Shared: Boolean tests, lists over the native numbers, the result of a handler that may throw, and
--   the SQL statements DELETE, UPDATE and INSERT .. ON CONFLICT on lists of rows.
-- - Http (src/errors.js): HttpError, its constructors, toJSON and errorHandler.
-- - Util (src/util.js): the patterns of names as regular expressions run by a matcher, and
--   maxVersionBySemver over the package semver.
-- - Db (migrations/*.sql): the tables as lists of rows in the order of their ids.
-- - Notify (src/notify.js, src/audit.js): the notifications and the audit trail.
-- - Access (src/auth.js): the bearer header, the lookup of a credential (Credentials), ownership and
--   visibility (Ownership), the guards (Guards) and the cached gate on the terms (Terms).
-- - Transfer (src/transfer.js): the guards, openTransfer and withdrawTransfer (Offers), and
--   acceptTransfer and redirectFor (Move), one definition per group of statements.
-- - Packages (src/routes/packages.js): the guards that the routes share (Requests), the lookups
--   (Resolve), publishing and publishVersion (Publish), review, deprecation and yank (Review),
--   dist-tags (Tags), the owner and access lists (Owners), and the removal of an extension (Removal);
--   Project is src/project-manifest.js and the filter of src/tarball.js.
-- - Webhooks (src/webhooks.js): the check of a destination (Targets), the lines of the events
--   (Messages), creating, removing and scheduling (Registry), and claimDue, deliverDue and
--   attemptDelivery (Queue).
-- - Accounts (src/routes/users.js, src/routes/sessions.js, src/profile.js): the profile fields
--   (Profile), signing up and in and ending sessions (Signing), changing an account (Updates), and
--   deleting it with the rows that follow it (Deletion).
-- - Organizations (src/routes/orgs.js): creating, changing and deleting one, its owner list and its
--   hooks (Members); a History is a sequence of the requests that write accounts and owner lists.
-- - Storage (src/blobs.js, src/sources.js, src/maintenance.js): the files of the blobs and sources and
--   their collection; Images and Sniff (src/profile-images.js, src/image-sniff.js,
--   src/routes/profile-images.js) are the uploads of avatars and banners.
-- - Admin (src/routes/admin.js): the terms, the privacy policy, broadcasts and quotas.
-- - Configuration (src/server-config.js, PUT /admin/config): the editable settings (Settings), whether
--   the file outlives the instance (Files), what a value is read as (Coercion), and applyServerConfig.
-- - Tokens (src/routes/tokens.js): minting, editing and revoking automation tokens.
-- - RateLimit (src/rate-limit.js): the windows of requests, counted in a table.
-- - Pagination (src/pagination.js): keysetPage with the query of a listing, parseDir and parseLimit.
-- A child module of one of these is about what its name says. Tests holds
-- sample data, and the theorems applied to it.
--
-- How the code corresponds to the model. A handler is a function from the request, as far as it is
-- read, and the tables to `Result HttpError`: an error stands for the thrown HttpError, and brings no
-- tables back, as the transaction of the code rolls back. `publish_version` has three transactions,
-- of which the first stays committed if a later one fails, so it answers the tables beside an error.
-- A request is one atomic step. The code reaches that with advisory locks for transfers, publishing
-- and removal; the routes that read a row and then write it by its id, such as the deprecation of a
-- version, are modelled as if nothing came between. Snake-case names are the code's names; SQL
-- conditions are Boolean functions of a row. Numbers are natural: GREATEST(a - b, 0) is their
-- truncated difference, and byte counts do not reach the bounds of BIGINT. All recursion of the
-- code is on lists or on a regular expression. The workers of the webhooks are interleaved as a
-- sequence of claims, outcomes and losses on one clock (Queue/Leases), and a pass of one worker takes
-- a list of turns, of which deliver_due uses the fifty of a batch. The loop over the brands of an AVIF
-- file has a round of fuel for each byte, and a client that follows the links of a listing has one for
-- each row, which is enough for either.
--
-- What is a parameter. The package semver is the record `Semver`, with the laws of a comparison by
-- precedence as fields. The hash of a token is a function. What the extraction of a tarball, the YAML
-- parser and the compiler make of an upload is an argument of `publish`, and so is whether a file
-- can be written. The hash of a password and its check, the random secrets with their hashes, the HMAC,
-- the parser of URLs, isIP, the resolver of names and the library sharp are functions, and what the
-- receiver of a delivery answers is an argument. The document of the YAML library is the list of the
-- values that were set in it. The clock is an argument.
--
-- What is left out. The pruning triggers of the database, columns that no modelled code reads, the
-- rate limit and the build log of the publishing route, and the numbers that the texts of a full
-- quota quote. auditSoon is taken as the write that it starts. A column that a foreign key sets to
-- NULL when an account is deleted keeps its value, but for the actor of the audit trail. Of the
-- program: the listings, the downloads and the serving of images, the text of a cursor and the offset
-- pages, the scrub of the blobs, the compiler and the configuration that is read on start.
pub mod Access
pub mod Accounts
pub mod Admin
pub mod Configuration
pub mod Db
pub mod Http
pub mod Notify
pub mod Organizations
pub mod Packages
pub mod Pagination
pub mod RateLimit
pub mod Shared
pub mod Storage
pub mod Tests
pub mod Tokens
pub mod Transfer
pub mod Util
pub mod Webhooks
