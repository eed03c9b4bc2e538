-- ===== src/Lib.antt =====
-- UnderstandProof asks the author of a pull request to explain the change in a recorded video, and
-- routes the recording to a maintainer who decides. This library models the parts of the program
-- that decide things, and proves that they decide as they should.
--
-- The parts and the files that model them (paths from the repository's root):
--
-- - packages/domain/src/attempt.ts, the life of an attempt. Domain/Status: the statuses, the table
--   ALLOWED_ATTEMPT_TRANSITIONS, REQUIRED_ARTIFACTS and TRANSITION_AUTHORIZATION.
--   Domain/Attempt: the records and the schemas, Domain/Attempt/Schemas what a parsed value
--   satisfies. Domain/Transition: createAttempt and transitionAttempt, every guard in the order of
--   the code; its children hold the proofs (Guards, Applied and Calls: when a call does what;
--   Replay: repeated commands; History and History/Pipeline: what a sequence of calls can reach;
--   Creation: createAttempt). packages/domain/src/primitives.ts is Domain/Primitives.
-- - packages/policy/src/index.ts, the repository policy. Policy: the schema, the effective limits,
--   the deadline of evidence and the routing of an evaluation; Policy/Laws the proofs.
-- - packages/media/src, the encrypted recording. Media/Protocol: the constants and error codes of
--   constants.ts and errors.ts. Media/Bytes: the byte arrays of encoding.ts and the big-endian
--   fields that records.ts writes and reads. Media/Records: nonce.ts and records.ts up to
--   parseChunkRecord, Media/Records/Sequence: parseChunkRecordSequence.
--   Media/Encoding: base64url and hexadecimal of encoding.ts (Alphabet, Steps, Base64url, Canonical and
--   RoundTrip: base64url; Hex). Media/Intervals: question-intervals.ts (Timeline: what intervals
--   have to be like; Issues: the loop that checks them; Accepted: the whole). Media/Multipart:
--   MultipartRecordPacker and packChunkRecords of multipart.ts (Filling, Flushing, Packing, Packed
--   and Uploads follow the calls from the inner loop outwards); Media/Ledger: MultipartPartLedger
--   and verifyProviderPartList. Media/Canonical: canonical.ts and the schemas of what is authenticated
--   with a chunk; Media/Decryption: decryptRecordingChunk of crypto.ts. Media/Manifest: the records of
--   the manifest; Media/Manifest/Schema: RecordingManifestSchema with its loops over chunks and parts
--   (Layout and Accepted: what an accepted manifest describes); Media/Manifest/Authentication:
--   canonicalManifestBytes and manifest.ts (RoundTrip: authenticating and verifying).
-- - apps/worker/src/recording-reader.ts, streamDecryptedRecording: Worker/Reader, with the hashes of the
--   parts and the framing of the records over a stream of chunks (Parts and Frames: the two sides of
--   the loop; Refinement: against read_object, which reads the object as a whole; Termination).
-- - packages/db/src/jobs.ts: Jobs (payloads, singleton keys and queues), Jobs/Schemas (their
--   schemas) and Jobs/Queue (enqueueing, expediting and scheduling; Runnable: the job that an
--   expedited payload has). apps/worker/src/semantic-generation-scheduler.ts: Jobs/Scheduler
--   (Recovery: when it refuses). Jobs/Memory is a queue in memory that keeps to the laws of the queue.
-- - packages/auth/src: Auth (the rows of the tables, and session.ts), Auth/Handoff (createHandoff and
--   exchangeHandoff of handoff.ts on these tables; Writes: what they write; SingleUse and OneOpen: what
--   holds of the tokens in every sequence of calls).
-- - packages/github/src/request-policy.ts, requests that are repeated: Github/RequestPolicy (Runs: what
--   a run of attempts is; Failures: which failures may be repeated).
-- - packages/analysis/src: Analysis (the files of a patch and the limits), Analysis/Hunks
--   (parseAnchors; Anchors: its anchors are accepted) and Analysis/Scan (the loop over the files
--   and classify; Within, Coverage, Turns and Bounded: what it keeps to).
-- - packages/questions/src/planner.ts and schema.ts: Questions (the data), Questions/Texts (prompts,
--   rubrics and reasons), Questions/Pool (candidatePool), Questions/Planner (planProofBudget and
--   planProof; Plans: what a plan is) and Questions/Practice (createPracticeSet and
--   practiceAndProofAreSeparated; Separation).
-- - apps/web/lib/bounded-body.ts, the reading of request bodies: Web/Bodies.
-- - Base: what the parts share. Base/Lists, Base/Results (a thrown error as a value),
--   Base/Texts (strings as UTF-16 code units), Base/Numbers (JavaScript numbers and dates as far as
--   the code tells them apart) and Base/Bits (the bitwise operators).
--
-- How they interact. The web application and the worker call transitionAttempt for each change of
-- an attempt; the result is stored and comes back as the next call's attempt. So the state of
-- Domain/Transition/History is an attempt, and its steps are calls with any command at any time.
-- An attempt in the worker's hands is evaluated under the policy, whose routing (Policy) always asks
-- for review_required, the only status out of processing that Domain/Status lets the worker set with
-- an evaluation. Its recording arrives as the records of Media, which the client packs into
-- the parts of an upload, with the intervals in which each question of its plan was answered, and
-- its manifest, which the worker verifies and by which it reads the object back. The anchors that
-- Analysis finds in a patch are what the questions of a plan are about. The work between is passed on
-- as the jobs of Jobs.
--
-- Conventions. An exception is `throw` of the error code, a returned value `ok`. A schema is a
-- Boolean test together with the function that trims what the schema trims. The clock, the source
-- of identifiers and the library's test of a UUID are parameters (the record Dependencies and
-- section parameters). A number is a natural number or something else, since the code rejects
-- whatever is not a natural number in range before it computes with it; a date is the milliseconds
-- since 1970 or invalid, and a sum past the last date is invalid. Bytes are natural numbers, and
-- the theorems that need it ask for them to be below 256.
--
-- Code that is not of this repository is a parameter: SHA-256, AES-GCM and HMAC; pg-boss, as the
-- interface JobQueue with its laws QueueLaws; the answers, the clock and the random numbers of the
-- requests to GitHub, as a function of the attempt; and the reading of a header as a number or a date.
-- The length of a manifest as JSON is a parameter as well.
--
-- Bounds and fuel. Four loops run on fuel. scan_records has one round for each byte of the input and
-- one more; a record takes at least one byte, and parse_chunk_record_sequence_total states that the
-- fuel is never used up. flush_ready, the loop of the packer's push, has one round for each whole
-- part that is pending and one more; each round takes a whole part, and pack_chunk_records_total
-- states that this is enough. In Worker/Reader, feed_parts has one round for each byte of the chunk and
-- read_frames one for each pending byte and one more, which stream_decrypted_recording-ends states
-- to be enough. The attempts of a request are counted down from those that are allowed, and the digits
-- of a decimal number from the number itself. All other loops are structural recursion on a list.
--
-- The state of a packer is a record, and a call of it gives the next state beside what it returns or
-- throws. SHA-256 is a parameter of the packer; the theorems ask that its value in hexadecimal is 64
-- lower-case digits, which encode_hex-is_sha256 gives for any function to 32 bytes. The chunks that
-- a request's stream delivers are a list.
--
-- In Auth, a query is a search of a table's rows and an update a change of each row; a transaction that
-- throws leaves no database, which is its rollback, and two rows with one key do not arise, as the
-- indexes of the database see to.
--
-- Not modelled: the rest of persistence (SQL), the network clients, user interface, the cryptographic primitives,
-- configuration and scripts, all of which call third-party code; the registration of workers with
-- pg-boss; a sink of the reader that throws, deadlines that are no whole number of milliseconds, and
-- the hash of a plan as JSON; the regular expressions by which the analysis tells files and signals
-- apart; and the other files of packages, apps/web/lib and apps/worker that are not named above.
pub mod Analysis
pub mod Auth
pub mod Base
pub mod Domain
pub mod Github
pub mod Jobs
pub mod Media
pub mod Policy
pub mod Questions
pub mod Web
pub mod Worker
