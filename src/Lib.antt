-- ===== src/Lib.antt =====
-- OpenCortex: the durable queue, the event worker, the progress of requests, the sessions and their
-- buffer, the names and helpers of records, the markdown parser and the tree of a document, requests
-- to forget, the stores of memories and resources, the files and relations of a uri, facts and the
-- index writers, the access tokens and the neighbours of a retrieval.
--
-- A write request of the memory store publishes events. Each event is a message in a table of
-- SQLite (the queue), and the request waits, when it is asked to, until a tracker in memory says
-- that its messages are settled. Workers claim messages, run the actions of the event, and settle
-- the message in the queue and in the tracker. The turns of a conversation wait in a buffer per
-- session, which is cut into chunks that are merged; a session's end merges what is left.
-- Documents are cut along their headings into chunks, which become records below a root.
--
-- Base: the shared part. Base/Lists, Base/Dict and Base/Sets are Python's lists, dicts in insertion
--   order and sets, over PyEq, an equality test on the keys. Numbers are native naturals. Base/Json
--   has the values of a dict of JSON data, and the functions of Python's library on texts and paths
--   as a parameter (Python); Base/Plain is a simple instance of it.
-- Queue: src/opencortex/storage/cfs_queue.py. The table is the list of its rows (Row), in order of
--   insertion. Each method of CFSQueue is the function of its name, one atomic step as its
--   transaction makes it (Schema has the table, Defs what a worker calls, Administration the rest).
--   `enqueue` gets the id that uuid4 draws and is `none` on a taken id, where the INSERT raises. Rows of
--   the same creation time are taken in the order of the list. Queue/Calls has the sequences of calls,
--   Table and Rows the lemmas on updates, Claim and Exclusive those on `dequeue`.
-- Wait: src/opencortex/store/event/wait.py. StoreWaitTracker with a function for each method; each
--   method runs under the lock and is one step. `wait_for_request` is given the trackers and the
--   clocks that its polls read.
-- Worker: src/opencortex/store/event/worker.py, with failure.py (Worker/Failure) and events.py
--   (Worker/Events). `process` is two functions: `judge` runs the actions and gives a verdict,
--   `settle` makes the updates of the queue and of the tracker after it. The dump of an event and the
--   reading of its fields are pydantic's and a parameter (Codec), `build_profile` is written out; the
--   actions, which call the writers, are a parameter too. Worker/System is the step relation of
--   publishers, requests and workers that take turns.
-- Buffer: src/opencortex/store/session/buffer.py and src/opencortex/utils/text.py. SessionBuffer over any
--   type of keys with an equality and any type of tool calls; a lock is the membership of its key.
--   The loops of `freeze_ready_chunks` and `freeze_all_chunks` run on fuel, one round more than there
--   are active messages: each chunk takes at least one message, so that the loop stops before.
-- Common: src/opencortex/store/common.py, each function under its name. `none` is a TypeError.
-- Namespace: src/opencortex/storage/namespace.py and src/opencortex/utils/uri.py. `parent_chain` runs on
--   fuel, the length of the path of its uri. What is used of PurePosixPath is the hypothesis IsPosix,
--   on texts without slashes at their ends; Namespace/Simple is an instance with three paths.
-- Records: src/opencortex/store/schemas/raw_records.py, records.py and store.py, and StoreEvents of
--   src/opencortex/store/event/events.py. The in-process manager is the list of the events it takes.
-- Session: src/opencortex/store/session/store.py (Session/Immediate), merger.py (Session/Merge) and
--   ender.py (Session/Finish). A call is a function of the state (State) that gives a result or an
--   error and the state after it. The record writer, the embedder, the filter of the vector store and
--   the document tree writer are the interface Services, over a world of their own. The loop of `end`
--   runs on fuel, one round more than there are waiting chunks: each round takes one. Turns, Draining,
--   Looping and Ending have the proofs.
-- Markdown: src/opencortex/parse/parsers/markdown.py and the chunk and the estimate of
--   src/opencortex/parse/base.py, under the functions' names: Defs (headings), Sections, Split, Chunks,
--   Parse. An index into the list of headings is the heading and those after it (Place). The
--   recursion over the sections runs on seven rounds of fuel, as a heading has at most six levels; a
--   paragraph is cut by length in as many rounds as it has characters, each taking at least one.
--   Positions count characters; the matches of the regular expressions are a parameter (Library). A
--   maximum size of zero, which the source cannot cut by, is left out.
-- Document: src/opencortex/store/document_tree.py. The chunks that a parser returns are normalized and
--   written as records below a root; Document/Writes has `write_children` over a record writer, and as
--   the end of a session calls it; Document/Announcing is about its events. The
--   loop over candidates for a uri runs on fuel, one round more than the longest uri that is used has
--   characters: each round makes the candidate longer. `document_chunks` of Document/Rooting is applied
--   to what Markdown returns.
-- Forget: src/opencortex/store/forget.py. The retriever, the vector store and the file store are the
--   interface Stores over a world of their own; a filter is data (Filter), and what the vector store's
--   documentation says of the records that it returns is a hypothesis (Respects).
-- Storage: src/opencortex/storage/cortex_storage.py: the path of a uri, the files of a context, and the
--   relations of a uri (Defs, Table). The files are the interface Files over a world of their own, with
--   any type of texts; a hypothesis says that they hold what is written (IsFiles).
-- Facts: src/opencortex/utils/facts.py. Facts, their score and order, the dates in a text, and summaries
--   that keep a fact. What the regular expressions match is a parameter (Patterns). The sort by score
--   is an insertion sort that keeps the order of equals.
-- Index: the writers of search_index_writer.py, entity_index_writer.py, reason_tree_build_writer.py and
--   reason_tree_index_writer.py (Projection) in src/opencortex/store/writer, over event_payload.py there
--   (Index/Payload). Index/Search has what is chosen of an event, Writing and Building the records and `write`, Tree the nodes of a tree in a
--   list, Points the embedding and the storing. The embedder, the vector store and the pydantic models
--   are the interface Indexing over a world of their own, and the language model is TreeBuilding. The
--   digest (`sha1`) and the fields of the dates (`temporal`, of temporal_payload_fields) are parameters;
--   what numerals and digests look like is a hypothesis (IsKeyed).
-- Store: src/opencortex/store/store.py over src/opencortex/store/writer/primary_record_writer.py: Primary is
--   the writer, with the vector store and the pydantic models as the interface Writer over a world of
--   their own, Resolve the target and the record of an input, and Flow the two stores, which write with
--   Document/Writes. What is drawn and computed outside is the record Request; a hypothesis says what
--   a call of the vector store leaves there (Logs).
-- Tokens: src/opencortex/auth/token.py. The file of the records is the list of its records, and each of
--   save_token_record, find_token_record, revoke_token, register_token_record is the function of its
--   name. The signing library (decode) and the hash are parameters.
-- Cone: src/opencortex/vector/retrieval/cone.py. The seeds of an expansion and the collection of their
--   neighbours, before the sort by time. `strip` is a parameter, and so are the relations that the
--   record storage reads.
--
-- Times are microseconds and an argument of the methods that read the clock. Counters are Python's
-- integers, which have no bound. `attempts - 1` stops at 0, as the SQL of the source writes it out.
--
-- Not modelled: SQLite itself, asyncio's tasks and locks (start, close, run and wait_idle of the
-- worker, the in-process event manager), the other writers behind the actions and behind a session,
-- the secret and the cache of the tokens, the file store and the listings of the record storage,
-- the choice of a parser, the other parsers, the rest of the retrieval, and the HTTP, MCP and
-- console handlers, which pass requests on. They call services (qdrant, the embedder, the language
-- model), or stand apart from the parts above.
pub mod Base
pub mod Queue
pub mod Wait
pub mod Worker
pub mod Buffer
pub mod Common
pub mod Namespace
pub mod Records
pub mod Session
pub mod Markdown
pub mod Document
pub mod Forget
pub mod Store
pub mod Storage
pub mod Facts
pub mod Index
pub mod Tokens
pub mod Cone
