-- ===== src/Lib.antt =====
-- Verification of Passdoq, a password manager in C++.
--
-- The program keeps entries (names, user names, secrets, tags) in a vault: one file, whose entries
-- are encrypted under a data key, which is itself encrypted under a master key that is derived from
-- a passphrase. The command line, the remote server and scripts reach the vault through its
-- methods; the configuration gives the path of the vault; an index of the entries is searched by
-- terms and tags; a secret is handed over by a delivery method; the daemon starts and stops the
-- registered services; plugins are loaded, and told when the vault is locked or unlocked.
--
-- The parts, their files, and the code:
--   Prelude          names of the library, tests on numbers, texts, and `Exec`, the methods that
--                    change a state and return, throw, or run into undefined behaviour (`fault`)
--   StdMap           `std::map` with texts as keys: a list that is sorted by its keys
--   Platform         libsodium, msgpack and the disk, which are not in the repository, as records
--                    of functions, with what the code relies on in Platform/Laws, and a small
--                    platform that has these laws in Platform/Sample
--   Crypto           src/crypto.cpp
--   Vault            src/vault.cpp: the data (Vault), the times (Vault/Time), the packed entries
--                    (Vault/Codec), `save` and `load` (Vault/Storage), `create`, `open`, `unlock`,
--                    `lock` and `rekey` (Vault/Keys), the methods on entries (Vault/Entries), the
--                    invariant (Vault/Invariant), any sequence of calls (Vault/Trace), and the
--                    abstract vault, a function from ids to entries (Vault/Refinement)
--   Xapian           the search library, which is not in the repository, as a record of types and
--                    functions, with its documented behaviour in Xapian/Laws and a small instance
--                    in Xapian/Sample
--   Indexing         src/indexing.cpp: the index of the entries, rebuilt (Indexing/Laws) and changed
--                    (Indexing/Sync)
--   Search           src/search.cpp: queries (Search/Builder) and searches (Search/Laws)
--   Delivery         src/delivery.cpp: the delivery methods and their manager
--   Daemon           src/daemon.cpp: start, stop and the worker thread, and the standard descriptors
--                    (Daemon/Redirection)
--   Lua              src/lua.cpp: scripts, events, and what scripts read of the vault
--   Services         src/services.cpp
--   Runcom           src/runcom.cpp: the store, the grammar (Runcom/Grammar) with what PEGTL documents
--                    of its rules (Runcom/Grammar/Peg) and a small instance of that
--                    (Runcom/Grammar/Sample), its actions (Runcom/Prl), the texts of quoted values
--                    (Runcom/Grammar/Reading, Written), and the files with their includes
--                    (Runcom/Files)
--   Modules          src/modules.cpp: the plugins, with libltdl as a parameter, the handles as objects
--                    that own a library (Modules/Handles), and the functions for plugins (Modules/Api)
--   Plugin           examples/plugins/ephemeral_datakey.c: the plugin that changes the data key, with
--                    its setting (Plugin/Settings) and its loading (Plugin/Loading)
--   Memory           src/memory.cpp: the buffer that expires, the buffers as objects that own their
--                    memory (Memory/Buffers), and the allocator (Memory/Allocator)
--   Remote           src/remote.cpp: the handlers of the server and the answers of the client
--   Cli              src/cli.cpp: the console (Cli/Console), the commands (Cli/Commands; update and
--                    delete in Cli/Changes), and `run` with src/main.cpp (Cli/Run)
--   Tests            the theorems at concrete inputs, over the sample platform
--
-- A method is a function on a `Session`, the vault object with the files, the random bytes drawn
-- so far and the time. `open` is named `open_vault` and `search` is named `search_entries`; the
-- body of a method behind its guards, or of its `try`, is a definition of its own where that is
-- long. An exception keeps what was changed before it. The time does not pass within a call. Texts
-- and bytes are lists of codes. The content of a `SecureBuffer` is a list of bytes, and a copy past
-- its end is a fault (in Memory/Buffers without effect), as are a read of a null pointer, of a short
-- salt or nonce, and of a time that was not read. The version of the header is below 2^32 where a
-- theorem needs that; a time is in nanoseconds and not negative. In Indexing, Search and Lua a name
-- that another part has too is lengthened: `update_indexed`, `clear_index`, `search_query`,
-- `search_text`, `search_tag`, `open_engine`. The stop of the daemon is `begin_stop`, up to the wait
-- for the worker, and `finish_stop`; between them the two threads take turns in any order. A buffer's
-- calls of `mlock` and `munlock` are kept as a log; which pages are locked after them is a function of
-- the log, of the pages of each block, and of the success of `mlock`.
--
-- Fuel: `decimal` prints `n` with fuel `n + 1`, which is more than its digits; `preprocess` has
-- fuel for the depth of the includes, and fuel beyond the number of paths that are short enough for
-- the system is enough.
--
-- The exceptions of C++ pass through the functions of plugins as they pass through a method. The rules
-- of the grammar are a relation between a text, an outcome and the matches for which an action is
-- called; a text that has no outcome is one on which the parse does not end.
--
-- Not modelled: the libraries PEGTL, CLI11, Xapian, sol2, rpclib and libltdl, which are parameters:
-- how PEGTL searches for a match, the parse of the command line, that of a query string, the
-- interpreter of scripts and the transport; the echo of the terminal; `ModuleHandle::name`, which
-- returns a reference to a temporary; functions of events that call the engine again. The version
-- numbers, the declarations of include/passdoq-api.h, src/pssl.cpp, the tests, the sample script, the
-- manual and the copy of libltdl are outside this development.
pub mod Prelude
pub mod StdMap
pub mod Platform
pub mod Crypto
pub mod Vault
pub mod Services
pub mod Runcom
pub mod Modules
pub mod Plugin
pub mod Memory
pub mod Remote
pub mod Xapian
pub mod Indexing
pub mod Search
pub mod Daemon
pub mod Delivery
pub mod Lua
pub mod Cli
mod Tests
