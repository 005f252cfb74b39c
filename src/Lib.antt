-- ===== src/Lib.antt =====
-- Kappa is a database server. A client logs in over ssh and sends statements of a small query
-- language; the executor runs them for the session's user over two stores, of users and of namespaces,
-- which are buckets of a bolt database; and the servers of a cluster follow each other's membership by
-- serf events. This library models the parts with logic of their own.
--
-- - Namespaces (datamodel/namespaces.go): the namespace store and a namespace's users, roles and
--   permissions, one function per method, with the method's name in snake case. A method that writes is
--   a function from the contents of the keyspace to its result and the new contents.
-- - Users (datamodel/users.go): the user store, passwords, roles in namespaces, and the key ring; Auth
--   (datamodel/auth.go, auth/keys.go): salts, comparison of hashes, and fingerprints.
-- - Bolt: what both stores use of the packages bolt and leaf, a record of operations over a type of
--   contents, and their laws, which are documented behaviour and the hypotheses of the theorems. A
--   location is a path of keys, the innermost first. A method runs in one transaction, and a
--   transaction that fails half-way is not rolled back, as in the source, which returns no error to it.
--   Bolt/Memory is a database in memory that meets the laws; the tests run on it.
-- - Skl (skl/ast.go), Skl/Keywords (skl/tokens.go), Skl/Scanner (skl/scanner.go) and Skl/Parser
--   (skl/parser.go, skl/errors.go): the statements, the table of tokens, the buffer of tokens in front of
--   the lexer, and the parser. What the lexer returns is an
--   argument, a function from the number of its call.
-- - Executor (executor/executor.go, common/codes.go): a statement run for a session. It calls the
--   functions of Users and Namespaces on the contents of the keyspaces, and its replies are values with
--   the status code, the format and the arguments. A statement can also wait for ever or panic, where a
--   transaction does not begin; the laws of Bolt exclude that.
-- - Cluster (server/manager.go, server/utils.go, server/merge.go, server/serf.go): the list of nodes,
--   the checks of a member's tags, and the handlers of membership events.
-- - Cluster/Channels (server/serf.go): the hand-over of user events and of members to reconcile.
-- - Server (server/server.go, server/config.go): NewServer with its early returns, which makes the
--   admin's account through Users, and setupSerf, whose tags are what Cluster reads of a member. What
--   the other calls answer is a record of answers, in the order of the calls. Server/Lifecycle is Start,
--   Stop and the command server (commands/server.go) as the list of the calls that they make;
--   Server/Settings is the configuration that the command reads from Config; Server/Events is the table
--   of handlers that serf's events are handed to, over the handlers of Cluster.
-- - System (datamodel/system.go, server/ssh.go): the two keyspaces of one database, over the package leaf
--   as a record of operations and laws, and the login check over the system.
-- - Ssh (server/ssh.go): the login check by public key, and the echo handler, which server/server.go
--   sets for the client's channel.
-- - Writer (common/writer.go, common/codes.go): the bytes of the executor's replies.
-- - Client (client/messages.go, commands/cli.go): the key and the connection (Client/Connect), the
--   messages at the start, the history and its file, and the loop over the lines, which uses the parser
--   of Skl and prints through Writer.
-- - Config (commands/kappa.go, commands/server.go, commands/init-ca.go, commands/new-cert.go): the
--   settings, as the list of the calls of viper in their order. Viper is a record of operations and laws,
--   and Config/Table says where each setting can come from. Config/Casts is what viper makes of a
--   value, and Config/Declared the flags that the commands declare.
-- - Pki (auth/keys.go, commands/init-ca.go, commands/new-cert.go): the certificate commands over a map of
--   files, which stand under clean paths, and the templates that they have signed (Pki/Templates);
--   keys, signatures, time and the PEM format are a record of operations. Writes always succeed.
-- - Uuid (pkg/uuid/uuid.go): random identifiers.
-- - Text: the functions of the packages strings and path (Text/Paths) that these use, and the
--   comma-separated fields in which the stores keep lists. Base: shared types, tests and lemmas. Tests: runs, and the theorems at
--   concrete inputs.
--
-- Strings are lists of bytes. Integers are natural numbers, and a port is an integer that fits a signed
-- 64-bit one, which is what strconv.Atoi accepts (Cluster/Atoi). The scanner's index stays below its
-- bound of 3, so no wrap-around arises there. Fuel bounds the parser's loop over the parts of a name,
-- where more fuel than the tokens up to the end is enough, and the echo handler's loop, where more than
-- the messages is enough. The input of the echo handler ends behind the bytes that the client sends.
-- Random salts, hashes and certificates are arguments. Map order and locks are not modelled: a method of the node list is one step.
--
-- Not modelled: the listener of the ssh server; a panic in a handler of serfer; the methods of a started
-- server but Start and Stop, which hand on calls of serf; the terminal of the client and its banner; and the declarations of commands.
pub mod Base
pub mod Text
pub mod Bolt
pub mod Namespaces
pub mod Auth
pub mod Users
pub mod Cluster
pub mod Skl
pub mod Executor
pub mod Ssh
pub mod System
pub mod Server
pub mod Writer
pub mod Client
pub mod Config
pub mod Pki
pub mod Uuid
pub mod Tests
