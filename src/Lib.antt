-- ===== src/Lib.antt =====
-- A model of libgitops, a library that stores Kubernetes-style objects in files and Git repositories.
--
-- The parts of the program and how they interact. An object has a key: its kind and an identifier
-- that a chain of factories computes (pkg/runtime). A raw storage maps keys to byte contents, either
-- at paths computed from the keys or through a table from keys to paths (pkg/storage). The generic
-- storage encodes and decodes the objects of a raw storage, and lists them through filters
-- (pkg/filter). The file watcher turns the inotify events of a directory into updates, which it sends
-- in batches (pkg/util), and the watch storage turns those into events about objects and keeps the
-- table of paths up to date (pkg/storage/watch). A Git directory keeps a clone up to date
-- (pkg/gitdir), and a transaction runs a function in a new branch of the clone, commits what it
-- changed, and may ask for a pull request (pkg/storage/transaction), which a provider makes on GitHub.
-- The encoder and the decoder (pkg/serializer) work on the frames of a stream, convert objects
-- between the versions of a kind, and keep the comments of a YAML document in an annotation.
--
-- Files:
--   Prelude      shared names, Go's errors and panics (Outcome), strings as lists of bytes (Text),
--                maps as association lists (Dict), comparable types (Equality)
--   FilePath     what the program uses of Go's packages path and path/filepath
--   Key          pkg/storage/key.go
--   Fs           the file system as the program sees it, and pkg/util/fs.go
--   Raw          the interface RawStorage of pkg/storage/rawstorage.go; Raw.Content is
--                pkg/storage/format.go, Raw.Generic is GenericRawStorage, and Raw.Mapped is
--                GenericMappedRawStorage of pkg/storage/mappedrawstorage.go
--   Runtime      pkg/runtime/meta.go and pkg/runtime/identifiers.go
--   Filter       pkg/filter
--   Codec        pkg/serializer/serializer.go; Codec.Convertor is convertor.go, Codec.Annotations is
--                objectmeta.go, Codec.Comments is comments.go, Codec.Decoder is decode.go,
--                Codec.Encoder is encode.go, Codec.Defaulter is defaulter.go, and Codec.Lost is lost.go
--                of pkg/serializer/comments
--   Serializer   the interface that pkg/storage uses of pkg/serializer
--   Frames       pkg/serializer/frame_reader.go and frame_utils.go; Frames.Writer is frame_writer.go, and
--                Frames.Choice is the choice by content type, with error_structs.go
--   Storage      GenericStorage of pkg/storage/storage.go, with Apply of pkg/util/patch/patch.go;
--                Storage.Partial is DecodePartialObjects
--   Batcher      pkg/util/sync/batcher.go
--   Watcher      pkg/util/watcher: event.go and the types of filewatcher.go; Watcher.Valid is
--                dir_traversal.go, Watcher.Moves, Watcher.Concatenate and Watcher.Monitor are the
--                functions of filewatcher.go
--   Watch        GenericWatchStorage of pkg/storage/watch/storage.go, and pkg/storage/watch/update
--   GitDir       pkg/gitdir/gitdir.go; GitDir.Calls has the operations
--   Transaction  Transaction of pkg/storage/transaction/git.go; Transaction.Results is commit.go and
--                pullrequest.go of that directory, Transaction.Mappings is computeMappings and sync,
--                and Transaction.Loop is NewGitStorage and syncLoop
--   PullRequest  pkg/storage/transaction/pullrequest/github/github.go
--   Patch        Create and ApplyOnFile of pkg/util/patch/patch.go
--   Tests        runs at concrete inputs
--
-- How the state corresponds. A method that changes its receiver or the disk takes the state and
-- returns the new one; a method with an error result returns an Outcome: a value, an error or a
-- panic. An error wrapped by %w stands for the error that it wraps. The file system is a table of
-- nodes by path, a clock that each write advances, and a list of paths on which the system refuses
-- every operation. A Go map is an association list, whose order stands for the order of a range loop.
--
-- Channels and time. What a goroutine writes to a channel is a list in the state, and what it reads
-- is an argument; times are arguments too. The mutex of a Git directory is a Boolean of its state, and
-- its commit channel has room for 1024 commits that are not received: an operation that would wait for
-- one of them has no result, and makes its step when it comes back. The loop that syncs the mappings
-- is a list of events: the commits that it receives, and the changes of the clone by others, which
-- come at any time between its rounds.
--
-- Bounds. The loops of the model are recursions on lists. concatenateEvents calls itself on shorter
-- lists: its model has one unit of fuel more than there are events, and never runs out.
-- The loops of the frame reader end only if the reader below them does, so that their fuel is an
-- argument, and one call more than there is to read is enough. DecodeAll has the same fuel as
-- ReadFrameList, and succeeds with it where that does.
--
-- Objects of Kubernetes. For pkg/serializer, the type of the objects, the state of the scheme and the
-- YAML trees are parameters, with records of what the program calls on them: the codecs of a scheme
-- are given the convertor of the program. An object that a method writes to is returned, and what it
-- holds after an error is not modelled. The scheme is a state, since decoding may add the type List.
--
-- Not modelled: logging; the locks of the mapped raw storage, each access to a locked table being
-- one step; the interleaving of goroutines inside an operation, such as a change of the clone while
-- a round of syncLoop reads it; the bounds of the channels other than the one for commits; the
-- Kubernetes libraries, go-git, YAML and the strategic merge, which are parameters; the texts of
-- errors, and nil pointers in the options of the decoder and the encoder; the walk over two YAML
-- trees in pkg/serializer/comments/comments.go, which is derived from kustomize, and is a parameter
-- of the encoder; the constructors that only put parts together; the authentication methods of
-- pkg/gitdir/transport.go; the helpers of pkg/util/util.go, of which RandomSHA is an argument of a
-- transaction; the command-line programs, the generated clients and conversions; pkg/storage/cache
-- and pkg/storage/sync, which are commented out in the source.
pub mod Prelude
pub mod FilePath
pub mod Key
pub mod Fs
pub mod Raw
pub mod Runtime
pub mod Filter
pub mod Serializer
pub mod Storage
pub mod Batcher
pub mod Watcher
pub mod Frames
pub mod Codec
pub mod Watch
pub mod GitDir
pub mod Transaction
pub mod PullRequest
pub mod Patch
pub mod Tests
