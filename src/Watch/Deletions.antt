-- ===== src/Watch/Deletions.antt =====
-- pkg/storage/watch/storage.go over a GenericMappedRawStorage: the deletions among the events of a run
-- of `monitorFunc`.
use libgitops.Serializer.{Serializer}
use libgitops.Watch.Handled.{Handled}
