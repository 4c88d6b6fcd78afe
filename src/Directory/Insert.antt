-- ===== src/Directory/Insert.antt =====
-- insert of InternalBuffers, with its growth.
use contact_discovery_servic.Directory.Buffers.{Buffers}
