-- ===== src/BufferCache/Flush/Total.antt =====
-- pkg/buffercache/cache.go: Flush returns, empties the cache and loses nothing of what the buffers hold.
use baker.Common.Dict.{Dict}
use baker.BufferCache.{BufferCache}
