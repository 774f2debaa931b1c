-- ===== src/Shard/Ends.antt =====
-- A sharded run of runner/shard.go by a block that agent/bundle.go has validated.
use squad.Base.Chars.{Chars}
use squad.Shard.Pool.{Pool}
