-- ===== src/Capture/Trust.antt =====
-- What an answered query leaves in the cache.
use dnn_daemon.Common.Bytes.{Bytes}
use dnn_daemon.Common.Outcome.{Outcome}
use dnn_daemon.Runtime.{Runtime}
use dnn_daemon.Mapper.{Resolution as Stored}
use dnn_daemon.Resolver.Answer.{Resolution}
