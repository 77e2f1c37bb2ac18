-- ===== src/Worker/Loop/Capacity.antt =====
-- The pool that `Run` drives: `CanAcceptTask` keeps a thread free for each task that is fetched.
use crunchytask.Outside.Floats.{Floats}
use crunchytask.Outside.Lua.{Lua}
use crunchytask.Outside.Redis.{Redis}
