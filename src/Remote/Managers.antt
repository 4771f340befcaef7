-- ===== src/Remote/Managers.antt =====
-- The managers of `LydianClient` in LYDIAN/lydian/controller/client.py: the call that each of their methods
-- makes of an app of the service.
pub mod Traffic
pub mod Node
pub mod Tools
pub mod Served
use distributed_apps_platfor.Base.{String, List, Dict}

-- `root.app.method(*args, **kwargs)` on the root object of a connection, with Python objects `A`.
pub record Call (A : Type 0) : Type 0 where
  pub app : String
  pub method : String
  pub args : List A
  pub kwargs : Dict String A
