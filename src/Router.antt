-- ===== src/Router.antt =====
-- The state of a router, `struct sr_instance` of 20100117_RouterAssign_1/router/sr_router.h, and
-- what the code takes from outside: the socket, memory from `malloc`, and memory at addresses that
-- the code makes up. One child for each source file that works on the state.
pub mod Send
pub mod Icmp
pub mod Forward
pub mod Request
pub mod Arp
pub mod Ip
pub mod Handle
pub mod Filter
pub mod Sweep
pub mod Checked
pub mod Rewriting
pub mod Errors
pub mod Sending
pub mod Retrying
pub mod Answering
pub mod Release
pub mod Resolving
pub mod Unused
pub mod Returning
pub mod Dispatch
pub mod Echoing
pub mod Keeping
pub mod Keepers
pub mod Invariant
pub mod Examples
use internet_course.Base.{ℕ, ◌≡◌, Bool, Option, some, none, List, length}
use internet_course.Base.Result.{Cmd, Result, ok, fault, Fault}
use internet_course.Bytes.{IsBytes}
use internet_course.Iface.{SrIf}
use internet_course.Route.{SrRt}
use internet_course.Cache.{ArpCache}

-- `wire` holds the messages that were handed to `write`, the latest first, and `logfile` what the log
-- holds, if there is one. The socket, the user, host and template names are in `Session` of Server.
pub record SrInstance : Type 0 where
  pub if_list : List SrIf
  pub routing_table : List SrRt
  pub cache : ArpCache
  pub wire : List (List ℕ)
  pub logfile : Option (List ℕ)

pub record Env : Type 0 where
  -- Whether `write` takes the whole of the message, given the messages before it.
  pub write_whole : List (List ℕ) → Bool
  -- The seconds and microseconds that `gettimeofday` gives, when the log holds these bytes.
  pub gettimeofday : List ℕ → ℕ × ℕ
  -- What a block of this size from `malloc` holds.
  pub fresh : ℕ → List ℕ
  -- The 32-bit number at an address; `none` where nothing is mapped.
  pub peek : ℕ → Option ℕ
  -- `malloc(n)` gives `n` bytes.
  pub fresh_size : (n : ℕ) → length (fresh n) ≡ n
  pub fresh_bytes : (n : ℕ) → IsBytes (fresh n)

-- A command on the cache of the router.
abbrev pub on_cache : {A : Type 0} → (ArpCache → A × ArpCache) → Cmd SrInstance A
on_cache f sr = let (a, cache') = f sr.cache in ok (a, record sr { cache = cache' })
