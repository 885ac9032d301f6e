-- ===== src/Server/Main.antt =====
-- 20100117_RouterAssign_1/router/sr_main.c, with `sr_init` of
-- 20100117_RouterAssign_1/router/sr_router.c. What `getopt` finds is a list of letters with their
-- arguments; printing is not modelled.
pub mod Starting
pub mod Steady
pub mod Serving
mod Examples
use internet_course.Base.{
  ℕ, ◌%◌, ◌^◌, Bool, true, false, Option, none, some, List, [], ◌∷◌, if◌then◌else◌, ◌==◌,
}
use internet_course.Base.Result.{Result, ok, Cmd, pure, raise, out_of_fuel, ◌>>=◌, ◌>>◌}
use internet_course.CString.{strncpy, strncmp_eq}
use internet_course.Route.Load
use internet_course.Route.Load.{Words, sr_load_rt}
use internet_course.Cache.{ArpCache, sr_arpcache_init}
use internet_course.Router.Sweep.{sr_arpcache_timeout}
use internet_course.Dump.{packet_dump_size, sr_dump_open}
use internet_course.Server.Socket.{Event}
use internet_course.Server.Session.{Session, World, one, nought, minus_one, on_router}
use internet_course.Server.Reader.{sr_read_from_server}
use internet_course.Server.Connect.{sr_connect_to_server}

-- What the main program takes from its host, beside the `World`.
pub record Host : Type 0 where
  pub world : World
  pub atoi : List ℕ → ℕ
  pub sscanf : List ℕ → Words → Words
  pub inet_aton : List ℕ → Option ℕ
  -- What the four buffers of `sr_load_rt` hold at first.
  pub buffers : Words
  -- The lines of a file that can be read, given the files that were written.
  pub read_file : List (List ℕ × List ℕ) → List ℕ → Option (List (List ℕ))
  -- The name of the user who runs the program.
  pub pw_name : Option (List ℕ)
  -- Whether the dump file opens.
  pub dump_opens : List ℕ → Bool
  -- What the cache holds before it is set up.
  pub raw_cache : ArpCache

pub record Options : Type 0 where
  pub host : List ℕ
  pub user : Option (List ℕ)
  pub server : List ℕ
  pub rtable : List ℕ
  pub template : Option (List ℕ)
  pub port : ℕ
  pub topo : ℕ
  pub logfile : Option (List ℕ)

-- "vrhost", "localhost", "rtable", port 8888 and topology 0.
unfoldable pub defaults : Options
defaults = record {
  host = 118 ∷ 114 ∷ 104 ∷ 111 ∷ 115 ∷ 116 ∷ [];
  user = none;
  server = 108 ∷ 111 ∷ 99 ∷ 97 ∷ 108 ∷ 104 ∷ 111 ∷ 115 ∷ 116 ∷ [];
  rtable = 114 ∷ 116 ∷ 97 ∷ 98 ∷ 108 ∷ 101 ∷ [];
  template = none;
  port = 8888;
  topo = 0;
  logfile = none;
}

-- The loop over the options; `none` is the exit behind `-h`.
unfoldable pub parse_options : (List ℕ → ℕ) → List (ℕ × List ℕ) → Options → Option Options
parse_options atoi [] o = some o
parse_options atoi ((c, optarg) ∷ rest) o =
    if c == b'h'
    then none
    else parse_options atoi rest (
        if c == b'p'
        then record o { port = atoi optarg }
        else if c == b't'
        then record o { topo = atoi optarg }
        else if c == b'v'
        then record o { host = optarg }
        else if c == b'u'
        then record o { user = some optarg }
        else if c == b's'
        then record o { server = optarg }
        else if c == b'l'
        then record o { logfile = some optarg }
        else if c == b'r'
        then record o { rtable = optarg }
        else if c == b'T'
        then record o { template = some optarg }
        else o)

-- The fields that `sr_init_instance` sets; the others hold what was there.
unfoldable pub sr_init_instance : Host → List Event → Session
sr_init_instance h input = record {
  router = record {
    if_list = [];
    routing_table = [];
    cache = h.raw_cache;
    wire = [];
    logfile = none;
  };
  user = 0 ∷ h.world.stack 31;
  host = 0 ∷ h.world.stack 31;
  template = h.world.stack 30;
  topo_id = 0;
  input = input;
  files = [];
}

-- "something_silly", for a user without a name.
unfoldable pub sr_set_user : Host → List ℕ
sr_set_user h = elim h.pw_name [
  | none ↦
      strncpy
        (115 ∷ 111 ∷ 109 ∷ 101 ∷ 116 ∷ 104 ∷ 105 ∷ 110 ∷ 103 ∷ 95 ∷ 115 ∷ 105 ∷ 108 ∷ 108 ∷ 121
          ∷ [])
        32
  | some name ↦ strncpy name 32
]

-- `false` is the exit with 1.
unfoldable pub sr_load_rt_wrap : Host → List ℕ → Cmd Session Bool
sr_load_rt_wrap h rtable s =
    let (status, table) =
      sr_load_rt h.sscanf h.inet_aton (h.read_file s.files rtable) h.buffers
        s.router.routing_table in
    ok (
      elim status [ Load.success ↦ true | Load.failure ↦ false ],
      record s { router = record s.router { routing_table = table } },
    )

-- The template, or without one the routing table from the file.
unfoldable pub set_template : Host → Options → Option (List ℕ) → Cmd Session Bool
set_template h o none s = sr_load_rt_wrap h o.rtable (record s { template = 0 ∷ h.world.stack 29 })
set_template h o (some template) s = ok (true, record s { template = strncpy template 30 })

unfoldable pub set_names : Host → Options → Cmd Session (Unit {0})
set_names h o s = ok (
  tt,
  record s {
    topo_id = o.topo % 2 ^ 16;
    host = strncpy o.host 32;
    user = elim o.user [ none ↦ sr_set_user h | some name ↦ strncpy name 32 ];
  },
)

-- `false` is the exit with 1.
unfoldable pub keep_log : Option (List ℕ) → Cmd Session Bool
keep_log none s = ok (false, record s { router = record s.router { logfile = none } })
keep_log (some file) s = ok (true, record s { router = record s.router { logfile = some file } })

-- The log, if one is asked for.
unfoldable pub set_log_file : Host → Option (List ℕ) → Cmd Session Bool
set_log_file h none = pure true
set_log_file h (some name) = keep_log (sr_dump_open h.dump_opens name 0 packet_dump_size)

-- "rtable.vrhost"
abbrev pub rtable_vrhost : List ℕ
rtable_vrhost = 114 ∷ 116 ∷ 97 ∷ 98 ∷ 108 ∷ 101 ∷ 46 ∷ 118 ∷ 114 ∷ 104 ∷ 111 ∷ 115 ∷ 116 ∷ []

-- The file that is read once the connection stands. `strcmp` with a text of 13 characters ends
-- within 14.
unfoldable pub final_rtable : Options → List ℕ
final_rtable o = elim o.template [
  | none ↦ o.rtable
  | some template ↦ if strncmp_eq 14 o.rtable rtable_vrhost then rtable_vrhost else o.rtable
]

-- `sr_init`: the cache. From here on the time-out thread runs.
unfoldable pub sr_init : Cmd Session (Unit {0})
sr_init s = ok (tt, record s { router = record s.router { cache = sr_arpcache_init } })

-- Who runs next, and when: the main loop reads a message, or the thread makes a round. Each runs to
-- its end before the other.
pub data Turn : Type 0 where
  reads : ℕ → Turn
  sweeps : ℕ → Turn

-- `while (sr_read_from_server(&sr) == 1);`
unfoldable pub serve : World → ℕ → ℕ → List Turn → Cmd Session (Unit {0})
serve w fuel rounds [] = raise out_of_fuel
serve w fuel rounds (sweeps now ∷ turns) =
    on_router (sr_arpcache_timeout w.env fuel rounds now) >> serve w fuel rounds turns
serve w fuel rounds (reads now ∷ turns) = sr_read_from_server w fuel now >>= λ status. elim status [
  | one ↦ serve w fuel rounds turns
  | nought ↦ pure tt
  | minus_one ↦ pure tt
]

-- Behind the connection.
unfoldable pub run_router : Host → Options → ℕ → ℕ → List Turn → Cmd Session ℕ
run_router h o fuel rounds turns = do
  loaded ← sr_load_rt_wrap h (final_rtable o)
  if loaded then (sr_init >> (serve h.world fuel rounds turns >> pure 0)) else pure 1

-- With the options at hand. The number is the exit status; `now` is the time while the connection is
-- made.
unfoldable pub run_main : Host → Options → ℕ → ℕ → ℕ → List Turn → Cmd Session ℕ
run_main h o fuel rounds now turns = do
  prepared ← set_template h o o.template
  if prepared
      then (set_names h o
          >> (set_log_file h o.logfile >>= λ opened.
              if opened
              then (sr_connect_to_server h.world fuel now >>= λ connected.
                  if connected then run_router h o fuel rounds turns else pure 1)
              else pure 1))
      else pure 1

unfoldable pub main :
    Host → List (ℕ × List ℕ) → List Event → ℕ → ℕ → ℕ → List Turn → Result (ℕ × Session)
main h argv input fuel rounds now turns = elim (parse_options h.atoi argv defaults) [
  | none ↦ ok (0, sr_init_instance h input)
  | some o ↦ run_main h o fuel rounds now turns (sr_init_instance h input)
]
