-- ===== src/Server/Main/Starting.antt =====
-- The start of the router: what the main loop finds.
use internet_course.Base.{ℕ, ◌≡◌, true, false, Bool, Option, refl, none, some, ◌%◌, ◌^◌, List, ◌∷◌}
use internet_course.Base.Result.{ok, pure, ◌>>◌}
use internet_course.Route.{SrRt}
use internet_course.Route.Load
use internet_course.Route.Load.{sr_load_rt, entries_of, sr_load_rt_lem}
use internet_course.Cache.{sr_arpcache_init}
use internet_course.CString.{strncpy}
use internet_course.Dump.{packet_dump_size, sr_dump_open}
use internet_course.Server.Session.{Session}
use internet_course.Server.Connect.{sr_connect_to_server}
use internet_course.Server.Main.{
  Host, Options, sr_set_user, Turn, sr_load_rt_wrap, set_template, set_names, keep_log,
  set_log_file, final_rtable, sr_init, serve, run_router, run_main,
}

abbrev is_some : Option (List ℕ) → Bool
is_some none = false
is_some (some file) = true

module _ (h : Host) (o : Options) (lines : List (List ℕ)) where
  loads :
      (rtable : List ℕ) (s : Session) (r : SrRt) (rest : List SrRt)
      → h.read_file s.files rtable ≡ some lines
      → entries_of h.sscanf h.inet_aton lines h.buffers ≡ (Load.success, r ∷ rest)
      → sr_load_rt_wrap h rtable s
        ≡ ok (true, record s { router = record s.router { routing_table = r ∷ rest } })
  unfolding sr_load_rt_wrap
  loads rtable s r rest read converts =
      rw
        (read, sr_load_rt_lem h.sscanf h.inet_aton lines h.buffers s.router.routing_table, converts)
        refl

  -- The log that is asked for, if it opens.
  abbrev pub log_opens : Option (List ℕ) → Bool
  log_opens none = true
  log_opens (some name) = is_some (sr_dump_open h.dump_opens name 0 packet_dump_size)

  abbrev pub first_log : Option (List ℕ) → Option (List ℕ) → Option (List ℕ)
  first_log none before = before
  first_log (some name) before = sr_dump_open h.dump_opens name 0 packet_dump_size

  keep_log_lem :
      (log : Option (List ℕ)) (s : Session)
      → is_some log ≡ true
      → keep_log log s ≡ ok (true, record s { router = record s.router { logfile = log } })
  unfolding keep_log
  keep_log_lem none s opens = absurd (cc)
  keep_log_lem (some file) s opens = refl

  set_log_file_lem :
      (name : Option (List ℕ)) (s : Session)
      → log_opens name ≡ true
      → set_log_file h name s
        ≡ ok (
          true,
          record s { router = record s.router { logfile = first_log name s.router.logfile } },
        )
  unfolding set_log_file
  set_log_file_lem none s opens = refl
  set_log_file_lem (some name) s opens =
      keep_log_lem (sr_dump_open h.dump_opens name 0 packet_dump_size) s opens

  -- The session that the connection is made with.
  abbrev pub configured : List SrRt → Session → Session
  configured table s = record s {
    template = 0 ∷ h.world.stack 29;
    topo_id = o.topo % 2 ^ 16;
    host = strncpy o.host 32;
    user = elim o.user [ none ↦ sr_set_user h | some name ↦ strncpy name 32 ];
    router = record s.router {
      routing_table = table;
      logfile = first_log o.logfile s.router.logfile;
    };
  }

  -- Without a template, with a log file that opens if one is asked for, and a table file that reads
  -- the same whatever files were written, of which every line converts and there is at least one: if
  -- the connection, made with that table, stands, the main loop starts with exactly the entries of the
  -- file as the table, although the file is loaded twice, and with an empty cache; and when the loop
  -- ends the exit status is 0.
  pub run_main_starts :
      (fuel rounds now : ℕ) (turns : List Turn) (s t : Session) (r : SrRt) (rest : List SrRt)
      → o.template ≡ none
      → log_opens o.logfile ≡ true
      → ((files : List (List ℕ × List ℕ)) → h.read_file files o.rtable ≡ some lines)
      → entries_of h.sscanf h.inet_aton lines h.buffers ≡ (Load.success, r ∷ rest)
      → sr_connect_to_server h.world fuel now (configured (r ∷ rest) s) ≡ ok (true, t)
      → run_main h o fuel rounds now turns s
        ≡ (serve h.world fuel rounds turns >> pure 0) (record t {
          router = record t.router { routing_table = r ∷ rest; cache = sr_arpcache_init };
        })
  unfolding run_main set_template set_names run_router final_rtable sr_init
  run_main_starts fuel rounds now turns s t r rest plain log read converts connects =
      let before = record s {
        template = 0 ∷ h.world.stack 29;
        topo_id = o.topo % 2 ^ 16;
        host = strncpy o.host 32;
        user = elim o.user [ none ↦ sr_set_user h | some name ↦ strncpy name 32 ];
        router = record s.router { routing_table = r ∷ rest };
      } in
      rw
        (
          plain,
          loads o.rtable (record s { template = 0 ∷ h.world.stack 29 }) r rest (read s.files)
              converts,
          set_log_file_lem o.logfile before log,
          connects,
          loads o.rtable t r rest (read t.files) converts,
        )
        refl
