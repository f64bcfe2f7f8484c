-- ===== src/Tests/ListenRuns.antt =====
-- Sockets and their locks: processes that open and close one address.
use rupicola_go.Base.{
  ℕ, Bytes, lit, [], ◌∷◌, ◌++◌, false, true, none, some, ◌≡◌, ◌≢◌, inl, inr, refl, bytes_eq, nat_eq,
  arith,
}
use rupicola_go.Base.Int.{pos}
use rupicola_go.Base.Decimal.{print_nat}
use rupicola_go.Listen.Paths.{lock_path, has_prefix}
use rupicola_go.Listen.Kernel.{
  Kernel, update, create, set_lock, append_text, bind_file, locked_elsewhere, not_found, unlink,
  end_process,
}
use rupicola_go.Listen.Lock.{
  listening, refused, listen_unix_lock, listen_locked, listen_with, clear_leftovers, write_pid,
  net_listen, remove, take_lock,
}
use rupicola_go.Listen.Lock.Quiet.{no_faults}
use rupicola_go.Listen.Lock.Steps.{
  System, idle, created, locked, cleared, serving, moved, Opening, creates, locks, clears, listens,
  Step, Run, here, next, listener,
}
use rupicola_go.Listen.Lock.Exclusion.{IsFresh, Opening-exclusive}
use rupicola_go.Listen.Lock.Live.{Opening-IsLive}
use rupicola_go.Listen.Lock.Race.{IsServing, Closing-not_exclusive}
use rupicola_go.Listen.Lock.Alone.{Alone, listen_unix_lock-Alone}
use rupicola_go.Listen.Lock.Opens.{
  IsListening, CanListen, listen_unix_lock-IsListening, listen_unix_lock-locked,
}
use rupicola_go.Settings.Def.{Bind, unix, Config, backend_stderr, ll_warn}
use rupicola_go.Settings.Parse.{shamefull_file_mode_fix}
use rupicola_go.Listen.Bind.{Host, bind}
use rupicola_go.Listen.Bind.Ends.{IsGone, closes_quietly, bind-IsGone}
use rupicola_go.Listen.Bind.Modes.{IsMasked, bind-IsMasked, shamefull_file_mode_fix-octal}
use rupicola_go.Listen.Bind.Abstract.{bind-abstract}
use rupicola_go.Listen.Main.{hangup, interrupt, handle_signals, unlink_sockets, unlink_as}
use rupicola_go.Listen.Main.Restart.{restart-IsListening}

abbrev address : Bytes
address = lit "/s"

abbrev bare_kernel : Kernel
bare_kernel = record {
  files = λ path. none;
  names = λ name. none;
  next = 0;
  owner = λ i. none;
  server = λ i. none;
  text = λ i. [];
}

abbrev resting : System
resting = record { kernel = bare_kernel; stage = λ p. idle }

-- The kernel behind each step of process 7.
abbrev created_kernel : Kernel
created_kernel = (create (lock_path address) bare_kernel).1

abbrev locked_kernel : Kernel
locked_kernel = record created_kernel { owner = update (created_kernel.owner) 0 (some 7) }

abbrev written_kernel : Kernel
written_kernel = append_text 0 (print_nat 7) locked_kernel

abbrev serving_kernel : Kernel
serving_kernel = (bind_file 7 address written_kernel).1

abbrev serving_system : System
serving_system =
    moved
      (moved (moved (moved resting 7 created_kernel (created 0)) 7 locked_kernel (locked 0)) 7
        written_kernel (cleared 0))
      7 serving_kernel (serving 1 0)

named : has_prefix address (lit "@") ≡ false
unfolding has_prefix
named = refl

resting-IsFresh : IsFresh (lock_path address) resting
resting-IsFresh = record { idle_all = λ p. refl; old = λ i h. cc }

serving-Run : Run (Opening address) resting serving_system
unfolding create set_lock clear_leftovers write_pid remove append_text net_listen bind_file
    lock_path has_prefix bytes_eq print_nat
serving-Run =
    next
      (next (next (next here (creates 7 refl)) (locks 7 0 locked_kernel refl refl))
        (clears 7 0 no_faults written_kernel refl refl))
      (listens 7 0 1 serving_kernel refl refl)

Opening-exclusive_example : ◌≡◌ {A = ℕ} 7 7
Opening-exclusive_example =
    Opening-exclusive address {s = resting} {t = serving_system} 7 7 0 0 resting-IsFresh serving-Run
      refl refl

Opening-IsLive_example :
    (serving_kernel.files address ≡ some 1)
    × (serving_kernel.server 1 ≡ some 7)
    × (serving_kernel.owner 0 ≡ some 7)
    × (serving_kernel.files (lock_path address) ≡ some 0)
Opening-IsLive_example =
    Opening-IsLive address {s = resting} {t = serving_system} 7 1 0 named resting-IsFresh
      serving-Run refl

serving_files : serving_kernel.files (lock_path address) ≡ some 0
unfolding create set_lock append_text bind_file lock_path bytes_eq print_nat
serving_files = refl

serving_owner : serving_kernel.owner 0 ≡ some 7
unfolding create append_text bind_file
serving_owner = refl

different : (◌≢◌ {A = ℕ} 8 7) × (◌≢◌ {A = ℕ} 9 7) × (◌≢◌ {A = ℕ} 9 8)
different = (omega arith, omega arith, omega arith)

Closing-not_exclusive_example :
    (t : System) × Run (Step address) serving_system t
    × IsServing (t.stage 8)
    × IsServing (t.stage 9)
Closing-not_exclusive_example =
    Closing-not_exclusive address serving_system 7 8 9 1 0 named different refl (refl, refl)
      serving_files serving_owner

listen_unix_lock-Alone_example :
    Alone address resting 7 (listen_unix_lock no_faults 7 address bare_kernel)
listen_unix_lock-Alone_example = listen_unix_lock-Alone address no_faults resting 7 named refl

listen_unix_lock-IsListening_example : CanListen address 7 bare_kernel
listen_unix_lock-IsListening_example =
    listen_unix_lock-IsListening address 7 bare_kernel named (inl refl) (λ i h. cc)

listen_unix_lock-locked_example : listen_unix_lock no_faults 8 address serving_kernel ≡ (
  refused
      (lit "failed geting exclusive lock " ++ lock_path address ++ lit ": " ++ locked_elsewhere),
  record serving_kernel { text = update (serving_kernel.text) 0 [] },
)
listen_unix_lock-locked_example =
    listen_unix_lock-locked address no_faults 8 7 0 serving_kernel named (refl, refl) serving_files
      serving_owner (omega arith)

serving_listener : IsListening address 7 (listener address 1 0) serving_kernel
unfolding create append_text bind_file lock_path bytes_eq
serving_listener = record {
  address = refl;
  reached = refl;
  served = refl;
  number = 0;
  file = refl;
  lock_named = refl;
  lock_held = refl;
}

abstract_prefix : has_prefix (lit "@s") (lit "@") ≡ true
unfolding has_prefix
abstract_prefix = refl

-- A unix bind point, and a host whose Serve ends at once.
abbrev unix_bind : Bytes → Bind
unix_bind addr = record {
  type = unix;
  address = addr;
  port = 0;
  allow_private = false;
  cert = [];
  key = [];
  mode = 438;
  uid = pos 0;
  gid = pos 0;
}

abbrev brief_host : Host
brief_host = record {
  faults = no_faults;
  listen_tcp = λ addr. none;
  serve = λ b k. (lit "closed", k);
  serve_tls = λ b k. (lit "closed", k);
  chown = none;
  close_remove = none;
  close_file = none;
}

serving_result :
    listen_unix_lock no_faults 7 address bare_kernel
    ≡ (listening (listener address 1 0), serving_kernel)
unfolding create set_lock clear_leftovers write_pid remove append_text net_listen bind_file
    lock_path has_prefix bytes_eq print_nat listen_unix_lock listen_locked listen_with take_lock
serving_result = refl

bind-IsGone_example :
    let r = bind (closes_quietly brief_host) 7 (unix_bind address) 18 bare_kernel in
    (r.error ≡ lit "closed") × IsGone address (listener address 1 0) r.kernel
bind-IsGone_example =
    bind-IsGone brief_host 7 (unix_bind address) 18 (listener address 1 0) bare_kernel
      serving_kernel refl named serving_result serving_listener serving_listener

bind-IsMasked_example :
    IsMasked brief_host 7
      (unix_bind address)
      18
      bare_kernel
      (bind brief_host 7 (unix_bind address) 18 bare_kernel)
bind-IsMasked_example =
    bind-IsMasked brief_host 7 (unix_bind address) 18 bare_kernel (omega arith) (omega arith)

shamefull_file_mode_fix-octal_example : shamefull_file_mode_fix 644 ≡ 420
shamefull_file_mode_fix-octal_example = shamefull_file_mode_fix-octal 420 (omega arith)

bind-abstract_example :
    let r = bind brief_host 7 (unix_bind (lit "@s")) 18 bare_kernel in
    (n : ℕ) × (r.error ≡ not_found)
    × (r.kernel.names (lit "@s") ≡ some n)
    × (r.kernel.server n ≡ some 7)
bind-abstract_example =
    bind-abstract brief_host 7 (unix_bind (lit "@s")) 18 bare_kernel refl abstract_prefix refl refl
      refl refl

-- A configuration with that bind point, and no method.
abbrev serving_config : Config
serving_config = record {
  protocol = record {
    bind = unix_bind address ∷ [];
    login = [];
    password = [];
    uri_streamed = lit "/streaming";
    uri_rpc = lit "/jsonrpc";
  };
  limits = record {
    read_timeout = pos 0;
    exec_timeout = pos 0;
    payload_size = 0;
    max_response = 0;
  };
  log = record { backend = backend_stderr; path = []; log_level = ll_warn };
  methods = [];
}

-- The kernel that process 7 leaves after a hangup and an interrupt.
abbrev left_kernel : Kernel
left_kernel = end_process 7 (unlink address serving_kernel)

restart-IsListening_example : CanListen address 8 left_kernel
unfolding create append_text bind_file handle_signals unlink_sockets unlink_as remove bytes_eq
    serving_listener
restart-IsListening_example =
    restart-IsListening (λ addr. none) serving_config (hangup ∷ interrupt ∷ []) address 7 8
      (listener address 1 0) serving_kernel left_kernel named serving_listener (omega arith)
      (inr refl)
