-- ===== src/Torero/Tests.antt =====
-- The web server on concrete inputs.
use networking_projects.Base.{◌≡◌, refl, Bool, true, false, some, [], ◌∷◌, arith}
use networking_projects.Base.Decimal.{codes, to_string}
use networking_projects.Torero.Start.{Os, serving, main, Grants, main-port}
use networking_projects.Base.Paths.{extension, filename, name_extension, from_dot, has_byte}
use networking_projects.Torero.Buffer.{
  empty_buffer, put_item, get_item, notify_one, Threads, Step, puts, gets, stays, then_step,
  run_server,
}
use networking_projects.Torero.Buffer.Runs.{IsWellFormed, run_server-IsWellFormed, Steps-stuck}
use networking_projects.Torero.Pages.{get_path_extension}

extension_run : get_path_extension (codes "WWW/a.b/pic.html") ≡ codes "text/html"
unfolding get_path_extension extension filename name_extension from_dot has_byte
extension_run = refl

abbrev one_put : Threads
one_put = record (run_server 1) {
  shared = record { capacity = 1; buffer = 7 ∷ [] };
  accepted = 7 ∷ [];
}

first_put : (b : Bool) → Step b (run_server 1) one_put
unfolding run_server empty_buffer put_item notify_one
first_put b = puts (run_server 1) 7 (record { capacity = 1; buffer = 7 ∷ [] }) refl refl

run_server-IsWellFormed_example : IsWellFormed 1 one_put
run_server-IsWellFormed_example =
    run_server-IsWellFormed {spurious = false} 1 one_put
      (then_step (run_server 1) (run_server 1) one_put (stays (run_server 1)) (first_put false))

-- The buffer of one client is full, so that a second client waits; then the first is got.
abbrev second_waits : Threads
second_waits = record one_put { held = some 8 }

abbrev emptied : Threads
emptied = record second_waits { shared = record { capacity = 1; buffer = [] }; handled = 7 ∷ [] }

first_got : Step false second_waits emptied
unfolding run_server get_item
first_got = gets second_waits 7 (record { capacity = 1; buffer = [] }) (omega arith) refl

Steps-stuck_example : (emptied.held ≡ some 8) × (emptied.accepted ≡ second_waits.accepted)
unfolding run_server
Steps-stuck_example =
    Steps-stuck 8 second_waits emptied
      (then_step second_waits second_waits emptied (stays second_waits) first_got) refl

abbrev granting : Os
granting = record {
  socket = some 3;
  sets_option = λ fd. true;
  binds = λ fd port. true;
  listens = λ fd. true;
  is_directory = λ path. true;
}

granting-Grants : Grants granting 3
granting-Grants = record { opens = refl; sets = refl; binds = λ port. refl; listens = refl }

main-port_example :
    main granting (to_string 65616 ∷ codes "WWW" ∷ [])
    ≡ serving (record { socket_fd = some 3; port_num = 80 }) (run_server 5)
main-port_example = main-port granting 3 65616 (codes "WWW") granting-Grants refl
