-- ===== src/Rdt/Apps/CommandLine.antt =====
-- sender.cpp and receiver.cpp with a command line as their usage describes it.
use networking_projects.Base.{ℕ, ◌%◌, ◌^◌, ◌<◌, ◌≡◌, refl, Bool, true, List, [], ◌∷◌, ltb_of_lt}
use networking_projects.Base.Decimal.{to_string}
use networking_projects.Base.Text.Numbers.{stoi-to_string}
use networking_projects.Rdt.State.{State, Os, Event}
use networking_projects.Rdt.Apps.{receiver}
use networking_projects.Rdt.Apps.Programs.{
  receiver_main, receiver_run, receiver_arguments, with_port,
}

pub receiver_main-receiver :
    (os : Os) (opens : List ℕ → Bool) (path : List ℕ) (n : ℕ) (es : List Event) (s : State)
    → n < 2 ^ 31
    → opens path ≡ true
    → receiver_main os opens (to_string n ∷ path ∷ []) es s ≡ receiver os (n % 2 ^ 32) es s
unfolding receiver_main receiver_run receiver_arguments with_port
receiver_main-receiver os opens path n es s small opened =
    rw (stoi-to_string n, ltb_of_lt n (2 ^ 31) small, opened) refl
