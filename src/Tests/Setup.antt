-- ===== src/Tests/Setup.antt =====
-- The way of a game's settings from the keyboard to a game that runs.
use snake_posix.Common.{
  ℕ, zero, suc, ◌<◌, ◌≡◌, refl, ap, ◌∙◌, arith, true, false, Option, none, some, List, [], ◌∷◌,
}
use snake_posix.Common.{Text, length, replicate}
use snake_posix.Common.Outcome.{Ensures}
use snake_posix.Terminal.{
  Libc, Event, event_key, event_other, key_enter, key_backspace, key_other, terminal_read,
}
use snake_posix.Terminal.Typed.{Answers, Typed, terminal_read-Typed}
use snake_posix.Menu.{host_menu_public, main_menu_host}
use snake_posix.Menu.Host.{host_menu}
use snake_posix.Common.Loops.{for_range}
use snake_posix.Map.{map_init_from_template}
use snake_posix.Server.Start.{game_state_init}
use snake_posix.Menu.Ports.{IfAny}
use snake_posix.Menu.Allowed.{Allowed, host_menu-Allowed}
use snake_posix.Menu.Play.{chosen_game}
use snake_posix.Menu.Suits.{Suits, chosen_game-Suits}
use snake_posix.Settings.{
  GameSettings, OptionSpec, int_opt, Libargs, argument_parser_parse, args_size, server_arguments,
}
use snake_posix.Settings.Documented.{option_of, flagged, last_given, is_some, LibargsLaws}
use snake_posix.Settings.Launch.{server_arguments-argument_parser_parse, length-server_arguments}
use snake_posix.Main.{System, Reading, server_init, main_loop}
use snake_posix.Main.Ends.{Open, Started, Ended, server_init-Started, main_loop-Ended}
use snake_posix.Tests.{counting_rng, at, dirty_server, dirty_template}
use snake_posix.Tests.Files.{listed_file, walled, map_file, map_file-HoldsMap}
use snake_posix.Tests.Play.{joined, joined-Ready}
use snake_posix.Tests.Screen.{cells_80, blank_screen}

-- Numbers written as that many strokes.
abbrev strokes : Libc
strokes = record { atoi = λ t. length t; print_number = λ n. replicate n 49 }

abbrev typed : List Event
typed =
    event_key (key_other 0) 114
    ∷ event_other
    ∷ event_key (key_other 0) 33
    ∷ event_key (key_other 0) 51
    ∷ event_key key_backspace 0
    ∷ event_key key_enter 0
    ∷ event_key key_enter 0
    ∷ []

terminal_read-Typed_example :
    Answers
      (length typed)
      (terminal_read cells_80 (at 0 5) true typed blank_screen)
      (Typed true typed)
terminal_read-Typed_example = terminal_read-Typed cells_80 (at 0 5) true typed blank_screen

host_menu-Allowed_example :
    Answers
      (length typed)
      (host_menu cells_80 strokes host_menu_public (3, 4) typed blank_screen)
      (λ s left_. IfAny Allowed s)
host_menu-Allowed_example =
    host_menu-Allowed cells_80 strokes host_menu_public (3, 4) typed blank_screen

chosen_game-Suits_example :
    Answers
      (length typed)
      (chosen_game cells_80 strokes (λ s. true) (3, 4) main_menu_host typed blank_screen)
      (λ game left_. IfAny (Suits main_menu_host) game)
chosen_game-Suits_example =
    chosen_game-Suits cells_80 strokes (λ s. true) (3, 4) main_menu_host typed blank_screen

-- A command line read two words at a time, with the options that are registered.
abbrev pairs_of : List Text → List (ℕ × Text)
pairs_of ((dash ∷ c ∷ []) ∷ value ∷ l) = (c, value) ∷ pairs_of l
pairs_of _ = []

abbrev value_or : Text → Option Text → Text
value_or d none = d
value_or d (some text) = text

abbrev default_of : Option OptionSpec → ℕ
default_of (some (int_opt names default)) = default
default_of _ = 0

abbrev number_or : ℕ → Option Text → ℕ
number_or d none = d
number_or d (some text) = length text

abbrev parsed : List OptionSpec → List Text → Option (List OptionSpec × List (ℕ × Text))
parsed specs [] = none
parsed specs (program ∷ l) = some (specs, pairs_of l)

abbrev by_pairs : Libargs
by_pairs = record {
  Parser = List OptionSpec × List (ℕ × Text);
  ap_parse = parsed;
  ap_found = λ p name. is_some (last_given p.0 name p.1);
  ap_get_str_value = λ p name. value_or [] (last_given p.0 name p.1);
  ap_get_int_value =
      λ p name. number_or (default_of (option_of p.0 name)) (last_given p.0 name p.1);
}

pairs_of-flagged : (l : List (ℕ × Text)) → pairs_of (flagged l) ≡ l
pairs_of-flagged [] = refl
pairs_of-flagged ((c, value) ∷ l) = ap (λ m. (c, value) ∷ m) (pairs_of-flagged l)

length-strokes : (n : ℕ) → length {A = ℕ} (replicate n 49) ≡ n
length-strokes zero = refl
length-strokes (suc n) = ap suc (length-strokes n)

by_pairs_laws : LibargsLaws strokes by_pairs
by_pairs_laws specs program l apart fits = (
  (specs, l),
  ap (λ m. some (specs, m)) (pairs_of-flagged l),
  record {
    found = λ name o e. refl;
    string = λ name value names d o e. ap (value_or []) e;
    number = λ name names d n o small e.
        ap (number_or (default_of (option_of specs name))) e ∙ length-strokes n;
    no_number =
        λ name names d o e. ap (number_or (default_of (option_of specs name))) e ∙ ap default_of o;
  },
)

abbrev chosen : GameSettings
chosen = record {
  room_name = some (114 ∷ []);
  map_path = none;
  width = 12;
  height = 10;
  parent = 77;
  port = 0;
}

chosen-Allowed : Allowed chosen
chosen-Allowed = record {
  access = refl;
  named = λ e. cc;
  port_fits = omega arith;
  board = ((omega arith, omega arith), (omega arith, omega arith));
}

server_arguments-argument_parser_parse_example :
    argument_parser_parse by_pairs (server_arguments strokes chosen) ≡ some chosen
server_arguments-argument_parser_parse_example =
    server_arguments-argument_parser_parse strokes by_pairs chosen by_pairs_laws chosen-Allowed
      (omega arith)

length-server_arguments_example : length (server_arguments strokes chosen) < args_size
length-server_arguments_example = length-server_arguments strokes chosen

abbrev test_system : System listed_file
test_system = record {
  shm_game_state_init = λ name. true;
  socket_init_listen = λ port. false;
  fopen = λ path. some map_file;
  server_memory = dirty_server;
  template_memory = dirty_template;
}

abbrev from_file : GameSettings
from_file = record chosen { map_path = some (109 ∷ []); width = 0; height = 0 }

from_file-Allowed : Allowed from_file
from_file-Allowed = record {
  access = refl;
  named = λ e. cc;
  port_fits = omega arith;
  board = (λ e. cc, refl, refl);
}

server_init-Started_example :
    Ensures (server_init listed_file test_system from_file) (IfAny (Started from_file))
server_init-Started_example =
    server_init-Started listed_file test_system from_file
      (λ path e. (10, 10, walled, map_file-HoldsMap)) from_file-Allowed

abbrev readings : List Reading
readings =
    record { now = 400; interrupted = false; clients = λ s. s }
    ∷ record { now = 401; interrupted = false; clients = λ s. s }
    ∷ record { now = 402; interrupted = true; clients = λ s. s }
    ∷ record { now = 403; interrupted = true; clients = λ s. s }
    ∷ []

joined-Open : Open joined
unfolding game_state_init map_init_from_template for_range
joined-Open = (joined-Ready, omega arith, omega arith)

main_loop-Ended_example : Ensures (main_loop counting_rng true false 1 joined readings) Ended
main_loop-Ended_example =
    main_loop-Ended counting_rng true false 1 joined readings joined-Open
      (λ s h. h, (λ s h. h, (λ s h. h, (λ s h. h, tt))))
