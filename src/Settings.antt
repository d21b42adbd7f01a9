-- ===== src/Settings.antt =====
-- `libsnake/game_settings.h`, `client/server_launcher.c` and `server/argument_parser.c`: the settings
-- of a game, on their way from the client to the server's command line. `libargs` is another
-- project's: what the program calls of it is a record of operations.
pub mod Documented
pub mod Options
pub mod Launch
use package.snake_posix.Common.{
  ℕ, zero, suc, ◌+◌, ◌-◌, ◌*◌, ◌/◌, ◌%◌, ◌^◌, ◌≤◌, ◌<◌, ◌≡◌, refl, sym, ap, ◌∙◌, subst, ◌≢◌, ◌↔◌,
  ◌⊎◌, inl, inr, arith, Bool, true, false, not, ◌&&◌, ◌||◌, ◌==◌, ltb, leb, if◌then◌else◌, if_intro,
  Bool-cases, ==-refl, ==→≡, ==→≢, Option, none, some, Option-cases, List, [], ◌∷◌, ◌++◌,
}
use package.snake_posix.Common.{Text, codes}
use package.snake_posix.Terminal.{Libc}

abbrev pub setting_no_parent : ℕ
setting_no_parent = 0

abbrev pub setting_no_port : ℕ
setting_no_port = 0

-- `game_settings_t`; a `NULL` is `none`.
pub record GameSettings : Type 0 where
  pub room_name : Option Text
  pub map_path : Option Text
  pub width : ℕ
  pub height : ℕ
  pub parent : ℕ
  pub port : ℕ

-- An option of `libargs`: the names that it has, as one text, and what it is without a value.
pub data OptionSpec : Type 0 where
  int_opt : Text → (default : ℕ) → OptionSpec
  str_opt : Text → (default : Text) → OptionSpec

pub record Libargs : Type 1 where
  pub Parser : Type 0
  pub ap_parse : List OptionSpec → List Text → Option Parser
  pub ap_found : Parser → Text → Bool
  pub ap_get_str_value : Parser → Text → Text
  pub ap_get_int_value : Parser → Text → ℕ

unfoldable pub option_specs : List OptionSpec
option_specs =
    int_opt (codes "parent a") setting_no_parent
    ∷ str_opt (codes "name n") []
    ∷ str_opt (codes "map m") []
    ∷ int_opt (codes "width w") 0
    ∷ int_opt (codes "height h") 0
    ∷ int_opt (codes "port p") 0
    ∷ []

module _ (libargs : Libargs) where
  unfoldable pub argument_parser_get_str_copy : libargs.Parser → Text → Option Text
  argument_parser_get_str_copy parser key =
      if not (libargs.ap_found parser key) then none else some (libargs.ap_get_str_value parser key)

  -- The checks and the settings, once the arguments are parsed. A port is cast to `in_port_t`.
  unfoldable pub settings_of : libargs.Parser → Option GameSettings
  settings_of parser =
      let found = libargs.ap_found parser in
      if not (found (codes "name")) && not (found (codes "port"))
      then none
      else (if not (found (codes "map"))
            && (not (found (codes "width")) || not (found (codes "height")))
          then none
          else some (record {
            room_name = argument_parser_get_str_copy parser (codes "name");
            map_path = argument_parser_get_str_copy parser (codes "map");
            width = libargs.ap_get_int_value parser (codes "width");
            height = libargs.ap_get_int_value parser (codes "height");
            parent = libargs.ap_get_int_value parser (codes "parent");
            port = libargs.ap_get_int_value parser (codes "port") % 2 ^ 16;
          }))

  unfoldable pub argument_parser_parse : List Text → Option GameSettings
  argument_parser_parse arguments = elim (libargs.ap_parse option_specs arguments) [
    | none ↦ none
    | some parser ↦ settings_of parser
  ]

-- The length of the array `args`.
abbrev pub args_size : ℕ
args_size = 13

-- `PUSH_INT_ARG`
abbrev pub int_arg : Libc → Text → ℕ → List Text
int_arg libc flag arg = flag ∷ libc.print_number arg ∷ []

-- The arguments that the child process of `server_launcher_launch_server_process` starts the server
-- with, without the `NULL` after the last.
unfoldable pub server_arguments : Libc → GameSettings → List Text
server_arguments libc settings =
    codes "./server" ∷ elim settings.room_name [ none ↦ [] | some name ↦ codes "-n" ∷ name ∷ [] ]
    ++ (if settings.port == setting_no_port then [] else int_arg libc (codes "-p") settings.port)
    ++ elim settings.map_path [
      | some path ↦ codes "-m" ∷ path ∷ []
      | none ↦ int_arg libc (codes "-w") settings.width ++ int_arg libc (codes "-h") settings.height
    ]
    ++ int_arg libc (codes "-a") settings.parent
