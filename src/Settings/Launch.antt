-- ===== src/Settings/Launch.antt =====
-- From the settings of `client/menu/host_menu.c` over the command line that
-- `client/server_launcher.c` makes to the settings that `server/argument_parser.c` reads, by what
-- `libargs` documents of the options that are registered with it.
use snake_posix.Common.{
  ℕ, ◌-◌, ◌^◌, ◌<◌, ◌≡◌, refl, ap, ◌∙◌, arith, Bool, true, false, not, ◌&&◌, ◌||◌, ◌==◌,
  if◌then◌else◌, Option, none, some, List, [], ◌∷◌, ◌++◌,
}
use snake_posix.Common.{Text, codes, length}
use snake_posix.Terminal.{Libc}
use snake_posix.Settings.Options.{
  OptionKey, key_parent, key_name, key_map, key_width, key_height, key_port, words, given, Numeric,
  ap_parse-Reads, copy_lem, settings_of_lem, Numeric-append, size_lem, port_lem,
}
use snake_posix.Settings.{
  GameSettings, Libargs, argument_parser_parse, args_size, int_arg, server_arguments,
  setting_no_port,
}
use snake_posix.Settings.Documented.{is_some, LibargsLaws}
use snake_posix.Menu.{no_access}
use snake_posix.Menu.Allowed.{BoardGiven, Allowed}

module _ (libc : Libc) where
  -- The options that the launcher gives.
  abbrev name_pairs : Option Text → List (OptionKey × Text)
  name_pairs none = []
  name_pairs (some name) = (key_name, name) ∷ []

  abbrev port_pairs : Bool → ℕ → List (OptionKey × Text)
  port_pairs true port = []
  port_pairs false port = (key_port, libc.print_number port) ∷ []

  abbrev board_pairs : Option Text → ℕ → ℕ → List (OptionKey × Text)
  board_pairs (some path) width height = (key_map, path) ∷ []
  board_pairs none width height =
      (key_width, libc.print_number width) ∷ (key_height, libc.print_number height) ∷ []

  abbrev pairs : GameSettings → List (OptionKey × Text)
  pairs s =
      name_pairs s.room_name
      ++ port_pairs (s.port == setting_no_port) s.port
      ++ board_pairs s.map_path s.width s.height
      ++ (key_parent, libc.print_number s.parent) ∷ []

  server_arguments-words :
      (s : GameSettings) → server_arguments libc s ≡ codes "./server" ∷ words (pairs s)
  unfolding server_arguments
  server_arguments-words s =
      go s.room_name (s.port == setting_no_port) s.map_path s.port s.width s.height s.parent
    where
      go :
          (room_name : Option Text) (no_port : Bool) (map_path : Option Text)
          (port width height parent : ℕ)
          → codes "./server" ∷ elim room_name [ none ↦ [] | some name ↦ codes "-n" ∷ name ∷ [] ]
              ++ (if no_port then [] else int_arg libc (codes "-p") port)
              ++ elim map_path [
                | some path ↦ codes "-m" ∷ path ∷ []
                | none ↦ int_arg libc (codes "-w") width ++ int_arg libc (codes "-h") height
              ]
              ++ int_arg libc (codes "-a") parent
            ≡ codes "./server"
              ∷ words (
                  name_pairs room_name
                  ++ port_pairs no_port port
                  ++ board_pairs map_path width height
                  ++ (key_parent, libc.print_number parent) ∷ [])
      go none true none port width height parent = refl
      go none true (some path) port width height parent = refl
      go none false none port width height parent = refl
      go none false (some path) port width height parent = refl
      go (some name) true none port width height parent = refl
      go (some name) true (some path) port width height parent = refl
      go (some name) false none port width height parent = refl
      go (some name) false (some path) port width height parent = refl

  -- A given option of the settings, in the list of the options.
  module _ (name : Option Text) (no_port : Bool) (path : Option Text)
      (port width height parent : ℕ) where
    abbrev all_pairs : List (OptionKey × Text)
    all_pairs =
        name_pairs name
        ++ port_pairs no_port port
        ++ board_pairs path width height
        ++ (key_parent, libc.print_number parent) ∷ []

  abbrev GivenAll : Option Text → Bool → Option Text → ℕ → ℕ → ℕ → ℕ → Type 0
  GivenAll name no_port path port width height parent =
      let l = all_pairs name no_port path port width height parent in
      (given key_name l ≡ name)
      × (given key_map l ≡ path)
      × (given key_port l ≡ (if no_port then none else some (libc.print_number port)))
      × (given key_width l ≡ elim path [ none ↦ some (libc.print_number width) | some p ↦ none ])
      × (given key_height l ≡ elim path [ none ↦ some (libc.print_number height) | some p ↦ none ])
      × (given key_parent l ≡ some (libc.print_number parent))

  given_all :
      (name : Option Text) (no_port : Bool) (path : Option Text) (port width height parent : ℕ)
      → GivenAll name no_port path port width height parent
  given_all none true none port width height parent = (refl, refl, refl, refl, refl, refl)
  given_all none true (some p) port width height parent = (refl, refl, refl, refl, refl, refl)
  given_all none false none port width height parent = (refl, refl, refl, refl, refl, refl)
  given_all none false (some p) port width height parent = (refl, refl, refl, refl, refl, refl)
  given_all (some n) true none port width height parent = (refl, refl, refl, refl, refl, refl)
  given_all (some n) true (some p) port width height parent = (refl, refl, refl, refl, refl, refl)
  given_all (some n) false none port width height parent = (refl, refl, refl, refl, refl, refl)
  given_all (some n) false (some p) port width height parent = (refl, refl, refl, refl, refl, refl)

  name_pairs-Numeric : (name : Option Text) → Numeric libc (name_pairs name)
  name_pairs-Numeric none = tt
  name_pairs-Numeric (some name) = (λ e. let clash : false ≡ true = e in cc, tt)

  port_pairs-Numeric : (b : Bool) (port : ℕ) → port < 2 ^ 31 → Numeric libc (port_pairs b port)
  port_pairs-Numeric true port h = tt
  port_pairs-Numeric false port h = (λ e. (port, h, refl), tt)

  board_pairs-Numeric :
      (path : Option Text) (width height : ℕ)
      → width < 2 ^ 31
      → height < 2 ^ 31
      → Numeric libc (board_pairs path width height)
  board_pairs-Numeric none width height h i = (λ e. (width, h, refl), (λ e. (height, i, refl), tt))
  board_pairs-Numeric (some path) width height h i = (λ e. let clash : false ≡ true = e in cc, tt)

  BoardGiven-small :
      (path : Option Text) (width height : ℕ)
      → BoardGiven path width height
      → (width < 2 ^ 31) × (height < 2 ^ 31)
  BoardGiven-small none width height ((_, w), (_, h)) = (omega arith, omega arith)
  BoardGiven-small (some path) width height (_, w, h) = (omega arith, omega arith)

  BoardGiven-zero :
      (path : Option Text) (width height : ℕ)
      → BoardGiven path width height
      → (p : Text) → path ≡ some p
      → (width ≡ 0) × (height ≡ 0)
  BoardGiven-zero none width height given_ p e = absurd (cc)
  BoardGiven-zero (some path) width height (_, w, h) p e = (w, h)

  access_lem :
      (name : Option Text) (port : ℕ) (value : Text)
      → no_access name port ≡ false
      → (not (is_some name) && not (is_some (if port == setting_no_port then none else some value)))
        ≡ false
  access_lem none port value e = rw e refl
  access_lem (some name) port value e = refl

  board_lem :
      (path : Option Text) (width height : Text)
      → (not (is_some path)
          && (not (is_some (elim path [ none ↦ some width | some p ↦ none ]))
              || not (is_some (elim path [ none ↦ some height | some p ↦ none ]))))
        ≡ false
  board_lem none width height = refl
  board_lem (some path) width height = refl

  -- With what `libargs` documents of any options that are registered with it, the settings that
  -- the menu for a host allows, with a process id below 2 ^ 31 as the parent, are the settings
  -- that the server reads from the command line that the launcher makes of them.
  pub server_arguments-argument_parser_parse :
      (libargs : Libargs) (s : GameSettings)
      → LibargsLaws libc libargs
      → Allowed s
      → s.parent < 2 ^ 31
      → argument_parser_parse libargs (server_arguments libc s) ≡ some s
  unfolding argument_parser_parse
  server_arguments-argument_parser_parse libargs s laws allowed pid =
      let (small_width, small_height) =
        BoardGiven-small s.map_path s.width s.height allowed.board in
      let small_port : s.port < 2 ^ 31 = let fits = allowed.port_fits in omega arith in
      let last : List (OptionKey × Text) = (key_parent, libc.print_number s.parent) ∷ [] in
      let name_ = name_pairs s.room_name in
      let board = board_pairs s.map_path s.width s.height in
      let port_ = port_pairs (s.port == setting_no_port) s.port in
      let numeric : Numeric libc (pairs s) =
        Numeric-append libc (name_ ++ port_ ++ board) last
          (Numeric-append libc (name_ ++ port_) board
            (Numeric-append libc name_ port_ (name_pairs-Numeric s.room_name)
              (port_pairs-Numeric (s.port == setting_no_port) s.port small_port))
            (board_pairs-Numeric s.map_path s.width s.height small_width small_height))
          (λ e. (s.parent, pid, refl), tt) in
      let (parser, parsed, reads) =
        ap_parse-Reads libc libargs laws (codes "./server") (pairs s) numeric in
      let (name, path, port, width, height, parent) =
        given_all s.room_name (s.port == setting_no_port) s.map_path s.port s.width s.height
          s.parent in
      let read_all =
        settings_of_lem libc libargs s parser
          (copy_lem libc libargs s parser key_name s.room_name
            (reads.found key_name ∙ ap is_some name)
            (λ text e. reads.string key_name text refl (name ∙ e)))
          (copy_lem libc libargs s parser key_map s.map_path (reads.found key_map ∙ ap is_some path)
            (λ text e. reads.string key_map text refl (path ∙ e)))
          (rw (reads.found key_name, reads.found key_port, name, port)
            (access_lem s.room_name s.port (libc.print_number s.port) allowed.access))
          (rw
            (
              reads.found key_map,
              reads.found key_width,
              reads.found key_height,
              path,
              width,
              height,
            )
            (board_lem s.map_path (libc.print_number s.width) (libc.print_number s.height)))
          (size_lem libc libargs parser (pairs s) reads key_width s.map_path s.width refl
            small_width width
            (λ p e. (BoardGiven-zero s.map_path s.width s.height allowed.board p e).0))
          (size_lem libc libargs parser (pairs s) reads key_height s.map_path s.height refl
            small_height height
            (λ p e. (BoardGiven-zero s.map_path s.width s.height allowed.board p e).1))
          (reads.number key_parent s.parent refl pid parent)
          (port_lem libc libargs parser (pairs s) reads s.port small_port port) allowed.port_fits in
      rw (server_arguments-words s, parsed, argument_parser_parse) read_all

  length-words :
      (name : Option Text) (no_port : Bool) (path : Option Text) (port width height parent : ℕ)
      → length (words (all_pairs name no_port path port width height parent)) < args_size - 1
  length-words none true none port width height parent = omega arith
  length-words none true (some p) port width height parent = omega arith
  length-words none false none port width height parent = omega arith
  length-words none false (some p) port width height parent = omega arith
  length-words (some n) true none port width height parent = omega arith
  length-words (some n) true (some p) port width height parent = omega arith
  length-words (some n) false none port width height parent = omega arith
  length-words (some n) false (some p) port width height parent = omega arith

  -- Whatever the settings, the arguments and the null pointer after them fit their array.
  pub length-server_arguments : (s : GameSettings) → length (server_arguments libc s) < args_size
  length-server_arguments s =
      let few =
        length-words s.room_name (s.port == setting_no_port) s.map_path s.port s.width s.height
          s.parent in
      rw (server_arguments-words s) (omega (arith, few))
