-- ===== src/Menu/Allowed.antt =====
-- The settings that `client/menu/host_menu.c` returns.
use snake_posix.Common.{
  ℕ, ◌^◌, ◌≤◌, ◌<◌, ◌≡◌, refl, ◌≢◌, arith, false, if_intro, Option, none, some, List, [],
}
use snake_posix.Common.{Text, length}
use snake_posix.Map.{min_map_width, min_map_height, max_map_width, max_map_height}
use snake_posix.Termbox.{Termbox}
use snake_posix.Terminal.{
  Libc, Event, ReadResult, read_cancelled, read_empty, read_invalid, read_success, Asked, if_some,
  terminal_read_string, terminal_read_coordinate, terminal_show_error,
}
use snake_posix.Terminal.Typed.{
  Answers, Answers->>-, terminal_read_string-fewer, terminal_read_coordinate-fewer,
  terminal_show_error-fewer,
}
use snake_posix.Settings.{GameSettings}
use snake_posix.Menu.{host_menu_clamp_coordinate, HostMenuOptions, no_access}
use snake_posix.Menu.Host.{
  clamped, named, board, ask_map_if_accessible, ask_room_name, ask_port_setting, ask_size,
  ask_sizes, ask_map, host_menu,
}
use snake_posix.Menu.Ports.{Named, IfAny, named-Named, ask_room_name-Named, ask_port_setting-fits}

abbrev pub Between : ℕ → ℕ → ℕ → Type 0
Between min max v = (min ≤ v) × (v ≤ max)

-- A map of the limits' sizes, or a path to one.
abbrev pub BoardGiven : Option Text → ℕ → ℕ → Type 0
BoardGiven none width height =
    Between min_map_width max_map_width width × Between min_map_height max_map_height height
BoardGiven (some path) width height = (path ≢ []) × (width ≡ 0) × (height ≡ 0)

-- Settings that a server can be started with.
pub record Allowed (s : GameSettings) : Type 0 where
  pub access : no_access s.room_name s.port ≡ false
  pub named : Named s.room_name
  pub port_fits : s.port < 2 ^ 16
  pub board : BoardGiven s.map_path s.width s.height

pub clamp_lem :
    (min val max : ℕ)
    → min ≤ max
    → (min ≤ host_menu_clamp_coordinate min val max)
      × (host_menu_clamp_coordinate min val max ≤ max)
unfolding host_menu_clamp_coordinate
clamp_lem min val max h = (ground arith, ground arith)

module _ (tb : Termbox) (libc : Libc) where
  clamped-Between :
      (min max : ℕ) (r : ReadResult ℕ)
      → min ≤ max
      → IfAny (Between min max) (clamped tb libc min max r)
  clamped-Between min max (read_success v) h = clamp_lem min v max h
  clamped-Between min max read_cancelled h = tt
  clamped-Between min max read_empty h = tt
  clamped-Between min max read_invalid h = tt

  -- What follows unless the menu is left has a property of its own.
  pub if_some-Answers :
      {A : Type 0} (Given : A → Type 0) (o : Option A)
      (f : A → List Event → tb.Screen → Asked tb (Option GameSettings)) (events : List Event)
      (screen : tb.Screen)
      → IfAny Given o
      → ((a : A) (events : List Event) (screen : tb.Screen)
          → Given a
          → Answers (length events) (f a events screen) (λ s left_. IfAny Allowed s))
      → Answers (length events) (if_some o f events screen) (λ s left_. IfAny Allowed s)
  if_some-Answers Given none f events screen given h = (tt, omega arith)
  if_some-Answers Given (some a) f events screen given h = h a events screen given

  ask_size-Between :
      (room_name : Option Text) (port : ℕ) (prompt : Text) (row : ℕ) (shows : tb.Screen → tb.Screen)
      (min max : ℕ) (events : List Event) (screen : tb.Screen)
      → min ≤ max
      → Answers
          (length events)
          (ask_size tb libc room_name port prompt row shows min max events screen)
          (λ r left_. IfAny (Between min max) r)
  unfolding ask_size
  ask_size-Between room_name port prompt row shows min max events screen h =
      Answers->>- (length events) (terminal_read_coordinate tb libc _ events _) _ _ _
        (terminal_read_coordinate-fewer tb libc _ events _)
        (λ result left_ shown fewer. (clamped-Between min max result h, omega arith))

  module _ (room_name : Option Text) (port : ℕ) (access : no_access room_name port ≡ false)
      (is_named : Named room_name) (fits : port < 2 ^ 16) where
    ask_sizes-Allowed :
        (events : List Event) (screen : tb.Screen)
        → Answers
            (length events)
            (ask_sizes tb libc room_name port events screen)
            (λ s left_. IfAny Allowed s)
    unfolding ask_sizes
    ask_sizes-Allowed events screen =
        Answers->>- (length events)
          (ask_size tb libc room_name port _ _ (λ s. s) min_map_width max_map_width events screen) _
          _ _
          (ask_size-Between room_name port _ _ (λ s. s) min_map_width max_map_width events screen
            (omega arith))
          (λ width_result left_ shown in_width.
            if_some-Answers (Between min_map_width max_map_width) width_result _ left_ shown
              in_width
              (λ width left_' shown' in_width'.
                Answers->>- (length left_')
                  (ask_size tb libc room_name port _ _ _ min_map_height max_map_height left_'
                    shown')
                  _ _ _
                  (ask_size-Between room_name port _ _ _ min_map_height max_map_height left_' shown'
                    (omega arith))
                  (λ height_result left_'' shown'' in_height.
                    if_some-Answers (Between min_map_height max_map_height) height_result _ left_''
                      shown'' in_height
                      (λ height l s' in_height'. (
                        record {
                          access = access;
                          named = is_named;
                          port_fits = fits;
                          board = (in_width', in_height');
                        },
                        omega arith,
                      )))))

    board-Allowed :
        (path : Option Text) (events : List Event) (screen : tb.Screen)
        → Named path
        → Answers
            (length events)
            (board tb libc room_name port path events screen)
            (λ s left_. IfAny Allowed s)
    board-Allowed none events screen h = ask_sizes-Allowed events screen
    board-Allowed (some path) events screen h = (
      record { access = access; named = is_named; port_fits = fits; board = (h, refl, refl) },
      omega arith,
    )

    ask_map-Allowed :
        (events : List Event) (screen : tb.Screen)
        → Answers
            (length events)
            (ask_map tb libc room_name port events screen)
            (λ s left_. IfAny Allowed s)
    unfolding ask_map
    ask_map-Allowed events screen =
        Answers->>- (length events) (terminal_read_string tb _ events _) _ _ _
          (terminal_read_string-fewer tb libc _ events _)
          (λ result left_ shown fewer.
            if_some-Answers Named (named tb libc result) (board tb libc room_name port) left_ shown
              (named-Named tb libc result) board-Allowed)

  ask_map_if_accessible-Allowed :
      (room_name : Option Text) (port : ℕ) (events : List Event) (screen : tb.Screen)
      → Named room_name
      → port < 2 ^ 16
      → Answers
          (length events)
          (ask_map_if_accessible tb libc room_name port events screen)
          (λ s left_. IfAny Allowed s)
  unfolding ask_map_if_accessible
  ask_map_if_accessible-Allowed room_name port events screen is_named fits =
      if_intro
        (λ (m : Asked tb (Option GameSettings)).
          Answers (length events) m (λ s left_. IfAny Allowed s))
        (no_access room_name port) _ _
        (λ e.
          Answers->>- (length events) (terminal_show_error tb _ events screen) _ _ _
            (terminal_show_error-fewer tb _ events screen)
            (λ pressed left_ shown fewer. (tt, omega arith)))
        (λ e. ask_map-Allowed room_name port e is_named fits events screen)

  -- Whatever the user types, the dialogue does not run out of the fuel that the model gives it,
  -- writes past the end of a buffer only if there are at least 256 events, and any settings that
  -- it returns name a way to join, a port of 16 bits, and either the path to a map or a width and
  -- a height within the limits.
  pub host_menu-Allowed :
      (options : HostMenuOptions) (ids : ℕ × ℕ) (events : List Event) (screen : tb.Screen)
      → Answers
          (length events)
          (host_menu tb libc options ids events screen)
          (λ s left_. IfAny Allowed s)
  unfolding host_menu
  host_menu-Allowed options ids events screen =
      Answers->>- (length events) (ask_room_name tb libc options ids events screen) _ _ _
        (ask_room_name-Named tb libc options ids events screen)
        (λ room_result left_ shown is_named.
          if_some-Answers Named room_result _ left_ shown is_named
            (λ room_name left_' shown' is_named'.
              Answers->>- (length left_') (ask_port_setting tb libc options room_name left_' shown')
                _ _ _ (ask_port_setting-fits tb libc options room_name left_' shown')
                (λ port_result left_'' shown'' fits.
                  if_some-Answers (λ port. port < 2 ^ 16) port_result _ left_'' shown'' fits
                    (λ port l s fits'.
                      ask_map_if_accessible-Allowed room_name port l s is_named' fits'))))
