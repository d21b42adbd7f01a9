-- ===== src/Settings/Options.antt =====
-- The options that `server/argument_parser.c` registers, by what `libargs` documents, and what
-- it makes of them.
use snake_posix.Common.{
  ℕ, ◌%◌, ◌^◌, ◌<◌, ◌≡◌, refl, sym, ap, ◌∙◌, inl, inr, arith, Bool, true, false, not, ◌&&◌, ◌||◌,
  ◌==◌, if◌then◌else◌, Bool-cases, ==→≡, Option, none, some, List, [], ◌∷◌, ◌++◌,
}
use snake_posix.Common.{Text, codes}
use snake_posix.Common.{Text, codes}
use snake_posix.Terminal.{Libc}
use snake_posix.Settings.{
  GameSettings, OptionSpec, int_opt, str_opt, Libargs, option_specs, argument_parser_get_str_copy,
  settings_of, setting_no_port,
}
use snake_posix.Settings.Documented.{
  index_of, option_of, flagged, later_or, last_given, is_some, FitsOption, AllFitOptions,
  LibargsLaws,
}

-- The options that `argument_parser_parse` registers, by their names.
pub data OptionKey : Type 0 where
  key_parent key_name key_map key_width key_height key_port : OptionKey

abbrev key_code : OptionKey → ℕ
key_code key_parent = 0
key_code key_name = 1
key_code key_map = 2
key_code key_width = 3
key_code key_height = 4
key_code key_port = 5

abbrev letter : OptionKey → ℕ
letter key_parent = b'a'
letter key_name = b'n'
letter key_map = b'm'
letter key_width = b'w'
letter key_height = b'h'
letter key_port = b'p'

abbrev pub long : OptionKey → Text
long key_parent = codes "parent"
long key_name = codes "name"
long key_map = codes "map"
long key_width = codes "width"
long key_height = codes "height"
long key_port = codes "port"

abbrev pub is_int : OptionKey → Bool
is_int key_name = false
is_int key_map = false
is_int _ = true

-- Options, each with its value, as the words of a command line.
abbrev pub lettered : List (OptionKey × Text) → List (ℕ × Text)
lettered [] = []
lettered ((k, value) ∷ l) = (letter k, value) ∷ lettered l

abbrev pub words : List (OptionKey × Text) → List Text
words l = flagged (lettered l)

-- The value that an option has, which is the last.
abbrev pub given : OptionKey → List (OptionKey × Text) → Option Text
given k [] = none
given k ((j, value) ∷ l) = later_or (given k l) (key_code k == key_code j) value

index_of-long : (k : OptionKey) → index_of option_specs (long k) ≡ key_code k
unfolding option_specs
index_of-long key_parent = refl
index_of-long key_name = refl
index_of-long key_map = refl
index_of-long key_width = refl
index_of-long key_height = refl
index_of-long key_port = refl

index_of-letter : (k : OptionKey) → index_of option_specs (letter k ∷ []) ≡ key_code k
unfolding option_specs
index_of-letter key_parent = refl
index_of-letter key_name = refl
index_of-letter key_map = refl
index_of-letter key_width = refl
index_of-letter key_height = refl
index_of-letter key_port = refl

last_given-given :
    (k : OptionKey) (l : List (OptionKey × Text))
    → last_given option_specs (long k) (lettered l) ≡ given k l
last_given-given k [] = refl
last_given-given k ((j, value) ∷ l) =
    let i = index_of option_specs (letter j ∷ []) in
    ap (λ g. later_or g (index_of option_specs (long k) == i) value) (last_given-given k l)
    ∙ ap (λ h. later_or (given k l) (h == i) value) (index_of-long k)
    ∙ ap (λ h. later_or (given k l) (key_code k == h) value) (index_of-letter j)

option_of-long : (k : OptionKey) → (o : OptionSpec) × (option_of option_specs (long k) ≡ some o)
unfolding option_specs
option_of-long key_parent = (_, refl)
option_of-long key_name = (_, refl)
option_of-long key_map = (_, refl)
option_of-long key_width = (_, refl)
option_of-long key_height = (_, refl)
option_of-long key_port = (_, refl)

-- An option for a number is registered as one, which is 0 without a value, and the others as texts.
int_long :
    (k : OptionKey)
    → is_int k ≡ true
    → (text : Text) × (option_of option_specs (long k) ≡ some (int_opt text 0))
unfolding option_specs
int_long key_parent e = (_, refl)
int_long key_name e = let clash : false ≡ true = e in absurd (cc)
int_long key_map e = let clash : false ≡ true = e in absurd (cc)
int_long key_width e = (_, refl)
int_long key_height e = (_, refl)
int_long key_port e = (_, refl)

str_long :
    (k : OptionKey)
    → is_int k ≡ false
    → (text : Text) × (option_of option_specs (long k) ≡ some (str_opt text []))
unfolding option_specs
str_long key_name e = (_, refl)
str_long key_map e = (_, refl)
str_long key_parent e = let clash : true ≡ false = e in absurd (cc)
str_long key_width e = let clash : true ≡ false = e in absurd (cc)
str_long key_height e = let clash : true ≡ false = e in absurd (cc)
str_long key_port e = let clash : true ≡ false = e in absurd (cc)

module _ (libc : Libc) where
  -- An option for a number has a number, as `%d` writes it.
  abbrev pub Numeric : List (OptionKey × Text) → Type 0
  Numeric [] = Unit
  Numeric ((k, value) ∷ l) =
      (is_int k ≡ true → (n : ℕ) × (n < 2 ^ 31) × (value ≡ libc.print_number n)) × Numeric l

  FitsOption-letter :
      (k : OptionKey) (value : Text)
      → (is_int k ≡ true → (n : ℕ) × (n < 2 ^ 31) × (value ≡ libc.print_number n))
      → FitsOption libc (option_of option_specs (letter k ∷ [])) value
  unfolding option_specs
  FitsOption-letter key_parent value h = h refl
  FitsOption-letter key_name value h = tt
  FitsOption-letter key_map value h = tt
  FitsOption-letter key_width value h = h refl
  FitsOption-letter key_height value h = h refl
  FitsOption-letter key_port value h = h refl

  Numeric-AllFitOptions :
      (l : List (OptionKey × Text)) → Numeric l → AllFitOptions libc option_specs (lettered l)
  Numeric-AllFitOptions [] h = tt
  Numeric-AllFitOptions ((k, value) ∷ l) (e, h) =
      (FitsOption-letter k value e, Numeric-AllFitOptions l h)

  -- What a parser says of the options of `argument_parser_parse`.
  pub record Reads (libargs : Libargs) (parser : libargs.Parser) (l : List (OptionKey × Text))
      : Type 0 where
    pub found : (k : OptionKey) → libargs.ap_found parser (long k) ≡ is_some (given k l)
    pub string :
        (k : OptionKey) (text : Text)
        → is_int k ≡ false
        → given k l ≡ some text
        → libargs.ap_get_str_value parser (long k) ≡ text
    pub number :
        (k : OptionKey) (n : ℕ)
        → is_int k ≡ true
        → n < 2 ^ 31
        → given k l ≡ some (libc.print_number n)
        → libargs.ap_get_int_value parser (long k) ≡ n
    pub no_number :
        (k : OptionKey)
        → is_int k ≡ true
        → given k l ≡ none
        → libargs.ap_get_int_value parser (long k) ≡ 0

  pub ap_parse-Reads :
      (libargs : Libargs)
      → LibargsLaws libc libargs
      → (program : Text) (l : List (OptionKey × Text)) → Numeric l
      → (parser : libargs.Parser) × (libargs.ap_parse option_specs (program ∷ words l)
          ≡ some parser)
        × Reads libargs parser l
  unfolding option_specs
  ap_parse-Reads libargs laws program l numeric =
      let (parser, parses, parsed) =
        laws option_specs program (lettered l) refl (Numeric-AllFitOptions l numeric) in
      (
        parser,
        parses,
        record {
          found = λ k.
              let (o, e) = option_of-long k in
              parsed.found (long k) o e ∙ ap is_some (last_given-given k l);
          string = λ k text i e.
              let (names, o) = str_long k i in
              parsed.string (long k) text names [] o (last_given-given k l ∙ e);
          number = λ k n i small e.
              let (names, o) = int_long k i in
              parsed.number (long k) names 0 n o small (last_given-given k l ∙ e);
          no_number = λ k i e.
              let (names, o) = int_long k i in
              parsed.no_number (long k) names 0 o (last_given-given k l ∙ e);
        },
      )

  module _ (libargs : Libargs) (s : GameSettings) (parser : libargs.Parser) where
    pub copy_lem :
        (k : OptionKey) (value : Option Text)
        → libargs.ap_found parser (long k) ≡ is_some value
        → ((text : Text) → value ≡ some text → libargs.ap_get_str_value parser (long k) ≡ text)
        → argument_parser_get_str_copy libargs parser (long k) ≡ value
    unfolding argument_parser_get_str_copy
    copy_lem k none found string = rw found refl
    copy_lem k (some text) found string = rw found (ap some (string text refl))

    -- The settings, where the parser has them all.
    pub settings_of_lem :
        argument_parser_get_str_copy libargs parser (long key_name) ≡ s.room_name
        → argument_parser_get_str_copy libargs parser (long key_map) ≡ s.map_path
        → (not (libargs.ap_found parser (long key_name))
            && not (libargs.ap_found parser (long key_port)))
          ≡ false
        → (not (libargs.ap_found parser (long key_map))
            && (not (libargs.ap_found parser (long key_width))
                || not (libargs.ap_found parser (long key_height))))
          ≡ false
        → libargs.ap_get_int_value parser (long key_width) ≡ s.width
        → libargs.ap_get_int_value parser (long key_height) ≡ s.height
        → libargs.ap_get_int_value parser (long key_parent) ≡ s.parent
        → libargs.ap_get_int_value parser (long key_port) ≡ s.port
        → s.port < 2 ^ 16
        → settings_of libargs parser ≡ some s
    unfolding settings_of
    settings_of_lem name path access board width height parent port fits =
        let port' : s.port % 2 ^ 16 ≡ s.port = omega arith in
        rw (access, board, name, path, width, height, parent, port, port', settings_of) refl

  pub Numeric-append : (k l : List (OptionKey × Text)) → Numeric k → Numeric l → Numeric (k ++ l)
  Numeric-append [] l h i = i
  Numeric-append (x ∷ k) l (e, h) i = (e, Numeric-append k l h i)

  module _ (libargs : Libargs) (parser : libargs.Parser) (l : List (OptionKey × Text))
      (reads : Reads libargs parser l) where
    pub size_lem :
        (k : OptionKey) (path : Option Text) (n : ℕ)
        → is_int k ≡ true
        → n < 2 ^ 31
        → given k l ≡ elim path [ none ↦ some (libc.print_number n) | some p ↦ none ]
        → ((p : Text) → path ≡ some p → n ≡ 0)
        → libargs.ap_get_int_value parser (long k) ≡ n
    size_lem k none n int small e zero_ = reads.number k n int small e
    size_lem k (some p) n int small e zero_ = reads.no_number k int e ∙ sym (zero_ p refl)

    pub port_lem :
        (port : ℕ)
        → port < 2 ^ 31
        → given key_port l
          ≡ (if port == setting_no_port then none else some (libc.print_number port))
        → libargs.ap_get_int_value parser (long key_port) ≡ port
    port_lem port small e = elim (Bool-cases (port == setting_no_port)) [
      | inl b ↦ reads.no_number key_port refl (rw b at e) ∙ sym (==→≡ port setting_no_port b)
      | inr b ↦ reads.number key_port port refl small (rw b at e)
    ]
