-- ===== src/Settings/Documented.antt =====
-- What `libargs` documents of the options that are registered with it. An option has names, as one text
-- with a space between two; on the command line, a name of one character stands after a dash and before
-- the option's value.
use snake_posix.Common.{
  ℕ, ◌+◌, ◌^◌, ◌<◌, ◌≡◌, Bool, true, false, not, ◌&&◌, ◌||◌, ◌==◌, if◌then◌else◌, Option, none,
  some, List, [], ◌∷◌, ◌++◌,
}
use snake_posix.Common.{Text}
use snake_posix.Terminal.{Libc}
use snake_posix.Settings.{OptionSpec, int_opt, str_opt, Libargs}

abbrev text_eq : Text → Text → Bool
text_eq [] [] = true
text_eq (c ∷ text) (d ∷ other) = (c == d) && text_eq text other
text_eq _ _ = false

-- The names in a text.
abbrev prefixed : ℕ → List Text → List Text
prefixed c [] = (c ∷ []) ∷ []
prefixed c (name ∷ names) = (c ∷ name) ∷ names

abbrev split : Text → List Text
split [] = [] ∷ []
split (c ∷ text) = let names = split text in if c == b' ' then [] ∷ names else prefixed c names

abbrev is_in : Text → List Text → Bool
is_in name [] = false
is_in name (x ∷ names) = text_eq name x || is_in name names

abbrev names : OptionSpec → List Text
names (int_opt text default) = split text
names (str_opt text default) = split text

abbrev all_names : List OptionSpec → List Text
all_names [] = []
all_names (o ∷ specs) = names o ++ all_names specs

abbrev distinct : List Text → Bool
distinct [] = true
distinct (x ∷ l) = not (is_in x l) && distinct l

-- The place of the option of a name, and that option.
abbrev pub index_of : List OptionSpec → Text → ℕ
index_of [] name = 0
index_of (o ∷ specs) name =
    let later = index_of specs name in if is_in name (names o) then 0 else later + 1

abbrev pub option_of : List OptionSpec → Text → Option OptionSpec
option_of [] name = none
option_of (o ∷ specs) name =
    let later = option_of specs name in if is_in name (names o) then some o else later

-- Options by a name of one character, each with its value, as the words of a command line.
abbrev pub flagged : List (ℕ × Text) → List Text
flagged [] = []
flagged ((c, value) ∷ l) = (b'-' ∷ c ∷ []) ∷ value ∷ flagged l

-- The value that a later option has, or else the one at hand, if it is of the same option.
abbrev pub later_or : Option Text → Bool → Text → Option Text
later_or (some later) same value = some later
later_or none same value = if same then some value else none

-- The value that the option of a name has, which is the last.
abbrev pub last_given : List OptionSpec → Text → List (ℕ × Text) → Option Text
last_given specs name [] = none
last_given specs name ((c, value) ∷ l) =
    later_or (last_given specs name l) (index_of specs name == index_of specs (c ∷ [])) value

abbrev pub is_some : Option Text → Bool
is_some none = false
is_some (some text) = true

module _ (libc : Libc) where
  -- An option for a number has a number, as `%d` writes it.
  abbrev pub FitsOption : Option OptionSpec → Text → Type 0
  FitsOption none value = ⊥
  FitsOption (some (int_opt text default)) value =
      (n : ℕ) × (n < 2 ^ 31) × (value ≡ libc.print_number n)
  FitsOption (some (str_opt text default)) value = Unit

  abbrev pub AllFitOptions : List OptionSpec → List (ℕ × Text) → Type 0
  AllFitOptions specs [] = Unit
  AllFitOptions specs ((c, value) ∷ l) =
      FitsOption (option_of specs (c ∷ [])) value × AllFitOptions specs l

  -- By any of its names, an option is found if it is given, and has the value that it is given, or for a
  -- number the one that it was registered with.
  pub record Parsed (libargs : Libargs) (specs : List OptionSpec) (parser : libargs.Parser)
      (l : List (ℕ × Text)) : Type 0 where
    pub found :
        (name : Text) (o : OptionSpec)
        → option_of specs name ≡ some o
        → libargs.ap_found parser name ≡ is_some (last_given specs name l)
    pub string :
        (name value text default : Text)
        → option_of specs name ≡ some (str_opt text default)
        → last_given specs name l ≡ some value
        → libargs.ap_get_str_value parser name ≡ value
    pub number :
        (name text : Text) (default n : ℕ)
        → option_of specs name ≡ some (int_opt text default)
        → n < 2 ^ 31
        → last_given specs name l ≡ some (libc.print_number n)
        → libargs.ap_get_int_value parser name ≡ n
    pub no_number :
        (name text : Text) (default : ℕ)
        → option_of specs name ≡ some (int_opt text default)
        → last_given specs name l ≡ none
        → libargs.ap_get_int_value parser name ≡ default

  -- With options that share no name, a command line of options with a value each is parsed.
  abbrev pub LibargsLaws : Libargs → Type 0
  LibargsLaws libargs =
      (specs : List OptionSpec) (program : Text) (l : List (ℕ × Text))
      → distinct (all_names specs) ≡ true
      → AllFitOptions specs l
      → (parser : libargs.Parser) × (libargs.ap_parse specs (program ∷ flagged l) ≡ some parser)
        × Parsed libargs specs parser l
