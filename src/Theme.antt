-- ===== src/Theme.antt =====
-- web/src/theme/ThemeProvider.tsx: the theme chosen by the reader or by the system, and the switch
-- of the top bar (web/src/App.tsx) that goes through the choices.
use kafka_manager.Base.{
  ℕ, ◌≤◌, zero, suc, ◌≡◌, refl, Bool, Option, none, some, arith, if◌then◌else◌, Text, codes,
  text_eq,
}

pub data ThemeMode : Type 0 where
  system light dark : ThemeMode

pub data ResolvedTheme : Type 0 where
  light dark : ResolvedTheme

pub resolve_theme : ThemeMode → Bool → ResolvedTheme
resolve_theme system system_dark = if system_dark then ResolvedTheme.dark else ResolvedTheme.light
resolve_theme ThemeMode.light system_dark = ResolvedTheme.light
resolve_theme ThemeMode.dark system_dark = ResolvedTheme.dark

abbrev pub mode_name : ThemeMode → Text
mode_name system = codes "system"
mode_name ThemeMode.light = codes "light"
mode_name ThemeMode.dark = codes "dark"

-- The state that the provider starts in, from what the storage holds.
pub saved_mode : Option Text → ThemeMode
saved_mode none = system
saved_mode (some saved) =
    if text_eq saved (mode_name ThemeMode.light)
    then ThemeMode.light
    else if text_eq saved (mode_name ThemeMode.dark)
    then ThemeMode.dark
    else system

-- The provider: the mode, what the system prefers, and the saved name.
pub record ThemeState : Type 0 where
  pub mode : ThemeMode
  pub system_dark : Bool
  pub saved : Option Text

pub set_mode : ThemeMode → ThemeState → ThemeState
set_mode next s = record s { mode = next; saved = some (mode_name next) }

-- The listener of the media query.
pub update_system : Bool → ThemeState → ThemeState
update_system matches s = record s { system_dark = matches }

pub start : Option Text → Bool → ThemeState
start saved system_dark = record {
  mode = saved_mode saved;
  system_dark = system_dark;
  saved = saved;
}

pub next_mode : ThemeMode → ThemeMode
next_mode system = ThemeMode.light
next_mode ThemeMode.light = ThemeMode.dark
next_mode ThemeMode.dark = system

-- After any choice a reload starts in the same mode, whatever the system prefers by then.
pub start-set_mode :
    (next : ThemeMode) (s : ThemeState) (system_dark : Bool)
    → (start (set_mode next s).saved system_dark).mode ≡ (set_mode next s).mode
unfolding start set_mode saved_mode
start-set_mode system s d = refl
start-set_mode _ s d = refl

pub clicks : ℕ → ThemeMode → ThemeMode
clicks zero m = m
clicks (suc n) m = clicks n (next_mode m)

-- From every mode every mode is reached by at most two clicks of the switch.
pub next_mode_reaches : (from to : ThemeMode) → (n : ℕ) × (n ≤ 2) × (clicks n from ≡ to)
unfolding clicks next_mode
next_mode_reaches system system = (0, omega arith, refl)
next_mode_reaches system ThemeMode.light = (1, omega arith, refl)
next_mode_reaches system ThemeMode.dark = (2, omega arith, refl)
next_mode_reaches ThemeMode.light system = (2, omega arith, refl)
next_mode_reaches ThemeMode.light ThemeMode.light = (0, omega arith, refl)
next_mode_reaches ThemeMode.light ThemeMode.dark = (1, omega arith, refl)
next_mode_reaches ThemeMode.dark system = (1, omega arith, refl)
next_mode_reaches ThemeMode.dark ThemeMode.light = (2, omega arith, refl)
next_mode_reaches ThemeMode.dark ThemeMode.dark = (0, omega arith, refl)
