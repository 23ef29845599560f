-- ===== src/Tui.antt =====
-- The terminal's key handling: View, ColumnMode, Action and TuiState of src/ats_lab/tui_types.py and
-- `handle_key` of src/ats_lab/tui_controller.py. The key codes of curses are parameters.
pub mod Keys
use algorithmic_trading_stra.Base.{
  ℕ, ◌+◌, ◌-◌, ◌%◌, min, max, String, Bool, true, false, not, ◌&&◌, ◌||◌, Option, none, some, ◌==◌,
  leb, if◌then◌else◌,
}
use algorithmic_trading_stra.Base.Texts.{◌<>◌}

pub data View : Type 0 where
  overview queue candidates hpo memory columns : View

abbrev pub view_index : View → ℕ
view_index overview = 0
view_index queue = 1
view_index candidates = 2
view_index hpo = 3
view_index memory = 4
view_index columns = 5

-- `View(n)` for n below 6
abbrev pub view_at : ℕ → View
view_at n =
    if n == 0
    then overview
    else if n == 1
    then queue
    else if n == 2
    then candidates
    else if n == 3
    then hpo
    else if n == 4
    then memory
    else columns

pub data ColumnMode : Type 0 where
  compact standard wide : ColumnMode

unfoldable pub next : ColumnMode → ColumnMode
next compact = standard
next standard = wide
next wide = compact

unfoldable pub label : ColumnMode → String
label compact = "compact"
label standard = "standard"
label wide = "wide"

pub data Action : Type 0 where
  quit start pause stop : Action

pub record TuiState : Type 0 where
  pub view : View
  pub selected : ℕ
  pub scroll : ℕ
  pub show_help : Bool
  pub show_detail : Bool
  pub confirm_stop : Bool
  pub message : String
  pub column_mode : ColumnMode

-- the codes of curses that the controller names
pub record CursesKeys : Type 0 where
  pub key_left : ℕ
  pub key_right : ℕ
  pub key_up : ℕ
  pub key_down : ℕ
  pub key_page_up : ℕ
  pub key_page_down : ℕ

-- what a key asks for outside the help
pub data Press : Type 0 where
  help quit_key left right up down page_up page_down first last detail column : Press
  pause_key start_key stop_key other : Press
  tab : View → Press

-- the tests of `handle_key`, in their order
unfoldable pub press_of : CursesKeys → ℕ → Press
press_of keys key =
    if key == 63
    then help
    else if (key == 113) || (key == 81)
    then quit_key
    else if leb 49 key && leb key 54
    then tab (view_at (key - 49))
    else if key == keys.key_left
    then left
    else if key == keys.key_right
    then right
    else if (key == keys.key_up) || (key == 107)
    then up
    else if (key == keys.key_down) || (key == 106)
    then down
    else if key == keys.key_page_up
    then page_up
    else if key == keys.key_page_down
    then page_down
    else if key == 103
    then first
    else if key == 71
    then last
    else if (key == 10) || (key == 13) || (key == 100)
    then detail
    else if key == 99
    then column
    else if key == 112
    then pause_key
    else if key == 114
    then start_key
    else if key == 115
    then stop_key
    else other

abbrev shown : View → TuiState → TuiState
shown view s = record s { view = view; selected = 0; scroll = 0 }

-- `if state.confirm_stop` on the stop key
abbrev pub stop_pressed : Bool → TuiState → TuiState × Option Action
stop_pressed true s = (record s { confirm_stop = false }, some stop)
stop_pressed false s = (
  record s { confirm_stop = true; message = "Press s again to confirm graceful supervisor stop" },
  none,
)

-- the branches of `handle_key` outside the help, for the rows that the view has
unfoldable pub pressed : Press → ℕ → TuiState → TuiState × Option Action
unfolding next label
pressed help rows s = (record s { show_help = true }, none)
pressed quit_key rows s = (s, some quit)
pressed (tab v) rows s = (shown v s, none)
pressed left rows s = (shown (view_at ((view_index s.view + 5) % 6)) s, none)
pressed right rows s = (shown (view_at ((view_index s.view + 1) % 6)) s, none)
pressed up rows s = (record s { selected = s.selected - 1 }, none)
pressed down rows s = (record s { selected = min (rows - 1) (s.selected + 1) }, none)
pressed page_up rows s = (record s { selected = s.selected - 10 }, none)
pressed page_down rows s = (record s { selected = min (rows - 1) (s.selected + 10) }, none)
pressed first rows s = (record s { selected = 0 }, none)
pressed last rows s = (record s { selected = rows - 1 }, none)
pressed detail rows s = (record s { show_detail = not s.show_detail }, none)
pressed column rows s = (
  record s {
    column_mode = next s.column_mode;
    message = "Column profile: " <> label (next s.column_mode);
  },
  none,
)
pressed pause_key rows s = (record s { confirm_stop = false }, some pause)
pressed start_key rows s = (record s { confirm_stop = false }, some start)
pressed stop_key rows s = stop_pressed s.confirm_stop s
pressed other rows s = (record s { confirm_stop = false }, none)

abbrev pub closes_help : ℕ → Bool
closes_help key = (key == 63) || (key == 27) || (key == 113)

-- `if state.show_help`
abbrev pub handled : Bool → CursesKeys → TuiState → ℕ → ℕ → TuiState × Option Action
handled true keys s key rows = (if closes_help key then record s { show_help = false } else s, none)
handled false keys s key rows = pressed (press_of keys key) rows s

unfoldable pub handle_key : CursesKeys → TuiState → ℕ → ℕ → TuiState × Option Action
handle_key keys s = handled s.show_help keys s
