-- ===== src/Tui/Keys.antt =====
-- What keys do to the terminal's state: the selection stays within the rows, and a stop is confirmed.
use algorithmic_trading_stra.Base.{
  ℕ, ◌-◌, ◌≤◌, Bool, true, false, some, ◌≡◌, refl, if◌then◌else◌, arith,
}
use algorithmic_trading_stra.Tui.{
  TuiState, stop, Press, help, quit_key, left, right, up, down, page_up, page_down, first, last,
  detail, column, pause_key, start_key, stop_key, other, tab, CursesKeys, press_of, pressed,
  handle_key, closes_help, stop_pressed, handled,
}

-- The selected row is one of the view's rows, or the first where it has none.
abbrev pub InRange : ℕ → TuiState → Type 0
InRange rows s = s.selected ≤ rows - 1

stop_pressed-InRange :
    (b : Bool) (rows : ℕ) (s : TuiState) → InRange rows s → InRange rows (stop_pressed b s).0
stop_pressed-InRange true rows s h = h
stop_pressed-InRange false rows s h = h

pressed-InRange :
    (p : Press) (rows : ℕ) (s : TuiState) → InRange rows s → InRange rows (pressed p rows s).0
unfolding pressed
pressed-InRange help rows s h = h
pressed-InRange quit_key rows s h = h
pressed-InRange (tab v) rows s h = omega arith
pressed-InRange left rows s h = omega arith
pressed-InRange right rows s h = omega arith
pressed-InRange up rows s h = omega arith
pressed-InRange down rows s h = omega arith
pressed-InRange page_up rows s h = omega arith
pressed-InRange page_down rows s h = omega arith
pressed-InRange first rows s h = omega arith
pressed-InRange last rows s h = omega arith
pressed-InRange detail rows s h = h
pressed-InRange column rows s h = h
pressed-InRange pause_key rows s h = h
pressed-InRange start_key rows s h = h
pressed-InRange stop_key rows s h = stop_pressed-InRange s.confirm_stop rows s h
pressed-InRange other rows s h = h

closing-InRange :
    (b : Bool) (rows : ℕ) (s : TuiState)
    → InRange rows s
    → InRange rows (if b then record s { show_help = false } else s)
closing-InRange true rows s h = h
closing-InRange false rows s h = h

handled-InRange :
    (b : Bool) (keys : CursesKeys) (s : TuiState) (key rows : ℕ)
    → InRange rows s
    → InRange rows (handled b keys s key rows).0
handled-InRange true keys s key rows h = closing-InRange (closes_help key) rows s h
handled-InRange false keys s key rows h = pressed-InRange (press_of keys key) rows s h

-- Every key keeps the selection within the rows of the view that it was in.
pub handle_key-InRange :
    (keys : CursesKeys) (s : TuiState) (key rows : ℕ)
    → InRange rows s
    → InRange rows (handle_key keys s key rows).0
unfolding handle_key
handle_key-InRange keys s key rows h = handled-InRange s.show_help keys s key rows h

stop_pressed-stop :
    (b : Bool) (s : TuiState)
    → (stop_pressed b s).1 ≡ some stop
    → (b ≡ true) × ((stop_pressed b s).0.confirm_stop ≡ false)
stop_pressed-stop true s h = (refl, refl)
stop_pressed-stop false s h = cc

pressed-stop :
    (p : Press) (rows : ℕ) (s : TuiState)
    → (pressed p rows s).1 ≡ some stop
    → (p ≡ stop_key) × (s.confirm_stop ≡ true) × ((pressed p rows s).0.confirm_stop ≡ false)
unfolding pressed
pressed-stop stop_key rows s h =
    let parts = stop_pressed-stop s.confirm_stop s h in (refl, parts.0, parts.1)
pressed-stop help rows s h = cc
pressed-stop quit_key rows s h = cc
pressed-stop (tab v) rows s h = cc
pressed-stop left rows s h = cc
pressed-stop right rows s h = cc
pressed-stop up rows s h = cc
pressed-stop down rows s h = cc
pressed-stop page_up rows s h = cc
pressed-stop page_down rows s h = cc
pressed-stop first rows s h = cc
pressed-stop last rows s h = cc
pressed-stop detail rows s h = cc
pressed-stop column rows s h = cc
pressed-stop pause_key rows s h = cc
pressed-stop start_key rows s h = cc
pressed-stop other rows s h = cc

handled-stop :
    (b : Bool) (keys : CursesKeys) (s : TuiState) (key rows : ℕ)
    → (handled b keys s key rows).1 ≡ some stop
    → (b ≡ false)
      × (press_of keys key ≡ stop_key)
      × (s.confirm_stop ≡ true)
      × ((handled b keys s key rows).0.confirm_stop ≡ false)
handled-stop true keys s key rows h = cc
handled-stop false keys s key rows h =
    let p = pressed-stop (press_of keys key) rows s h in (refl, p.0, p.1, p.2)

-- A key stops the supervisor only outside the help, by the stop key, and where a stop was asked for before;
-- and the confirmation is then used up.
pub handle_key-stop :
    (keys : CursesKeys) (s : TuiState) (key rows : ℕ)
    → (handle_key keys s key rows).1 ≡ some stop
    → (s.show_help ≡ false)
      × (press_of keys key ≡ stop_key)
      × (s.confirm_stop ≡ true)
      × ((handle_key keys s key rows).0.confirm_stop ≡ false)
unfolding handle_key
handle_key-stop keys s key rows h = handled-stop s.show_help keys s key rows h
