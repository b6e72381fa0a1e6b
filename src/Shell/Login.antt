-- ===== src/Shell/Login.antt =====
-- The login screen of src/shell.c, one key at a time.
use kfs.Prelude.{
  ℕ, ◌-◌, Bool, true, false, ◌&&◌, Option, none, some, List, [], ◌∷◌, ◌++◌, ◌==◌, ltb, leb, length,
  take, codes, if◌then◌else◌,
}
use kfs.Vfs.{same_text}
use kfs.Vga.{Vga, vga_clear, vga_putchar, vga_set_color, vga_set_cursor_position}
use kfs.Shell.{
  Shell, on_screen, say, say_in, complain, paint, light_grey, light_cyan, green, white, blue,
}
use kfs.Shell.Users.{User, become, first_user, users}

-- The two buffers as the characters so far, whose number is the position.
pub record LoginScreen : Type 0 where
  pub shell : Shell
  pub username : List ℕ
  pub password : List ℕ
  pub entering_password : Bool

-- The room in a buffer, its end mark left out.
abbrev pub login_limit : ℕ
login_limit = 31

abbrev pub prompt_for : List ℕ → Shell → Shell
prompt_for text = say_in light_cyan text

unfoldable login_start : Shell → LoginScreen
unfolding say say_in
login_start sh =
    let title = on_screen (λ v. vga_set_color (vga_clear v) white blue) sh in
    let ruled = say (codes "============================================\n") title in
    let named = say (codes "            KFS Login Screen                \n") ruled in
    let closed =
      paint light_grey (say (codes "============================================\n") named) in
    let listed =
      say (codes "Available users: root, admin, user, guest\n") (say (codes "\n") closed) in
    let hinted = say (codes "Default password = username\n\n") listed in
    record {
      shell = prompt_for (codes "Username: ") hinted;
      username = [];
      password = [];
      entering_password = false;
    }

-- The last character on the screen is blanked, unless the cursor is in the first column.
unfoldable pub rub_out : Vga → Vga
rub_out v =
    if ltb 0 v.vga_column
    then (let back = vga_set_cursor_position v v.vga_row (v.vga_column - 1) in
        vga_set_cursor_position (vga_putchar back b' ') v.vga_row (v.vga_column - 1))
    else v

abbrev pub is_backspace : ℕ → Bool
is_backspace c = c == 8

abbrev pub is_printable : ℕ → Bool
is_printable c = leb 32 c && leb c 126

-- A text without its last character.
abbrev pub shorter : List ℕ → List ℕ
shorter text = take (length text - 1) text

unfoldable pub rub_text : List ℕ → Shell → Shell
unfolding rub_out
rub_text text sh = if ltb 0 (length text) then on_screen rub_out sh else sh

unfoldable pub username_key : LoginScreen → ℕ → LoginScreen
unfolding rub_text say say_in
username_key st c =
    if c == b'\n'
    then (if ltb 0 (length st.username)
        then record st {
          shell = prompt_for (codes "Password: ") (say (codes "\n") st.shell);
          entering_password = true;
        }
        else record st { shell = prompt_for (codes "Username: ") (say (codes "\n") st.shell) })
    else if is_backspace c
    then record st { shell = rub_text st.username st.shell; username = shorter st.username }
    else if is_printable c && ltb (length st.username) login_limit
    then record st {
      shell = on_screen (λ v. vga_putchar v c) st.shell;
      username = st.username ++ (c ∷ []);
    }
    else st

abbrev pub has_credentials : (username password : List ℕ) → User → Bool
has_credentials username password u = same_text u.username username && same_text u.password password

-- Success leaves the loop with the user's shell, failure starts again.
unfoldable pub check_credentials : LoginScreen → Option User → Shell × Option LoginScreen
unfolding become say_in
check_credentials st (some u) = (
  become u.uid
      (say_in green (codes "Login successful! Welcome " ++ (st.username ++ codes "\n\n")) st.shell),
  none,
)
check_credentials st none =
    let sh =
      prompt_for (codes "Username: ")
        (complain (codes "Login failed! Invalid username or password\n\n") st.shell) in
    (sh, some (record { shell = sh; username = []; password = []; entering_password = false }))

-- An asterisk is shown for a character of the password.
unfoldable pub password_key : LoginScreen → ℕ → LoginScreen
unfolding rub_text
password_key st c =
    if is_backspace c
    then record st { shell = rub_text st.password st.shell; password = shorter st.password }
    else if is_printable c && ltb (length st.password) login_limit
    then record st {
      shell = on_screen (λ v. vga_putchar v b'*') st.shell;
      password = st.password ++ (c ∷ []);
    }
    else st

-- One key that is not 0: the shell, and the login screen unless the login succeeded.
unfoldable pub login_key : LoginScreen → ℕ → Shell × Option LoginScreen
unfolding username_key password_key check_credentials say users
login_key st c =
    if st.entering_password
    then (if c == b'\n'
        then check_credentials (record st { shell = say (codes "\n\n") st.shell })
            (first_user (has_credentials st.username st.password))
        else let st' = password_key st c in (st'.shell, some st'))
    else let st' = username_key st c in (st'.shell, some st')

-- The loop on the keys that `keyboard_getchar` gives: the shell after it with the keys that are left,
-- or the login screen that waits for more.
pub data LoginResult : Type 0 where
  logged_in : Shell → List ℕ → LoginResult
  waiting : LoginScreen → LoginResult

unfoldable pub shell_login : LoginScreen → List ℕ → LoginResult
unfolding login_key
shell_login st [] = waiting st
shell_login st (c ∷ keys) = if c == 0 then shell_login st keys else elim (login_key st c).1 [
  | none ↦ logged_in (login_key st c).0 keys
  | some st' ↦ shell_login st' keys
]
